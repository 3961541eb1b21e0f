-- ===== src/Retrieve/Removal.antt =====
-- `remove_stub` of core/retrieve.c and the database of core/resource.c.
use client.Base.{
  ◌++◌, ℕ, ◌≡◌, ◌≢◌, refl, ◌∙◌, ap, false, Option, none, some, List, [], ◌∷◌, ◌==◌, arith, ==_self,
  Bool-cases, inl, inr,
}
use client.LinkedList
use client.LinkedList.{Ptr, list_delete}
use client.Retrieve.{
  Client, Status, updating, http, set_stub, is_empty, remove_req, remove_reqs, remove_from,
  remove_deps, delete_reqs, unlink_stub, forget_stub, remove_stub,
}

-- The database of the names.
abbrev Same : Client → Client → Type 0
Same c d = d.resources ≡ c.resources

remove_req-resources : (s r : Ptr) (c : Client) → Same c (remove_req s r c)
unfolding remove_req
remove_req-resources s r c = elim (Bool-cases (is_empty (list_delete (c.stub r).deps s))) [
  | inl e ↦ rw e refl
  | inr e ↦ rw e refl
]

remove_reqs-resources : (s : Ptr) (l : List Ptr) (c : Client) → Same c (remove_reqs s l c)
unfolding remove_reqs
remove_reqs-resources s [] c = refl
remove_reqs-resources s (r ∷ l) c =
    remove_reqs-resources s l (remove_req s r c) ∙ remove_req-resources s r c

remove_from-resources : (s t : Ptr) (c : Client) → Same c (remove_from s t c)
unfolding remove_from
remove_from-resources s t c = by_status (c.stub t).status
  where
    by_status :
        (x : Status)
        → (elim x as (λ _. Client) [
          | updating ↦ set_stub t (record (c.stub t) { list = list_delete (c.stub t).list s }) c
          | http _ ↦ set_stub t (record (c.stub t) { reqs = list_delete (c.stub t).reqs s }) c
        ]).resources
          ≡ c.resources
    by_status updating = refl
    by_status (http _) = refl

remove_deps-resources : (s : Ptr) (l : List Ptr) (c : Client) → Same c (remove_deps s l c)
unfolding remove_deps
remove_deps-resources s [] c = refl
remove_deps-resources s (t ∷ l) c =
    remove_deps-resources s l (remove_from s t c) ∙ remove_from-resources s t c

delete_reqs-resources : (s : Ptr) (c : Client) → Same c (delete_reqs s c)
unfolding delete_reqs
delete_reqs-resources s c =
    remove_reqs-resources s _ (remove_reqs s (c.stub s).reqs c)
    ∙ remove_reqs-resources s (c.stub s).reqs c

unlink_stub-resources : (s : Ptr) (c : Client) → Same c (unlink_stub s c)
unfolding unlink_stub
unlink_stub-resources s c = remove_deps-resources s _ _ ∙ by_moved (c.stub s).moved
  where
    by_moved :
        (m : Option Ptr)
        → (elim m as (λ _. Client) [ some t ↦ remove_req s t c | none ↦ delete_reqs s c ]).resources
          ≡ c.resources
    by_moved none = delete_reqs-resources s c
    by_moved (some t) = remove_req-resources s t c

forgets :
    (name_at : Ptr → ℕ) (name s : ℕ) (c : Client)
    → name_at s ≢ name
    → (forget_stub name_at name (s ∷ []) [] c).resources name ≡ c.resources name
unfolding forget_stub
forgets name_at name s c other =
    let miss : (name == name_at s) ≡ false = ground (arith, other) in rw miss refl

removed : (s : Ptr) → LinkedList.list_remove (s ∷ []) s ≡ []
unfolding LinkedList.list_remove
removed s = rw (==_self s)

-- Where the database holds one stub of a name, and the bytes of the stub do not happen to spell
-- that name, `remove_stub` leaves the stub in the database under the name, and frees it last.
pub remove_stub-resources :
    (name_at : Ptr → ℕ) (s : Ptr) (c : Client)
    → c.resources (c.stub s).name ≡ s ∷ []
    → name_at s ≢ (c.stub s).name
    → ((remove_stub name_at s c).resources (c.stub s).name ≡ s ∷ [])
      × (l : List Ptr) × ((remove_stub name_at s c).freed ≡ l ++ s ∷ [])
unfolding remove_stub
remove_stub-resources name_at s c only other =
    let name = (c.stub s).name in
    let left = ap (λ l. LinkedList.list_remove l s) only ∙ removed s in
    (
      ap (λ f. f name) (unlink_stub-resources s _)
          ∙ ap
              (λ l.
                (forget_stub name_at name l (LinkedList.list_remove (c.resources name) s)
                    c).resources
                  name)
              only
          ∙ ap (λ l. (forget_stub name_at name (s ∷ []) l c).resources name) left
          ∙ forgets name_at name s c other
          ∙ only,
      _,
      refl,
    )
