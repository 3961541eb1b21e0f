-- ===== src/Retrieve/Dependencies.antt =====
-- The links of core/retrieve.c: completion and reset follow the dependents and end.
use client.Base.{
  ℕ, ◌<◌, ◌≡◌, refl, sym, ◌∙◌, ap, Bool, true, false, List, [], ◌∷◌, ◌==◌, if◌then◌else◌, arith,
  All, Bool-cases, inl, inr,
}
use client.LinkedList.{Ptr, is_some, find_by_data, list_delete}
use client.LinkedList.Members.{list_delete-cons}
use client.Retrieve.{Stub, Client, set_stub, remove_req, remove_reqs, is_empty}
use client.Retrieve.Update.{drop_old}

All-list_delete : (P : Ptr → Type 0) (l : List Ptr) (x : Ptr) → All P l → All P (list_delete l x)
All-list_delete P [] x h = unfold list_delete in tt
All-list_delete P (y ∷ l) x h = rw list_delete-cons (elim (Bool-cases (y == x)) [
  | inl e ↦ rw e h.1
  | inr e ↦ rw e (h.0, All-list_delete P l x h.1)
])

-- `rank` falls along the links from a resource to its dependents: these have no cycle.
abbrev pub IsRanked : (Ptr → ℕ) → Client → Type 0
IsRanked rank c = (q : Ptr) → All (λ d. rank d < rank q) (c.stub q).deps

-- A resource that is no list is complete only with all its flags cleared.
abbrev pub IsChecked : Client → Type 0
IsChecked c =
    (q : Ptr) → (c.stub q).complete ≡ true → (c.stub q).is_list ≡ false → (c.stub q).flags ≡ 0

-- `e` is on the list of the dependents of `q`.
abbrev pub is_linked : Client → Ptr → Ptr → Bool
is_linked c q e = is_some (find_by_data (c.stub q).deps e)

-- A resource that is no list and lacks nothing is complete.
abbrev pub IsSettled : Client → Ptr → Type 0
IsSettled c q = (c.stub q).is_list ≡ false → (c.stub q).flags ≡ 0 → (c.stub q).complete ≡ true

found-delete :
    (l : List Ptr) (x e : Ptr)
    → is_some (find_by_data (list_delete l x) e) ≡ true
    → is_some (find_by_data l e) ≡ true
unfolding find_by_data
found-delete [] x e h = unfold list_delete in h
found-delete (y ∷ l) x e h = ground (arith, list_delete-cons y l x, found-delete l x e)

module _ (rank : Ptr → ℕ) where
  -- What a change of the requirement lists and the links keeps.
  pub record Frame (c d : Client) : Type 0 where
    pub complete : (q : Ptr) → (d.stub q).complete ≡ (c.stub q).complete
    pub flags : (q : Ptr) → (d.stub q).flags ≡ (c.stub q).flags
    pub is_list : (q : Ptr) → (d.stub q).is_list ≡ (c.stub q).is_list
    pub ranked : IsRanked rank c → IsRanked rank d
    pub linked : (q e : Ptr) → is_linked d q e ≡ true → is_linked c q e ≡ true

  pub Frame-refl : (c : Client) → Frame c c
  Frame-refl c = record {
    complete = λ q. refl;
    flags = λ q. refl;
    is_list = λ q. refl;
    ranked = λ h. h;
    linked = λ q e h. h;
  }

  pub Frame-trans : {c d e : Client} → Frame c d → Frame d e → Frame c e
  Frame-trans a b = record {
    complete = λ q. b.complete q ∙ a.complete q;
    flags = λ q. b.flags q ∙ a.flags q;
    is_list = λ q. b.is_list q ∙ a.is_list q;
    ranked = λ h. b.ranked (a.ranked h);
    linked = λ q e h. a.linked q e (b.linked q e h);
  }

  removed-deps :
      (s r q : Ptr) (c : Client)
      → ((remove_req s r c).stub q).deps
        ≡ (if q == r then list_delete (c.stub r).deps s else (c.stub q).deps)
  unfolding remove_req
  removed-deps s r q c = ground arith

  remove_req-Frame : (s r : Ptr) (c : Client) → Frame c (remove_req s r c)
  unfolding remove_req
  remove_req-Frame s r c = record {
    complete = λ q. ground arith;
    flags = λ q. ground arith;
    is_list = λ q. ground arith;
    ranked = λ h q. rw (removed-deps s r q c) (fewer h q);
    linked =
        λ q e h. kept q e (sym (ap (λ l. is_some (find_by_data l e)) (removed-deps s r q c)) ∙ h);
  }
    where
      fewer :
          IsRanked rank c
          → (q : Ptr)
          → All
              (λ d. rank d < rank q)
              (if q == r then list_delete (c.stub r).deps s else (c.stub q).deps)
      fewer h q = elim (Bool-cases (q == r)) [
        | inl e ↦
            let same : q ≡ r = ground arith in
            rw e (rw same (All-list_delete (λ d. rank d < rank r) (c.stub r).deps s (h r)))
        | inr e ↦ rw e (h q)
      ]

      kept :
          (q e : Ptr)
          → is_some
              (find_by_data (if q == r then list_delete (c.stub r).deps s else (c.stub q).deps) e)
            ≡ true
          → is_linked c q e ≡ true
      kept q e h = ground (arith, found-delete (c.stub r).deps s e)

  remove_reqs-Frame : (s : Ptr) (l : List Ptr) (c : Client) → Frame c (remove_reqs s l c)
  unfolding remove_reqs
  remove_reqs-Frame s [] c = Frame-refl c
  remove_reqs-Frame s (r ∷ l) c =
      Frame-trans (remove_req-Frame s r c) (remove_reqs-Frame s l (remove_req s r c))

  -- A change of one stub that leaves what a frame speaks of.
  set_stub-Frame :
      (p : Ptr) (x : Stub) (c : Client)
      → x.complete ≡ (c.stub p).complete
      → x.flags ≡ (c.stub p).flags
      → x.is_list ≡ (c.stub p).is_list
      → x.deps ≡ (c.stub p).deps
      → Frame c (set_stub p x c)
  set_stub-Frame p x c a b d e = record {
    complete = λ q. ground (arith, a);
    flags = λ q. ground (arith, b);
    is_list = λ q. ground (arith, d);
    ranked = λ h q. rw (same_deps q) (h q);
    linked = λ q f h. sym (ap (λ l. is_some (find_by_data l f)) (same_deps q)) ∙ h;
  }
    where
      same_deps : (q : Ptr) → (if q == p then x else c.stub q).deps ≡ (c.stub q).deps
      same_deps q = ground (arith, e)

  pub drop_old-Frame : (d : Ptr) (c : Client) → Frame c (drop_old d c)
  unfolding drop_old
  drop_old-Frame d c = elim (Bool-cases (is_empty (c.stub d).list)) [
    | inl e ↦ rw e (Frame-refl c)
    | inr e ↦
        rw e (Frame-trans (remove_reqs-Frame d _ c) (set_stub-Frame d _ _ refl refl refl refl))
  ]
