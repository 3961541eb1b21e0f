-- ===== src/Retrieve/Update.antt =====
-- core/retrieve.c: resources that are complete, and that are updated, with what depends on them.
use Prim.Native.Nat.{Ordering}
use client.Base.{
  ℕ, zero, suc, bit_or, Bool, true, false, not, Option, none, some, List, [], ◌∷◌, ◌++◌, ◌&&◌, ◌==◌,
  length, if◌then◌else◌,
}
use client.LinkedList.{Ptr, insert_unique, list_delete, list_subtract, is_some, find_by_data}
use client.LinkedList
use client.Retrieve.{
  Status, Stub, Client, set_stub, clear_flag, get_seq, is_empty, remove_reqs, updating, http,
}

-- The loop of `dep_reset` over the dependents, with the recursive call as an argument.
unfoldable pub reset_deps : (Ptr → Client → Option Client) → Ptr → List Ptr → Client → Option Client
reset_deps reset s [] c = some c
reset_deps reset s (d ∷ l) c =
    let x = c.stub d in
    let y =
      if x.is_list
      then record x { reqs = list_delete x.reqs s }
      else record x { flags = bit_or x.flags (c.stub s).flag } in
    elim (reset d (set_stub d y c)) [ none ↦ none | some c' ↦ reset_deps reset s l c' ]

-- The recursion follows the dependents upwards; none where the fuel, which stands for the stack,
-- runs out.
unfoldable pub dep_reset : ℕ → Ptr → Client → Option Client
dep_reset zero s c = none
dep_reset (suc fuel) s c =
    reset_deps (dep_reset fuel) s (c.stub s).deps
      (set_stub s (record (c.stub s) { complete = false }) c)

-- `complete`, of a round of the loop of `dep_complete`.
abbrev pub is_met : Stub → Bool
is_met x = if x.is_list then length x.reqs == x.all else x.flags == 0

-- What an update has left behind is dropped.
unfoldable pub drop_old : Ptr → Client → Client
drop_old d c =
    let x = c.stub d in
    if is_empty x.list
    then c
    else let c1 = remove_reqs d (list_subtract x.list x.reqs) c in
      set_stub d (record (c1.stub d) { list = [] }) c1

-- The completion routine is called where the resource was not complete.
unfoldable pub mark_complete : Ptr → Client → Client
mark_complete s c =
    let x = c.stub s in
    let c1 =
      if x.completion && not x.complete
      then record c { completed = c.completed ++ s ∷ [] }
      else c in
    set_stub s (record x { complete = true }) c1

-- The order of the keys of the items of a list, by the type of the list.
module _ (compare_keys : Option ℕ → Option Ptr → Option Ptr → Ordering) where
  -- The place of a stub in a list that is sorted by the keys of the resources.
  unfoldable pub place_stub : Option ℕ → List Ptr → Ptr → Client → List Ptr
  place_stub kind [] s c = s ∷ []
  place_stub kind (r ∷ l) s c =
      if LinkedList.is_lt (compare_keys kind (c.stub s).content (c.stub r).content)
      then s ∷ r ∷ l
      else r ∷ place_stub kind l s c

  unfoldable pub insert_stub : Option ℕ → List Ptr → Ptr → Client → List Ptr
  insert_stub kind list s c =
      if is_some (find_by_data list s) then list else place_stub kind list s c

  -- One round of the loop of `dep_complete`, up to its test: the dependent with `s` among its
  -- requirements.
  unfoldable pub meet_req : Ptr → Ptr → Client → Client
  meet_req s d c =
      let x = c.stub d in
      set_stub d
        (if x.is_list then record x { reqs = insert_stub x.kind x.reqs s c } else record x {
          reqs = insert_unique x.reqs s;
          flags = clear_flag x.flags (c.stub s).flag;
        })
        c

  unfoldable pub complete_round :
      (Ptr → Client → Option Client) → Ptr → Ptr → Client → Option Client
  complete_round complete s d c =
      let c1 = meet_req s d c in
      elim (is_met (c1.stub d)) [ true ↦ complete d (drop_old d c1) | false ↦ some c1 ]

  -- The loop over the dependents, with the recursive call as an argument. It follows the links,
  -- from which an earlier round may have taken one of the dependents.
  unfoldable pub complete_deps :
      (Ptr → Client → Option Client) → Ptr → List Ptr → Client → Option Client
  complete_deps complete s [] c = some c
  complete_deps complete s (d ∷ l) c =
      let c2 : Option Client = elim (is_some (find_by_data (c.stub s).deps d)) [
        | true ↦ complete_round complete s d c
        | false ↦ some c
      ] in
      elim c2 [ none ↦ none | some c3 ↦ complete_deps complete s l c3 ]

  -- None where the fuel, which stands for the stack, runs out.
  unfoldable pub dep_complete : ℕ → Ptr → Client → Option Client
  dep_complete zero s c = none
  dep_complete (suc fuel) s c =
      let c1 = mark_complete s c in complete_deps (dep_complete fuel) s (c1.stub s).deps c1

-- An update of a resource: its requirements are those of before until they are met again.
abbrev pub is_updating : Status → Bool
is_updating updating = true
is_updating (http _) = false

abbrev pub is_new : Status → Bool
is_new updating = false
is_new (http n) = n == 0

unfoldable pub update_resource : ℕ → Ptr → Client → Option Client
update_resource fuel s c =
    let x = c.stub s in
    if is_updating x.status
    then some c
    else let c1 =
        set_stub s
          (record x { offset = if x.all == 0 then x.offset else 0; list = x.reqs; reqs = [] }) c in
      let c2 : Option Client = elim (not (is_new x.status) && not x.is_event) [
        | true ↦ dep_reset fuel s c1
        | false ↦ some (set_stub s (record (c1.stub s) { complete = false }) c1)
      ] in
      elim c2 [
        | none ↦ none
        | some c3 ↦
            some (
              get_seq s 0 (c3.stub s).all
                (set_stub s (record (c3.stub s) { status = updating }) c3))
      ]
