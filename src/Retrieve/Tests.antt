-- ===== src/Retrieve/Tests.antt =====
-- Runs of core/retrieve.c.
use Prim.Native.Nat.{Ordering}
use client.Base.{
  List, ◌++◌, ℕ, ◌<◌, ◌≡◌, ◌≢◌, refl, false, Option, none, [], ◌∷◌, ◌==◌, if◌then◌else◌, arith,
  Bool-cases, inl, inr,
}
use client.LinkedList.{Ptr}
use client.Retrieve.{Stub, Client, remove_stub, new_stub}
use client.Retrieve.Update.{dep_complete, dep_reset}
use client.Retrieve.Dependencies.{IsRanked}
use client.Retrieve.Completion.{Completes, dep_complete-Completes}
use client.Retrieve.Reset.{Resets, dep_reset-Resets}
use client.Retrieve.Removal.{remove_stub-resources}

-- The resource 2 is a requirement of the resource 1, with the flag 4, and nothing else is missing.
abbrev stub_at : Ptr → Stub
stub_at q =
    if q == 2
    then record (new_stub 20 none 0 false false) { deps = 1 ∷ []; flag = 4 }
    else record (new_stub 10 none 0 false false) { flags = 4; complete = false }

abbrev some_client : Client
some_client = record {
  stub = stub_at;
  resources = λ n. if n == 20 then 2 ∷ [] else if n == 10 then 1 ∷ [] else [];
  events = record { cur_event = []; im_event = []; timer = 0 };
  requests = [];
  completed = [];
  freed = [];
  fresh = 3;
}

abbrev rank : Ptr → ℕ
rank q = if q == 2 then 1 else 0

some_client-IsRanked : IsRanked rank some_client
some_client-IsRanked q = elim (Bool-cases (q == 2)) [
  | inl e ↦ let low : rank 1 < 1 = omega arith in rw e (low, tt)
  | inr e ↦ rw e tt
]

abbrev as_equal : Option ℕ → Option Ptr → Option Ptr → Ordering
as_equal kind a b = Ordering.eq

dep_complete-Completes_example :
    Completes rank 2 some_client (dep_complete as_equal 2 2 some_client)
dep_complete-Completes_example =
    dep_complete-Completes rank as_equal 2 2 some_client (omega arith) some_client-IsRanked
      (λ _. refl)

dep_reset-Resets_example : Resets 2 some_client (dep_reset 2 2 some_client)
dep_reset-Resets_example = dep_reset-Resets rank 2 2 some_client (omega arith) some_client-IsRanked

abbrev other_name : Ptr → ℕ
other_name s = 99

others : other_name 2 ≢ 20
others = omega arith

remove_stub-resources_example :
    ((remove_stub other_name 2 some_client).resources 20 ≡ 2 ∷ [])
    × (l : List ℕ) × ((remove_stub other_name 2 some_client).freed ≡ l ++ 2 ∷ [])
remove_stub-resources_example = remove_stub-resources other_name 2 some_client refl others
