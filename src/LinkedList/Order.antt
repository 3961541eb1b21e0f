-- ===== src/LinkedList/Order.antt =====
-- What the sorting functions of core/list.c and core/list_util.c need of a comparison function.
use Prim.Native.Nat.{Ordering}
use client.Base.{◌≡◌, ◌≢◌, List, [], ◌∷◌, All}
use client.LinkedList.{Ptr, Comparison}

-- A comparison by a total order: what is greater one way is less the other way round.
pub record IsComparison (compare : Comparison) : Type 0 where
  pub less_of_greater : (a b : Ptr) → compare a b ≡ Ordering.gt → compare b a ≡ Ordering.lt
  pub greater_of_less : (a b : Ptr) → compare a b ≡ Ordering.lt → compare b a ≡ Ordering.gt
  pub le_trans :
      (a b c : Ptr)
      → compare a b ≢ Ordering.gt
      → compare b c ≢ Ordering.gt
      → compare a c ≢ Ordering.gt

-- No item is greater than a later one.
abbrev pub IsSorted : Comparison → List Ptr → Type 0
IsSorted compare [] = Unit {0}
IsSorted compare (x ∷ xs) = All (λ y. compare x y ≢ Ordering.gt) xs × IsSorted compare xs
