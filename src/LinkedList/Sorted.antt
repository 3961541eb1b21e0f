-- ===== src/LinkedList/Sorted.antt =====
-- `insert_sorted` of core/list.c keeps a sorted list sorted, and adds the item once.
use Prim.Native.Nat.{Ordering}
use client.Base.{
  ◌+◌, ◌≡◌, ◌≢◌, refl, true, false, List, [], ◌∷◌, ◌==◌, if◌then◌else◌, arith, count, All, All-mono,
  Bool-cases, inl, inr,
}
use client.LinkedList.{Ptr, Comparison, is_gt, insert_sorted}
use client.LinkedList.Order.{IsComparison, IsSorted}

pub count-insert_sorted :
    (l : List Ptr) (n a : Ptr) (compare : Comparison)
    → count a (insert_sorted l n compare) ≡ (if a == n then 1 else 0) + count a l
unfolding insert_sorted
count-insert_sorted [] n a compare = refl
count-insert_sorted (x ∷ l) n a compare = ground (arith, count-insert_sorted l n a compare)

pub is_gt→gt : (o : Ordering) → is_gt o ≡ true → o ≡ Ordering.gt
is_gt→gt o h = ground arith

pub not_gt : (o : Ordering) → is_gt o ≡ false → o ≢ Ordering.gt
not_gt o h = ground arith

pub ne_gt_of_lt : (o : Ordering) → o ≡ Ordering.lt → o ≢ Ordering.gt
ne_gt_of_lt o h = ground arith

pub All-insert_sorted :
    (P : Ptr → Type 0) (l : List Ptr) (n : Ptr) (compare : Comparison)
    → P n
    → All P l
    → All P (insert_sorted l n compare)
unfolding insert_sorted
All-insert_sorted P [] n compare p h = (p, tt)
All-insert_sorted P (x ∷ l) n compare p h = elim (Bool-cases (is_gt (compare n x))) [
  | inl e ↦ rw e (h.0, All-insert_sorted P l n compare p h.1)
  | inr e ↦ rw e (p, h)
]

module _ {compare : Comparison} (laws : IsComparison compare) where
  -- A list sorted by a total order is sorted after `insert_sorted`.
  pub insert_sorted-IsSorted :
      (l : List Ptr) (n : Ptr) → IsSorted compare l → IsSorted compare (insert_sorted l n compare)
  unfolding insert_sorted
  insert_sorted-IsSorted [] n h = (tt, tt)
  insert_sorted-IsSorted (x ∷ l) n h = elim (Bool-cases (is_gt (compare n x))) [
    | inl e ↦
        let below = ne_gt_of_lt _ (laws.less_of_greater n x (is_gt→gt _ e)) in
        rw e (All-insert_sorted _ l n compare below h.0, insert_sorted-IsSorted l n h.1)
    | inr e ↦
        let first = not_gt _ e in
        rw e ((first, All-mono l (λ y p. laws.le_trans n x y first p) h.0), h)
  ]
