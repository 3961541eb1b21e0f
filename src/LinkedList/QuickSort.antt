-- ===== src/LinkedList/QuickSort.antt =====
-- `quick_sort` of core/list_util.c sorts, and keeps every item.
use Prim.Native.Nat.{Ordering}
use client.Base.{
  ℕ, zero, suc, ◌+◌, ◌≤◌, ◌≡◌, ◌≢◌, refl, true, false, List, [], ◌∷◌, ◌++◌, arith, count,
  count-append, length, All, All-append, All-mono, Bool-cases, inl, inr,
}
use client.LinkedList.{
  Ptr, Comparison, is_lt, partition_loop, partition, quick_sort_fuel, quick_sort,
}
use client.LinkedList.Order.{IsComparison, IsSorted}
use client.LinkedList.Sorted.{ne_gt_of_lt}
use client.LinkedList.Copies.{list_cat-append}

module _ (compare : Comparison) where
  partition_loop-nil : (x : Ptr) (ls rs : List Ptr) → partition_loop compare x ls rs [] ≡ (ls, rs)
  unfolding partition_loop
  partition_loop-nil x ls rs = refl

  partition_loop-below :
      (x y : Ptr) (ls rs l : List Ptr)
      → is_lt (compare x y) ≡ true
      → partition_loop compare x ls rs (y ∷ l) ≡ partition_loop compare x ls (y ∷ rs) l
  unfolding partition_loop
  partition_loop-below x y ls rs l e = rw (e, partition_loop)

  partition_loop-above :
      (x y : Ptr) (ls rs l : List Ptr)
      → is_lt (compare x y) ≡ false
      → partition_loop compare x ls rs (y ∷ l) ≡ partition_loop compare x (y ∷ ls) rs l
  unfolding partition_loop
  partition_loop-above x y ls rs l e = rw (e, partition_loop)

  count-partition_loop :
      (x a : Ptr) (ls rs l : List Ptr)
      → count a (partition_loop compare x ls rs l).0 + count a (partition_loop compare x ls rs l).1
        ≡ count a ls + count a rs + count a l
  count-partition_loop x a ls rs [] = rw (partition_loop-nil x ls rs) (omega arith)
  count-partition_loop x a ls rs (y ∷ l) = elim (Bool-cases (is_lt (compare x y))) [
    | inl e ↦
        rw (partition_loop-below x y ls rs l e)
          (omega (arith, count-partition_loop x a ls (y ∷ rs) l))
    | inr e ↦
        rw (partition_loop-above x y ls rs l e)
          (omega (arith, count-partition_loop x a (y ∷ ls) rs l))
  ]

  length-partition_loop :
      (x : Ptr) (ls rs l : List Ptr)
      → length (partition_loop compare x ls rs l).0 + length (partition_loop compare x ls rs l).1
        ≡ length ls + length rs + length l
  length-partition_loop x ls rs [] = rw (partition_loop-nil x ls rs) (omega arith)
  length-partition_loop x ls rs (y ∷ l) = elim (Bool-cases (is_lt (compare x y))) [
    | inl e ↦
        rw (partition_loop-below x y ls rs l e)
          (omega (arith, length-partition_loop x ls (y ∷ rs) l))
    | inr e ↦
        rw (partition_loop-above x y ls rs l e)
          (omega (arith, length-partition_loop x (y ∷ ls) rs l))
  ]

  All-partition_loop :
      (P : Ptr → Type 0) (x : Ptr) (ls rs l : List Ptr)
      → All P ls
      → All P rs
      → All P l
      → All P (partition_loop compare x ls rs l).0 × All P (partition_loop compare x ls rs l).1
  All-partition_loop P x ls rs [] ha hb h = rw (partition_loop-nil x ls rs) (ha, hb)
  All-partition_loop P x ls rs (y ∷ l) ha hb h = elim (Bool-cases (is_lt (compare x y))) [
    | inl e ↦
        rw (partition_loop-below x y ls rs l e)
          (All-partition_loop P x ls (y ∷ rs) l ha (h.0, hb) h.1)
    | inr e ↦
        rw (partition_loop-above x y ls rs l e)
          (All-partition_loop P x (y ∷ ls) rs l (h.0, ha) hb h.1)
  ]

  -- What the pivot's test says of the two parts.
  partition_loop-sides :
      (x : Ptr) (ls rs l : List Ptr)
      → All (λ y. is_lt (compare x y) ≡ false) ls
      → All (λ y. is_lt (compare x y) ≡ true) rs
      → All (λ y. is_lt (compare x y) ≡ false) (partition_loop compare x ls rs l).0
        × All (λ y. is_lt (compare x y) ≡ true) (partition_loop compare x ls rs l).1
  partition_loop-sides x ls rs [] ha hb = rw (partition_loop-nil x ls rs) (ha, hb)
  partition_loop-sides x ls rs (y ∷ l) ha hb = elim (Bool-cases (is_lt (compare x y))) [
    | inl e ↦
        rw (partition_loop-below x y ls rs l e) (partition_loop-sides x ls (y ∷ rs) l ha (e, hb))
    | inr e ↦
        rw (partition_loop-above x y ls rs l e) (partition_loop-sides x (y ∷ ls) rs l (e, ha) hb)
  ]

  count-quick_sort_fuel :
      (fuel : ℕ) (l : List Ptr) (a : Ptr) → count a (quick_sort_fuel fuel compare l) ≡ count a l
  unfolding quick_sort_fuel partition
  count-quick_sort_fuel zero l a = refl
  count-quick_sort_fuel (suc fuel) [] a = refl
  count-quick_sort_fuel (suc fuel) (x ∷ []) a = refl
  count-quick_sort_fuel (suc fuel) (x ∷ y ∷ l) a =
      let p = partition_loop compare x [] [] (y ∷ l) in
      rw list_cat-append (
        rw count-append (
          omega (
            arith,
            count-quick_sort_fuel fuel p.0 a,
            count-quick_sort_fuel fuel p.1 a,
            count-partition_loop x a [] [] (y ∷ l),
          )))

  All-quick_sort_fuel :
      (P : Ptr → Type 0) (fuel : ℕ) (l : List Ptr)
      → All P l
      → All P (quick_sort_fuel fuel compare l)
  unfolding quick_sort_fuel partition
  All-quick_sort_fuel P zero l h = h
  All-quick_sort_fuel P (suc fuel) [] h = h
  All-quick_sort_fuel P (suc fuel) (x ∷ []) h = h
  All-quick_sort_fuel P (suc fuel) (x ∷ y ∷ l) h =
      let parts = All-partition_loop P x [] [] (y ∷ l) tt tt h.1 in
      rw list_cat-append (
        All-append P _ _ (All-quick_sort_fuel P fuel _ parts.0)
          (h.0, All-quick_sort_fuel P fuel _ parts.1))

module _ {compare : Comparison} (laws : IsComparison compare) where
  IsSorted-append :
      (x : Ptr) (ls rs : List Ptr)
      → IsSorted compare ls
      → IsSorted compare rs
      → All (λ a. compare a x ≢ Ordering.gt) ls
      → All (λ b. compare x b ≢ Ordering.gt) rs
      → IsSorted compare (ls ++ x ∷ rs)
  IsSorted-append x [] rs sa sb la lb = (lb, sb)
  IsSorted-append x (a ∷ ls) rs sa sb la lb = (
    All-append (λ b. compare a b ≢ Ordering.gt) ls (x ∷ rs) sa.0
        (la.0, All-mono rs (λ b p. laws.le_trans a x b la.0 p) lb),
    IsSorted-append x ls rs sa.1 sb la.1 lb,
  )

  quick_sort_fuel-IsSorted :
      (fuel : ℕ) (l : List Ptr)
      → length l ≤ fuel
      → IsSorted compare (quick_sort_fuel fuel compare l)
  unfolding quick_sort_fuel partition
  quick_sort_fuel-IsSorted zero [] h = tt
  quick_sort_fuel-IsSorted zero (x ∷ l) h = absurd (omega arith)
  quick_sort_fuel-IsSorted (suc fuel) [] h = tt
  quick_sort_fuel-IsSorted (suc fuel) (x ∷ []) h = (tt, tt)
  quick_sort_fuel-IsSorted (suc fuel) (x ∷ y ∷ l) h =
      let p = partition_loop compare x [] [] (y ∷ l) in
      let sides = partition_loop-sides compare x [] [] (y ∷ l) tt tt in
      let small = length-partition_loop compare x [] [] (y ∷ l) in
      rw list_cat-append (
        IsSorted-append x _ _ (quick_sort_fuel-IsSorted fuel p.0 (omega (arith, small)))
          (quick_sort_fuel-IsSorted fuel p.1 (omega (arith, small)))
          (All-quick_sort_fuel compare _ fuel p.0 (All-mono p.0 (λ a e. not_less a x e) sides.0))
          (All-quick_sort_fuel compare _ fuel p.1
            (All-mono p.1 (λ b e. ne_gt_of_lt _ (is_lt→lt _ e)) sides.1)))
    where
      is_lt→lt : (o : Ordering) → is_lt o ≡ true → o ≡ Ordering.lt
      is_lt→lt o e = ground arith

      not_less : (a b : Ptr) → is_lt (compare b a) ≡ false → compare a b ≢ Ordering.gt
      not_less a b e g = ground (arith, laws.less_of_greater a b g)

  -- `quick_sort` returns a sorted list with the items of its argument, each as often.
  pub quick_sort-IsSorted :
      (l : List Ptr)
      → IsSorted compare (quick_sort l compare)
        × ((a : Ptr) → count a (quick_sort l compare) ≡ count a l)
  unfolding quick_sort
  quick_sort-IsSorted l = (
    quick_sort_fuel-IsSorted (length l) l (omega arith),
    λ a. count-quick_sort_fuel compare (length l) l a,
  )
