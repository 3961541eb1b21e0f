-- ===== src/LinkedList/Tests.antt =====
-- Runs of core/list.c and core/list_util.c.
use Prim.Native.Nat.{compare}
use client.Base.{◌≡◌, refl, List, [], ◌∷◌, arith, count}
use client.LinkedList.{
  Ptr, Comparison, list_subtract, list_intersect, list_dup, quick_sort, list_cat, partition,
  list_delete, find_by_data,
}
use client.LinkedList.Order.{IsComparison, IsSorted}
use client.LinkedList.QuickSort.{quick_sort-IsSorted}

-- A comparison of addresses.
abbrev by_address : Comparison
by_address a b = compare a b

by_address-IsComparison : IsComparison by_address
by_address-IsComparison = record {
  less_of_greater = λ a b h. ground arith;
  greater_of_less = λ a b h. ground arith;
  le_trans = λ a b c h k g. ground arith;
}

abbrev some_items : List Ptr
some_items = 30 ∷ 10 ∷ 40 ∷ 20 ∷ 10 ∷ []

sorted_items : quick_sort some_items by_address ≡ 10 ∷ 10 ∷ 20 ∷ 30 ∷ 40 ∷ []
unfolding quick_sort list_cat partition
sorted_items = refl

quick_sort-IsSorted_example :
    IsSorted by_address (quick_sort some_items by_address)
    × ((a : Ptr) → count a (quick_sort some_items by_address) ≡ count a some_items)
quick_sort-IsSorted_example = quick_sort-IsSorted by_address-IsComparison some_items

ten_twenty-IsSorted : IsSorted by_address (10 ∷ 20 ∷ [])
ten_twenty-IsSorted = ((λ h. ground arith, tt), (tt, tt))

subtracted : list_subtract some_items (10 ∷ 40 ∷ 50 ∷ []) ≡ 30 ∷ 20 ∷ 10 ∷ []
unfolding list_subtract list_delete
subtracted = refl

-- The copy of five items has two.
duplicated : list_dup some_items ≡ 30 ∷ 10 ∷ []
unfolding list_dup
duplicated = refl

-- The first item is in both lists, and lost.
intersected : list_intersect some_items (30 ∷ 20 ∷ 10 ∷ []) ≡ 20 ∷ 10 ∷ []
unfolding list_intersect find_by_data
intersected = refl
