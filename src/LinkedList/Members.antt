-- ===== src/LinkedList/Members.antt =====
-- How often each data pointer occurs after the operations of core/list.c.
use Prim.Native.Nat.{max}
use client.Base.{
  ◌-◌, ◌<◌, ◌≡◌, refl, true, false, Option, none, some, List, [], ◌∷◌, ◌==◌, if◌then◌else◌, arith,
  count, ltb, Bool-cases, inl, inr,
}
use client.LinkedList.{
  Ptr, find_by_data_prev, is_some, insert_unique, list_delete, list_subtract, list_union,
  list_remove, unlink,
}

-- `find_by_data` finds an item exactly when the data pointer occurs.
pub find_by_data-count :
    (l : List Ptr) (x : Ptr) → is_some (find_by_data_prev l x).1 ≡ true → 0 < count x l
find_by_data-count [] x h = cc
find_by_data-count (y ∷ l) x h = ground (arith, find_by_data-count l x)

pub find_by_data-none :
    (l : List Ptr) (x : Ptr) → is_some (find_by_data_prev l x).1 ≡ false → count x l ≡ 0
find_by_data-none [] x h = refl
find_by_data-none (y ∷ l) x h = ground (arith, find_by_data-none l x)

unlink-cons :
    (y : Ptr) (before : List Ptr) (found : Option (List Ptr)) (l : List Ptr)
    → unlink (y ∷ before) found (y ∷ l) ≡ y ∷ unlink before found l
unfolding unlink
unlink-cons y before none l = refl
unlink-cons y before (some []) l = refl
unlink-cons y before (some (d ∷ after)) l = refl

-- The deletion, item by item.
pub list_delete-cons :
    (y : Ptr) (l : List Ptr) (x : Ptr)
    → list_delete (y ∷ l) x ≡ (if y == x then l else y ∷ list_delete l x)
unfolding list_delete
list_delete-cons y l x = elim (Bool-cases (y == x)) [
  | inl hit ↦ rw hit
  | inr miss ↦ rw miss (unlink-cons y (find_by_data_prev l x).0 (find_by_data_prev l x).1 l)
]

pub count-list_delete :
    (l : List Ptr) (x a : Ptr) → count a (list_delete l x) ≡ count a l - (if a == x then 1 else 0)
count-list_delete [] x a = unfold list_delete in omega arith
count-list_delete (y ∷ l) x a = rw list_delete-cons (ground (arith, count-list_delete l x a))

-- After `list_subtract` every data pointer occurs as often as in `la`, less its occurrences in
-- `lb`, and not at all where that is negative.
pub count-list_subtract :
    (la lb : List Ptr) (a : Ptr) → count a (list_subtract la lb) ≡ count a la - count a lb
unfolding list_subtract
count-list_subtract la [] a = omega arith
count-list_subtract la (b ∷ lb) a =
    omega (arith, count-list_subtract (list_delete la b) lb a, count-list_delete la b a)

pub count-insert_unique :
    (l : List Ptr) (x a : Ptr)
    → count a (insert_unique l x) ≡ (if a == x then max 1 (count a l) else count a l)
unfolding insert_unique
count-insert_unique l x a = ground (arith, find_by_data-count l x, find_by_data-none l x)

-- `list_union` adds one item for each data pointer of `lb` that `la` has not, and no other.
pub count-list_union :
    (la lb : List Ptr) (a : Ptr)
    → count a (list_union la lb)
      ≡ (if ltb 0 (count a la) then count a la else if ltb 0 (count a lb) then 1 else 0)
unfolding list_union
count-list_union la [] a = ground arith
count-list_union la (b ∷ lb) a =
    ground (arith, count-list_union (insert_unique la b) lb a, count-insert_unique la b a)

pub count-list_remove :
    (l : List Ptr) (x a : Ptr) → count a (list_remove l x) ≡ count a l - (if a == x then 1 else 0)
unfolding list_remove
count-list_remove [] x a = omega arith
count-list_remove (y ∷ l) x a = ground (arith, count-list_remove l x a)
