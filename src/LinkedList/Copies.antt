-- ===== src/LinkedList/Copies.antt =====
-- `list_cat`, `list_reverse`, `list_dup` and `list_intersect` against plain descriptions.
use mathlib.Core.List
use client.Base.{
  ◌≡◌, refl, ap, Bool, true, false, List, [], ◌∷◌, ◌++◌, arith, if◌then◌else◌, Bool-cases, inl, inr,
}
use client.LinkedList.{
  Ptr, is_some, find_by_data, list_intersect_loop, list_intersect, list_dup_loop, list_dup,
  list_cat, reverse_loop, list_reverse,
}

pub list_cat-append : (la lb : List Ptr) → list_cat la lb ≡ la ++ lb
unfolding list_cat
list_cat-append [] lb = refl
list_cat-append (x ∷ la) lb = ap (◌∷◌ x) (list_cat-append la lb)

reverse_loop-reverse_aux : (rev l : List Ptr) → reverse_loop rev l ≡ List.reverse_aux l rev
unfolding reverse_loop
reverse_loop-reverse_aux rev [] = refl
reverse_loop-reverse_aux rev (x ∷ l) = reverse_loop-reverse_aux (x ∷ rev) l

pub list_reverse-reverse : (l : List Ptr) → list_reverse l ≡ List.reverse l
unfolding list_reverse
list_reverse-reverse l = reverse_loop-reverse_aux [] l

-- The first and the last item; a list of at most two items is its own ends.
abbrev pub last_or : Ptr → List Ptr → Ptr
last_or x [] = x
last_or x (y ∷ l) = last_or y l

abbrev pub ends : List Ptr → List Ptr
ends [] = []
ends (x ∷ []) = x ∷ []
ends (x ∷ y ∷ l) = x ∷ last_or y l ∷ []

dup_loop-last : (h x : Ptr) (l : List Ptr) → list_dup_loop (h ∷ x ∷ []) l ≡ h ∷ last_or x l ∷ []
unfolding list_dup_loop
dup_loop-last h x [] = refl
dup_loop-last h x (y ∷ l) = dup_loop-last h y l

-- `list_dup` copies the first and the last item only.
pub list_dup-ends : (l : List Ptr) → list_dup l ≡ ends l
unfolding list_dup
list_dup-ends [] = refl
list_dup-ends (x ∷ []) = refl
list_dup-ends (x ∷ y ∷ l) = dup_loop-last x y l

abbrev pub all_in : List Ptr → List Ptr → Bool
all_in [] lb = true
all_in (x ∷ l) lb = if is_some (find_by_data lb x) then all_in l lb else false

-- The longest part at the end of `la` that lies within `lb`.
abbrev pub common_suffix : List Ptr → List Ptr → List Ptr
common_suffix [] lb = []
common_suffix (x ∷ l) lb =
    if all_in l lb then (if is_some (find_by_data lb x) then x ∷ l else l) else common_suffix l lb

intersect_loop-common_suffix :
    (head l lb : List Ptr)
    → list_intersect_loop head l lb ≡ (if all_in l lb then head else common_suffix l lb)
unfolding list_intersect_loop
intersect_loop-common_suffix head [] lb = refl
intersect_loop-common_suffix head (x ∷ l) lb = elim (Bool-cases (is_some (find_by_data lb x))) [
  | inl e ↦ ground (arith, intersect_loop-common_suffix head l lb)
  | inr e ↦ ground (arith, intersect_loop-common_suffix l l lb)
]

-- `list_intersect` keeps only the items of `la` behind the last one that `lb` lacks.
pub list_intersect-common_suffix : (la lb : List Ptr) → list_intersect la lb ≡ common_suffix la lb
unfolding list_intersect
list_intersect-common_suffix [] lb = unfold list_intersect_loop in refl
list_intersect-common_suffix (x ∷ l) lb =
    ground (arith, intersect_loop-common_suffix (x ∷ l) (x ∷ l) lb)
