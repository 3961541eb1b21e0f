-- ===== src/LinkedList.antt =====
-- core/list.c and core/list_util.c: the singly linked lists of the program. A list is given by
-- the data pointers of its items in order, or, for the intrusive lists, by the addresses of the
-- items themselves; a pointer to an item is the list that begins there.
pub mod Order
pub mod Members
pub mod Sorted
pub mod QuickSort
pub mod Copies
mod Tests
use Prim.Native.Nat.{Ordering}
use client.Base.{
  ℕ, zero, suc, Bool, true, false, Option, none, some, List, [], ◌∷◌, ◌++◌, ◌==◌, leb, length,
  if◌then◌else◌,
}

-- An address; `void *` and pointers to structures alike.
abbrev pub Ptr : Type 0
Ptr = ℕ

-- Only the sign of what a comparison function returns is read.
abbrev pub Comparison : Type 0
Comparison = Ptr → Ptr → Ordering

abbrev pub is_gt : Ordering → Bool
is_gt Ordering.gt = true
is_gt _ = false

abbrev pub is_lt : Ordering → Bool
is_lt Ordering.lt = true
is_lt _ = false

pub list_insert : List Ptr → Ptr → List Ptr
list_insert l x = x ∷ l

abbrev pub list_length : List Ptr → ℕ
list_length = length

-- The items before the first one that holds `x` (the last of them is `*prev`), and the list that
-- begins at that one.
abbrev pub find_by_data_prev : List Ptr → Ptr → List Ptr × Option (List Ptr)
find_by_data_prev [] x = ([], none)
find_by_data_prev (y ∷ l) x =
    if y == x then ([], some (y ∷ l)) else let rest = find_by_data_prev l x in (y ∷ rest.0, rest.1)

unfoldable pub find_by_data : List Ptr → Ptr → Option (List Ptr)
find_by_data l x = (find_by_data_prev l x).1

abbrev pub is_some : Option (List Ptr) → Bool
is_some none = false
is_some (some _) = true

unfoldable pub insert_unique : List Ptr → Ptr → List Ptr
unfolding list_insert
insert_unique l x = if is_some (find_by_data_prev l x).1 then l else list_insert l x

-- `prev->next = d->next`, or `l = d->next` at the head.
unlink : List Ptr → Option (List Ptr) → List Ptr → List Ptr
unlink before none l = l
unlink before (some []) l = l
unlink before (some (d ∷ after)) l = before ++ after

unfoldable pub list_delete : List Ptr → Ptr → List Ptr
unfolding unlink
list_delete l x = let found = find_by_data_prev l x in unlink found.0 found.1 l

pub list_subtract : List Ptr → List Ptr → List Ptr
list_subtract la [] = la
list_subtract la (b ∷ lb) = list_subtract (list_delete la b) lb

-- `head` is the list as the caller will see it, `a` the item that the loop has reached. The
-- source never advances `prev`, which stays the address of `la`.
list_intersect_loop : List Ptr → List Ptr → List Ptr → List Ptr
list_intersect_loop head [] lb = head
list_intersect_loop head (a ∷ next) lb =
    list_intersect_loop (if is_some (find_by_data lb a) then head else next) next lb

pub list_intersect : List Ptr → List Ptr → List Ptr
unfolding list_intersect_loop
list_intersect la lb = list_intersect_loop la la lb

pub list_union : List Ptr → List Ptr → List Ptr
list_union la [] = la
list_union la (b ∷ lb) = list_union (insert_unique la b) lb

-- Removes the item at address `link` from an intrusive list.
unfoldable pub list_remove : List Ptr → Ptr → List Ptr
list_remove [] link = []
list_remove (l ∷ next) link = if l == link then next else l ∷ list_remove next link

unfoldable pub insert_sorted : List Ptr → Ptr → Comparison → List Ptr
insert_sorted [] n compare = n ∷ []
insert_sorted (l ∷ next) n compare =
    if is_gt (compare n l) then l ∷ insert_sorted next n compare else n ∷ l ∷ next

-- The loop of `list_dup`. `head` is what has been copied: the source sets `prev` to the first
-- copy and never moves it, so every later copy is linked behind the first one.
list_dup_loop : List Ptr → List Ptr → List Ptr
list_dup_loop head [] = head
list_dup_loop [] (x ∷ l) = list_dup_loop (x ∷ []) l
list_dup_loop (h ∷ _) (x ∷ l) = list_dup_loop (h ∷ x ∷ []) l

pub list_dup : List Ptr → List Ptr
unfolding list_dup_loop
list_dup l = list_dup_loop [] l

-- Relinks the last item of `la` to `lb`.
unfoldable pub list_cat : List Ptr → List Ptr → List Ptr
list_cat [] lb = lb
list_cat (n ∷ la) lb = n ∷ list_cat la lb

reverse_loop : List Ptr → List Ptr → List Ptr
reverse_loop rev [] = rev
reverse_loop rev (l ∷ n) = reverse_loop (l ∷ rev) n

pub list_reverse : List Ptr → List Ptr
unfolding reverse_loop
list_reverse l = reverse_loop [] l

-- The returned list, and the one stored through `lb`, from the two under construction.
partition_loop : Comparison → Ptr → List Ptr → List Ptr → List Ptr → List Ptr × List Ptr
partition_loop compare x a b [] = (a, b)
partition_loop compare x a b (y ∷ next) =
    let below = is_lt (compare x y) in
    partition_loop compare x (if below then a else y ∷ a) (if below then y ∷ b else b) next

pub partition : List Ptr → Ptr → Comparison → List Ptr × List Ptr
unfolding partition_loop
partition list x compare = partition_loop compare x [] [] list

-- The recursion runs on fuel; the length of the list is enough. Without fuel the list is left
-- as it is.
quick_sort_fuel : ℕ → Comparison → List Ptr → List Ptr
quick_sort_fuel zero compare list = list
quick_sort_fuel (suc fuel) compare [] = []
quick_sort_fuel (suc fuel) compare (x ∷ []) = x ∷ []
quick_sort_fuel (suc fuel) compare (x ∷ y ∷ next) =
    let parts = partition (y ∷ next) x compare in
    list_cat (quick_sort_fuel fuel compare parts.0) (x ∷ quick_sort_fuel fuel compare parts.1)

pub quick_sort : List Ptr → Comparison → List Ptr
unfolding quick_sort_fuel
quick_sort list compare = quick_sort_fuel (length list) compare list
