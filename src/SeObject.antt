-- ===== src/SeObject.antt =====
-- core/se_object.c: the order of the objects of a list, by the keys of its type.
-- An object is the list of its bytes in memory. Numbers are read from it in the little-endian order
-- of the machines that the client is built for.
pub mod Binary
pub mod Keys
pub mod Insert
mod Tests
use client.Base.{
  ℕ, zero, suc, ◌+◌, ◌-◌, ◌*◌, ◌/◌, ◌%◌, ◌^◌, Bool, true, false, Option, none, some, List, [], ◌∷◌,
  ◌++◌, ◌==◌, ◌||◌, ltb, if◌then◌else◌, get_or, drop,
}
use client.Base.Int.{ℤ, pos, negsuc}
use client.Schema.XsType

abbrev pub Object : Type 0
Object = List ℕ

-- A number of so many bytes, the lowest first.
abbrev pub uint_at : ℕ → Object → ℕ
uint_at zero a = 0
uint_at (suc w) [] = 0
uint_at (suc w) (b ∷ rest) = b + uint_at w rest * 2 ^ 8

-- The low 32 bits as an `int`.
abbrev pub to_int : ℕ → ℤ
to_int d = if ltb (d % 2 ^ 32) (2 ^ 31) then pos (d % 2 ^ 32) else negsuc (2 ^ 32 - 1 - d % 2 ^ 32)

-- `*(int64_t *)a - *(int64_t *)b` and the like: the difference of the bit patterns, of `w` bits,
-- as an `int`.
abbrev pub difference : ℕ → ℕ → ℕ → ℤ
difference w x y = to_int ((x + 2 ^ w - y) % 2 ^ w)

-- A number of `w` bits, extended to 32 bits by its sign.
abbrev pub extended : ℕ → ℕ → ℕ
extended w x = if ltb x (2 ^ (w - 1)) then x else x + 2 ^ 32 - 2 ^ w

-- `(*a < *b)? -1 : (*a - *b)`
abbrev pub compare_uint : ℕ → ℕ → ℤ
compare_uint x y = if ltb x y then negsuc 0 else to_int (x - y)

-- From the last byte to the first.
unfoldable pub compare_binary : ℕ → Object → Object → ℤ
compare_binary zero a b = pos 0
compare_binary (suc n) a b =
    let rest = compare_binary n a b in
    if ltb (get_or a n 0) (get_or b n 0)
    then negsuc 0
    else if ltb (get_or b n 0) (get_or a n 0)
    then pos 1
    else rest

-- `strcmp`, with the difference of the first bytes that differ; past the memory are zeros.
unfoldable pub strcmp : Object → Object → ℤ
strcmp [] [] = pos 0
strcmp [] (y ∷ b) = if y == 0 then pos 0 else difference 32 0 y
strcmp (x ∷ a) [] = if x == 0 then pos 0 else pos x
strcmp (x ∷ a) (y ∷ b) =
    let rest = strcmp a b in if x == y then (if x == 0 then pos 0 else rest) else difference 32 x y

pub record Key : Type 0 where
  pub offset : ℕ
  pub type : ℤ

-- The fields of the two objects, by the type of the key. A text pointer is compared by the bytes of
-- the pointer, as the source does.
unfoldable pub compare_field : ℕ → Object → Object → ℤ
compare_field type a b =
    let t = type % 16 in
    if t == XsType.string || t == XsType.any_uri
    then strcmp a b
    else if t == XsType.hex_binary
    then compare_binary (type / 16) a b
    else if t == XsType.long
    then difference 64 (uint_at 8 a) (uint_at 8 b)
    else if t == XsType.int
    then difference 32 (uint_at 4 a) (uint_at 4 b)
    else if t == XsType.short
    then difference 32 (extended 16 (uint_at 2 a)) (extended 16 (uint_at 2 b))
    else if t == XsType.byte
    then difference 32 (extended 8 (uint_at 1 a)) (extended 8 (uint_at 1 b))
    else if t == XsType.ulong
    then compare_uint (uint_at 8 a) (uint_at 8 b)
    else if t == XsType.uint
    then compare_uint (uint_at 4 a) (uint_at 4 b)
    else if t == XsType.ushort
    then compare_uint (uint_at 2 a) (uint_at 2 b)
    else if t == XsType.ubyte
    then compare_uint (uint_at 1 a) (uint_at 1 b)
    else negsuc 0

-- A negative type is the other order.
compare_by : ℤ → Object → Object → ℤ
compare_by (pos type) a b = compare_field type a b
compare_by (negsuc n) a b = compare_field (suc n) b a

unfoldable pub compare_key : Object → Object → Key → ℤ
unfolding compare_by
compare_key a b key = compare_by key.type (drop key.offset a) (drop key.offset b)

abbrev pub is_zero : ℤ → Bool
is_zero (pos zero) = true
is_zero _ = false

-- The loop of `compare_keys`, which ends before the fourth key or at one of type 0; `ret` has no
-- value before the first.
compare_rounds : ℕ → Option ℤ → Object → Object → List Key → Option ℤ
compare_rounds zero ret a b keys = ret
compare_rounds (suc n) ret a b [] = ret
compare_rounds (suc n) ret a b (key ∷ keys) =
    let next = compare_key a b key in
    let rest = compare_rounds n (some next) a b keys in
    if is_zero key.type then ret else if is_zero next then rest else some next

-- None where the first key has type 0 and the result is not set.
unfoldable pub compare_keys : Object → Object → List Key → Option ℤ
unfolding compare_rounds
compare_keys a b keys = compare_rounds 3 none a b keys

-- Whether the result is greater than 0.
abbrev pub is_positive : Option ℤ → Bool
is_positive (some (pos (suc n))) = true
is_positive _ = false

unfoldable pub insert_se_object : List Object → Object → List Key → List Object
insert_se_object [] n keys = n ∷ []
insert_se_object (l ∷ rest) n keys =
    if is_positive (compare_keys n l keys) then l ∷ insert_se_object rest n keys else n ∷ l ∷ rest
