-- ===== src/SeObject/Keys.antt =====
-- The order of time keys, and the keys of `SE_DERProgramList` in core/se_list.c.
use client.Base.{
  ℕ, zero, suc, ◌+◌, ◌-◌, ◌*◌, ◌%◌, ◌^◌, ◌≤◌, ◌<◌, ◌≡◌, ◌↔◌, refl, ◌∙◌, ap, Bool, true, false,
  Option, some, List, [], ◌∷◌, ◌==◌, ltb, if◌then◌else◌, get_or, drop, arith, All, Bool-cases, inl,
  inr,
}
use native.Mathlib.Nat.{pow-suc}
use client.Base.Int.{ℤ, pos, negsuc}
use client.Schema.XsType
use client.SeObject.{
  Object, Key, uint_at, difference, compare_uint, compare_binary, compare_field, compare_key,
  compare_keys, is_zero, is_positive,
}
use client.SeObject.Binary.{compared, low, low-lt, compare_binary-low}

abbrev pub is_negative : ℤ → Bool
is_negative (pos n) = false
is_negative (negsuc n) = true

uint_at-lt : (w : ℕ) (a : Object) → All (λ b. b < 256) a → uint_at w a < 256 ^ w
uint_at-lt zero a h = omega arith
uint_at-lt (suc w) [] h = omega (arith, pow-suc 256 w, uint_at-lt w [] tt)
uint_at-lt (suc w) (b ∷ rest) h = omega (arith, h.0, pow-suc 256 w, uint_at-lt w rest h.1)

-- What the difference of two 64-bit times is as an `int`.
pub difference-time :
    (x y : ℕ)
    → x < 2 ^ 63
    → y < 2 ^ 63
    → ((difference 64 x y ≡ pos 0) ↔ (x % 2 ^ 32 ≡ y % 2 ^ 32))
      × (x < y → y ≤ x + 2 ^ 31 → is_negative (difference 64 x y) ≡ true)
      × (y < x → x < y + 2 ^ 31 → difference 64 x y ≡ pos (x - y))
difference-time x y h k = (ground arith, ground arith, ground arith)

-- The key of a time, at an offset in the object, in ascending order.
abbrev pub time_key : ℕ → Key
time_key offset = record { offset = offset; type = pos XsType.long }

-- The time that the key reads.
abbrev pub time_at : ℕ → Object → ℕ
time_at offset a = uint_at 8 (drop offset a)

-- Two times from 0 to 2 ^ 63 - 1, compared as the keys of objects: they are equal to
-- `compare_key` exactly when they are a multiple of 2 ^ 32 seconds apart, the earlier one is less
-- where they are at most 2 ^ 31 apart, and the later one is greater, by the seconds between them,
-- where these are less than 2 ^ 31.
pub compare_key-time :
    (a b : Object) (offset : ℕ)
    → time_at offset a < 2 ^ 63
    → time_at offset b < 2 ^ 63
    → ((compare_key a b (time_key offset) ≡ pos 0)
        ↔ (time_at offset a % 2 ^ 32 ≡ time_at offset b % 2 ^ 32))
      × (time_at offset a < time_at offset b
          → time_at offset b ≤ time_at offset a + 2 ^ 31
          → is_negative (compare_key a b (time_key offset)) ≡ true)
      × (time_at offset b < time_at offset a
          → time_at offset a < time_at offset b + 2 ^ 31
          → compare_key a b (time_key offset) ≡ pos (time_at offset a - time_at offset b))
unfolding compare_key compare_field
compare_key-time a b offset h k = difference-time (time_at offset a) (time_at offset b) h k

-- `primacy` in ascending order and `mRID` in descending order, at their offsets.
abbrev pub program_keys : ℕ → ℕ → List Key
program_keys primacy m_rid =
    record { offset = primacy; type = pos XsType.ubyte }
    ∷ record { offset = m_rid; type = negsuc (16 * 16 + XsType.hex_binary - 1) }
    ∷ []

-- The place that the two keys give an object.
abbrev pub program_rank : ℕ → ℕ → Object → ℕ
program_rank primacy m_rid a =
    uint_at 1 (drop primacy a) * 2 ^ 128 + (2 ^ 128 - 1 - low 16 (drop m_rid a))

compare_uint-byte :
    (x y : ℕ)
    → x < 256
    → y < 256
    → (is_zero (compare_uint x y) ≡ (x == y)) × (is_positive (some (compare_uint x y)) ≡ ltb y x)
compare_uint-byte x y h k = (ground arith, ground arith)

compared-positive : (x y : ℕ) → is_positive (some (compared x y)) ≡ ltb y x
compared-positive x y = ground arith

All-drop : (n : ℕ) (a : Object) → All (λ c. c < 256) a → All (λ c. c < 256) (drop n a)
All-drop zero a h = h
All-drop (suc n) [] h = h
All-drop (suc n) (c ∷ a) h = All-drop n a h.1

byte_at : (a : Object) (i : ℕ) → All (λ c. c < 256) a → get_or a i 0 < 256
byte_at [] i h = omega arith
byte_at (c ∷ a) zero h = h.0
byte_at (c ∷ a) (suc i) h = byte_at a i h.1

two_keys :
    (a b : Object) (k l : Key)
    → is_zero k.type ≡ false
    → is_zero l.type ≡ false
    → compare_keys a b (k ∷ l ∷ [])
      ≡ some (if is_zero (compare_key a b k) then compare_key a b l else compare_key a b k)
unfolding compare_keys
two_keys a b k l e f =
    rw (e, f)
      (elim (Bool-cases (is_zero (compare_key a b k))) [
        | inl z ↦ rw z (if_same (is_zero (compare_key a b l)) (some (compare_key a b l)))
        | inr n ↦ rw n
      ])
  where
    if_same : (t : Bool) (x : Option ℤ) → (if t then x else x) ≡ x
    if_same true x = refl
    if_same false x = refl

primacy_key :
    (a b : Object) (offset : ℕ)
    → compare_key a b (record { offset = offset; type = pos XsType.ubyte })
      ≡ compare_uint (uint_at 1 (drop offset a)) (uint_at 1 (drop offset b))
unfolding compare_key compare_field
primacy_key a b offset = refl

m_rid_key :
    (a b : Object) (offset : ℕ)
    → compare_key a b (record { offset = offset; type = negsuc (16 * 16 + XsType.hex_binary - 1) })
      ≡ compare_binary 16 (drop offset b) (drop offset a)
unfolding compare_key compare_field
m_rid_key a b offset = refl

-- The two comparisons as one of places.
ranked :
    (x y u v : ℕ)
    → x < 256
    → y < 256
    → u < 2 ^ 128
    → v < 2 ^ 128
    → is_positive (some (if is_zero (compare_uint x y) then compared v u else compare_uint x y))
      ≡ ltb (y * 2 ^ 128 + (2 ^ 128 - 1 - v)) (x * 2 ^ 128 + (2 ^ 128 - 1 - u))
ranked x y u v h k l m =
    let byte = compare_uint-byte x y h k in
    elim (Bool-cases (x == y)) [
      | inl same ↦
          let same' : x ≡ y = ground arith in
          rw (byte.0, same, compared-positive v u) (ground arith)
      | inr other ↦ rw (byte.0, other, byte.1) (ground arith)
    ]

-- By both keys an object is behind another exactly when its place is.
pub compare_keys-program_rank :
    (primacy m_rid : ℕ) (a b : Object)
    → All (λ c. c < 256) a
    → All (λ c. c < 256) b
    → is_positive (compare_keys a b (program_keys primacy m_rid))
      ≡ ltb (program_rank primacy m_rid b) (program_rank primacy m_rid a)
compare_keys-program_rank primacy m_rid a b h k =
    let a1 = All-drop primacy a h in
    let b1 = All-drop primacy b k in
    let a2 = λ (i : ℕ). byte_at (drop m_rid a) i (All-drop m_rid a h) in
    let b2 = λ (i : ℕ). byte_at (drop m_rid b) i (All-drop m_rid b k) in
    ap is_positive (
      two_keys a b (record { offset = primacy; type = pos XsType.ubyte })
        (record { offset = m_rid; type = negsuc (16 * 16 + XsType.hex_binary - 1) }) refl refl)
    ∙ rw
        (
          primacy_key a b primacy,
          m_rid_key a b m_rid,
          compare_binary-low 16 (drop m_rid b) (drop m_rid a) b2 a2,
        )
        (ranked (uint_at 1 (drop primacy a)) (uint_at 1 (drop primacy b)) (low 16 (drop m_rid a))
          (low 16 (drop m_rid b)) (uint_at-lt 1 _ a1) (uint_at-lt 1 _ b1) (low-lt 16 _ a2)
          (low-lt 16 _ b2))
