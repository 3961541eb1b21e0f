-- ===== src/Hash/Rank/Steps.antt =====
-- The steps of the parallel count of core/hash.c, byte by byte.
use native.Mathlib.Nat.{pow-suc, mul_assoc}
use client.Base.{
  ℕ, zero, suc, ◌+◌, ◌-◌, ◌*◌, ◌/◌, ◌%◌, ◌^◌, ◌≤◌, ◌<◌, ◌≡◌, refl, sym, ◌∙◌, ap, bit_and, Bool,
  true, ◌==◌, leb, ◌&&◌, arith, ==_iff, leb→le,
}
use client.Base.Bits.{bit_and_digit, bit_and_zero_left, bit_and-zero, all_below, all_below-true}

-- The number of the bits below the bit `n` that are set.
abbrev pub bit_total : ℕ → ℕ → ℕ
bit_total zero x = 0
bit_total (suc n) x = x % 2 + bit_total n (x / 2)

-- A conjunction, in two parts.
split_and :
    (k y m b c : ℕ)
    → b < 2 ^ k
    → c < 2 ^ k
    → bit_and (y * 2 ^ k + b) (m * 2 ^ k + c) ≡ bit_and y m * 2 ^ k + bit_and b c
split_and zero y m b c h g =
    let left : y * 2 ^ 0 + b ≡ y = omega (arith, h) in
    let right : m * 2 ^ 0 + c ≡ m = omega (arith, g) in
    let nothing : b ≡ 0 = omega (arith, h) in
    rw (left, right, nothing) (omega (arith, bit_and_zero_left c))
split_and (suc k) y m b c h g =
    let double = λ (a : ℕ). ap (λ t. a * t) (pow-suc 2 k) ∙ sym (mul_assoc a (2 ^ k) 2) in
    let left : (y * 2 ^ suc k + b) / 2 ≡ y * 2 ^ k + b / 2 = omega (arith, double y) in
    let right : (m * 2 ^ suc k + c) / 2 ≡ m * 2 ^ k + c / 2 = omega (arith, double m) in
    let inner =
      ap (λ t. bit_and t ((m * 2 ^ suc k + c) / 2)) left
      ∙ ap (bit_and (y * 2 ^ k + b / 2)) right
      ∙ split_and k y m (b / 2) (c / 2) (omega (arith, h, pow-suc 2 k))
          (omega (arith, g, pow-suc 2 k)) in
    omega (
      arith,
      inner,
      double y,
      double m,
      double (bit_and y m),
      bit_and_digit (y * 2 ^ suc k + b) (m * 2 ^ suc k + c),
      bit_and_digit b c,
    )

byte_and :
    (y m b c : ℕ)
    → b < 256
    → c < 256
    → bit_and (y * 256 + b) (m * 256 + c) ≡ bit_and y m * 256 + bit_and b c
byte_and y m b c h g = split_and 8 y m b c h g

-- The byte `c`, `n` times.
abbrev pub mask : ℕ → ℕ → ℕ
mask c zero = 0
mask c (suc n) = mask c n * 256 + c

and_le : (n x y : ℕ) → x ≤ n → bit_and x y ≤ x
and_le zero x y h =
    let nothing : x ≡ 0 = omega (arith, h) in rw nothing (omega (arith, bit_and_zero_left y))
and_le (suc n) x y h = omega (arith, bit_and_digit x y, and_le n (x / 2) (y / 2) (omega (arith, h)))

-- The steps on `n` bytes, and on one.
abbrev pub pairs_of : ℕ → ℕ → ℕ
pairs_of n x = x - bit_and (x / 2) (mask 0x55 n)

abbrev pub nibbles_of : ℕ → ℕ → ℕ
nibbles_of n x = bit_and x (mask 0x33 n) + bit_and (x / 4) (mask 0x33 n)

abbrev pub bytes_of : ℕ → ℕ → ℕ
bytes_of n x = bit_and (x + x / 16) (mask 15 n)

abbrev pairs_byte : ℕ → ℕ
pairs_byte b = b - bit_and (b / 2) 0x55

abbrev nibbles_byte : ℕ → ℕ
nibbles_byte b = bit_and b 0x33 + bit_and (b / 4) 0x33

abbrev bytes_byte : ℕ → ℕ
bytes_byte b = bit_and (b + b / 16) 15

abbrev pairs_test : ℕ → Bool
pairs_test v = bit_and (v / 256 * 128 + v % 256 / 2) 0x55 == bit_and (v % 256 / 2) 0x55

abbrev nibbles_test : ℕ → Bool
nibbles_test v = bit_and (v / 256 * 64 + v % 256 / 4) 0x33 == bit_and (v % 256 / 4) 0x33

abbrev bytes_test : ℕ → Bool
bytes_test v =
    bit_and (v / 256 * 16 + (v % 256 + v % 256 / 16)) 15 == bit_and (v % 256 + v % 256 / 16) 15

abbrev byte_test : ℕ → Bool
byte_test b =
    let v = nibbles_byte (pairs_byte b) in
    bytes_byte v == bit_total 8 b && (leb v 68 && leb (v % 16) 4)

pairs_checked : all_below 512 pairs_test ≡ true
unfolding all_below
pairs_checked = refl

nibbles_checked : all_below 1024 nibbles_test ≡ true
unfolding all_below
nibbles_checked = refl

bytes_checked : all_below 1280 bytes_test ≡ true
unfolding all_below
bytes_checked = refl

byte_checked : all_below 256 byte_test ≡ true
unfolding all_below
byte_checked = refl

pairs_carry : (r b : ℕ) → r < 2 → b < 256 → bit_and (r * 128 + b / 2) 0x55 ≡ bit_and (b / 2) 0x55
pairs_carry r b h g =
    let whole : (r * 256 + b) / 256 ≡ r = omega (arith, g) in
    let part : (r * 256 + b) % 256 ≡ b = omega (arith, g) in
    let e =
      (==_iff _ _).0
        (all_below-true 512 (r * 256 + b) pairs_test (omega (arith, h, g)) pairs_checked) in
    ap (λ t. bit_and (t * 128 + b / 2) 0x55) (sym whole)
    ∙ ap (λ t. bit_and ((r * 256 + b) / 256 * 128 + t / 2) 0x55) (sym part)
    ∙ e
    ∙ ap (λ t. bit_and (t / 2) 0x55) part

nibbles_carry : (r b : ℕ) → r < 4 → b < 256 → bit_and (r * 64 + b / 4) 0x33 ≡ bit_and (b / 4) 0x33
nibbles_carry r b h g =
    let whole : (r * 256 + b) / 256 ≡ r = omega (arith, g) in
    let part : (r * 256 + b) % 256 ≡ b = omega (arith, g) in
    let e =
      (==_iff _ _).0
        (all_below-true 1024 (r * 256 + b) nibbles_test (omega (arith, h, g)) nibbles_checked) in
    ap (λ t. bit_and (t * 64 + b / 4) 0x33) (sym whole)
    ∙ ap (λ t. bit_and ((r * 256 + b) / 256 * 64 + t / 4) 0x33) (sym part)
    ∙ e
    ∙ ap (λ t. bit_and (t / 4) 0x33) part

bytes_carry :
    (r b : ℕ) → r < 5 → b < 256 → bit_and (r * 16 + (b + b / 16)) 15 ≡ bit_and (b + b / 16) 15
bytes_carry r b h g =
    let whole : (r * 256 + b) / 256 ≡ r = omega (arith, g) in
    let part : (r * 256 + b) % 256 ≡ b = omega (arith, g) in
    let e =
      (==_iff _ _).0
        (all_below-true 1280 (r * 256 + b) bytes_test (omega (arith, h, g)) bytes_checked) in
    ap (λ t. bit_and (t * 16 + (b + b / 16)) 15) (sym whole)
    ∙ ap (λ t. bit_and ((r * 256 + b) / 256 * 16 + (t + t / 16)) 15) (sym part)
    ∙ e
    ∙ ap (λ t. bit_and (t + t / 16) 15) part

pairs_of-byte :
    (n y b : ℕ) → b < 256 → pairs_of (suc n) (y * 256 + b) ≡ pairs_of n y * 256 + pairs_byte b
pairs_of-byte n y b h =
    let half : (y * 256 + b) / 2 ≡ y / 2 * 256 + (y % 2 * 128 + b / 2) = omega (arith, h) in
    let e =
      ap (λ t. bit_and t (mask 0x55 n * 256 + 0x55)) half
      ∙ byte_and (y / 2) (mask 0x55 n) (y % 2 * 128 + b / 2) 0x55 (omega (arith, h))
          (omega arith) in
    omega (
      arith,
      e,
      pairs_carry (y % 2) b (omega arith) h,
      and_le (y / 2) (y / 2) (mask 0x55 n) (omega arith),
      and_le (b / 2) (b / 2) 0x55 (omega arith),
    )

nibbles_of-byte :
    (n y b : ℕ) → b < 256 → nibbles_of (suc n) (y * 256 + b) ≡ nibbles_of n y * 256 + nibbles_byte b
nibbles_of-byte n y b h =
    let quarter : (y * 256 + b) / 4 ≡ y / 4 * 256 + (y % 4 * 64 + b / 4) = omega (arith, h) in
    let e =
      ap (λ t. bit_and t (mask 0x33 n * 256 + 0x33)) quarter
      ∙ byte_and (y / 4) (mask 0x33 n) (y % 4 * 64 + b / 4) 0x33 (omega (arith, h)) (omega arith) in
    omega (
      arith,
      e,
      nibbles_carry (y % 4) b (omega arith) h,
      byte_and y (mask 0x33 n) b 0x33 h (omega arith),
    )

bytes_of-byte :
    (n y b : ℕ)
    → b ≤ 68
    → y % 16 ≤ 4
    → bytes_of (suc n) (y * 256 + b) ≡ bytes_of n y * 256 + bytes_byte b
bytes_of-byte n y b h g =
    let sum : y * 256 + b + (y * 256 + b) / 16 ≡ (y + y / 16) * 256 + (y % 16 * 16 + (b + b / 16)) =
      omega (arith, h) in
    let e =
      ap (λ t. bit_and t (mask 15 n * 256 + 15)) sum
      ∙ byte_and (y + y / 16) (mask 15 n) (y % 16 * 16 + (b + b / 16)) 15 (omega (arith, h, g))
          (omega arith) in
    omega (arith, e, bytes_carry (y % 16) b (omega (arith, g)) (omega (arith, h)))

both_left : (a b : Bool) → (a && b) ≡ true → a ≡ true
both_left a b h = ground (arith, h)

both_right : (a b : Bool) → (a && b) ≡ true → b ≡ true
both_right a b h = ground (arith, h)

abbrev pub count_of : ℕ → ℕ → ℕ
count_of n x = bytes_of n (nibbles_of n (pairs_of n x))

byte_count : (b : ℕ) → b < 256 → bytes_byte (nibbles_byte (pairs_byte b)) ≡ bit_total 8 b
byte_count b h = (==_iff _ _).0 (both_left _ _ (all_below-true 256 b byte_test h byte_checked))

byte_small :
    (b : ℕ) → b < 256 → (nibbles_byte (pairs_byte b) ≤ 68) × (nibbles_byte (pairs_byte b) % 16 ≤ 4)
byte_small b h =
    let both = both_right _ _ (all_below-true 256 b byte_test h byte_checked) in
    (leb→le _ _ (both_left _ _ both), leb→le _ _ (both_right _ _ both))

low_nibble : (n x : ℕ) → nibbles_of n (pairs_of n x) % 16 ≤ 4
low_nibble zero x = omega (arith, bit_and-zero (pairs_of 0 x), bit_and-zero (pairs_of 0 x / 4))
low_nibble (suc n) x =
    let b = x % 256 in
    let whole : x ≡ x / 256 * 256 + b = omega arith in
    let e = ap (pairs_of (suc n)) whole ∙ pairs_of-byte n (x / 256) b (omega arith) in
    let f =
      ap (nibbles_of (suc n)) e
      ∙ nibbles_of-byte n (pairs_of n (x / 256)) (pairs_byte b) (omega arith) in
    omega (arith, f, (byte_small b (omega arith)).1)

pub count_of-byte :
    (n x : ℕ) → count_of (suc n) x ≡ count_of n (x / 256) * 256 + bit_total 8 (x % 256)
count_of-byte n x =
    let b = x % 256 in
    let y = x / 256 in
    let whole : x ≡ y * 256 + b = omega arith in
    let small = byte_small b (omega arith) in
    ap (count_of (suc n)) whole
    ∙ ap (λ t. bytes_of (suc n) (nibbles_of (suc n) t)) (pairs_of-byte n y b (omega arith))
    ∙ ap (bytes_of (suc n)) (nibbles_of-byte n (pairs_of n y) (pairs_byte b) (omega arith))
    ∙ bytes_of-byte n (nibbles_of n (pairs_of n y)) (nibbles_byte (pairs_byte b)) small.0
        (low_nibble n y)
    ∙ ap (λ t. count_of n y * 256 + t) (byte_count b (omega arith))
