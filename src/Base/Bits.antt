-- ===== src/Base/Bits.antt =====
-- Laws of the bit operations at variables, digit by digit.
use Prim.Native.Nat.{
  ℕ, zero, suc, ◌+◌, ◌-◌, ◌*◌, ◌/◌, ◌%◌, ◌^◌, ◌≤◌, ◌<◌, min, max, bit_and, bit_or, digits, bitwise,
  bit_and-bitwise, bit_or-bitwise,
}
use mathlib.Core.Path.{◌≡◌, refl, sym, ◌∙◌, ap}
use mathlib.Core.Bool.{Bool, true, ◌&&◌}
use native.Mathlib.Omega.{arith}
use native.Mathlib.Nat.{pow-suc}

-- An operation on digits whose value past the first number fits its value on the digit 0.
module _ (z : ℕ → ℕ) (f : ℕ → ℕ → ℕ) (past : (b : ℕ) → z b ≡ z (b / 2) * 2 + f 0 (b % 2)) where
  more_digits : (n a b : ℕ) → a ≤ n → digits z f (suc n) a b ≡ digits z f n a b
  more_digits zero zero b h = refl
  more_digits zero (suc a) b h = absurd (omega arith)
  more_digits (suc n) zero b h = refl
  more_digits (suc n) (suc a) b h = omega (arith, more_digits n (suc a / 2) (b / 2) (omega arith))

  enough_digits : (k n a b : ℕ) → n ≡ k + a → digits z f n a b ≡ digits z f a a b
  enough_digits zero n a b e = let e' : n ≡ a = omega arith in rw e'
  enough_digits (suc k) n a b e =
      let e' : n ≡ suc (k + a) = omega arith in
      rw e' (more_digits (k + a) a b (omega arith) ∙ enough_digits k (k + a) a b refl)

  pub bitwise_step :
      (a b : ℕ) → bitwise z f a b ≡ bitwise z f (a / 2) (b / 2) * 2 + f (a % 2) (b % 2)
  bitwise_step zero b = past b
  bitwise_step (suc a) b =
      omega (arith, enough_digits (a - suc a / 2) a (suc a / 2) (b / 2) (omega arith))

-- The last digit of a conjunction and of a disjunction.
pub bit_and_digit : (x y : ℕ) → bit_and x y ≡ bit_and (x / 2) (y / 2) * 2 + min (x % 2) (y % 2)
bit_and_digit x y =
    let halves = bit_and-bitwise (x / 2) (y / 2) in
    omega (arith, bitwise_step (λ _. 0) min (λ _. omega arith) x y, bit_and-bitwise x y, halves)

pub bit_or_digit : (x y : ℕ) → bit_or x y ≡ bit_or (x / 2) (y / 2) * 2 + max (x % 2) (y % 2)
bit_or_digit x y =
    let halves = bit_or-bitwise (x / 2) (y / 2) in
    omega (arith, bitwise_step (λ t. t) max (λ _. omega arith) x y, bit_or-bitwise x y, halves)

pub bit_and-zero : (a : ℕ) → bit_and a 0 ≡ 0
bit_and-zero a = none_left a a (omega arith)
  where
    none_left : (n a : ℕ) → a ≤ n → bit_and a 0 ≡ 0
    none_left zero a h = let e : a ≡ 0 = omega arith in rw e
    none_left (suc n) a h = omega (arith, bit_and_digit a 0, none_left n (a / 2) (omega arith))

pub bit_and_zero_left : (b : ℕ) → bit_and 0 b ≡ 0
bit_and_zero_left b = omega (arith, bit_and-bitwise 0 b)

pub bit_and_comm : (a b : ℕ) → bit_and a b ≡ bit_and b a
bit_and_comm a b = commuted a a b (omega arith)
  where
    commuted : (n a b : ℕ) → a ≤ n → bit_and a b ≡ bit_and b a
    commuted zero a b h =
        let e : a ≡ 0 = omega arith in rw e (bit_and_zero_left b ∙ sym (bit_and-zero b))
    commuted (suc n) a b h =
        omega
          (arith, bit_and_digit a b, bit_and_digit b a, commuted n (a / 2) (b / 2) (omega arith))

bit_or_zero_left : (b : ℕ) → bit_or 0 b ≡ b
bit_or_zero_left b = omega (arith, bit_or-bitwise 0 b)

bit_or_zero_right : (n a : ℕ) → a ≤ n → bit_or a 0 ≡ a
bit_or_zero_right zero a h = let e : a ≡ 0 = omega arith in rw e (bit_or_zero_left 0)
bit_or_zero_right (suc n) a h =
    omega (arith, bit_or_digit a 0, bit_or_zero_right n (a / 2) (omega arith))

pub bit_or_comm : (a b : ℕ) → bit_or a b ≡ bit_or b a
bit_or_comm a b = commuted a a b (omega arith)
  where
    commuted : (n a b : ℕ) → a ≤ n → bit_or a b ≡ bit_or b a
    commuted zero a b h =
        let e : a ≡ 0 = omega arith in
        rw e (bit_or_zero_left b ∙ sym (bit_or_zero_right b b (omega arith)))
    commuted (suc n) a b h =
        omega (arith, bit_or_digit a b, bit_or_digit b a, commuted n (a / 2) (b / 2) (omega arith))

pub bit_or_assoc : (a b c : ℕ) → bit_or (bit_or a b) c ≡ bit_or a (bit_or b c)
bit_or_assoc a b c = regrouped a a b c (omega arith)
  where
    regrouped : (n a b c : ℕ) → a ≤ n → bit_or (bit_or a b) c ≡ bit_or a (bit_or b c)
    regrouped zero a b c h =
        let e : a ≡ 0 = omega arith in
        rw (e, bit_or_zero_left b, bit_or_zero_left (bit_or b c)) (refl)
    regrouped (suc n) a b c h =
        let left : bit_or a b / 2 ≡ bit_or (a / 2) (b / 2) = omega (arith, bit_or_digit a b) in
        let right : bit_or b c / 2 ≡ bit_or (b / 2) (c / 2) = omega (arith, bit_or_digit b c) in
        omega (
          arith,
          bit_or_digit (bit_or a b) c,
          bit_or_digit a (bit_or b c),
          bit_or_digit a b,
          bit_or_digit b c,
          ap (λ t. bit_or t (c / 2)) left,
          ap (bit_or (a / 2)) right,
          regrouped n (a / 2) (b / 2) (c / 2) (omega arith),
        )

pub bit_or-zero : (a : ℕ) → bit_or a 0 ≡ a
bit_or-zero a = bit_or_zero_right a a (omega arith)

pub pow_pos : (w : ℕ) → 1 ≤ 2 ^ w
pow_pos zero = omega arith
pow_pos (suc w) = omega (arith, pow-suc 2 w, pow_pos w)

-- Disjoint bits are added.
pub bit_or-shifted : (k y x : ℕ) → y < 2 ^ k → bit_or y (x * 2 ^ k) ≡ y + x * 2 ^ k
bit_or-shifted zero zero x h = bit_or-bitwise 0 (x * 1) ∙ omega arith
bit_or-shifted zero (suc y) x h = absurd (omega arith)
bit_or-shifted (suc k) y x h =
    let double : x * 2 ^ suc k ≡ x * 2 ^ k * 2 =
      omega (arith, ap (λ (t : ℕ). x * t) (pow-suc 2 k)) in
    let half : x * 2 ^ k * 2 / 2 ≡ x * 2 ^ k = omega arith in
    rw double (
      omega (
        arith,
        bit_or_digit y (x * 2 ^ k * 2),
        ap (bit_or (y / 2)) half,
        bit_or-shifted k (y / 2) x (omega (arith, pow-suc 2 k)),
      ))

-- What is left of x without the bits of y has no bit in common with y.
pub and_complement_disjoint : (w x y : ℕ) → y < 2 ^ w → bit_and (bit_and x (2 ^ w - 1 - y)) y ≡ 0
and_complement_disjoint zero x zero h = bit_and-zero _
and_complement_disjoint zero x (suc y) h = absurd (omega arith)
and_complement_disjoint (suc w) x y h =
    let m = 2 ^ suc w - 1 - y in
    let half : m / 2 ≡ 2 ^ w - 1 - y / 2 = omega (arith, pow-suc 2 w, pow_pos w) in
    let low : m % 2 ≡ 1 - y % 2 = omega (arith, pow-suc 2 w, pow_pos w) in
    let inner = bit_and_digit x m in
    let inner_half : bit_and x m / 2 ≡ bit_and (x / 2) (m / 2) = omega (arith, inner) in
    omega (
      arith,
      bit_and_digit (bit_and x m) y,
      inner,
      low,
      ap (λ t. bit_and t (y / 2)) (inner_half ∙ ap (bit_and (x / 2)) half),
      and_complement_disjoint w (x / 2) (y / 2) (omega (arith, pow-suc 2 w)),
    )

-- Every value below a bound passes a test, by evaluation.
unfoldable pub all_below : ℕ → (ℕ → Bool) → Bool
all_below zero test = true
all_below (suc bound) test = test bound && all_below bound test

pub all_below-true :
    (bound v : ℕ) (test : ℕ → Bool) → v < bound → all_below bound test ≡ true → test v ≡ true
unfolding all_below
all_below-true zero v test below passed = absurd (omega arith)
all_below-true (suc bound) v test below passed = ground (arith, all_below-true bound v test)
