-- ===== src/Text/Numbers.antt =====
-- Decimal numbers are read back.
use native.Mathlib.Nat.{pow-suc, mod-eq_of_lt}
use client.Base.{
  ℕ, zero, suc, ◌+◌, ◌-◌, ◌*◌, ◌/◌, ◌%◌, ◌^◌, ◌<◌, ◌≤◌, ◌≡◌, refl, sym, ◌∙◌, ap, true, false, some,
  [], ◌∷◌, ◌++◌, ◌==◌, if◌then◌else◌, arith, Bool-cases, inl, inr, append_assoc, ltb, length,
  length-append,
}
use client.Text.{Text, first, digit, digits_loop, number_of}

-- What `printf` prints for `%d` at a number that is not negative. A number of `fuel` bits has
-- fewer digits than that.
unfoldable pub decimal_digits : ℕ → ℕ → Text
decimal_digits zero n = (b'0' + n % 10) ∷ []
decimal_digits (suc fuel) n =
    let more = decimal_digits fuel (n / 10) in
    (if n / 10 == 0 then [] else more) ++ (b'0' + n % 10) ∷ []

unfoldable pub decimal : ℕ → Text
unfolding decimal_digits
decimal n = decimal_digits 64 n

-- `%d` at the `int` whose 32 bits are `w`.
unfoldable pub decimal_int : ℕ → Text
decimal_int w = if ltb w (2 ^ 31) then decimal w else b'-' ∷ decimal (2 ^ 32 - w)

pub decimal_int-small : (w : ℕ) → w < 2 ^ 31 → decimal_int w ≡ decimal w
unfolding decimal_int
decimal_int-small w h = let small : ltb w (2 ^ 31) ≡ true = ground arith in rw small refl

pub decimal_int-negative : (w : ℕ) → 2 ^ 31 ≤ w → decimal_int w ≡ b'-' ∷ decimal (2 ^ 32 - w)
unfolding decimal_int
decimal_int-negative w h = let large : ltb w (2 ^ 31) ≡ false = ground arith in rw large refl

digits-length : (fuel k n : ℕ) → n < 10 ^ suc k → length (decimal_digits fuel n) ≤ suc k
unfolding decimal_digits
digits-length zero k n h = omega arith
digits-length (suc fuel) zero n h =
    let one : (n / 10 == 0) ≡ true = ground arith in rw one (omega arith)
digits-length (suc fuel) (suc k) n h = elim (Bool-cases (n / 10 == 0)) [
  | inl e ↦ rw e (omega arith)
  | inr e ↦
      let more = digits-length fuel k (n / 10) (omega (arith, pow-suc 10 (suc k))) in
      rw (e, length-append (decimal_digits fuel (n / 10)) ((b'0' + n % 10) ∷ [])) (omega arith)
]

pub length-decimal : (n : ℕ) → n < 2 ^ 32 → length (decimal n) ≤ 10
unfolding decimal
length-decimal n h = digits-length 64 9 n (omega arith)

pub length-decimal_int : (w : ℕ) → w < 2 ^ 32 → length (decimal_int w) ≤ 11
unfolding decimal_int
length-decimal_int w h = elim (Bool-cases (ltb w (2 ^ 31))) [
  | inl e ↦ rw e (omega (arith, length-decimal w h))
  | inr e ↦
      let negative : 2 ^ 32 - w < 2 ^ 32 = ground arith in
      rw e (omega (arith, length-decimal (2 ^ 32 - w) negative))
]

-- What may follow a number: the end, or a character that is no digit.
abbrev pub EndsNumber : Text → Type 0
EndsNumber rest = digit (first rest) ≡ false

module _ (width : ℕ) where
  one_digit :
      (y d : ℕ) (rest : Text)
      → d < 10
      → y * 10 + d < 2 ^ width
      → digits_loop width y ((b'0' + d) ∷ rest) ≡ digits_loop width (y * 10 + d) rest
  unfolding digits_loop
  one_digit y d rest h k =
      let is_digit : digit (b'0' + d) ≡ true = ground arith in
      let value : b'0' + d - b'0' ≡ d = omega arith in rw (is_digit, value, mod-eq_of_lt k)

  digits_loop-decimal :
      (fuel n : ℕ) (rest : Text)
      → n < 2 ^ fuel
      → n < 2 ^ width
      → digits_loop width 0 (decimal_digits fuel n ++ rest) ≡ digits_loop width n rest
  unfolding decimal_digits
  digits_loop-decimal zero n rest h k =
      let nothing : n ≡ 0 = omega arith in
      rw nothing (one_digit 0 0 rest (omega arith) (omega (arith, h, k)))
  digits_loop-decimal (suc fuel) n rest h k =
      let whole : n / 10 * 10 + n % 10 ≡ n = omega arith in
      let last = one_digit (n / 10) (n % 10) rest (omega arith) (omega (arith, k)) in
      elim (Bool-cases (n / 10 == 0)) [
        | inl e ↦
            let small : n / 10 ≡ 0 = ground arith in
            rw e (
              ap (λ t. digits_loop width t ((b'0' + n % 10) ∷ rest)) (sym small)
              ∙ last
              ∙ ap (λ t. digits_loop width t rest) whole)
        | inr e ↦
            rw (e, append_assoc)
              (digits_loop-decimal fuel (n / 10) ((b'0' + n % 10) ∷ rest)
                  (omega (arith, pow-suc 2 fuel)) (omega (arith, k))
                ∙ last
                ∙ ap (λ t. digits_loop width t rest) whole)
      ]

digits_loop-end :
    (width n : ℕ) (rest : Text) → EndsNumber rest → digits_loop width n rest ≡ (n, rest)
unfolding digits_loop
digits_loop-end width n [] e = refl
digits_loop-end width n (c ∷ rest) e = rw e

first_digit : (fuel n : ℕ) (rest : Text) → digit (first (decimal_digits fuel n ++ rest)) ≡ true
unfolding decimal_digits
first_digit zero n rest = ground arith
first_digit (suc fuel) n rest = elim (Bool-cases (n / 10 == 0)) [
  | inl e ↦ rw e (ground arith)
  | inr e ↦ rw (e, append_assoc) (first_digit fuel (n / 10) ((b'0' + n % 10) ∷ rest))
]

pub first-decimal : (n : ℕ) (rest : Text) → digit (first (decimal n ++ rest)) ≡ true
unfolding decimal
first-decimal n rest = first_digit 64 n rest

pub digits-decimal :
    (width n : ℕ) (rest : Text)
    → n < 2 ^ 64
    → n < 2 ^ width
    → EndsNumber rest
    → digits_loop width 0 (decimal n ++ rest) ≡ (n, rest)
unfolding decimal
digits-decimal width n rest h k e =
    digits_loop-decimal width 64 n rest h k ∙ digits_loop-end width n rest e

-- A number of 64 bits that is printed is read back, at any width that it fits, with what follows
-- it.
pub number_of-decimal :
    (width n : ℕ) (rest : Text)
    → n < 2 ^ 64
    → n < 2 ^ width
    → EndsNumber rest
    → number_of width (decimal n ++ rest) ≡ some (n, rest)
unfolding number_of
number_of-decimal width n rest h k e =
    rw (first-decimal n rest) (ap some (digits-decimal width n rest h k e))
