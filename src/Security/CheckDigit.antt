-- ===== src/Security/CheckDigit.antt =====
-- The check digit of the short form device identifier of core/security.c.
use client.Base.{
  ℕ, zero, suc, ◌+◌, ◌-◌, ◌*◌, ◌/◌, ◌%◌, ◌^◌, ◌≤◌, ◌<◌, ◌≡◌, refl, ◌∙◌, ap, [], ◌∷◌, arith, All,
}
use native.Mathlib.Nat.{pow-suc}
use client.Sha256.{Bytes}
use client.Security.{digit_sum, check_digit, sfdi_bytes, sfdi_gen}

digit_sum-zero : (g : ℕ) → digit_sum g 0 ≡ 0
unfolding digit_sum
digit_sum-zero zero = refl
digit_sum-zero (suc g) = refl

-- With fuel for the number's digits the loop has run to its end.
digit_sum-fuel : (f g x : ℕ) → x < 2 ^ f → f ≤ g → digit_sum g x ≡ digit_sum f x
unfolding digit_sum
digit_sum-fuel zero g x h k = let nothing : x ≡ 0 = omega arith in rw nothing (digit_sum-zero g)
digit_sum-fuel (suc f) zero x h k = absurd (omega arith)
digit_sum-fuel (suc f) (suc g) x h k =
    ground (arith, digit_sum-fuel f g (x / 10) (omega (arith, pow-suc 2 f)) (omega arith))

digit_sum-append : (g x d : ℕ) → d < 10 → digit_sum (suc g) (x * 10 + d) ≡ d + digit_sum g x
unfolding digit_sum
digit_sum-append g x d h =
    let tens : (x * 10 + d) / 10 ≡ x = omega arith in
    let ones : (x * 10 + d) % 10 ≡ d = omega arith in
    ground (arith, tens, ones, ap (digit_sum g) tens, digit_sum-zero g)

digit_sum-checked : (x : ℕ) → x < 2 ^ 36 → digit_sum 64 (x * 10 + check_digit x) % 10 ≡ 0
unfolding check_digit
digit_sum-checked x h =
    let c = (10 - digit_sum 64 x % 10) % 10 in
    omega (
      arith,
      digit_sum-append 63 x c (omega arith),
      digit_sum-fuel 36 64 x h (omega arith),
      digit_sum-fuel 36 63 x h (omega arith),
    )

check_digit-lt : (x : ℕ) → check_digit x < 10
unfolding check_digit
check_digit-lt x = omega arith

module _ (a b c d e : ℕ) (rest : Bytes) (bytes : All (λ x. x < 256) (a ∷ b ∷ c ∷ d ∷ e ∷ [])) where
  -- The first 36 bits of the LFDI.
  abbrev pub first_bits : ℕ
  first_bits = a * 2 ^ 28 + b * 2 ^ 20 + c * 2 ^ 12 + d * 2 ^ 4 + e / 2 ^ 4

  sfdi_bytes-bits : sfdi_bytes 5 (a ∷ b ∷ c ∷ d ∷ e ∷ rest) 0 / 2 ^ 4 ≡ first_bits
  unfolding sfdi_bytes
  sfdi_bytes-bits = let (a', (b', (c', (d', (e', _))))) = bytes in omega arith

  sfdi_gen-bits : sfdi_gen (a ∷ b ∷ c ∷ d ∷ e ∷ rest) ≡ first_bits * 10 + check_digit first_bits
  unfolding sfdi_gen
  sfdi_gen-bits =
      let (a', (b', (c', (d', (e', _))))) = bytes in
      omega (arith, sfdi_bytes-bits, ap check_digit sfdi_bytes-bits, check_digit-lt first_bits)

  -- The SFDI of an LFDI whose first five bytes are bytes: its digits but the last are the number
  -- of the first 36 bits, and the sum of its digits is a multiple of ten.
  pub sfdi_gen-digits :
      (sfdi_gen (a ∷ b ∷ c ∷ d ∷ e ∷ rest) / 10 ≡ first_bits)
      × (digit_sum 64 (sfdi_gen (a ∷ b ∷ c ∷ d ∷ e ∷ rest)) % 10 ≡ 0)
  sfdi_gen-digits =
      let (a', (b', (c', (d', (e', _))))) = bytes in
      (
        omega (arith, sfdi_gen-bits, check_digit-lt first_bits),
        ap (λ t. digit_sum 64 t % 10) sfdi_gen-bits ∙ digit_sum-checked first_bits (omega arith),
      )
