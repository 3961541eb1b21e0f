-- ===== src/HttpParse/Values.antt =====
-- The values that core/http_parse.c reads: tokens, quoted strings and qualities.
use native.Mathlib.Nat.{pow-suc, mul_assoc, mul_comm, mul-lt-mul_of_pos_right}
use client.Base.{
  ℕ, zero, suc, ◌+◌, ◌-◌, ◌*◌, ◌^◌, ◌≤◌, ◌<◌, ◌≡◌, refl, sym, ◌∙◌, ap, true, false, none, some, [],
  ◌∷◌, ◌++◌, arith, All, Bool-cases, inl, inr,
}
use client.Text.{Text, first, digit}
use client.HttpParse.{
  tchar, token_loop, token, quoted_loop, quoted_string, pvalue, fraction, quality, qvalue,
}

token_loop-parts :
    (data' : Text)
    → ((token_loop data').0 ++ (token_loop data').1 ≡ data')
      × All (λ c. tchar c ≡ true) (token_loop data').0
      × (tchar (first (token_loop data').1) ≡ false)
unfolding token_loop
token_loop-parts [] = (refl, tt, unfold tchar in refl)
token_loop-parts (c ∷ data') =
    let rest = token_loop-parts data' in
    elim (Bool-cases (tchar c)) [
      | inl e ↦ rw e (ap (λ t. c ∷ t) rest.0, (e, rest.1), rest.2)
      | inr e ↦ rw e (refl, tt, e)
    ]

-- The characters of a token and what follows are the text, and the token ends at the first
-- character that is no token character.
pub token-longest :
    (data' t rest : Text)
    → token data' ≡ some (t, rest)
    → (t ++ rest ≡ data') × All (λ c. tchar c ≡ true) t × (tchar (first rest) ≡ false)
unfolding token
token-longest data' t rest h = ground (arith, token_loop-parts data')

-- A quoted string is never read: its value is empty, and the parser goes on behind the first
-- character of what is quoted, or behind the end of the text where nothing follows the quote.
pub quoted_string-empty :
    (c : ℕ) (data' : Text)
    → (pvalue (b'"' ∷ []) ≡ some ([], none)) × (pvalue (b'"' ∷ c ∷ data') ≡ some ([], some data'))
unfolding pvalue quoted_string quoted_loop
quoted_string-empty c data' = (refl, refl)

power-positive : (n : ℕ) → 0 < 10 ^ n
power-positive zero = omega arith
power-positive (suc n) = omega (arith, power-positive n, pow-suc 10 n)

scaled : (k f bound : ℕ) → f < bound → 0 < k → f * k < bound * k
scaled k f bound h p = mul-lt-mul_of_pos_right h p

scale-suc : (bound n : ℕ) → bound * 10 ^ suc n ≡ bound * 10 * 10 ^ n
scale-suc bound n =
    ap (λ t. bound * t) (pow-suc 10 n ∙ mul_comm (10 ^ n) 10) ∙ sym (mul_assoc bound 10 (10 ^ n))

digit-bound : (c f bound : ℕ) → digit c ≡ true → f < bound → f * 10 + (c - b'0') < bound * 10
digit-bound c f bound e h = ground (arith, e, h)

-- Digits read in, and padded, stay below the power of ten.
fraction-bound :
    (n f bound : ℕ) (data' : Text) → f < bound → (fraction n f data').0 < bound * 10 ^ n
unfolding fraction
fraction-bound zero f bound data' h = omega (arith, h)
fraction-bound (suc n) f bound [] h = scaled (10 ^ suc n) f bound h (power-positive (suc n))
fraction-bound (suc n) f bound (c ∷ data') h = elim (Bool-cases (digit c)) [
  | inl e ↦
      let small : f * 10 + (c - b'0') < bound * 10 = digit-bound c f bound e h in
      rw e (
        omega (
          arith,
          fraction-bound n (f * 10 + (c - b'0')) (bound * 10) data' small,
          scale-suc bound n,
        ))
  | inr e ↦ rw e (scaled (10 ^ suc n) f bound h (power-positive (suc n)))
]

-- A quality value that is read is at most 1000, as the `qvalue` of the grammar is at most 1.
pub qvalue-le : (data' rest : Text) (q : ℕ) → qvalue data' ≡ some (q, rest) → q ≤ 1000
unfolding qvalue quality
qvalue-le data' rest q h = ground (arith, fraction-bound 3 0 1)
