-- ===== src/Text/Width.antt =====
-- What `bit_count` of core/util.c counts.
use client.Base.{ℕ, zero, suc, ◌+◌, ◌/◌, ◌^◌, ◌≤◌, ◌<◌, ◌≡◌, ◌==◌, arith, Bool-cases, inl, inr}
use native.Mathlib.Nat.{pow-suc}
use client.Text.{bit_count_rounds, bit_count}

rounds-lt : (r x : ℕ) → x < 2 ^ r → x < 2 ^ bit_count_rounds r x
unfolding bit_count_rounds
rounds-lt zero x h = h
rounds-lt (suc r) x h = elim (Bool-cases (x == 0)) [
  | inl z ↦ rw z (ground arith)
  | inr n ↦
      let half = rounds-lt r (x / 2) (omega (arith, pow-suc 2 r)) in
      let k = bit_count_rounds r (x / 2) in
      let step : 1 + k ≡ suc k = omega arith in rw (n, step) (omega (arith, half, pow-suc 2 k))
]

rounds-le : (r k x : ℕ) → x < 2 ^ k → bit_count_rounds r x ≤ k
unfolding bit_count_rounds
rounds-le zero k x h = omega arith
rounds-le (suc r) zero x h = ground arith
rounds-le (suc r) (suc k) x h = ground (arith, rounds-le r k (x / 2) (omega (arith, pow-suc 2 k)))

-- A number below 2 ^ 32 fits the bits that are counted, and no smaller width: a number below 2 ^ k
-- counts at most k.
pub bit_count-fits : (x k : ℕ) → (x < 2 ^ 32 → x < 2 ^ bit_count x) × (x < 2 ^ k → bit_count x ≤ k)
unfolding bit_count
bit_count-fits x k = (rounds-lt 32 x, rounds-le 32 k x)
