-- ===== src/Hash/Rank.antt =====
-- The parallel count of `bit_rank` in core/hash.c counts the bits.
pub mod Steps
use native.Mathlib.Nat.{pow-suc, mul_assoc}
use client.Base.{
  ℕ, zero, suc, ◌+◌, ◌-◌, ◌*◌, ◌/◌, ◌%◌, ◌^◌, ◌≤◌, ◌<◌, ◌≡◌, refl, sym, ◌∙◌, ap, bit_and, Bool,
  true, false, ◌==◌, leb, ◌&&◌, min, if◌then◌else◌, arith, ==_iff, leb→le,
}
use client.Base.Bits.{bit_and-zero}
use client.Hash.{byte_sum, bit_rank}
use client.Hash.Rank.Steps.{bit_total, pairs_of, nibbles_of, bytes_of, count_of, count_of-byte}

sum_of_bytes :
    (p q r s t u v w : ℕ)
    → p ≤ 8
    → q ≤ 8
    → r ≤ 8
    → s ≤ 8
    → t ≤ 8
    → u ≤ 8
    → v ≤ 8
    → w ≤ 8
    → (((((((p * 256 + q) * 256 + r) * 256 + s) * 256 + t) * 256 + u) * 256 + v) * 256 + w)
        * 72340172838076673
        % 2 ^ 64
        / 2 ^ 56
      ≡ p + q + r + s + t + u + v + w
sum_of_bytes p q r s t u v w hp hq hr hs ht hu hv hw = omega (arith, hp, hq, hr, hs, ht, hu, hv, hw)

bit_total-byte :
    (n x : ℕ)
    → bit_total (suc (suc (suc (suc (suc (suc (suc (suc n)))))))) x
      ≡ bit_total 8 (x % 256) + bit_total n (x / 256)
bit_total-byte n x =
    let rest : x / 2 / 2 / 2 / 2 / 2 / 2 / 2 / 2 ≡ x / 256 = omega arith in
    omega (arith, ap (bit_total n) rest)

bit_total-le : (n x : ℕ) → bit_total n x ≤ n
bit_total-le zero x = omega arith
bit_total-le (suc n) x = omega (arith, bit_total-le n (x / 2))

-- The bytes of a number of 64 bits, one by one.
abbrev byte_at : ℕ → ℕ → ℕ
byte_at zero x = x
byte_at (suc j) x = byte_at j (x / 256)

abbrev total_at : ℕ → ℕ → ℕ
total_at j x = bit_total 8 (byte_at j x % 256)

turned :
    (p q r s t u v w : ℕ)
    → w + v + u + t + s + r + q + p ≡ p + (q + (r + (s + (t + (u + (v + (w + 0)))))))
turned p q r s t u v w = omega arith

count_of-bytes :
    (x : ℕ)
    → count_of 8 x
      ≡ ((((((total_at 7 x * 256 + total_at 6 x) * 256 + total_at 5 x) * 256 + total_at 4 x) * 256
                    + total_at 3 x)
                  * 256
                + total_at 2 x)
              * 256
            + total_at 1 x)
          * 256
        + total_at 0 x
count_of-bytes x = omega (
  arith,
  count_of-byte 7 x,
  count_of-byte 6 (byte_at 1 x),
  count_of-byte 5 (byte_at 2 x),
  count_of-byte 4 (byte_at 3 x),
  count_of-byte 3 (byte_at 4 x),
  count_of-byte 2 (byte_at 5 x),
  count_of-byte 1 (byte_at 6 x),
  count_of-byte 0 (byte_at 7 x),
  bit_and-zero
      (nibbles_of 0 (pairs_of 0 (byte_at 8 x)) + nibbles_of 0 (pairs_of 0 (byte_at 8 x)) / 16),
)

bit_total-bytes :
    (x : ℕ)
    → bit_total 64 x
      ≡ total_at 0 x
        + (total_at 1 x
            + (total_at 2 x
                + (total_at 3 x
                    + (total_at 4 x + (total_at 5 x + (total_at 6 x + (total_at 7 x + 0)))))))
bit_total-bytes x =
    bit_total-byte 56 x
    ∙ ap (λ t. total_at 0 x + t)
        (bit_total-byte 48 (byte_at 1 x)
          ∙ ap (λ t. total_at 1 x + t)
              (bit_total-byte 40 (byte_at 2 x)
                ∙ ap (λ t. total_at 2 x + t)
                    (bit_total-byte 32 (byte_at 3 x)
                      ∙ ap (λ t. total_at 3 x + t)
                          (bit_total-byte 24 (byte_at 4 x)
                            ∙ ap (λ t. total_at 4 x + t)
                                (bit_total-byte 16 (byte_at 5 x)
                                  ∙ ap (λ t. total_at 5 x + t)
                                      (bit_total-byte 8 (byte_at 6 x)
                                        ∙ ap (λ t. total_at 6 x + t)
                                            (bit_total-byte 0 (byte_at 7 x))))))))

total_at-le : (j x : ℕ) → total_at j x ≤ 8
total_at-le j x = bit_total-le 8 (byte_at j x % 256)

-- The parallel count of 64 bits.
count_of-total : (x : ℕ) → byte_sum (count_of 8 x) ≡ bit_total 64 x
count_of-total x =
    ap byte_sum (count_of-bytes x)
    ∙ sum_of_bytes (total_at 7 x) (total_at 6 x) (total_at 5 x) (total_at 4 x) (total_at 3 x)
        (total_at 2 x) (total_at 1 x) (total_at 0 x) (total_at-le 7 x) (total_at-le 6 x)
        (total_at-le 5 x) (total_at-le 4 x) (total_at-le 3 x) (total_at-le 2 x) (total_at-le 1 x)
        (total_at-le 0 x)
    ∙ turned (total_at 0 x) (total_at 1 x) (total_at 2 x) (total_at 3 x) (total_at 4 x)
        (total_at 5 x) (total_at 6 x) (total_at 7 x)
    ∙ sym (bit_total-bytes x)

-- A product with 2 ^ k, by halves.
doubled : (k a : ℕ) → a * 2 ^ suc k ≡ a * 2 ^ k * 2
doubled k a = ap (λ t. a * t) (pow-suc 2 k) ∙ sym (mul_assoc a (2 ^ k) 2)

bit_total-high : (n q r : ℕ) → bit_total n (q * 2 ^ n + r) ≡ bit_total n r
bit_total-high zero q r = refl
bit_total-high (suc n) q r =
    let low : (q * 2 ^ suc n + r) % 2 ≡ r % 2 = omega (arith, doubled n q) in
    let half : (q * 2 ^ suc n + r) / 2 ≡ q * 2 ^ n + r / 2 = omega (arith, doubled n q) in
    omega (arith, low, ap (bit_total n) half, bit_total-high n q (r / 2))

bit_total-low : (x : ℕ) → bit_total 64 (x % 2 ^ 64) ≡ bit_total 64 x
bit_total-low x =
    let whole : x / 2 ^ 64 * 2 ^ 64 + x % 2 ^ 64 ≡ x = omega arith in
    sym (bit_total-high 64 (x / 2 ^ 64) (x % 2 ^ 64)) ∙ ap (bit_total 64) whole

bit_total-shifted : (n a i x : ℕ) → n ≡ a + i → bit_total n (x * 2 ^ a) ≡ bit_total i x
bit_total-shifted n zero i x e =
    let same : n ≡ i = omega (arith, e) in
    let once : x * 2 ^ 0 ≡ x = omega arith in rw (same, once) refl
bit_total-shifted zero (suc a) i x e = absurd (omega (arith, e))
bit_total-shifted (suc n) (suc a) i x e =
    let low : x * 2 ^ suc a % 2 ≡ 0 = omega (arith, doubled a x) in
    let half : x * 2 ^ suc a / 2 ≡ x * 2 ^ a = omega (arith, doubled a x) in
    omega (arith, low, ap (bit_total n) half, bit_total-shifted n a i x (omega (arith, e)))

-- `bit_rank` is the number of the bits below the bit `i` that are set, up to the width of a word.
pub bit_rank-total : (bits i : ℕ) → i ≤ 64 → bit_rank bits i ≡ bit_total i bits
unfolding bit_rank
bit_rank-total bits zero h = refl
bit_rank-total bits (suc i) h =
    let a = 64 - suc i in
    let width : a + suc i ≡ 64 = omega (arith, h) in
    let some_bits : (suc i == 0) ≡ false = ground arith in
    rw some_bits (
      count_of-total (bits * 2 ^ a % 2 ^ 64)
      ∙ bit_total-low (bits * 2 ^ a)
      ∙ bit_total-shifted 64 a (suc i) bits (sym width))
