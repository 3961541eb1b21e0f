-- ===== src/Exi/BitField/Written.antt =====
-- `output_bits` against `output_bit`.
use client.Base.{
  append-nil, append_assoc, ℕ, zero, suc, ◌+◌, ◌-◌, ◌*◌, ◌/◌, ◌%◌, ◌^◌, ◌<◌, ◌≡◌, refl, sym, ◌∙◌,
  ap, bit_or, false, List, [], ◌∷◌, ◌++◌, ◌==◌, All, All-append, arith, Bool-cases, inl, inr,
}
use client.Base.Bits.{bit_or-shifted, bit_or_comm, bit_or_assoc, bit_or-zero}
use native.Mathlib.Nat.{pow-suc}
use client.Exi.{Output}
use client.Exi.Bits.{written, IsValid, below_8}
use client.Exi.BitField.{high_bytes, output_bits_to, output_bits}
use client.Exi.BitField.Fields.{field}
use client.Exi.Integer.{output_bit}
use client.Exi.Integer.SignBit.{output_bit-written}

-- The bits of a list, one `output_bit` for each.
abbrev pub output_each : Output → List ℕ → Output
output_each o [] = o
output_each o (b ∷ bits) = output_each (output_bit o b) bits

output_each-last :
    (o : Output) (bits : List ℕ) (b : ℕ)
    → output_each o (bits ++ b ∷ []) ≡ output_bit (output_each o bits) b
output_each-last o [] b = refl
output_each-last o (c ∷ bits) b = output_each-last (output_bit o c) bits b

-- One place further within a byte.
abbrev Further : ℕ → ℕ → Type 0
Further x m =
    m < 7
    → (x / 2 ^ (m + 1) ≡ x / 2 / 2 ^ m)
      × (x / 2 * 2 ^ (8 - m) % 2 ^ 8 ≡ x / 2 * 2 ^ (8 - m) % 2 ^ 8 / 2 ^ (8 - m) * 2 ^ (8 - m))
      × (x % 2 * 2 ^ (7 - m) < 2 ^ (8 - m))
      × (x * 2 ^ (8 - (m + 1)) % 2 ^ 8 ≡ x / 2 * 2 ^ (8 - m) % 2 ^ 8 + x % 2 * 2 ^ (7 - m))

Further-lem : (x m : ℕ) → m < 8 → Further x m
Further-lem x m =
    below_8 (Further x) (λ l. (omega arith, omega arith, omega arith, omega arith))
      (λ l. (omega arith, omega arith, omega arith, omega arith))
      (λ l. (omega arith, omega arith, omega arith, omega arith))
      (λ l. (omega arith, omega arith, omega arith, omega arith))
      (λ l. (omega arith, omega arith, omega arith, omega arith))
      (λ l. (omega arith, omega arith, omega arith, omega arith))
      (λ l. (omega arith, omega arith, omega arith, omega arith)) (λ l. absurd (omega arith)) m

low_bit :
    (x m : ℕ)
    → m < 7
    → bit_or (x / 2 * 2 ^ (8 - m) % 2 ^ 8) (x % 2 * 2 ^ (7 - m)) ≡ x * 2 ^ (8 - (m + 1)) % 2 ^ 8
low_bit x m l =
    let f = Further-lem x m (omega arith) l in
    let low = x / 2 * 2 ^ (8 - m) % 2 ^ 8 in
    ap (λ t. bit_or t (x % 2 * 2 ^ (7 - m))) f.1
    ∙ bit_or_comm (low / 2 ^ (8 - m) * 2 ^ (8 - m)) (x % 2 * 2 ^ (7 - m))
    ∙ bit_or-shifted (8 - m) (x % 2 * 2 ^ (7 - m)) (low / 2 ^ (8 - m)) f.2
    ∙ omega (arith, f.1, f.3)

last_bit : (x : ℕ) → bit_or (x / 2 * 2 % 2 ^ 8) (x % 2) ≡ x % 2 ^ 8
last_bit x =
    ap (λ t. bit_or t (x % 2)) (omega arith)
    ∙ bit_or_comm (x / 2 % 2 ^ 7 * 2 ^ 1) (x % 2)
    ∙ bit_or-shifted 1 (x % 2) (x / 2 % 2 ^ 7) (omega arith)
    ∙ omega arith

-- A bit behind a field that ends within the byte, and one that fills it.
bit_within :
    (o : Output) (bytes : List ℕ) (x m : ℕ)
    → m < 7
    → output_bit (output_bits_to o bytes (x / 2 * 2 ^ (8 - m) % 2 ^ 8) m) (x % 2)
      ≡ output_bits_to o bytes (x * 2 ^ (8 - (m + 1)) % 2 ^ 8) (m + 1)
unfolding output_bit
bit_within o [] x m l =
    let inside : (m == 7) ≡ false = ground arith in
    rw inside (
      ap (λ t. record { done = o.done; last = t; bit = m + 1 })
        (bit_or_assoc o.last _ _ ∙ ap (bit_or o.last) (low_bit x m l)))
bit_within o (b ∷ bytes) x m l =
    let inside : (m == 7) ≡ false = ground arith in
    rw inside (
      ap (λ t. record { done = o.done ++ bit_or o.last b ∷ bytes; last = t; bit = m + 1 })
        (low_bit x m l))

bit_full :
    (o : Output) (bytes : List ℕ) (x : ℕ)
    → output_bit (output_bits_to o bytes (x / 2 * 2 ^ (8 - 7) % 2 ^ 8) 7) (x % 2)
      ≡ output_bits_to o (bytes ++ x % 2 ^ 8 ∷ []) (x * 2 ^ (8 - 0) % 2 ^ 8) 0
unfolding output_bit
bit_full o [] x =
    let empty : x * 2 ^ (8 - 0) % 2 ^ 8 ≡ 0 = omega arith in
    rw empty (
      ap (λ t. record { done = o.done ++ t ∷ []; last = 0; bit = 0 })
        (bit_or_assoc o.last _ _ ∙ ap (bit_or o.last) (last_bit x)))
bit_full o (b ∷ bytes) x =
    let empty : x * 2 ^ (8 - 0) % 2 ^ 8 ≡ 0 = omega arith in
    rw empty (
      ap (λ t. record { done = t; last = 0; bit = 0 })
        (ap (λ t. (o.done ++ bit_or o.last b ∷ bytes) ++ t ∷ []) (last_bit x)
          ∙ append_assoc o.done (bit_or o.last b ∷ bytes) (x % 2 ^ 8 ∷ [])))

high_bytes-suc :
    (i x : ℕ) → high_bytes (suc i) (x / 2 ^ 0) ≡ high_bytes i (x / 2 / 2 ^ 7) ++ x % 2 ^ 8 ∷ []
unfolding high_bytes
high_bytes-suc i x =
    let a : x / 2 ^ 0 / 2 ^ 8 ≡ x / 2 / 2 ^ 7 = omega arith in
    let b : x / 2 ^ 0 % 2 ^ 8 ≡ x % 2 ^ 8 = omega arith in rw (a, b)

output_bits-suc :
    (o : Output) (x n : ℕ) → output_bits o x (suc n) ≡ output_bit (output_bits o (x / 2) n) (x % 2)
unfolding output_bits
output_bits-suc o x n = elim (Bool-cases ((o.bit + n) % 8 == 7)) [
  | inl full ↦
      let m : (o.bit + n) % 8 ≡ 7 = ground arith in
      let m' : (o.bit + suc n) % 8 ≡ 0 = omega arith in
      let i' : (o.bit + suc n) / 8 ≡ suc ((o.bit + n) / 8) = omega arith in
      rw (m, m', i')
        (ap (λ t. output_bits_to o t (x * 2 ^ (8 - 0) % 2 ^ 8) 0)
            (high_bytes-suc ((o.bit + n) / 8) x)
          ∙ sym (bit_full o (high_bytes ((o.bit + n) / 8) (x / 2 / 2 ^ 7)) x))
  | inr inside ↦
      let small : (o.bit + n) % 8 < 7 = ground arith in
      let m' : (o.bit + suc n) % 8 ≡ (o.bit + n) % 8 + 1 = omega arith in
      let i' : (o.bit + suc n) / 8 ≡ (o.bit + n) / 8 = omega arith in
      let f = Further-lem x ((o.bit + n) % 8) (omega arith) small in
      rw (m', i', f.0) (sym (bit_within o _ x ((o.bit + n) % 8) small))
]

output_bits-zero : (o : Output) (x : ℕ) → x ≡ 0 → o.bit < 8 → output_bits o x 0 ≡ o
unfolding output_bits high_bytes
output_bits-zero o x z v =
    let i : (o.bit + 0) / 8 ≡ 0 = omega arith in
    let m : (o.bit + 0) % 8 ≡ o.bit = omega arith in
    let low : 0 * 2 ^ (8 - o.bit) % 2 ^ 8 ≡ 0 = omega arith in rw (i, m, z, low, bit_or-zero o.last)

-- A field that fits its width is written as its bits one by one, the highest first, at any offset
-- and of any width.
pub output_bits-eq-output_each :
    (o : Output) (x n : ℕ) → o.bit < 8 → x < 2 ^ n → output_bits o x n ≡ output_each o (field n x)
output_bits-eq-output_each o x zero v h = output_bits-zero o x (omega arith) v
output_bits-eq-output_each o x (suc n) v h =
    output_bits-suc o x n
    ∙ ap (λ t. output_bit t (x % 2))
        (output_bits-eq-output_each o (x / 2) n v (omega (arith, pow-suc 2 n)))
    ∙ sym (output_each-last o (field n (x / 2)) (x % 2))

output_each-written :
    (o : Output) (bits : List ℕ)
    → IsValid o
    → All (λ b. b < 2) bits
    → (written (output_each o bits) ≡ written o ++ bits) × IsValid (output_each o bits)
output_each-written o [] v h = (sym (append-nil (written o)), v)
output_each-written o (b ∷ bits) v h =
    let first = output_bit-written o b v h.0 in
    let rest = output_each-written (output_bit o b) bits first.1 h.1 in
    (rest.0 ∙ ap (λ t. t ++ bits) first.0 ∙ append_assoc (written o) (b ∷ []) bits, rest.1)

field-binary : (n x : ℕ) → All (λ b. b < 2) (field n x)
field-binary zero x = tt
field-binary (suc n) x =
    All-append (λ b. b < 2) (field n (x / 2)) (x % 2 ∷ []) (field-binary n (x / 2))
      (omega arith, tt)

pub output_bits-written :
    (o : Output) (x n : ℕ)
    → IsValid o
    → x < 2 ^ n
    → (written (output_bits o x n) ≡ written o ++ field n x) × IsValid (output_bits o x n)
output_bits-written o x n v h =
    rw (output_bits-eq-output_each o x n v.offset h)
      (output_each-written o (field n x) v (field-binary n x))
