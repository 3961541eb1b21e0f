-- ===== src/Exi/Bits.antt =====
-- The bytes of core/exi_output.c and core/exi_parse.c as a sequence of bits.
use client.Base.{
  ℕ, zero, suc, ◌+◌, ◌-◌, ◌*◌, ◌/◌, ◌%◌, ◌^◌, ◌<◌, ◌≡◌, ◌∙◌, ap, bit_or, List, [], ◌∷◌, ◌++◌, take,
  drop, arith,
}
use client.Base.Bits.{bit_or-shifted, bit_or_comm}
use client.Exi.{Output, Parser}

-- The bits of a byte, the highest first.
abbrev pub byte_bits : ℕ → List ℕ
byte_bits b =
    b / 128 % 2
    ∷ b / 64 % 2
    ∷ b / 32 % 2
    ∷ b / 16 % 2
    ∷ b / 8 % 2
    ∷ b / 4 % 2
    ∷ b / 2 % 2
    ∷ b % 2
    ∷ []

abbrev pub stream_bits : List ℕ → List ℕ
stream_bits [] = []
stream_bits (b ∷ bytes) = byte_bits b ++ stream_bits bytes

-- The bits that have been written, and those that are left to read.
abbrev pub written : Output → List ℕ
written o = stream_bits o.done ++ take o.bit (byte_bits o.last)

abbrev pub pending : Parser → List ℕ
pending p = drop p.bit (stream_bits p.rest)

-- What follows a valid output position: the bits behind it in its byte are zero.
pub record IsValid (o : Output) : Type 0 where
  pub offset : o.bit < 8
  pub byte : o.last < 256
  pub clear : o.last % 2 ^ (8 - o.bit) ≡ 0

-- Offsets one by one.
pub below_8 :
    (P : ℕ → Type 0) → P 0 → P 1 → P 2 → P 3 → P 4 → P 5 → P 6 → P 7 → (k : ℕ) → k < 8 → P k
below_8 P a b c d e f g h zero l = a
below_8 P a b c d e f g h (suc zero) l = b
below_8 P a b c d e f g h (suc (suc zero)) l = c
below_8 P a b c d e f g h (suc (suc (suc zero))) l = d
below_8 P a b c d e f g h (suc (suc (suc (suc zero)))) l = e
below_8 P a b c d e f g h (suc (suc (suc (suc (suc zero))))) l = f
below_8 P a b c d e f g h (suc (suc (suc (suc (suc (suc zero)))))) l = g
below_8 P a b c d e f g h (suc (suc (suc (suc (suc (suc (suc zero))))))) l = h
below_8 P a b c d e f g h (suc (suc (suc (suc (suc (suc (suc (suc k)))))))) l = absurd (omega arith)

-- A byte written across two bytes of the stream.
abbrev pub Across : ℕ → ℕ → ℕ → Type 0
Across last b k =
    last % 2 ^ (8 - k) ≡ 0
    → byte_bits (last + b / 2 ^ k) ++ take k (byte_bits (b * 2 ^ (8 - k) % 2 ^ 8))
      ≡ take k (byte_bits last) ++ byte_bits b

pub Across-lem : (last b k : ℕ) → last < 256 → b < 256 → k < 8 → Across last b k
Across-lem last b k h l =
    below_8 (Across last b) (λ z. ground arith) (λ z. ground arith) (λ z. ground arith)
      (λ z. ground arith) (λ z. ground arith) (λ z. ground arith) (λ z. ground arith)
      (λ z. ground arith) k

-- A byte read across two bytes of the stream.
abbrev pub Read : List ℕ → ℕ → ℕ → ℕ → ℕ → Type 0
Read s x y v k =
    v ≡ x * 2 ^ k % 2 ^ 8 + y / 2 ^ (8 - k)
    → (v < 256)
      × (drop k (byte_bits x ++ (byte_bits y ++ s)) ≡ byte_bits v ++ drop k (byte_bits y ++ s))

pub Read-lem : (s : List ℕ) (x y v k : ℕ) → x < 256 → y < 256 → k < 8 → Read s x y v k
Read-lem s x y v k h l =
    below_8 (Read s x y v) (λ e. (omega arith, ground arith)) (λ e. (omega arith, ground arith))
      (λ e. (omega arith, ground arith)) (λ e. (omega arith, ground arith))
      (λ e. (omega arith, ground arith)) (λ e. (omega arith, ground arith))
      (λ e. (omega arith, ground arith)) (λ e. (omega arith, ground arith)) k

pub byte_bits-injective :
    (v b : ℕ) (s t : List ℕ)
    → v < 256
    → b < 256
    → byte_bits v ++ s ≡ byte_bits b ++ t
    → (v ≡ b) × (s ≡ t)
byte_bits-injective v b s t h l e = (ground arith, ground arith)

abbrev Divides : ℕ → ℕ → ℕ → Type 0
Divides last b k =
    last % 2 ^ (8 - k) ≡ 0 → (last ≡ last / 2 ^ (8 - k) * 2 ^ (8 - k)) × (b / 2 ^ k < 2 ^ (8 - k))

Divides-lem : (last b k : ℕ) → b < 256 → k < 8 → Divides last b k
Divides-lem last b k h =
    below_8 (Divides last b) (λ z. (omega arith, omega arith)) (λ z. (omega arith, omega arith))
      (λ z. (omega arith, omega arith)) (λ z. (omega arith, omega arith))
      (λ z. (omega arith, omega arith)) (λ z. (omega arith, omega arith))
      (λ z. (omega arith, omega arith)) (λ z. (omega arith, omega arith)) k

pub or-high :
    (last b k : ℕ)
    → b < 256
    → k < 8
    → last % 2 ^ (8 - k) ≡ 0
    → bit_or last (b / 2 ^ k) ≡ last + b / 2 ^ k
or-high last b k h l z =
    let d = Divides-lem last b k h l z in
    ap (λ t. bit_or t (b / 2 ^ k)) d.0
    ∙ bit_or_comm (last / 2 ^ (8 - k) * 2 ^ (8 - k)) (b / 2 ^ k)
    ∙ bit_or-shifted (8 - k) (b / 2 ^ k) (last / 2 ^ (8 - k)) d.1
    ∙ omega (arith, d.0)

abbrev Clear : ℕ → ℕ → Type 0
Clear b k = b * 2 ^ (8 - k) % 2 ^ 8 % 2 ^ (8 - k) ≡ 0

pub Clear-lem : (b k : ℕ) → k < 8 → Clear b k
Clear-lem b k =
    below_8 (Clear b) (omega arith) (omega arith) (omega arith) (omega arith) (omega arith)
      (omega arith) (omega arith) (omega arith) k

abbrev Splits : ℕ → ℕ → ℕ → Type 0
Splits x y k = (x * 2 ^ k % 2 ^ 8 ≡ x * 2 ^ k % 2 ^ 8 / 2 ^ k * 2 ^ k) × (y / 2 ^ (8 - k) < 2 ^ k)

Splits-lem : (x y k : ℕ) → y < 256 → k < 8 → Splits x y k
Splits-lem x y k h =
    below_8 (Splits x y) (omega arith, omega arith) (omega arith, omega arith)
      (omega arith, omega arith) (omega arith, omega arith) (omega arith, omega arith)
      (omega arith, omega arith) (omega arith, omega arith) (omega arith, omega arith) k

pub or-low :
    (x y k : ℕ)
    → y < 256
    → k < 8
    → bit_or (x * 2 ^ k % 2 ^ 8) (y / 2 ^ (8 - k)) ≡ x * 2 ^ k % 2 ^ 8 + y / 2 ^ (8 - k)
or-low x y k h l =
    let d = Splits-lem x y k h l in
    ap (λ t. bit_or t (y / 2 ^ (8 - k))) d.0
    ∙ bit_or_comm (x * 2 ^ k % 2 ^ 8 / 2 ^ k * 2 ^ k) (y / 2 ^ (8 - k))
    ∙ bit_or-shifted k (y / 2 ^ (8 - k)) (x * 2 ^ k % 2 ^ 8 / 2 ^ k) d.1
    ∙ omega (arith, d.0)
