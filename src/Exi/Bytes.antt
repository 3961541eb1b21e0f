-- ===== src/Exi/Bytes.antt =====
-- `output_byte` and `parse_byte` at any offset within a byte.
use mathlib.Core.Path.{subst}
use client.Base.{
  append-nil, append_assoc, ℕ, zero, suc, ◌+◌, ◌-◌, ◌*◌, ◌/◌, ◌%◌, ◌^◌, ◌≤◌, ◌<◌, ◌≡◌, refl, sym,
  ◌∙◌, ap, bit_or, false, List, [], ◌∷◌, ◌++◌, ◌==◌, take, drop, length, arith, All, Bool-cases,
  inl, inr,
}
use client.Exi.{Output, output_byte, Parser, parse_byte, parse_aligned, parse_across}
use client.Exi.Bits.{
  byte_bits, stream_bits, written, pending, IsValid, Across-lem, Read-lem, byte_bits-injective,
  or-high, or-low, Clear-lem,
}

stream_bits-append : (xs ys : List ℕ) → stream_bits (xs ++ ys) ≡ stream_bits xs ++ stream_bits ys
stream_bits-append [] ys = refl
stream_bits-append (x ∷ xs) ys = ap (λ t. byte_bits x ++ t) (stream_bits-append xs ys)

pub stream_bits-last :
    (xs : List ℕ) (b : ℕ) → stream_bits (xs ++ b ∷ []) ≡ stream_bits xs ++ byte_bits b
stream_bits-last xs b = stream_bits-append xs (b ∷ [])

-- A byte is written behind what was written before, bit by bit.
pub output_byte-written :
    (o : Output) (b : ℕ)
    → IsValid o
    → b < 256
    → (written (output_byte o b) ≡ written o ++ byte_bits b) × IsValid (output_byte o b)
unfolding output_byte
output_byte-written o b v h = elim (Bool-cases (o.bit == 0)) [
  | inl e ↦
      let start : o.bit ≡ 0 = ground arith in
      rw (e, start)
        (
          append-nil _
              ∙ stream_bits-last o.done b
              ∙ ap (λ t. t ++ byte_bits b) (sym (append-nil (stream_bits o.done))),
          record { offset = omega arith; byte = omega arith; clear = refl },
        )
  | inr e ↦
      let placed = Across-lem o.last b o.bit v.byte h v.offset v.clear in
      let high = or-high o.last b o.bit h v.offset v.clear in
      rw e (
        ap (λ t. t ++ take o.bit (byte_bits (b * 2 ^ (8 - o.bit) % 2 ^ 8)))
              (stream_bits-last o.done (bit_or o.last (b / 2 ^ o.bit))
                ∙ ap (λ t. stream_bits o.done ++ byte_bits t) high)
            ∙ append_assoc (stream_bits o.done) (byte_bits (o.last + b / 2 ^ o.bit)) _
            ∙ ap (λ t. stream_bits o.done ++ t) placed
            ∙ sym (append_assoc (stream_bits o.done) (take o.bit (byte_bits o.last)) (byte_bits b)),
        record { offset = v.offset; byte = omega arith; clear = Clear-lem b o.bit v.offset },
      )
]

-- A parser at an offset within a byte, on bytes.
pub record IsReading (p : Parser) : Type 0 where
  pub offset : p.bit < 8
  pub bytes : All (λ b. b < 256) p.rest

-- What a byte read leaves: the bits behind it, at the same offset.
pub record Taken (b : ℕ) (tail : List ℕ) (p : Parser) (r : ℕ × Parser) : Type 0 where
  pub value : r.0 ≡ b
  pub left : pending r.1 ≡ tail
  pub whole : r.1.truncated ≡ p.truncated
  pub reading : IsReading r.1

pub length-drop : (k : ℕ) (xs : List ℕ) → length (drop k xs) ≡ length xs - k
length-drop zero xs = omega arith
length-drop (suc k) [] = omega arith
length-drop (suc k) (x ∷ xs) = omega (arith, length-drop k xs)

-- At least eight bits are pending.
enough :
    (p : Parser) (b : ℕ) (tail : List ℕ)
    → pending p ≡ byte_bits b ++ tail
    → 8 + p.bit ≤ length (stream_bits p.rest)
enough p b tail e = omega (arith, ap length e, length-drop p.bit (stream_bits p.rest))

Taken-aligned :
    (p : Parser) (rest : List ℕ) (b : ℕ) (tail : List ℕ)
    → p.rest ≡ rest
    → p.bit ≡ 0
    → IsReading p
    → b < 256
    → pending p ≡ byte_bits b ++ tail
    → Taken b tail p (parse_aligned rest p)
unfolding parse_aligned
Taken-aligned p [] b tail r z v h e =
    absurd (omega (arith, enough p b tail e, ap (λ t. length (stream_bits t)) r))
Taken-aligned p (x ∷ rest) b tail r z v h e =
    let bytes : All (λ c. c < 256) (x ∷ rest) = subst (All (λ c. c < 256)) r v.bytes in
    let stream : byte_bits x ++ stream_bits rest ≡ byte_bits b ++ tail =
      ap (λ k. drop k (stream_bits (x ∷ rest))) (sym z)
      ∙ ap (λ t. drop p.bit (stream_bits t)) (sym r)
      ∙ e in
    let same = byte_bits-injective x b (stream_bits rest) tail bytes.0 h stream in
    record {
      value = same.0;
      left = ap (λ k. drop k (stream_bits rest)) z ∙ same.1;
      whole = refl;
      reading = record { offset = v.offset; bytes = bytes.1 };
    }

Taken-across :
    (p : Parser) (rest : List ℕ) (b : ℕ) (tail : List ℕ)
    → p.rest ≡ rest
    → (p.bit == 0) ≡ false
    → IsReading p
    → b < 256
    → pending p ≡ byte_bits b ++ tail
    → Taken b tail p (parse_across rest p)
unfolding parse_across
Taken-across p [] b tail r z v h e =
    absurd (omega (arith, enough p b tail e, ap (λ t. length (stream_bits t)) r))
Taken-across p (x ∷ []) b tail r z v h e =
    absurd (ground (arith, enough p b tail e, ap (λ t. length (stream_bits t)) r))
Taken-across p (x ∷ y ∷ rest) b tail r z v h e =
    let bytes : All (λ c. c < 256) (x ∷ y ∷ rest) = subst (All (λ c. c < 256)) r v.bytes in
    let byte = bit_or (x * 2 ^ p.bit % 2 ^ 8) (y / 2 ^ (8 - p.bit)) in
    let stream : drop p.bit (byte_bits x ++ (byte_bits y ++ stream_bits rest))
        ≡ byte_bits b ++ tail =
      ap (λ t. drop p.bit (stream_bits t)) (sym r) ∙ e in
    let read =
      Read-lem (stream_bits rest) x y byte p.bit bytes.0 bytes.1.0 v.offset
        (or-low x y p.bit bytes.1.0 v.offset) in
    let same = byte_bits-injective byte b _ tail read.0 h (sym read.1 ∙ stream) in
    record {
      value = same.0;
      left = same.1;
      whole = refl;
      reading = record { offset = v.offset; bytes = bytes.1 };
    }

-- Eight pending bits are read as the byte that they are.
pub parse_byte-Taken :
    (p : Parser) (b : ℕ) (tail : List ℕ)
    → IsReading p
    → b < 256
    → pending p ≡ byte_bits b ++ tail
    → Taken b tail p (parse_byte p)
unfolding parse_byte
parse_byte-Taken p b tail v h e = elim (Bool-cases (p.bit == 0)) [
  | inl z ↦ rw z (Taken-aligned p p.rest b tail refl (ground arith) v h e)
  | inr z ↦ rw z (Taken-across p p.rest b tail refl z v h e)
]
