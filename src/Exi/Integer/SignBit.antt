-- ===== src/Exi/Integer/SignBit.antt =====
-- Signed integers are read back as they were written.
use mathlib.Core.Path.{subst}
use client.Base.{
  append-nil, append_assoc, ℕ, zero, suc, ◌+◌, ◌-◌, ◌*◌, ◌/◌, ◌%◌, ◌^◌, ◌<◌, ◌≡◌, refl, sym, ◌∙◌,
  ap, bit_or, Bool, true, false, Option, none, some, List, [], ◌∷◌, ◌++◌, ◌==◌, ltb, if◌then◌else◌,
  take, drop, length, arith, All, Bool-cases, inl, inr,
}
use client.Base.Int.{ℤ, pos, negsuc}
use client.Base.Bits.{bit_or-shifted, bit_or_comm}
use client.Exi.{Output, output_uint, Parser, parse_uint}
use client.Exi.Bits.{byte_bits, stream_bits, written, pending, IsValid, below_8}
use client.Exi.Bytes.{stream_bits-last, length-drop}
use client.Exi.Groups.{IsClean, groups, output_groups-written}
use client.Exi.RoundTrip.{ReadBack, append_cancel, parse_uint-output_uint}
use client.Exi.Integer.{
  output_bit, parse_bit, bit_of, is_negative, magnitude, with_sign, output_integer, parse_integer,
  restore,
}

-- A bit added to a byte whose first `k` bits are written.
abbrev Added : ℕ → ℕ → ℕ → Type 0
Added last b k =
    last % 2 ^ (8 - k) ≡ 0
    → (last ≡ last / 2 ^ (8 - k) * 2 ^ (8 - k))
      × (b * 2 ^ (7 - k) < 2 ^ (8 - k))
      × (take (k + 1) (byte_bits (last + b * 2 ^ (7 - k))) ≡ take k (byte_bits last) ++ b ∷ [])
      × (last + b * 2 ^ (7 - k) < 256)
      × ((last + b * 2 ^ (7 - k)) % 2 ^ (8 - (k + 1)) ≡ 0)

Added-lem : (last b k : ℕ) → last < 256 → b < 2 → k < 8 → Added last b k
Added-lem last b k h l =
    below_8 (Added last b) (λ z. (omega arith, omega arith, ground arith, omega arith, omega arith))
      (λ z. (omega arith, omega arith, ground arith, omega arith, omega arith))
      (λ z. (omega arith, omega arith, ground arith, omega arith, omega arith))
      (λ z. (omega arith, omega arith, ground arith, omega arith, omega arith))
      (λ z. (omega arith, omega arith, ground arith, omega arith, omega arith))
      (λ z. (omega arith, omega arith, ground arith, omega arith, omega arith))
      (λ z. (omega arith, omega arith, ground arith, omega arith, omega arith))
      (λ z. (omega arith, omega arith, ground arith, omega arith, omega arith)) k

or-bit :
    (last b k : ℕ)
    → last < 256
    → b < 2
    → k < 8
    → last % 2 ^ (8 - k) ≡ 0
    → bit_or last (b * 2 ^ (7 - k)) ≡ last + b * 2 ^ (7 - k)
or-bit last b k h l m z =
    let d = Added-lem last b k h l m z in
    ap (λ t. bit_or t (b * 2 ^ (7 - k))) d.0
    ∙ bit_or_comm (last / 2 ^ (8 - k) * 2 ^ (8 - k)) (b * 2 ^ (7 - k))
    ∙ bit_or-shifted (8 - k) (b * 2 ^ (7 - k)) (last / 2 ^ (8 - k)) d.1
    ∙ omega (arith, d.0)

pub output_bit-written :
    (o : Output) (b : ℕ)
    → IsValid o
    → b < 2
    → (written (output_bit o b) ≡ written o ++ b ∷ []) × IsValid (output_bit o b)
unfolding output_bit
output_bit-written o b v h =
    let d = Added-lem o.last b o.bit v.byte h v.offset v.clear in
    let or = or-bit o.last b o.bit v.byte h v.offset v.clear in
    elim (Bool-cases (o.bit == 7)) [
      | inl e ↦
          let end : o.bit ≡ 7 = ground arith in
          let clear = subst (λ k. o.last % 2 ^ (8 - k) ≡ 0) end v.clear in
          let d7 = Added-lem o.last b 7 v.byte h (omega arith) clear in
          let once : b * 2 ^ (7 - 7) ≡ b = omega arith in
          let or7 =
            ap (bit_or o.last) (sym once) ∙ or-bit o.last b 7 v.byte h (omega arith) clear in
          rw e (
            append-nil _
                ∙ stream_bits-last o.done (bit_or o.last b)
                ∙ ap (λ t. stream_bits o.done ++ byte_bits t) or7
                ∙ ap (λ t. stream_bits o.done ++ t) d7.2
                ∙ ap (λ k. stream_bits o.done ++ (take k (byte_bits o.last) ++ b ∷ [])) (sym end)
                ∙ sym (append_assoc (stream_bits o.done) (take o.bit (byte_bits o.last)) (b ∷ [])),
            record { offset = omega arith; byte = omega arith; clear = refl },
          )
      | inr e ↦
          rw (e, or)
            (
              ap (λ t. stream_bits o.done ++ t) d.2
                  ∙ sym
                      (append_assoc (stream_bits o.done) (take o.bit (byte_bits o.last)) (b ∷ [])),
              record { offset = ground arith; byte = d.3; clear = d.4 },
            )
    ]

-- The bit at the offset `k`, and what is behind it.
abbrev Bit : List ℕ → ℕ → ℕ → Type 0
Bit s x k = (drop k (byte_bits x ++ s) ≡ (x / 2 ^ (7 - k) % 2) ∷ drop (k + 1) (byte_bits x ++ s))

Bit-lem : (s : List ℕ) (x k : ℕ) → k < 8 → Bit s x k
Bit-lem s x k =
    below_8 (Bit s x) (ground arith) (ground arith) (ground arith) (ground arith) (ground arith)
      (ground arith) (ground arith) (ground arith) k

pub record TakenBit (b : ℕ) (tail : List ℕ) (r : ℕ × Parser) : Type 0 where
  pub value : r.0 ≡ b
  pub left : pending r.1 ≡ tail
  pub clean : IsClean r.1

bit_of-TakenBit :
    (p : Parser) (rest : List ℕ) (b : ℕ) (tail : List ℕ)
    → p.rest ≡ rest
    → IsClean p
    → pending p ≡ b ∷ tail
    → TakenBit b tail (bit_of rest p)
unfolding bit_of
bit_of-TakenBit p [] b tail r c e = absurd (
    omega (
      arith,
      ap length e,
      length-drop p.bit (stream_bits p.rest),
      ap (λ t. length (stream_bits t)) r,
    ))
bit_of-TakenBit p (x ∷ next) b tail r c e =
    let bytes : All (λ t. t < 256) (x ∷ next) = subst (All (λ t. t < 256)) r c.0.bytes in
    let stream : (x / 2 ^ (7 - p.bit) % 2) ∷ drop (p.bit + 1) (stream_bits (x ∷ next)) ≡ b ∷ tail =
      sym (Bit-lem (stream_bits next) x p.bit c.0.offset)
      ∙ ap (λ t. drop p.bit (stream_bits t)) (sym r)
      ∙ e in
    let head : x / 2 ^ (7 - p.bit) % 2 ≡ b = ground (arith, stream) in
    let behind : drop (p.bit + 1) (stream_bits (x ∷ next)) ≡ tail = ground (arith, stream) in
    elim (Bool-cases (p.bit + 1 == 8)) [
      | inl full ↦
          let end : p.bit + 1 ≡ 8 = ground arith in
          rw full (record {
            value = head;
            left = ap (λ k. drop k (stream_bits (x ∷ next))) (sym end) ∙ behind;
            clean = (record { offset = omega arith; bytes = bytes.1 }, c.1);
          })
      | inr more ↦ rw more (record {
        value = head;
        left = ap (λ t. drop (p.bit + 1) (stream_bits t)) r ∙ behind;
        clean = (record { offset = ground (arith, c.0.offset); bytes = c.0.bytes }, c.1);
      })
    ]

pub parse_bit-TakenBit :
    (p : Parser) (b : ℕ) (tail : List ℕ)
    → IsClean p
    → pending p ≡ b ∷ tail
    → TakenBit b tail (parse_bit p)
unfolding parse_bit
parse_bit-TakenBit p b tail c e = bit_of-TakenBit p p.rest b tail refl c e

abbrev pub ReadSigned : Bool → ℤ → List ℕ → Option (ℤ × Parser) → Type 0
ReadSigned true x tail r = (q : Parser) × (r ≡ some (x, q)) × (pending q ≡ tail) × IsClean q
ReadSigned false x tail r = r ≡ none

with_sign-magnitude : (x : ℤ) → with_sign (is_negative x) (magnitude x) ≡ x
with_sign-magnitude (pos zero) = refl
with_sign-magnitude (pos (suc n)) = refl
with_sign-magnitude (negsuc n) = refl

restore-clean : (p q : Parser) → q.truncated ≡ false → restore p q ≡ q
unfolding restore
restore-clean p q h = ap (λ t. if t then record q { rest = p.rest; bit = p.bit } else q) h

signed :
    (ok : Bool) (x : ℤ) (p : Parser) (tail : List ℕ)
    → (parse_bit p).0 ≡ is_negative x
    → ReadBack ok (magnitude x) tail (parse_uint (parse_bit p).1)
    → ReadSigned ok x tail (parse_integer p)
unfolding parse_integer
signed true x p tail s (q, read, left, clean) = (
  q,
  rw (read, s, restore-clean p q clean.1, parse_integer)
      (ap (λ t. some (t, q)) (with_sign-magnitude x)),
  left,
  clean,
)
signed false x p tail s read = rw (read, parse_integer)

is_negative-lt : (x : ℤ) → is_negative x < 2
is_negative-lt (pos n) = omega arith
is_negative-lt (negsuc n) = omega arith

-- A parser at the place where a signed integer is written, at any offset within a byte and on data
-- that go on in any way, reads it back and stands behind it, where its magnitude is below 2 ^ 31;
-- for a larger one it shifts an `int` too far, which is undefined.
pub parse_integer-output_integer :
    (o : Output) (x : ℤ) (p : Parser) (tail : List ℕ)
    → IsValid o
    → IsClean p
    → written o ++ pending p ≡ written (output_integer o x) ++ tail
    → ReadSigned (ltb (magnitude x) (2 ^ 31)) x tail (parse_integer p)
unfolding output_integer output_uint
parse_integer-output_integer o x p tail v c e =
    let sign = output_bit-written o (is_negative x) v (is_negative-lt x) in
    let o' = output_bit o (is_negative x) in
    let number = output_groups-written 10 o' (magnitude x) sign.1 in
    let bits = stream_bits (groups 10 (magnitude x)) in
    let ahead : pending p ≡ is_negative x ∷ (bits ++ tail) = append_cancel (written o) _ _ (
      e
      ∙ ap (λ t. t ++ tail) (number.0 ∙ ap (λ t. t ++ bits) sign.0)
      ∙ ap (λ t. t ++ tail) (append_assoc (written o) (is_negative x ∷ []) bits)
      ∙ append_assoc (written o) (is_negative x ∷ bits) tail) in
    let taken = parse_bit-TakenBit p (is_negative x) (bits ++ tail) c ahead in
    signed (ltb (magnitude x) (2 ^ 31)) x p tail taken.value (
      parse_uint-output_uint o' (magnitude x) (parse_bit p).1 tail sign.1 taken.clean (
        ap (λ t. written o' ++ t) taken.left
        ∙ sym (append_assoc (written o') bits tail)
        ∙ ap (λ t. t ++ tail) (sym number.0)))
