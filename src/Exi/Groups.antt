-- ===== src/Exi/Groups.antt =====
-- One group of seven bits in `output_uint` and `parse_uint`.
use client.Base.{
  append-nil, append_assoc, ℕ, zero, suc, ◌+◌, ◌*◌, ◌/◌, ◌%◌, ◌^◌, ◌<◌, ◌≡◌, refl, sym, ◌∙◌, ap,
  bit_or, bit_and, Bool, true, false, none, some, List, [], ◌∷◌, ◌++◌, ◌==◌, ltb, if◌then◌else◌,
  arith, Bool-cases, inl, inr,
}
use client.Base.Bits.{bit_or-shifted, all_below, all_below-true}
use client.Exi.{Output, output_byte, output_groups, Parser, parse_byte, shift_group, parse_groups}
use client.Exi.Bits.{byte_bits, stream_bits, written, pending, IsValid}
use client.Exi.Bytes.{output_byte-written, IsReading, parse_byte-Taken}

-- The bytes of a number: its groups from the lowest, all but the last with the high bit set.
abbrev pub groups : ℕ → ℕ → List ℕ
groups zero x = []
groups (suc fuel) x =
    let rest = groups fuel (x / 2 ^ 7) in
    if x / 2 ^ 7 == 0 then x % 2 ^ 7 ∷ [] else (x % 2 ^ 7 + 128) ∷ rest

marked : (v : ℕ) → v < 128 → bit_or v 0x80 ≡ v + 128
marked v h = bit_or-shifted 7 v 1 h

pub output_groups-written :
    (fuel : ℕ) (o : Output) (x : ℕ)
    → IsValid o
    → (written (output_groups fuel o x) ≡ written o ++ stream_bits (groups fuel x))
      × IsValid (output_groups fuel o x)
unfolding output_groups
output_groups-written zero o x v = (sym (append-nil (written o)), v)
output_groups-written (suc fuel) o x v = elim (Bool-cases (x / 2 ^ 7 == 0)) [
  | inl last ↦ rw last (output_byte-written o (x % 2 ^ 7) v (omega arith))
  | inr more ↦
      let first = output_byte-written o (x % 2 ^ 7 + 128) v (omega arith) in
      let rest = output_groups-written fuel (output_byte o (x % 2 ^ 7 + 128)) (x / 2 ^ 7) first.1 in
      rw (more, marked (x % 2 ^ 7) (omega arith))
        (
          rest.0
              ∙ ap (λ t. t ++ stream_bits (groups fuel (x / 2 ^ 7))) first.0
              ∙ append_assoc (written o) (byte_bits (x % 2 ^ 7 + 128)) _,
          rest.1,
        )
]

same_test : Bool → Bool → Bool
same_test true b = b
same_test false true = false
same_test false false = true

same_test→eq : (a b : Bool) → same_test a b ≡ true → a ≡ b
unfolding same_test
same_test→eq true b e = sym e
same_test→eq false true e = absurd (ground arith)
same_test→eq false false e = refl

high_bit_table : all_below 256 (λ b. same_test (bit_and b 0x80 == 0) (ltb b 128)) ≡ true
unfolding all_below same_test
high_bit_table = refl

high_bit_test : (b : ℕ) → b < 256 → (bit_and b 0x80 == 0) ≡ ltb b 128
high_bit_test b h = same_test→eq _ _ (all_below-true 256 b _ h high_bit_table)

-- A parser that is not at the end of its data.
abbrev pub IsClean : Parser → Type 0
IsClean p = IsReading p × (p.truncated ≡ false)

module _ (fuel acc n v : ℕ) (p : Parser) (tail : List ℕ) (clean : IsClean p) (small : v < 128) where
  pub read_undefined :
      (b : ℕ)
      → b < 256
      → b % 2 ^ 7 ≡ v
      → pending p ≡ byte_bits b ++ tail
      → shift_group v n ≡ none
      → parse_groups (suc fuel) acc n p ≡ none
  unfolding parse_groups
  read_undefined b h e s undefined =
      let t = parse_byte-Taken p b tail clean.0 h s in
      let group : (parse_byte p).0 % 2 ^ 7 ≡ v = ap (λ c. c % 2 ^ 7) t.value ∙ e in
      rw (group, undefined, parse_groups)

  module _ (fits : shift_group v n ≡ some (v * 2 ^ n)) (below : acc < 2 ^ n) where
    pub read_last :
        pending p ≡ byte_bits v ++ tail
        → (q : Parser) × (parse_groups (suc fuel) acc n p ≡ some (acc + v * 2 ^ n, q))
          × (pending q ≡ tail)
          × IsClean q
    unfolding parse_groups
    read_last s =
        let t = parse_byte-Taken p v tail clean.0 (omega arith) s in
        let group : (parse_byte p).0 % 2 ^ 7 ≡ v = omega (arith, t.value) in
        let whole = t.whole ∙ clean.1 in
        let ends : (bit_and (parse_byte p).0 0x80 == 0) ≡ true =
          ap (λ c. bit_and c 0x80 == 0) t.value ∙ high_bit_test v (omega arith) ∙ ground arith in
        (
          (parse_byte p).1,
          rw (group, fits, whole, ends, parse_groups)
              (ap (λ c. some (c, (parse_byte p).1)) (bit_or-shifted n acc v below)),
          t.left,
          (t.reading, whole),
        )

    pub read_more :
        pending p ≡ byte_bits (v + 128) ++ tail
        → (q : Parser) × (parse_groups (suc fuel) acc n p
            ≡ parse_groups fuel (acc + v * 2 ^ n) (n + 7) q)
          × (pending q ≡ tail)
          × IsClean q
    unfolding parse_groups
    read_more s =
        let t = parse_byte-Taken p (v + 128) tail clean.0 (omega arith) s in
        let group : (parse_byte p).0 % 2 ^ 7 ≡ v = omega (arith, t.value) in
        let whole = t.whole ∙ clean.1 in
        let goes_on : (bit_and (parse_byte p).0 0x80 == 0) ≡ false =
          ap (λ c. bit_and c 0x80 == 0) t.value
          ∙ high_bit_test (v + 128) (omega arith)
          ∙ ground arith in
        (
          (parse_byte p).1,
          rw (group, fits, whole, goes_on, parse_groups)
              (ap (λ c. parse_groups fuel c (n + 7) (parse_byte p).1)
                (bit_or-shifted n acc v below)),
          t.left,
          (t.reading, whole),
        )
