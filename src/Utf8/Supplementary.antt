-- ===== src/Utf8/Supplementary.antt =====
-- Code points above ffff in core/utf8.c.
use client.Base.{
  Bool, ℕ, ◌+◌, ◌*◌, ◌/◌, ◌%◌, ◌^◌, ◌≤◌, ◌≡◌, ◌∙◌, bit_or, true, false, none, some, ◌∷◌, ◌++◌, ltb,
  leb, if◌then◌else◌, arith, Bool-cases, inl, inr,
}
use client.Utf8.{Bytes, machine, more, decode, utf8_char, byte_1, byte_2, utf8_encode}
use client.Utf8.Decode.{lead_3, step-lead_3, step-high_half, step-low_half, step-lead_4, step-wide}
use client.Utf8.RoundTrip.{decode-more, decode-fail, read_last}

-- The four bytes that `utf8_encode` writes.
abbrev pub four_bytes : ℕ → Bytes
four_bytes code = bit_or 0xe0 (code / 2 ^ 18) ∷ bit_or 0x80 (code / 2 ^ 12 % 2 ^ 6) ∷ byte_2 code

four_bytes-refused :
    (code : ℕ) (rest : Bytes)
    → 0x10000 ≤ code
    → code ≤ 0x1ffff
    → decode (machine 0 0) (four_bytes code ++ rest) ≡ none
four_bytes-refused code rest lo hi =
    let x = code / 2 ^ 18 in
    let y = code / 2 ^ 12 % 2 ^ 6 in
    let first : lead_3 x ≡ more (machine 29 x) = ground arith in
    let lower : ltb y 32 ≡ true = ground arith in
    decode-more (machine 0 0) (bit_or 0xe0 x) (bit_or 0x80 y ∷ (byte_2 code ++ rest))
      (step-lead_3 x (omega arith) ∙ first)
    ∙ decode-fail (machine 29 x) (bit_or 0x80 y) (byte_2 code ++ rest)
        (step-high_half x y (omega arith) ∙ rw lower)

-- What becomes of a code up to 1ffff, and of one above it.
abbrev pub Lost : Bool → ℕ → Bytes → Type 0
Lost true code rest =
    (utf8_encode code ≡ some (four_bytes code)) × (utf8_char (four_bytes code ++ rest) ≡ none)
Lost false code rest = utf8_encode code ≡ none

-- The tests that a code above ffff fails.
module _ (code : ℕ) (one : leb code 0x7f ≡ false) (two : leb code 0x7ff ≡ false)
    (three : leb code 0xffff ≡ false) where
  encoded : leb code 0x1ffff ≡ true → utf8_encode code ≡ some (four_bytes code)
  unfolding utf8_encode
  encoded four = rw (one, two, three, four)

  not_encoded : leb code 0x1ffff ≡ false → utf8_encode code ≡ none
  unfolding utf8_encode
  not_encoded five = rw (one, two, three, five)

-- No code above ffff survives: up to 1ffff the encoder writes four bytes, whose first is e0 and not
-- f0 with the highest bits of the code, and which the decoder refuses whatever follows; above that
-- it writes nothing.
pub utf8_encode_supplementary :
    (code : ℕ) (rest : Bytes) → 0x10000 ≤ code → Lost (leb code 0x1ffff) code rest
utf8_encode_supplementary code rest lo =
    let one : leb code 0x7f ≡ false = ground arith in
    let two : leb code 0x7ff ≡ false = ground arith in
    let three : leb code 0xffff ≡ false = ground arith in
    elim (Bool-cases (leb code 0x1ffff)) [
      | inl four ↦ rw four (
        encoded code one two three four,
        unfold utf8_char in four_bytes-refused code rest lo (ground arith),
      )
      | inr five ↦ rw five (not_encoded code one two three five)
    ]

-- The standard encoding of a code of four bytes whose lead byte is f1, f2 or f3.
abbrev pub standard_4 : ℕ → Bytes
standard_4 code = bit_or 0xf0 (code / 2 ^ 18) ∷ bit_or 0x80 (code / 2 ^ 12 % 2 ^ 6) ∷ byte_2 code

standard_4-decoded :
    (code : ℕ) (rest : Bytes)
    → 0x40000 ≤ code
    → code ≤ 0xfffff
    → decode (machine 0 0) (standard_4 code ++ rest)
      ≡ (if ltb (code / 2 ^ 6 % 2 ^ 6) 32 then some (code, rest) else none)
standard_4-decoded code rest lo hi =
    let x = code / 2 ^ 18 in
    let y = code / 2 ^ 12 % 2 ^ 6 in
    let w = code / 2 ^ 6 % 2 ^ 6 in
    let v = y + x * 64 in
    decode-more (machine 0 0) (bit_or 0xf0 x) (bit_or 0x80 y ∷ (byte_2 code ++ rest))
      (step-lead_4 x (omega arith) (omega arith))
    ∙ decode-more (machine 25 x) (bit_or 0x80 y) (byte_2 code ++ rest) (step-wide x y (omega arith))
    ∙ elim (Bool-cases (ltb w 32)) [
      | inl lower ↦ rw lower (
          decode-more (machine 17 v) (bit_or 0x80 w) (byte_1 code ++ rest)
            (step-low_half v w (omega arith) ∙ rw lower)
          ∙ read_last (w + v * 64) (code % 2 ^ 6) code rest (omega arith) (omega arith))
      | inr upper ↦ rw upper (
          decode-fail (machine 17 v) (bit_or 0x80 w) (byte_1 code ++ rest)
            (step-low_half v w (omega arith) ∙ rw upper))
    ]

-- Of the codes 40000..fffff in their standard encoding, the decoder accepts those whose third byte
-- is below a0, and refuses the others.
pub utf8_char-standard_4 :
    (code : ℕ) (rest : Bytes)
    → 0x40000 ≤ code
    → code ≤ 0xfffff
    → utf8_char (standard_4 code ++ rest)
      ≡ (if ltb (code / 2 ^ 6 % 2 ^ 6) 32 then some (code, rest) else none)
unfolding utf8_char
utf8_char-standard_4 code rest lo hi = standard_4-decoded code rest lo hi
