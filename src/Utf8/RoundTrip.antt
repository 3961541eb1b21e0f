-- ===== src/Utf8/RoundTrip.antt =====
-- The encoder and the decoder of core/utf8.c together.
use client.Base.{
  ℕ, ◌+◌, ◌*◌, ◌/◌, ◌%◌, ◌^◌, ◌≤◌, ◌<◌, ◌≡◌, ◌∙◌, ap, bit_or, Bool, true, false, Option, none, some,
  [], ◌∷◌, ◌++◌, ◌==◌, ◌&&◌, ltb, leb, if◌then◌else◌, arith, Bool-cases, inl, inr,
}
use client.Utf8.{
  Bytes, Machine, machine, fail, done, more, step, decode, utf8_char, byte_1, byte_2, utf8_encode,
}
use client.Utf8.Decode.{
  step-lead_2, step-lead_3, step-last, step-middle, step-low_half, step-high_half, lead_2,
}

module _ (m : Machine) (c : ℕ) (rest : Bytes) where
  pub decode-more : {m' : Machine} → step m c ≡ more m' → decode m (c ∷ rest) ≡ decode m' rest
  unfolding decode
  decode-more e = rw (e, decode)

  pub decode-done : {code : ℕ} → step m c ≡ done code → decode m (c ∷ rest) ≡ some (code, rest)
  unfolding decode
  decode-done e = rw (e, decode)

  pub decode-fail : step m c ≡ fail → decode m (c ∷ rest) ≡ none
  unfolding decode
  decode-fail e = rw (e, decode)

abbrev pub is_surrogate : ℕ → Bool
is_surrogate code = leb 0xd800 code && leb code 0xdfff

-- What the decoder makes of the bytes that were written for a code, with any text behind them.
abbrev pub read_back : ℕ → Bytes → Option (ℕ × Bytes)
read_back code rest = if is_surrogate code then none else some (code, rest)

-- The last byte.
pub read_last :
    (v y code : ℕ) (rest : Bytes)
    → y < 64
    → y + v * 64 ≡ code
    → decode (machine 9 v) (bit_or 0x80 y ∷ rest) ≡ some (code, rest)
read_last v y code rest h e =
    decode-done (machine 9 v) (bit_or 0x80 y) rest (step-last v y h) ∙ ap (λ t. some (t, rest)) e

-- Two bytes after a lead byte of three: `s` is the state that the lead byte leads to.
read_two :
    (code : ℕ) (rest : Bytes)
    → 0x800 ≤ code
    → code ≤ 0xffff
    → decode
        (machine
          (if code / 2 ^ 12 == 0 then 29 else if code / 2 ^ 12 == 13 then 17 else 13)
          (code / 2 ^ 12))
        (byte_2 code ++ rest)
      ≡ read_back code rest
read_two code rest lo hi =
    let x = code / 2 ^ 12 in
    let y = code / 2 ^ 6 % 2 ^ 6 in
    let tail = byte_1 code ++ rest in
    let last = read_last (y + x * 64) (code % 2 ^ 6) code rest (omega arith) (omega arith) in
    elim (Bool-cases (x == 0)) [
      | inl zero_lead ↦
          let upper : ltb y 32 ≡ false = ground arith in
          let plain : is_surrogate code ≡ false = ground arith in
          rw (zero_lead, plain)
            (decode-more (machine 29 x) (bit_or 0x80 y) tail
                (step-high_half x y (omega arith) ∙ rw upper)
              ∙ last)
      | inr other_lead ↦ elim (Bool-cases (x == 13)) [
        | inl ed ↦ elim (Bool-cases (ltb y 32)) [
          | inl lower ↦
              let plain : is_surrogate code ≡ false = ground arith in
              rw (other_lead, ed, plain)
                (decode-more (machine 17 x) (bit_or 0x80 y) tail
                    (step-low_half x y (omega arith) ∙ rw lower)
                  ∙ last)
          | inr upper ↦
              let surrogate : is_surrogate code ≡ true = ground arith in
              rw (other_lead, ed, surrogate)
                (decode-fail (machine 17 x) (bit_or 0x80 y) tail
                  (step-low_half x y (omega arith) ∙ rw upper))
        ]
        | inr plain_lead ↦
            let plain : is_surrogate code ≡ false = ground arith in
            rw (other_lead, plain_lead, plain)
              (decode-more (machine 13 x) (bit_or 0x80 y) tail (step-middle x y (omega arith))
                ∙ last)
      ]
    ]

one-byte : (code : ℕ) (rest : Bytes) → code < 128 → utf8_char (code ∷ rest) ≡ read_back code rest
unfolding utf8_char decode step
one-byte code rest h = ground arith

two-bytes :
    (code : ℕ) (rest : Bytes)
    → 128 ≤ code
    → code ≤ 0x7ff
    → decode (machine 0 0) (bit_or 0xc0 (code / 2 ^ 6) ∷ (byte_1 code ++ rest))
      ≡ read_back code rest
two-bytes code rest lo hi =
    let x = code / 2 ^ 6 in
    let lead : lead_2 x ≡ more (machine 9 x) = ground arith in
    let plain : is_surrogate code ≡ false = ground arith in
    rw plain (
      decode-more (machine 0 0) (bit_or 0xc0 x) (byte_1 code ++ rest)
        (step-lead_2 x (omega arith) ∙ lead)
      ∙ read_last x (code % 2 ^ 6) code rest (omega arith) (omega arith))

three-bytes :
    (code : ℕ) (rest : Bytes)
    → 0x800 ≤ code
    → code ≤ 0xffff
    → decode (machine 0 0) (bit_or 0xe0 (code / 2 ^ 12) ∷ (byte_2 code ++ rest))
      ≡ read_back code rest
three-bytes code rest lo hi =
    decode-more (machine 0 0) (bit_or 0xe0 (code / 2 ^ 12)) (byte_2 code ++ rest)
      (step-lead_3 (code / 2 ^ 12) (omega arith))
    ∙ read_two code rest lo hi

-- Every code of at most 16 bits is encoded, and decoded again from the bytes whatever follows
-- them, except that the decoder refuses the surrogates d800..dfff.
pub utf8_char-utf8_encode :
    (code : ℕ) (rest : Bytes)
    → code ≤ 0xffff
    → (bytes : Bytes) × (utf8_encode code ≡ some bytes)
      × (utf8_char (bytes ++ rest) ≡ read_back code rest)
unfolding utf8_encode
utf8_char-utf8_encode code rest h = elim (Bool-cases (leb code 0x7f)) [
  | inl one ↦ (code ∷ [], rw one, one-byte code rest (ground arith))
  | inr more_one ↦ elim (Bool-cases (leb code 0x7ff)) [
    | inl two ↦ (
      bit_or 0xc0 (code / 2 ^ 6) ∷ byte_1 code,
      rw (more_one, two),
      unfold utf8_char in two-bytes code rest (ground arith) (ground arith),
    )
    | inr more_two ↦
        let three : leb code 0xffff ≡ true = ground arith in
        (
          bit_or 0xe0 (code / 2 ^ 12) ∷ byte_2 code,
          rw (more_one, more_two, three),
          unfold utf8_char in three-bytes code rest (ground arith) h,
        )
  ]
]
