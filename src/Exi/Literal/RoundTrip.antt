-- ===== src/Exi/Literal/RoundTrip.antt =====
-- A literal of ASCII characters is read back as it was written.
use mathlib.Core.Option
use client.Base.{
  append-nil, append_assoc, ℕ, ◌+◌, ◌≤◌, ◌<◌, ◌≡◌, refl, sym, ◌∙◌, ap, bit_and, true, some, List,
  [], ◌∷◌, ◌++◌, ◌==◌, ltb, leb, length, arith, All,
}
use client.Base.Bits.{all_below, all_below-true}
use client.Utf8.{Bytes, utf8_char, utf8_length, utf8_length_past, utf8_encode, machine, step, done}
use client.Utf8.RoundTrip.{decode-done}
use client.Exi.{Output, output_uint, Parser, parse_byte}
use client.Exi.Bits.{byte_bits, stream_bits, written, pending, IsValid}
use client.Exi.Bytes.{parse_byte-Taken}
use client.Exi.Groups.{IsClean, groups}
use client.Exi.Binary.RoundTrip.{output_uint-written, parse_uint-read}
use client.Exi.Literal.{
  output_chars, exi_output_literal, parse_char, parse_literal, CharSize, char_size, TextSize,
  exi_utf8_length_from,
}

abbrev pub IsAscii : ℕ → Type 0
IsAscii c = (1 ≤ c) × (c < 128)

pub groups-ascii : (c : ℕ) → c < 128 → groups 10 c ≡ c ∷ []
groups-ascii c h = ground arith

step-ascii : (c : ℕ) → c < 128 → step (machine 0 0) c ≡ done c
unfolding step
step-ascii c h = let low : ltb c 128 ≡ true = ground arith in rw low

pub utf8_char-ascii : (c : ℕ) (rest : Bytes) → c < 128 → utf8_char (c ∷ rest) ≡ some (c, rest)
unfolding utf8_char
utf8_char-ascii c rest h = decode-done (machine 0 0) c rest (step-ascii c h)

low_half : all_below 128 (λ c. bit_and c 0x80 == 0) ≡ true
unfolding all_below
low_half = refl

no_high_bit : (c : ℕ) → c < 128 → (bit_and c 0x80 == 0) ≡ true
no_high_bit c h = all_below-true 128 c _ h low_half

utf8_length-ascii : (s : Bytes) → All IsAscii s → utf8_length s ≡ some (length s)
unfolding utf8_length
utf8_length-ascii [] h = refl
utf8_length-ascii (c ∷ rest) h =
    rw (no_high_bit c h.0.1, utf8_length_past)
      (ap (Option.map (λ n. n + 1)) (utf8_length-ascii rest h.1) ∙ ap some (omega arith))

output_chars-written :
    (s : Bytes) (o : Output)
    → All IsAscii s
    → IsValid o
    → (written (output_chars (length s) o s) ≡ written o ++ stream_bits s)
      × IsValid (output_chars (length s) o s)
unfolding output_chars
output_chars-written [] o h v = (sym (append-nil (written o)), v)
output_chars-written (c ∷ rest) o h v =
    let first = output_uint-written o c v in
    let later = output_chars-written rest (output_uint o c) h.1 first.1 in
    rw (utf8_char-ascii c rest h.0.1, output_chars)
      (
        later.0
            ∙ ap (λ t. t ++ stream_bits rest)
                (first.0 ∙ ap (λ t. written o ++ stream_bits t) (groups-ascii c h.0.1))
            ∙ append_assoc (written o) (byte_bits c) (stream_bits rest),
        later.1,
      )

char_size-ascii :
    (c : ℕ) (p : Parser) (tail : List ℕ)
    → c < 128
    → IsClean p
    → pending p ≡ byte_bits c ++ tail
    → (q : Parser) × (char_size 3 1 p ≡ CharSize.size 1 q) × (pending q ≡ tail) × IsClean q
unfolding char_size
char_size-ascii c p tail h k e =
    let t = parse_byte-Taken p c tail k.0 (omega arith) e in
    let low : (bit_and (parse_byte p).0 0x80 == 0) ≡ true =
      ap (λ b. bit_and b 0x80 == 0) t.value ∙ no_high_bit c h in
    let whole = t.whole ∙ k.1 in
    ((parse_byte p).1, rw (low, whole, char_size), t.left, (t.reading, whole))

pub exi_utf8_length-ascii :
    (s : Bytes) (n : ℕ) (p : Parser) (tail : List ℕ)
    → All IsAscii s
    → IsClean p
    → pending p ≡ stream_bits s ++ tail
    → exi_utf8_length_from n p (length s) ≡ TextSize.bytes (n + length s)
unfolding exi_utf8_length_from
exi_utf8_length-ascii [] n p tail h k e = ap TextSize.bytes (omega arith)
exi_utf8_length-ascii (c ∷ rest) n p tail h k e =
    let (q, one, left, clean) =
      char_size-ascii c p (stream_bits rest ++ tail) h.0.1 k
        (e ∙ append_assoc (byte_bits c) (stream_bits rest) tail) in
    rw (one, exi_utf8_length_from)
      (exi_utf8_length-ascii rest (n + 1) q tail h.1 clean left ∙ ap TextSize.bytes (omega arith))

pub parse_literal-ascii :
    (s : Bytes) (p : Parser) (tail : List ℕ)
    → All IsAscii s
    → IsClean p
    → pending p ≡ stream_bits s ++ tail
    → (q : Parser) × (parse_literal (length s) p ≡ some (s, q)) × (pending q ≡ tail) × IsClean q
unfolding parse_literal utf8_encode
parse_literal-ascii [] p tail h k e = (p, refl, e, k)
parse_literal-ascii (c ∷ rest) p tail h k e =
    let (q, one, left, clean) =
      parse_uint-read c p (stream_bits rest ++ tail) (omega (arith, h.0.1)) k (
        e
        ∙ append_assoc (byte_bits c) (stream_bits rest) tail
        ∙ ap (λ t. stream_bits t ++ (stream_bits rest ++ tail)) (sym (groups-ascii c h.0.1))) in
    let (r, later, left', clean') = parse_literal-ascii rest q tail h.1 clean left in
    let small : leb c 0x7f ≡ true = ground (arith, h.0.1) in
    (r, rw (one, small, later, parse_char, parse_literal), left', clean')

-- A literal is its length and its bytes in the stream.
pub exi_output_literal-written :
    (s : Bytes) (o : Output)
    → All IsAscii s
    → IsValid o
    → (o' : Output) × (exi_output_literal o s ≡ some o')
      × (written o' ≡ written o ++ (stream_bits (groups 10 (length s + 2)) ++ stream_bits s))
      × IsValid o'
unfolding exi_output_literal
exi_output_literal-written s o h v =
    let first = output_uint-written o (length s + 2) v in
    let o1 = output_uint o (length s + 2) in
    let later = output_chars-written s o1 h first.1 in
    (
      output_chars (length s) o1 s,
      rw (utf8_length-ascii s h),
      later.0 ∙ ap (λ t. t ++ stream_bits s) first.0 ∙ append_assoc (written o) _ (stream_bits s),
      later.1,
    )
