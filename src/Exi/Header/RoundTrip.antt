-- ===== src/Exi/Header/RoundTrip.antt =====
-- The header that is written is taken.
use mathlib.Core.Option
use client.Base.{
  append_assoc, ℕ, ◌+◌, ◌-◌, ◌*◌, ◌≤◌, ◌<◌, ◌≡◌, refl, sym, ◌∙◌, ap, true, false, some, List, [],
  ◌∷◌, ◌++◌, ◌==◌, ◌||◌, ltb, leb, if◌then◌else◌, length, length-append, drop, arith, All,
}
use client.Text.{Text, streq}
use client.Utf8.{Bytes}
use client.Exi.{Output, output_byte, Parser, parse_uint}
use client.Exi.Bits.{byte_bits, stream_bits, written, pending, IsValid, byte_bits-injective}
use client.Exi.Bytes.{output_byte-written}
use client.Exi.Groups.{IsClean, groups}
use client.Exi.BitField.{output_bits}
use client.Exi.BitField.Fields.{field}
use client.Exi.BitField.Written.{output_bits-written}
use client.Exi.BitField.RoundTrip.{parse_bits-field, behind, length-stream_bits}
use client.Exi.Integer.{parse_bit}
use client.Exi.Integer.SignBit.{parse_bit-TakenBit}
use client.Exi.Binary.{Outcome, value}
use client.Exi.Binary.RoundTrip.{parse_uint-read}
use client.Exi.Literal.RoundTrip.{
  IsAscii, exi_output_literal-written, parse_literal-ascii, groups-ascii,
}
use client.Exi.Strings.Ids.{c_string-ascii}
use client.Exi.Header.{
  cleared, exi_output_header, skip_cookie, identifier, header_byte, header_at, exi_parse_header,
}

cleared-IsValid : IsValid cleared
cleared-IsValid = record { offset = omega arith; byte = omega arith; clear = refl }

-- The bits of the header, from the first byte on.
abbrev header_bits : Bytes → List ℕ
header_bits s = field 6 0xc ++ (stream_bits (groups 10 (length s + 2)) ++ (stream_bits s ++ 1 ∷ []))

regroup : (a b c d e : List ℕ) → ((a ++ b) ++ (c ++ d)) ++ e ≡ a ++ (b ++ (c ++ (d ++ e)))
regroup a b c d e =
    append_assoc (a ++ b) (c ++ d) e
    ∙ append_assoc a b ((c ++ d) ++ e)
    ∙ ap (λ t. a ++ (b ++ t)) (append_assoc c d e)

exi_output_header-written :
    (s : Bytes) (o : Output)
    → All IsAscii s
    → exi_output_header s ≡ some o
    → written o ≡ byte_bits 0xa0 ++ header_bits s
unfolding exi_output_header
exi_output_header-written s o h e =
    let first = output_byte-written cleared 0xa0 cleared-IsValid (omega arith) in
    let o1 = output_byte cleared 0xa0 in
    let second = output_bits-written o1 0xc 6 first.1 (omega arith) in
    let o2 = output_bits o1 0xc 6 in
    let (o3, made, text, valid) = exi_output_literal-written s o2 h second.1 in
    let last = output_bits-written o3 1 1 valid (omega arith) in
    let same : some (output_bits o3 1 1) ≡ some o =
      sym (ap (Option.map (λ (t : Output). output_bits t 1 1)) made) ∙ e in
    let same' : output_bits o3 1 1 ≡ o = cc in
    ap written (sym same')
    ∙ last.0
    ∙ ap (λ t. t ++ 1 ∷ [])
        (text
          ∙ ap (λ t. t ++ (stream_bits (groups 10 (length s + 2)) ++ stream_bits s))
              (second.0 ∙ ap (λ t. t ++ field 6 0xc) first.0))
    ∙ regroup (byte_bits 0xa0) (field 6 0xc) (stream_bits (groups 10 (length s + 2)))
        (stream_bits s) (1 ∷ [])

streq_self : (a : Text) → streq a a ≡ true
streq_self [] = refl
streq_self (x ∷ a) = ground (arith, streq_self a)

identifier-value :
    (s : Bytes) (p : Parser) (tail : List ℕ)
    → All IsAscii s
    → length s < 62
    → IsClean p
    → pending p ≡ stream_bits (groups 10 (length s + 2)) ++ (stream_bits s ++ (1 ∷ tail))
    → (q : Parser) × (identifier s 0xc (parse_uint p) ≡ value 1 q) × (pending q ≡ tail) × IsClean q
identifier-value s p tail h short c e =
    let (q, number, left, clean) =
      parse_uint-read (length s + 2) p (stream_bits s ++ 1 ∷ tail) (omega arith) c e in
    let (r, text, left', clean') = parse_literal-ascii s q (1 ∷ tail) h clean left in
    let bit = parse_bit-TakenBit r 1 tail clean' left' in
    let a : (length s + 2 == 0 || leb 64 (length s + 2)) ≡ false = ground arith in
    let b : (length s + 2 == 1) ≡ false = ground arith in
    let d : length s + 2 - 2 ≡ length s = omega arith in
    let f : ltb (length s) 64 ≡ true = ground arith in
    (
      (parse_bit r).1,
      ap (identifier s 0xc) number
          ∙ rw (a, b, d, text, f, c_string-ascii s h, streq_self s)
              (ap (λ t. value t (parse_bit r).1) bit.value),
      bit.left,
      bit.clean,
    )

regroup_3 : (b c d e f : List ℕ) → (b ++ (c ++ (d ++ e))) ++ f ≡ b ++ (c ++ (d ++ (e ++ f)))
regroup_3 b c d e f =
    append_assoc b (c ++ (d ++ e)) f
    ∙ ap (λ t. b ++ t) (append_assoc c (d ++ e) f ∙ ap (λ t. c ++ t) (append_assoc d e f))

-- The header is longer than the four bytes that are asked for behind the first.
five_bytes :
    (s : Bytes) (x : ℕ) (rest tail : List ℕ)
    → 2 ≤ length s
    → length s < 62
    → stream_bits rest ≡ header_bits s ++ tail
    → ltb (length (x ∷ rest)) 5 ≡ false
five_bytes s x rest tail long short e =
    let head = groups-ascii (length s + 2) (omega arith) in
    let bits : length (stream_bits rest) ≡ length (header_bits s) + length tail =
      ap length e ∙ length-append (header_bits s) tail in
    let text : length (stream_bits (groups 10 (length s + 2)) ++ (stream_bits s ++ 1 ∷ []))
        ≡ 8 + (8 * length s + 1) =
      length-append (stream_bits (groups 10 (length s + 2))) (stream_bits s ++ 1 ∷ [])
      ∙ omega (
        arith,
        ap (λ t. length (stream_bits t)) head,
        length-append (stream_bits s) (1 ∷ []),
        length-stream_bits s,
      ) in
    ground (arith, bits, text, length-stream_bits rest)

header_at-value :
    (past : ℕ) (s : Bytes) (data' : List ℕ) (p : Parser) (tail : List ℕ)
    → past < 256
    → All IsAscii s
    → 2 ≤ length s
    → length s < 62
    → p.bit ≡ 0
    → p.truncated ≡ false
    → All (λ b. b < 256) data'
    → stream_bits data' ≡ byte_bits 0xa0 ++ (header_bits s ++ tail)
    → (q : Parser) × (header_at past s (skip_cookie data') p ≡ value 1 q)
      × (pending q ≡ tail)
      × IsClean q
unfolding header_at
header_at-value past s [] p tail small h long short start whole bytes e = absurd (ground (arith, e))
header_at-value past s (x ∷ rest) p tail small h long short start whole bytes e =
    let head = stream_bits (groups 10 (length s + 2)) in
    let first =
      byte_bits-injective x 0xa0 (stream_bits rest) (header_bits s ++ tail) bytes.0 (omega arith)
        e in
    let r = record p { rest = rest } in
    let stream : pending r ≡ field 6 0xc ++ (head ++ (stream_bits s ++ 1 ∷ tail)) =
      ap (λ k. drop k (stream_bits rest)) start
      ∙ first.1
      ∙ regroup_3 (field 6 0xc) head (stream_bits s) (1 ∷ []) tail in
    let clean : IsClean r = (record { offset = omega (arith, start); bytes = bytes.1 }, whole) in
    let (six, left, clean') =
      parse_bits-field past small r 6 0xc (head ++ (stream_bits s ++ 1 ∷ tail)) (omega arith)
        (omega arith) clean (omega arith) stream in
    let (q, taken, left', clean'') = identifier-value s (behind r 6) tail h short clean' left in
    let other : (x == 0x24) ≡ false = ground (arith, first.0) in
    let plain : skip_cookie (x ∷ rest) ≡ x ∷ rest = rw other in
    let enough = five_bytes s x rest tail long short first.1 in
    let version : (x == 0xa0) ≡ true = ground (arith, first.0) in
    (
      q,
      ap (λ t. header_at past s t p) plain
          ∙ ap
              (λ t.
                if t
                then Outcome.truncated (record p { rest = x ∷ rest; truncated = true })
                else header_byte past s (x ∷ rest) p)
              enough
          ∙ rw version (ap (λ t. identifier s t.0 (parse_uint t.1)) six)
          ∙ taken,
      left',
      clean'',
    )

-- The header that `exi_output_header` writes for an identifier of 2 to 61 ASCII characters is taken
-- by `exi_parse_header` for the same one: it returns the 1 that ends the options document, and the
-- parser is behind the header, on data that go on in any way.
pub exi_parse_header-exi_output_header :
    (past : ℕ) (s : Bytes) (o : Output) (p : Parser) (tail : List ℕ)
    → past < 256
    → All IsAscii s
    → 2 ≤ length s
    → length s < 62
    → exi_output_header s ≡ some o
    → IsClean p
    → p.bit ≡ 0
    → pending p ≡ written o ++ tail
    → (q : Parser) × (exi_parse_header past s p ≡ value 1 q) × (pending q ≡ tail) × IsClean q
unfolding exi_parse_header
exi_parse_header-exi_output_header past s o p tail small h long short out c start e =
    header_at-value past s p.rest p tail small h long short start c.1 c.0.bytes (
      ap (λ k. drop k (stream_bits p.rest)) (sym start)
      ∙ e
      ∙ ap (λ t. t ++ tail) (exi_output_header-written s o h out)
      ∙ append_assoc (byte_bits 0xa0) (header_bits s) tail)
