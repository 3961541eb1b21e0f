-- ===== src/Exi/Literal.antt =====
-- String literals of core/exi_output.c and core/exi_parse.c: a length and the code points.
pub mod RoundTrip
use mathlib.Core.Option
use client.Base.{
  ℕ, zero, suc, ◌+◌, ◌-◌, ◌*◌, ◌%◌, ◌^◌, bit_and, Bool, true, false, Option, none, some, List, [],
  ◌∷◌, ◌++◌, ◌==◌, ltb, if◌then◌else◌, length,
}
use client.Utf8.{Bytes, utf8_char, utf8_length, utf8_encode}
use client.Exi.{Output, output_uint, Parser, parse_byte, parse_uint}

-- `while (*s && (next = utf8_char (&c, s)))`; a character takes a byte at least, so that the fuel is
-- the length of the text.
unfoldable pub output_chars : ℕ → Output → Bytes → Output
output_chars zero o s = o
output_chars (suc fuel) o [] = o
output_chars (suc fuel) o (b ∷ rest) = elim (utf8_char (b ∷ rest)) [
  | none ↦ o
  | some (c, next) ↦ output_chars fuel (output_uint o c) next
]

-- None where `utf8_length` reads behind the text.
unfoldable pub exi_output_literal : Output → Bytes → Option Output
unfolding output_chars
exi_output_literal o s =
    Option.map (λ n. output_chars (length s) (output_uint o (n + 2)) s) (utf8_length s)

-- The bytes that are stored, or none where the code is too large for `utf8_encode`, whose NULL the
-- next round writes to, or where the number is too large for `parse_uint`.
parse_char : Option (ℕ × Parser) → Option (Bytes × Parser)
parse_char none = none
parse_char (some (code, q)) = Option.map (λ bytes. (bytes, q)) (utf8_encode code)

unfoldable pub parse_literal : ℕ → Parser → Option (Bytes × Parser)
unfolding parse_char
parse_literal zero p = some ([], p)
parse_literal (suc n) p = elim (parse_char (parse_uint p)) [
  | none ↦ none
  | some (bytes, q) ↦ Option.map (λ r. (bytes ++ r.0, r.1)) (parse_literal n q)
]

-- How one character stands in the stream: too long, cut off, or so many bytes of UTF-8.
pub data CharSize : Type 0 where
  bad : CharSize
  short : Parser → CharSize
  size : ℕ → Parser → CharSize

-- The bytes of UTF-8 for a number of `m` groups, the last of which is `b`.
abbrev pub adjusted : ℕ → ℕ → ℕ
adjusted m b =
    if m == 2
    then (if bit_and b 0x70 == 0 then 2 else 3)
    else if m == 3
    then (if bit_and b 0x7c == 0 then 3 else 4)
    else m

-- Three groups at most are read, which is the fuel.
unfoldable pub char_size : ℕ → ℕ → Parser → CharSize
char_size zero m p = bad
char_size (suc fuel) m p =
    let r = parse_byte p in
    elim (bit_and r.0 0x80 == 0) [
      | true ↦ if r.1.truncated then short r.1 else size (adjusted m r.0) r.1
      | false ↦ char_size fuel (m + 1) r.1
    ]

-- What `exi_utf8_length` returns.
pub data TextSize : Type 0 where
  invalid : TextSize
  truncated : Parser → TextSize
  bytes : ℕ → TextSize

unfoldable pub exi_utf8_length_from : ℕ → Parser → ℕ → TextSize
exi_utf8_length_from length p zero = bytes length
exi_utf8_length_from length p (suc n) = elim (char_size 3 1 p) [
  | bad ↦ invalid
  | short q ↦ truncated q
  | size m q ↦ exi_utf8_length_from (length + m) q n
]

-- The parser is where it was afterwards, but for the flag of a stream that ends.
unfoldable pub exi_utf8_length : Parser → ℕ → TextSize
unfolding exi_utf8_length_from char_size
exi_utf8_length p n = exi_utf8_length_from 0 p n
