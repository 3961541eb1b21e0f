-- ===== src/Exi/Header.antt =====
-- The header of an EXI document, in core/exi_output.c and core/exi_parse.c, and its first event.
pub mod RoundTrip
use mathlib.Core.Option
use client.Base.{
  ℕ, zero, suc, ◌+◌, ◌-◌, Bool, true, false, Option, none, some, List, [], ◌∷◌, ◌++◌, ◌==◌, ◌&&◌,
  ◌||◌, ltb, leb, if◌then◌else◌, take, drop, length,
}
use client.Text.{streq, bit_count}
use client.Utf8.{Bytes}
use client.Exi.{Output, output_byte, Parser, parse_uint}
use client.Exi.BitField.{output_bits, parse_bits}
use client.Exi.Integer.{parse_bit}
use client.Exi.Binary.{Outcome}
use client.Exi.Literal.{exi_output_literal, parse_literal}
use client.Exi.Strings.{c_string}

-- On the cleared buffer.
abbrev pub cleared : Output
cleared = record { done = []; last = 0; bit = 0 }

unfoldable pub exi_output_header : Bytes → Option Output
exi_output_header schema_id =
    Option.map (λ (o : Output). output_bits o 1 1)
      (exi_output_literal (output_bits (output_byte cleared 0xa0) 0xc 6) schema_id)

abbrev pub cookie : Bytes
cookie = 0x24 ∷ 0x45 ∷ 0x58 ∷ 0x49 ∷ []

-- `memcmp (p->ptr, "$EXI", 4) == 0`
abbrev pub skip_cookie : List ℕ → List ℕ
skip_cookie data' = if streq (take 4 data') cookie then drop 4 data' else data'

-- The options document: the identifier is read into 64 bytes, and behind them it is undefined.
abbrev pub options : Bytes → ℕ → Option (Bytes × Parser) → Outcome ℕ
options schema_id x none = Outcome.undefined
options schema_id x (some (bytes, q)) =
    if ltb (length bytes) 64
    then (if x == 0xc && streq (c_string bytes) schema_id
        then (let r = parse_bit q in Outcome.value r.0 r.1)
        else Outcome.invalid q)
    else Outcome.undefined

-- The length less two; for 1 that is -1, and the loop of `parse_literal` does not end.
abbrev pub identifier : Bytes → ℕ → Option (ℕ × Parser) → Outcome ℕ
identifier schema_id x none = Outcome.undefined
identifier schema_id x (some (n, q)) =
    if n == 0 || leb 64 n
    then Outcome.invalid q
    else if n == 1
    then Outcome.undefined
    else options schema_id x (parse_literal (n - 2) q)

abbrev pub header_byte : ℕ → Bytes → List ℕ → Parser → Outcome ℕ
header_byte past schema_id [] p = Outcome.truncated (record p { truncated = true })
header_byte past schema_id (c ∷ rest) p =
    if c == 0xa0
    then (let r = parse_bits past (record p { rest = rest }) 6 in
        identifier schema_id r.0 (parse_uint r.1))
    else Outcome.invalid (record p { rest = rest })

unfoldable pub header_at : ℕ → Bytes → List ℕ → Parser → Outcome ℕ
header_at past schema_id data' p =
    if ltb (length data') 5
    then Outcome.truncated (record p { rest = data'; truncated = true })
    else header_byte past schema_id data' p

-- What it returns is the bit that ends the options document.
unfoldable pub exi_parse_header : ℕ → Bytes → Parser → Outcome ℕ
unfolding header_at
exi_parse_header past schema_id p = header_at past schema_id (skip_cookie p.rest) p

-- The number of the document's element, where the schema has `count` elements.
unfoldable pub start_at : ℕ → ℕ → Outcome ℕ → Outcome ℕ
start_at past count (Outcome.value bit q) =
    if bit == 0
    then Outcome.truncated q
    else let r = parse_bits past q (bit_count count) in
      if ltb r.0 count then Outcome.value r.0 r.1 else Outcome.invalid r.1
start_at past count other = other

unfoldable pub exi_parse_start : ℕ → Bytes → ℕ → Parser → Outcome ℕ
unfolding start_at
exi_parse_start past schema_id count p = start_at past count (exi_parse_header past schema_id p)
