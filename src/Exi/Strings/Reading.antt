-- ===== src/Exi/Strings/Reading.antt =====
-- The parts of a string in the stream, as `exi_parse_string` reads them.
use client.Base.{
  append_assoc, ℕ, ◌+◌, ◌-◌, ◌^◌, ◌≤◌, ◌<◌, ◌≡◌, ◌∙◌, ap, true, false, some, List, ◌++◌, ◌==◌, ◌||◌,
  ltb, leb, if◌then◌else◌, length, arith, All,
}
use client.Text.{bit_count}
use client.Utf8.{Bytes}
use client.Exi.{Output, Parser, parse_uint}
use client.Exi.Bits.{stream_bits, written, pending, IsValid}
use client.Exi.Groups.{IsClean, groups}
use client.Exi.RoundTrip.{append_cancel}
use client.Exi.BitField.Fields.{field}
use client.Exi.Binary.{Outcome, value}
use client.Exi.Binary.RoundTrip.{parse_uint-read}
use client.Exi.Literal.{exi_utf8_length}
use client.Exi.Literal.RoundTrip.{IsAscii, exi_utf8_length-ascii, parse_literal-ascii}
use client.Exi.Strings.{
  StringTable, Tables, find_table, find_string, push, add_string, with_table, output_compact_id,
  parse_compact_id, same_tables, store_literal, parse_new_string, parse_string_number,
}
use client.Exi.Strings.Ids.{
  output_compact_id-written, Takes, parse_compact_id-value, ReadString, c_string-ascii,
}

module _ (past : ℕ) (small : past < 256) (tables : Tables) (name n : ℕ) (s : Bytes) where
  -- A compact id of the local table, which `part` 0 says, or of the global one.
  pub read_id :
      (o : Output) (part : ℕ) (t : StringTable) (i : ℕ) (p : Parser) (tail : List ℕ)
      → part < 2
      → IsValid o
      → IsClean p
      → 1 ≤ length tail
      → length t.strings ≤ 2 ^ 24
      → find_string t s ≡ some i
      → Takes n s
      → written o ++ pending p ≡ written (output_compact_id o part t i) ++ tail
      → (q r : Parser) × (parse_uint p ≡ some (part, q))
        × (q.truncated ≡ false)
        × (parse_compact_id past q (some t) n ≡ value s r)
        × (pending r ≡ tail)
        × IsClean r
  read_id o part t i p tail low v c some_left few found takes e =
      let bits = field (bit_count (length t.strings - 1)) i in
      let head = stream_bits (groups 10 part) in
      let ahead : pending p ≡ head ++ (bits ++ tail) = append_cancel (written o) _ _ (
        e
        ∙ ap (λ t. t ++ tail) (output_compact_id-written o part t s i v few found).0
        ∙ append_assoc (written o) (head ++ bits) tail
        ∙ ap (λ t. written o ++ t) (append_assoc head bits tail)) in
      let (q, number, left, clean) = parse_uint-read part p (bits ++ tail) (omega arith) c ahead in
      let (r, id, left', clean') =
        parse_compact_id-value past q t s i n tail small clean some_left few found takes left in
      (q, r, number, clean.1, id, left', clean')

  -- A literal, and the tables with it.
  abbrev pub with_string : Tables
  with_string = record {
    local = add_string (with_table tables.local name) name s;
    global = push tables.global s;
  }

  pub read_new :
      (p q : Parser) (tail : List ℕ)
      → All IsAscii s
      → IsClean q
      → Takes n s
      → pending q ≡ stream_bits s ++ tail
      → ReadString s with_string tail
          (parse_new_string p q tables name n (exi_utf8_length q (length s)))
  unfolding exi_utf8_length parse_new_string store_literal
  read_new p q tail h c takes e =
      let size = exi_utf8_length-ascii s 0 q tail h c e in
      let none_more : 0 + length s ≡ length s = omega arith in
      let fits : (n == 0 || ltb (length s) n) ≡ true = ground (arith, takes) in
      let space : leb (length s) (if n == 0 then length s else n - 1) ≡ true =
        ground (arith, takes) in
      let (r, text, left, clean) = parse_literal-ascii s q tail h c e in
      (
        r,
        rw (size, none_more, parse_new_string)
            (rw (fits, text, store_literal) (rw (space, c_string-ascii s h))),
        left,
        clean,
      )

  pub number_0 :
      (p q : Parser)
      → q.truncated ≡ false
      → parse_string_number past p tables name n (some (0, q))
        ≡ same_tables tables (parse_compact_id past q (find_table tables.local name) n)
  unfolding parse_string_number
  number_0 p q w =
      ap
        (λ b.
          if b
          then Outcome.truncated q
          else same_tables tables (parse_compact_id past q (find_table tables.local name) n))
        w

  pub number_1 :
      (p q : Parser)
      → q.truncated ≡ false
      → parse_string_number past p tables name n (some (1, q))
        ≡ same_tables tables (parse_compact_id past q (some tables.global) n)
  unfolding parse_string_number
  number_1 p q w =
      ap
        (λ b.
          if b
          then Outcome.truncated q
          else same_tables tables (parse_compact_id past q (some tables.global) n))
        w

  pub number_more :
      (p q : Parser) (m : ℕ)
      → q.truncated ≡ false
      → parse_string_number past p tables name n (some (m + 2, q))
        ≡ parse_new_string p q tables name n (exi_utf8_length q m)
  unfolding parse_string_number
  number_more p q m w =
      let a : (m + 2 == 0) ≡ false = ground arith in
      let b : (m + 2 == 1) ≡ false = ground arith in
      let d : m + 2 - 2 ≡ m = omega arith in
      ap
        (λ t.
          if t
          then Outcome.truncated q
          else if m + 2 == 0
          then same_tables tables (parse_compact_id past q (find_table tables.local name) n)
          else if m + 2 == 1
          then same_tables tables (parse_compact_id past q (some tables.global) n)
          else parse_new_string p q tables name n (exi_utf8_length q (m + 2 - 2)))
        w
      ∙ rw (a, b, d)
