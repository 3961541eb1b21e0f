-- ===== src/Exi/Strings/RoundTrip.antt =====
-- A string of ASCII characters is read back as it was written, with the tables that both sides have
-- then.
use mathlib.Core.Path.{subst}
use client.Base.{
  append_assoc, ℕ, ◌+◌, ◌^◌, ◌≤◌, ◌<◌, ◌≡◌, refl, sym, ◌∙◌, ap, Option, none, some, List, ◌++◌,
  length, arith, All, Option-cases, inl, inr,
}
use client.Utf8.{Bytes}
use client.Exi.{Output, Parser}
use client.Exi.Bits.{stream_bits, written, pending, IsValid}
use client.Exi.Groups.{IsClean, groups}
use client.Exi.RoundTrip.{append_cancel}
use client.Exi.Binary.RoundTrip.{parse_uint-read}
use client.Exi.Literal.{exi_output_literal}
use client.Exi.Literal.RoundTrip.{IsAscii, exi_output_literal-written}
use client.Exi.Strings.{
  StringTable, Tables, find_table, find_string, find_local, add_string, with_table,
  output_compact_id, output_new_string, output_string_at, exi_output_string, parse_compact_id,
  same_tables, parse_string_number, exi_parse_string,
}
use client.Exi.Strings.Ids.{Takes, decoded_at, decoded, ReadString}
use client.Exi.Strings.Reading.{with_string, read_id, read_new, number_0, number_1, number_more}

module _ (past : ℕ) (small : past < 256) (tables : Tables) (name n : ℕ) (s : Bytes) where
  module _ (o : Output) (p : Parser) (tail : List ℕ) (v : IsValid o) (c : IsClean p)
      (some_left : 1 ≤ length tail) (ascii : All IsAscii s) (takes : Takes n s)
      (short : length s < 2 ^ 30)
      (few : (t : StringTable) → find_table tables.local name ≡ some t → length t.strings ≤ 2 ^ 24)
      (few' : length tables.global.strings ≤ 2 ^ 24) where
    local_hit :
        (t : StringTable) (i : ℕ)
        → find_table tables.local name ≡ some t
        → find_string t s ≡ some i
        → written o ++ pending p ≡ written (output_compact_id o 0 t i) ++ tail
        → ReadString s tables tail (exi_parse_string past p tables name n)
    unfolding exi_parse_string
    local_hit t i table found e =
        let (q, r, number, whole, id, left, clean) =
          read_id past small tables name n s o 0 t i p tail (omega arith) v c some_left
            (few t table) found takes e in
        (
          r,
          ap (parse_string_number past p tables name n) number
              ∙ number_0 past small tables name n s p q whole
              ∙ ap (λ t. same_tables tables (parse_compact_id past q t n)) table
              ∙ ap (same_tables tables) id,
          left,
          clean,
        )

    global_hit :
        (i : ℕ)
        → find_string tables.global s ≡ some i
        → written o ++ pending p ≡ written (output_compact_id o 1 tables.global i) ++ tail
        → ReadString s tables tail (exi_parse_string past p tables name n)
    unfolding exi_parse_string
    global_hit i found e =
        let (q, r, number, whole, id, left, clean) =
          read_id past small tables name n s o 1 tables.global i p tail (omega arith) v c some_left
            few' found takes e in
        (
          r,
          ap (parse_string_number past p tables name n) number
              ∙ number_1 past small tables name n s p q whole
              ∙ ap (same_tables tables) id,
          left,
          clean,
        )

    literal :
        (o' : Output)
        → exi_output_literal o s ≡ some o'
        → written o ++ pending p ≡ written o' ++ tail
        → ReadString s
            (with_string past small tables name n s)
            tail
            (exi_parse_string past p tables name n)
    unfolding exi_parse_string
    literal o' out e =
        let (o1, out', text, valid) = exi_output_literal-written s o ascii v in
        let same : o' ≡ o1 = ground (arith, out, out') in
        let head = stream_bits (groups 10 (length s + 2)) in
        let ahead : pending p ≡ head ++ (stream_bits s ++ tail) = append_cancel (written o) _ _ (
          e
          ∙ ap (λ t. written t ++ tail) same
          ∙ ap (λ t. t ++ tail) text
          ∙ append_assoc (written o) (head ++ stream_bits s) tail
          ∙ ap (λ t. written o ++ t) (append_assoc head (stream_bits s) tail)) in
        let (q, number, left, clean) =
          parse_uint-read (length s + 2) p (stream_bits s ++ tail) (omega arith) c ahead in
        let (r, read, left', clean') =
          read_new past small tables name n s p q tail ascii clean takes left in
        (
          r,
          ap (parse_string_number past p tables name n) number
              ∙ number_more past small tables name n s p q (length s) clean.1
              ∙ read,
          left',
          clean',
        )

    -- The string is not in the table of its element.
    new_string :
        (o' : Output) (after : Tables)
        → find_local (find_table tables.local name) s ≡ none
        → output_new_string o tables name s (find_string tables.global s) ≡ some (o', after)
        → written o ++ pending p ≡ written o' ++ tail
        → ReadString s (decoded tables name s after) tail (exi_parse_string past p tables name n)
    unfolding output_new_string
    new_string o' after absent out e = elim (Option-cases (find_string tables.global s)) [
      | inl new ↦ elim (Option-cases (exi_output_literal o s)) [
        | inl cut ↦ absurd (let out' = rw (new, cut, output_new_string) at out in cc)
        | inr (o1, text) ↦
            let made : some (o1, (with_string past small tables name n s)) ≡ some (o', after) =
              rw (new, text, output_new_string) at out in
            let same : o1 ≡ o' = cc in
            let same' : (with_string past small tables name n s) ≡ after = cc in
            rw (absent, new, decoded_at)
              (subst (λ t. ReadString s t tail (exi_parse_string past p tables name n)) same'
                (literal o' (text ∙ ap some same) e))
      ]
      | inr (i, found) ↦
          let made : some (
            output_compact_id o 1 tables.global i,
            record {
              local = add_string (with_table tables.local name) name s;
              global = tables.global;
            },
          )
              ≡ some (o', after) =
            rw (found, output_new_string) at out in
          let same : output_compact_id o 1 tables.global i ≡ o' = cc in
          rw (absent, found, decoded_at)
            (global_hit i found (e ∙ ap (λ t. written t ++ tail) (sym same)))
    ]

    local_string :
        (table : Option StringTable) (o' : Output) (after : Tables)
        → find_table tables.local name ≡ table
        → output_string_at o tables name s table ≡ some (o', after)
        → written o ++ pending p ≡ written o' ++ tail
        → ReadString s (decoded tables name s after) tail (exi_parse_string past p tables name n)
    unfolding output_string_at
    local_string none o' after eq out e = new_string o' after (ap (λ t. find_local t s) eq) out e
    local_string (some t) o' after eq out e = elim (Option-cases (find_string t s)) [
      | inl absent ↦
          new_string o' after (ap (λ t. find_local t s) eq ∙ absent)
            (rw (absent, output_string_at) at out) e
      | inr (i, found) ↦
          let made : some (output_compact_id o 0 t i, tables) ≡ some (o', after) =
            rw (found, output_string_at) at out in
          let same : output_compact_id o 0 t i ≡ o' = cc in
          let same' : tables ≡ after = cc in
          let hit : find_local (find_table tables.local name) s ≡ some i =
            ap (λ t. find_local t s) eq ∙ found in
          rw (hit, decoded_at)
            (subst (λ t. ReadString s t tail (exi_parse_string past p tables name n)) same'
              (local_hit t i eq found (e ∙ ap (λ t. written t ++ tail) (sym same))))
    ]

-- With the same tables on both sides, of at most 2 ^ 24 strings each, a string of ASCII characters
-- (fewer than 2 ^ 30, and few enough for the field of `n` bytes that takes it, where n is not 0)
-- is read back as it was written, whether it stands in the stream as a number of the local table,
-- as one of the global table or as a literal; the parser is at any offset within a byte, on data
-- that go on in any way by one bit at least, and is behind the string then. The tables that it has
-- are those of the writer, but where the string is found in the global table alone: then the
-- parser's stay as they are, while the writer has added the string to the local one.
pub exi_parse_string-exi_output_string :
    (past : ℕ) (tables after : Tables) (name n : ℕ) (s : Bytes) (o o' : Output) (p : Parser)
    (tail : List ℕ)
    → past < 256
    → IsValid o
    → IsClean p
    → 1 ≤ length tail
    → All IsAscii s
    → Takes n s
    → length s < 2 ^ 30
    → ((t : StringTable) → find_table tables.local name ≡ some t → length t.strings ≤ 2 ^ 24)
    → length tables.global.strings ≤ 2 ^ 24
    → exi_output_string o tables name s ≡ some (o', after)
    → written o ++ pending p ≡ written o' ++ tail
    → ReadString s (decoded tables name s after) tail (exi_parse_string past p tables name n)
unfolding exi_output_string
exi_parse_string-exi_output_string past tables after name n s o o' p tail small v c some_left ascii
      takes short few few' out e =
    local_string past small tables name n s o p tail v c some_left ascii takes short few few'
      (find_table tables.local name) o' after refl out e
