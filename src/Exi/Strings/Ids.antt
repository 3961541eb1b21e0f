-- ===== src/Exi/Strings/Ids.antt =====
-- Compact ids: the number of a string in a table, in as many bits as the table wants.
use client.Base.{
  append-nil, append_assoc, ℕ, ◌+◌, ◌-◌, ◌^◌, ◌≤◌, ◌<◌, ◌≡◌, refl, sym, ◌∙◌, ap, true, false,
  Option, none, some, List, [], ◌∷◌, ◌++◌, ◌==◌, ◌||◌, leb, length, get_elem?, arith, All,
  Bool-cases, ==_iff, inl, inr,
}
use client.Text.{bit_count}
use client.Utf8.{Bytes}
use client.Exi.{Output, output_uint, Parser}
use client.Exi.Bits.{stream_bits, written, pending, IsValid}
use client.Exi.Groups.{IsClean, groups}
use client.Exi.BitField.Fields.{field}
use client.Exi.BitField.Written.{output_bits-written}
use client.Exi.BitField.RoundTrip.{parse_bits-field, behind}
use client.Exi.Binary.{Outcome, value}
use client.Exi.Binary.RoundTrip.{output_uint-written}
use client.Exi.Literal.RoundTrip.{IsAscii}
use client.Exi.Strings.{
  StringTable, Tables, find_table, find_string, find_local, output_compact_id, stored, compact_id,
  parse_compact_id, c_string,
}
use client.Exi.Strings.Interned.{find_string-compact_id}

-- The compact id of a string, behind the number of the table.
pub output_compact_id-written :
    (o : Output) (part : ℕ) (t : StringTable) (s : Bytes) (i : ℕ)
    → IsValid o
    → length t.strings ≤ 2 ^ 24
    → find_string t s ≡ some i
    → (written (output_compact_id o part t i)
        ≡ written o ++ (stream_bits (groups 10 part) ++ field (bit_count (length t.strings - 1)) i))
      × IsValid (output_compact_id o part t i)
unfolding output_compact_id
output_compact_id-written o part t s i v few e =
    let bits = bit_count (length t.strings - 1) in
    let first = output_uint-written o part v in
    let fits = find_string-compact_id t s i few e in
    elim (Bool-cases (bits == 0)) [
      | inl z ↦
          let z' : bits ≡ 0 = (==_iff _ _).0 z in
          let empty : field bits i ≡ [] = ap (λ k. field k i) z' in
          rw z (
            first.0
                ∙ sym (
                    ap (λ t. written o ++ (stream_bits (groups 10 part) ++ t)) empty
                    ∙ ap (λ t. written o ++ t) (append-nil (stream_bits (groups 10 part)))),
            first.1,
          )
      | inr m ↦
          let later = output_bits-written (output_uint o part) i bits first.1 fits.1 in
          rw m (
            later.0
                ∙ ap (λ t. t ++ field bits i) first.0
                ∙ append_assoc (written o) _ (field bits i),
            later.1,
          )
    ]

-- A field of `n` bytes that has the space, or a copy.
abbrev pub Takes : ℕ → Bytes → Type 0
Takes n s = (n == 0 || leb (length s + 1) n) ≡ true

stored-value : (n : ℕ) (s : Bytes) (q : Parser) → Takes n s → stored n s q ≡ value s q
stored-value n s q h = rw h

compact_id-value :
    (t : StringTable) (n i : ℕ) (s : Bytes) (q : Parser)
    → q.truncated ≡ false
    → get_elem? t.strings i ≡ some s
    → Takes n s
    → compact_id t n (i, q) ≡ value s q
unfolding compact_id
compact_id-value t n i s q w e h = ground arith

pub parse_compact_id-value :
    (past : ℕ) (p : Parser) (t : StringTable) (s : Bytes) (i n : ℕ) (tail : List ℕ)
    → past < 256
    → IsClean p
    → 1 ≤ length tail
    → length t.strings ≤ 2 ^ 24
    → find_string t s ≡ some i
    → Takes n s
    → pending p ≡ field (bit_count (length t.strings - 1)) i ++ tail
    → (q : Parser) × (parse_compact_id past p (some t) n ≡ value s q)
      × (pending q ≡ tail)
      × IsClean q
unfolding parse_compact_id
parse_compact_id-value past p t s i n tail small c some_left few found takes e =
    let fits = find_string-compact_id t s i few found in
    let bits = bit_count (length t.strings - 1) in
    let (read, left, clean) =
      parse_bits-field past small p bits i tail fits.2 (omega (arith, some_left)) c fits.1 e in
    (
      behind p bits,
      rw fits.3 (
          ap (compact_id t n) read ∙ compact_id-value t n i s (behind p bits) clean.1 fits.0 takes),
      left,
      clean,
    )

-- The tables of the decoder behind a string, where those of the encoder are `after`: a string that
-- is in the global table alone is added to the local one by the encoder only.
abbrev pub decoded_at : Option ℕ → Option ℕ → Tables → Tables → Tables
decoded_at (some i) g tables after = after
decoded_at none (some i) tables after = tables
decoded_at none none tables after = after

abbrev pub decoded : Tables → ℕ → Bytes → Tables → Tables
decoded tables name s after =
    decoded_at (find_local (find_table tables.local name) s) (find_string tables.global s) tables
      after

-- What the decoder makes of a string.
abbrev pub ReadString : Bytes → Tables → List ℕ → Outcome (Bytes × Tables) → Type 0
ReadString s tables tail r =
    (q : Parser) × (r ≡ value (s, tables) q) × (pending q ≡ tail) × IsClean q

pub c_string-ascii : (s : Bytes) → All IsAscii s → c_string s ≡ s
unfolding c_string
c_string-ascii [] h = refl
c_string-ascii (c ∷ rest) h =
    let some_byte : (c == 0) ≡ false = ground (arith, h.0) in
    rw some_byte (ap (λ t. c ∷ t) (c_string-ascii rest h.1))
