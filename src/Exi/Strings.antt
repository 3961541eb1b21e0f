-- ===== src/Exi/Strings.antt =====
-- The string tables of core/string_table.c, and the strings of core/exi_output.c and
-- core/exi_parse.c that go by them. The name of an element, which the source compares as a pointer,
-- is a number; the texts, which the tables point to, are taken to stay as they are.
pub mod Interned
pub mod Ids
pub mod Reading
pub mod RoundTrip
mod Tests
use mathlib.Core.Option
use client.Base.{
  ℕ, zero, suc, ◌+◌, ◌-◌, ◌*◌, Bool, true, false, Option, none, some, List, [], ◌∷◌, ◌++◌, ◌==◌,
  ltb, leb, if◌then◌else◌, ◌||◌, length, get_elem?,
}
use client.Text.{streq, bit_count}
use client.Utf8.{Bytes}
use client.Exi.{Output, output_uint, Parser, parse_uint}
use client.Exi.BitField.{output_bits, parse_bits}
use client.Exi.Binary.{Outcome}
use client.Exi.Literal.{exi_output_literal, parse_literal, exi_utf8_length, TextSize}

-- `length` of the source is the space of the table, and `index` the number of its strings.
pub record StringTable : Type 0 where
  pub name : ℕ
  pub space : ℕ
  pub strings : List Bytes

unfoldable pub find_table : List StringTable → ℕ → Option StringTable
find_table [] name = none
find_table (t ∷ rest) name = if t.name == name then some t else find_table rest name

unfoldable pub find_string_in : List Bytes → Bytes → Option ℕ
find_string_in [] s = none
find_string_in (t ∷ rest) s =
    if streq s t then some 0 else Option.map (λ i. i + 1) (find_string_in rest s)

unfoldable pub find_string : StringTable → Bytes → Option ℕ
unfolding find_string_in
find_string t s = find_string_in t.strings s

-- In front of the list of tables.
unfoldable pub new_string_table : List StringTable → ℕ → ℕ → List StringTable
new_string_table tables name space = record { name = name; space = space; strings = [] } ∷ tables

abbrev pub push : StringTable → Bytes → StringTable
push t s = record {
  name = t.name;
  space = if length t.strings == t.space then t.space * 2 else t.space;
  strings = t.strings ++ s ∷ [];
}

-- The table of that name, which is the one that `find_table` gives, has the string then.
unfoldable pub add_string : List StringTable → ℕ → Bytes → List StringTable
add_string [] name s = []
add_string (t ∷ rest) name s =
    if t.name == name then push t s ∷ rest else t ∷ add_string rest name s

-- The local tables and the global one.
pub record Tables : Type 0 where
  pub local : List StringTable
  pub global : StringTable

-- `if (!t) t = p->local = new_string_table (p->local, name, 8);`
unfoldable pub with_table : List StringTable → ℕ → List StringTable
unfolding find_table new_string_table
with_table tables name = elim (find_table tables name) [
  | none ↦ new_string_table tables name 8
  | some t ↦ tables
]

-- The label `compact_id`.
unfoldable pub output_compact_id : Output → ℕ → StringTable → ℕ → Output
output_compact_id o part t i =
    let bits = bit_count (length t.strings - 1) in
    if bits == 0 then output_uint o part else output_bits (output_uint o part) i bits

-- The string is not in the table of its element.
output_new_string : Output → Tables → ℕ → Bytes → Option ℕ → Option (Output × Tables)
output_new_string o tables name s (some i) = some (
  output_compact_id o 1 tables.global i,
  record { local = add_string (with_table tables.local name) name s; global = tables.global },
)
output_new_string o tables name s none =
    Option.map
      (λ (o' : Output). (
        o',
        record {
          local = add_string (with_table tables.local name) name s;
          global = push tables.global s;
        },
      ))
      (exi_output_literal o s)

unfoldable pub find_local : Option StringTable → Bytes → Option ℕ
unfolding find_string
find_local none s = none
find_local (some t) s = find_string t s

-- None where the text of a literal is cut off within a character.
output_string_at : Output → Tables → ℕ → Bytes → Option StringTable → Option (Output × Tables)
unfolding find_local output_new_string
output_string_at o tables name s none =
    output_new_string o tables name s (find_string tables.global s)
output_string_at o tables name s (some t) = elim (find_string t s) [
  | some i ↦ some (output_compact_id o 0 t i, tables)
  | none ↦ output_new_string o tables name s (find_string tables.global s)
]

unfoldable pub exi_output_string : Output → Tables → ℕ → Bytes → Option (Output × Tables)
unfolding output_string_at
exi_output_string o tables name s = output_string_at o tables name s (find_table tables.local name)

-- What is stored: a field of `n` bytes takes the text with its zero, and n = 0 is a copy of its own.
abbrev pub stored : ℕ → Bytes → Parser → Outcome Bytes
stored n s q = if n == 0 || leb (length s + 1) n then Outcome.value s q else Outcome.invalid q

compact_id : StringTable → ℕ → ℕ × Parser → Outcome Bytes
compact_id t n (id, q) =
    if q.truncated
    then Outcome.truncated q
    else elim (get_elem? t.strings id) [ none ↦ Outcome.invalid q | some s ↦ stored n s q ]

unfoldable pub parse_compact_id : ℕ → Parser → Option StringTable → ℕ → Outcome Bytes
unfolding compact_id
parse_compact_id past p none n = Outcome.invalid p
parse_compact_id past p (some t) n =
    if length t.strings == 0
    then Outcome.invalid p
    else compact_id t n (parse_bits past p (bit_count (length t.strings - 1)))

-- A text up to its zero.
unfoldable pub c_string : Bytes → Bytes
c_string [] = []
c_string (c ∷ rest) = if c == 0 then [] else c ∷ c_string rest

abbrev pub same_tables : Tables → Outcome Bytes → Outcome (Bytes × Tables)
same_tables tables (Outcome.value s q) = Outcome.value (s, tables) q
same_tables tables (Outcome.truncated q) = Outcome.truncated q
same_tables tables (Outcome.invalid q) = Outcome.invalid q
same_tables tables Outcome.undefined = Outcome.undefined

-- A string of `m` bytes is stored, which are more where the stream has other characters than ASCII:
-- `m` characters are read. Behind the space it is undefined.
store_literal : Tables → ℕ → ℕ → ℕ → Option (Bytes × Parser) → Outcome (Bytes × Tables)
store_literal tables name n m none = Outcome.undefined
store_literal tables name n m (some (bytes, q)) =
    let s = c_string bytes in
    if leb (length bytes) (if n == 0 then m else n - 1)
    then Outcome.value
        (
          s,
          record {
            local = add_string (with_table tables.local name) name s;
            global = push tables.global s;
          },
        )
        q
    else Outcome.undefined

pub parse_new_string : Parser → Parser → Tables → ℕ → ℕ → TextSize → Outcome (Bytes × Tables)
unfolding store_literal
parse_new_string p q tables name n TextSize.invalid = Outcome.invalid (record q { rest = p.rest })
parse_new_string p q tables name n (TextSize.truncated r) =
    Outcome.truncated (record r { rest = p.rest })
parse_new_string p q tables name n (TextSize.bytes m) =
    if (n == 0 || ltb m n)
    then store_literal tables name n m (parse_literal m q)
    else Outcome.invalid q

pub parse_string_number :
    ℕ → Parser → Tables → ℕ → ℕ → Option (ℕ × Parser) → Outcome (Bytes × Tables)
unfolding parse_new_string
parse_string_number past p tables name n none = Outcome.undefined
parse_string_number past p tables name n (some (m, q)) =
    if q.truncated
    then Outcome.truncated q
    else if m == 0
    then same_tables tables (parse_compact_id past q (find_table tables.local name) n)
    else if m == 1
    then same_tables tables (parse_compact_id past q (some tables.global) n)
    else parse_new_string p q tables name n (exi_utf8_length q (m - 2))

unfoldable pub exi_parse_string : ℕ → Parser → Tables → ℕ → ℕ → Outcome (Bytes × Tables)
unfolding parse_string_number
exi_parse_string past p tables name n = parse_string_number past p tables name n (parse_uint p)
