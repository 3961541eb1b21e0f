-- ===== src/Exi/Strings/Tests.antt =====
-- Runs of the fields, the data and the strings of an EXI document.
use client.Base.{◌≤◌, ◌^◌, ◌≡◌, refl, true, false, some, [], ◌∷◌, ◌++◌, length, arith}
use client.Utf8.{Bytes, utf8_length, utf8_char, step, utf8_encode}
use client.Exi.{Output, output_byte, output_uint, Parser, parse_byte, parse_uint, shift_group}
use client.Exi.Bits.{IsValid, written, pending}
use client.Exi.Groups.{IsClean}
use client.Exi.BitField.{output_bits, parse_bits}
use client.Exi.BitField.Fields.{field}
use client.Exi.BitField.Written.{output_each, output_bits-eq-output_each}
use client.Exi.BitField.RoundTrip.{parse_bits-output_bits}
use client.Exi.Binary.{Outcome, output_binary, parse_binary}
use client.Exi.Binary.RoundTrip.{parse_binary-output_binary}
use client.Exi.Header.{cleared, exi_output_header, exi_parse_header}
use client.Exi.Header.RoundTrip.{exi_parse_header-exi_output_header}
use client.Exi.Literal.{exi_output_literal, exi_utf8_length, parse_literal, TextSize}
use client.Exi.Strings.{
  StringTable, Tables, find_table, find_string, find_local, add_string, with_table,
  exi_output_string, exi_parse_string,
}
use client.Exi.Strings.Ids.{decoded, ReadString}
use client.Exi.Strings.RoundTrip.{exi_parse_string-exi_output_string}

cleared-IsValid : IsValid cleared
cleared-IsValid = record { offset = omega arith; byte = omega arith; clear = refl }

-- Three bits of a byte are written.
abbrev some_output : Output
some_output = record { done = []; last = 0xa0; bit = 3 }

some_output-IsValid : IsValid some_output
some_output-IsValid = record { offset = omega arith; byte = omega arith; clear = refl }

output_bits-eq-output_each_example :
    output_bits some_output 300 9 ≡ output_each some_output (field 9 300)
output_bits-eq-output_each_example =
    output_bits-eq-output_each some_output 300 9 (omega arith) (omega arith)

abbrev field_parser : Parser
field_parser = record { rest = 0xb2 ∷ 0xc1 ∷ []; bit = 3; truncated = false }

field_parser-IsClean : IsClean field_parser
field_parser-IsClean =
    (record { offset = omega arith; bytes = (omega arith, (omega arith, tt)) }, refl)

same_field :
    written some_output ++ pending field_parser
    ≡ written (output_bits some_output 300 9) ++ 0 ∷ 0 ∷ 0 ∷ 1 ∷ []
unfolding output_bits
same_field = refl

parse_bits-output_bits_example :
    (q : Parser) × (parse_bits 7 field_parser 9 ≡ (300, q))
    × (pending q ≡ 0 ∷ 0 ∷ 0 ∷ 1 ∷ [])
    × IsClean q
parse_bits-output_bits_example =
    parse_bits-output_bits 7 (omega arith) some_output 300 9 field_parser (0 ∷ 0 ∷ 0 ∷ 1 ∷ [])
      (omega arith) (omega arith) (omega arith) some_output-IsValid field_parser-IsClean same_field

-- The bytes 0, 0, 5 are written as one.
abbrev binary_parser : Parser
binary_parser = record { rest = 0xa0 ∷ 0x20 ∷ 0xa0 ∷ []; bit = 3; truncated = false }

binary_parser-IsClean : IsClean binary_parser
binary_parser-IsClean =
    (record { offset = omega arith; bytes = (omega arith, (omega arith, (omega arith, tt))) }, refl)

same_binary :
    written some_output ++ pending binary_parser
    ≡ written (output_binary 9 some_output (0 ∷ 0 ∷ 5 ∷ [])).0 ++ 0 ∷ 0 ∷ 0 ∷ 0 ∷ 0 ∷ []
unfolding output_binary output_uint output_byte
same_binary = refl

space : (output_binary 9 some_output (0 ∷ 0 ∷ 5 ∷ [])).1 ≡ true
unfolding output_binary output_uint output_byte
space = refl

parse_binary-output_binary_example :
    (q : Parser) × (parse_binary binary_parser (0 ∷ 0 ∷ 0 ∷ []) ≡ Outcome.value (0 ∷ 0 ∷ 5 ∷ []) q)
    × (pending q ≡ 0 ∷ 0 ∷ 0 ∷ 0 ∷ 0 ∷ [])
    × IsClean q
parse_binary-output_binary_example =
    parse_binary-output_binary 9 some_output (0 ∷ 0 ∷ 5 ∷ []) binary_parser (0 ∷ 0 ∷ 0 ∷ 0 ∷ 0 ∷ [])
      (omega arith) (omega arith) (omega arith, (omega arith, (omega arith, tt)))
      some_output-IsValid binary_parser-IsClean space same_binary

-- The header for the schema `S1`.
abbrev schema_id : Bytes
schema_id = b'S' ∷ b'1' ∷ []

abbrev header_output : Output
header_output = record { done = 0xa0 ∷ 0x30 ∷ 0x11 ∷ 0x4c ∷ []; last = 0xc6; bit = 7 }

header_written : exi_output_header schema_id ≡ some header_output
unfolding exi_output_header exi_output_literal utf8_length utf8_char step output_bits output_uint
    output_byte
header_written = refl

abbrev header_parser : Parser
header_parser = record { rest = 0xa0 ∷ 0x30 ∷ 0x11 ∷ 0x4c ∷ 0xc6 ∷ []; bit = 0; truncated = false }

header_parser-IsClean : IsClean header_parser
header_parser-IsClean = (
  record {
    offset = omega arith;
    bytes = (omega arith, (omega arith, (omega arith, (omega arith, (omega arith, tt)))));
  },
  refl,
)

exi_parse_header-exi_output_header_example :
    (q : Parser) × (exi_parse_header 0 schema_id header_parser ≡ Outcome.value 1 q)
    × (pending q ≡ 0 ∷ [])
    × IsClean q
exi_parse_header-exi_output_header_example =
    exi_parse_header-exi_output_header 0 schema_id header_output header_parser (0 ∷ [])
      (omega arith) ((omega arith, omega arith), ((omega arith, omega arith), tt)) (omega arith)
      (omega arith) header_written header_parser-IsClean refl refl

-- The text `a` of the element 7, with empty tables.
abbrev empty_tables : Tables
empty_tables = record { local = []; global = record { name = 0; space = 32; strings = [] } }

abbrev one_string : Tables
one_string = record {
  local = record { name = 7; space = 8; strings = (b'a' ∷ []) ∷ [] } ∷ [];
  global = record { name = 0; space = 32; strings = (b'a' ∷ []) ∷ [] };
}

abbrev string_output : Output
string_output = record { done = 3 ∷ b'a' ∷ []; last = 0; bit = 0 }

string_written :
    exi_output_string cleared empty_tables 7 (b'a' ∷ []) ≡ some (string_output, one_string)
unfolding exi_output_string find_table find_string add_string with_table exi_output_literal
    utf8_length utf8_char step output_uint output_byte
string_written = refl

abbrev string_parser : Parser
string_parser = record { rest = 3 ∷ b'a' ∷ 0x80 ∷ []; bit = 0; truncated = false }

string_parser-IsClean : IsClean string_parser
string_parser-IsClean =
    (record { offset = omega arith; bytes = (omega arith, (omega arith, (omega arith, tt))) }, refl)

no_table : (t : StringTable) → find_table empty_tables.local 7 ≡ some t → length t.strings ≤ 2 ^ 24
unfolding find_table
no_table t e = absurd (cc)

exi_parse_string-exi_output_string_example :
    ReadString
      (b'a' ∷ [])
      (decoded empty_tables 7 (b'a' ∷ []) one_string)
      (1 ∷ 0 ∷ 0 ∷ 0 ∷ 0 ∷ 0 ∷ 0 ∷ 0 ∷ [])
      (exi_parse_string 0 string_parser empty_tables 7 2)
exi_parse_string-exi_output_string_example =
    exi_parse_string-exi_output_string 0 empty_tables one_string 7 2 (b'a' ∷ []) cleared
      string_output string_parser (1 ∷ 0 ∷ 0 ∷ 0 ∷ 0 ∷ 0 ∷ 0 ∷ 0 ∷ []) (omega arith) cleared-IsValid
      string_parser-IsClean (omega arith) ((omega arith, omega arith), tt) refl (omega arith)
      no_table (omega arith) string_written refl

-- The text of the one character e9, whose literal is two groups: two characters are read for it.
abbrev accent_parser : Parser
accent_parser = record { rest = 0xe9 ∷ 1 ∷ b'a' ∷ []; bit = 0; truncated = false }

two_bytes : exi_utf8_length accent_parser 1 ≡ TextSize.bytes 2
unfolding exi_utf8_length parse_byte
two_bytes = refl

two_characters :
    parse_literal 2 accent_parser
    ≡ some (0xc3 ∷ 0xa9 ∷ b'a' ∷ [], record { rest = []; bit = 0; truncated = false })
unfolding parse_literal parse_uint parse_byte shift_group utf8_encode
two_characters = refl

-- A string of the global table that is new to its element: the reader's local table stays empty.
abbrev global_string : Tables
global_string = record {
  local = [];
  global = record { name = 0; space = 32; strings = (b'a' ∷ []) ∷ [] };
}

local_table_behind : decoded global_string 7 (b'a' ∷ []) one_string ≡ global_string
unfolding find_table find_string find_local
local_table_behind = refl
