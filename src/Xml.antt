-- ===== src/Xml.antt =====
-- core/xml_token.c: characters, names, references and attributes of XML. A text is the list of its
-- bytes before the terminating zero. The source decodes in place, behind the place where it reads;
-- what it has decoded is a list of its own here.
pub mod Token
pub mod Output
pub mod Escaped
pub mod References
pub mod Hex
pub mod Hexadecimal
mod Tests
use mathlib.Core.Option
use client.Base.{
  ℕ, zero, suc, ◌+◌, ◌-◌, ◌*◌, ◌/◌, ◌%◌, ◌^◌, bit_or, Bool, true, false, not, Option, none, some,
  List, [], ◌∷◌, ◌++◌, ◌==◌, ◌&&◌, ◌||◌, ltb, leb, if◌then◌else◌, take, drop, length,
}
use client.Text.{Text, first, in_range, alpha, digit, ws, streq, string_index, trim, number}
use client.Utf8.{utf8_char, utf8_encode}

abbrev pub name_start : ℕ → Bool
name_start c =
    alpha c
    || c == b':'
    || c == b'_'
    || in_range c 0xc0 0xd6
    || in_range c 0xd8 0xf6
    || in_range c 0xf8 0x2ff
    || in_range c 0x370 0x37d
    || in_range c 0x37f 0x1fff
    || in_range c 0x200c 0x200d
    || in_range c 0x2070 0x218f
    || in_range c 0x2c00 0x2fef
    || in_range c 0x3001 0xd7ff
    || in_range c 0xf900 0xfdcf
    || in_range c 0xfdf0 0xfffd
    || in_range c 0x10000 0xeffff

abbrev pub name_char : ℕ → Bool
name_char c =
    c == b'-'
    || c == b'.'
    || digit c
    || name_start c
    || c == 0xb7
    || in_range c 0x300 0x36f
    || in_range c 0x203f 0x2040

-- The text from `data` up to `end`, which is the rest of it.
abbrev pub before : Text → Text → Text
before data' end = take (length data' - length end) data'

-- The loop of `xml_name` behind the first character; a character takes a byte at least, so that the
-- fuel is the length of the text and one round for its end. None where the bytes are not UTF-8.
unfoldable pub name_end : ℕ → Text → Option Text
name_end zero data' = none
name_end (suc fuel) data' = elim (utf8_char data') [
  | none ↦ none
  | some (c, next) ↦ elim (name_char c) [ true ↦ name_end fuel next | false ↦ some data' ]
]

-- What follows the name.
unfoldable pub xml_name : Text → Option Text
unfolding name_end
xml_name data' = elim (utf8_char data') [
  | none ↦ none
  | some (c, next) ↦ if name_start c then name_end (suc (length data')) next else none
]

abbrev pub xml_char : ℕ → Bool
xml_char c =
    ws c || in_range c 0x20 0xd7ff || in_range c 0xe000 0xfffd || in_range c 0x10000 0x10ffff

-- The value of a hexadecimal digit; the source returns what is to be subtracted from it, or 0.
unfoldable pub hex_digit : ℕ → Option ℕ
hex_digit c =
    if digit c
    then some (c - b'0')
    else if in_range c b'a' b'f'
    then some (c - b'a' + 10)
    else if in_range c b'A' b'F'
    then some (c - b'A' + 10)
    else none

-- The value wraps at 32 bits; the source leaves that to the machine.
unfoldable pub hex_loop : ℕ → Text → ℕ × Text
hex_loop y [] = (y, [])
hex_loop y (d ∷ rest) = elim (hex_digit d) [
  | none ↦ (y, d ∷ rest)
  | some x ↦ hex_loop ((y * 2 ^ 4 + x) % 2 ^ 32) rest
]

unfoldable pub hex_number : Text → Option (ℕ × Text)
unfolding hex_loop
hex_number data' = elim (hex_digit (first data')) [ none ↦ none | some x ↦ some (hex_loop 0 data') ]

-- `strchr (data, c)`: the text before the character and the text behind it.
unfoldable pub strchr : ℕ → Text → Option (Text × Text)
strchr c [] = none
strchr c (d ∷ rest) =
    let later = Option.map (λ (r : Text × Text). (d ∷ r.0, r.1)) (strchr c rest) in
    if d == c then some ([], rest) else later

abbrev pub refs : List Text
refs =
    (b'a' ∷ b'm' ∷ b'p' ∷ [])
    ∷ (b'l' ∷ b't' ∷ [])
    ∷ (b'g' ∷ b't' ∷ [])
    ∷ (b'q' ∷ b'u' ∷ b'o' ∷ b't' ∷ [])
    ∷ (b'a' ∷ b'p' ∷ b'o' ∷ b's' ∷ [])
    ∷ []

-- The character of a reference by its number in `refs`.
abbrev pub entity : ℕ → Option ℕ
entity zero = some b'&'
entity (suc zero) = some b'<'
entity (suc (suc zero)) = some b'>'
entity (suc (suc (suc zero))) = some b'"'
entity (suc (suc (suc (suc zero)))) = some b'\''
entity (suc (suc (suc (suc (suc n))))) = none

-- What a reference stands for: nothing, or bytes; for a code that is too large for `utf8_encode` the
-- source goes on at its NULL, which is undefined.
pub data Reference : Type 0 where
  refused : Reference
  undefined : Reference
  bytes : Text → Reference

abbrev pub encoded : Option Text → Reference
encoded none = undefined
encoded (some text) = bytes text

-- A number that is followed by the end of the reference.
abbrev pub code_bytes : Option (ℕ × Text) → Reference
code_bytes none = refused
code_bytes (some (code, [])) = encoded (utf8_encode code)
code_bytes (some (code, c ∷ rest)) = refused

abbrev pub entity_bytes : Option ℕ → Reference
entity_bytes none = refused
entity_bytes (some c) = bytes (c ∷ [])

-- A reference without its `&` and `;`.
unfoldable pub reference_bytes : Text → Reference
reference_bytes name =
    if first name == b'#'
    then (if first (drop 1 name) == b'x'
        then code_bytes (hex_number (drop 2 name))
        else code_bytes (number (drop 1 name)))
    else entity_bytes (entity (string_index name refs))

-- What it stands for, and the text behind it.
unfoldable pub xml_reference : Text → Reference × Text
unfolding strchr reference_bytes
xml_reference data' = elim (strchr b';' data') [
  | none ↦ (refused, data')
  | some (name, rest) ↦ (reference_bytes name, rest)
]

-- Decoded, and the text behind it.
pub data Value : Type 0 where
  refused : Value
  undefined : Value
  value : Text → Text → Value

abbrev pub prepend : Text → Value → Value
prepend front (Value.value text rest) = Value.value (front ++ text) rest
prepend front other = other

-- The value of an attribute behind its quote `q`: behind what a reference stands for, the `&` itself
-- is stored too. The fuel is the length of the text.
abbrev pub att_reference : Reference → Value → Value
att_reference Reference.refused v = Value.refused
att_reference Reference.undefined v = Value.undefined
att_reference (Reference.bytes b) v = prepend (b ++ b'&' ∷ []) v

unfoldable pub att_value_loop : ℕ → ℕ → Text → Value
att_value_loop zero q data' = Value.refused
att_value_loop (suc fuel) q [] = Value.refused
att_value_loop (suc fuel) q (c ∷ data') =
    let rest = prepend (c ∷ []) (att_value_loop fuel q data') in
    let r = xml_reference data' in
    let behind = att_reference r.0 (att_value_loop fuel q r.1) in
    if c == b'<'
    then Value.refused
    else if c == b'&'
    then behind
    else if c == q
    then Value.value [] data'
    else rest

unfoldable pub att_value : Text → Value
unfolding att_value_loop
att_value [] = Value.refused
att_value (q ∷ data') =
    if q == b'"' || q == b'\'' then att_value_loop (suc (length data')) q data' else Value.refused

unfoldable pub xml_eq : Text → Option Text
xml_eq data' = elim (trim data') [
  | [] ↦ none
  | c ∷ rest ↦ if c == b'=' then some (trim rest) else none
]

abbrev pub max_attribute : ℕ
max_attribute = 16

-- `attr[i] = data; attr[i+1] = value; i = (i + 2) % (2 * MAX_ATTRIBUTE);`: past the last place the
-- first one is written again.
unfoldable pub set_attribute : ℕ → Text × Text → List (Text × Text) → List (Text × Text)
set_attribute zero a [] = a ∷ []
set_attribute zero a (b ∷ rest) = a ∷ rest
set_attribute (suc i) a [] = a ∷ []
set_attribute (suc i) a (b ∷ rest) = b ∷ set_attribute i a rest

-- The attributes and what follows them.
pub data Attributes : Type 0 where
  refused : Attributes
  undefined : Attributes
  attributes : List (Text × Text) → Text → Attributes

unfoldable pub attributes_loop : ℕ → ℕ → List (Text × Text) → Text → Attributes
unfolding xml_name
attributes_loop zero i attr data' = Attributes.refused
attributes_loop (suc fuel) i attr data' = elim (xml_name data') [
  | none ↦ Attributes.attributes attr data'
  | some end ↦ elim (xml_eq end) [
    | none ↦ Attributes.refused
    | some behind_eq ↦ elim (att_value behind_eq) [
      | Value.refused ↦ Attributes.refused
      | Value.undefined ↦ Attributes.undefined
      | Value.value decoded next ↦
          attributes_loop fuel ((i + 1) % max_attribute)
            (set_attribute i (before data' end, decoded) attr) (trim next)
    ]
  ]
]

unfoldable pub xml_attributes : Text → Attributes
unfolding attributes_loop
xml_attributes data' = attributes_loop (suc (length data')) 0 [] (trim data')

-- The value of the first attribute of that name.
unfoldable pub attr_value : List (Text × Text) → Text → Option Text
attr_value [] name = none
attr_value ((a, v) ∷ rest) name = if streq a name then some v else attr_value rest name
