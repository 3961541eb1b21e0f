-- ===== src/Exi/Values.antt =====
-- The values of fields, by their types: `exi_output_value` of core/exi_output.c and
-- `exi_parse_value` of core/exi_parse.c.
pub mod Numbers
pub mod Tests
use mathlib.Core.Option
use client.Base.{
  ℕ, zero, suc, ◌+◌, ◌-◌, ◌*◌, ◌/◌, ◌%◌, ◌^◌, bit_or, Bool, true, false, Option, none, some, List,
  [], ◌∷◌, ◌==◌, ◌||◌, ltb, if◌then◌else◌, length,
}
use client.Base.Int.{ℤ, pos, negsuc}
use client.Utf8.{Bytes}
use client.Schema.XsType
use client.Exi.{Output, output_uint, Parser, parse_uint}
use client.Exi.BitField.{output_bits, parse_bits}
use client.Exi.Integer.{output_bit, parse_bit, output_integer, parse_integer}
use client.Exi.Binary.{Outcome, output_binary, parse_binary}
use client.Exi.Strings.{Tables, exi_output_string, exi_parse_string}

-- What a field holds. The flags are the 32 bits of which a boolean is one.
pub data Value : Type 0 where
  text : Bytes → Value
  flags : ℕ → Value
  binary : List ℕ → Value
  signed : ℤ → Value
  unsigned : ℕ → Value

-- A field is read as what its type says.
abbrev pub text_of : Value → Bytes
text_of (text s) = s
text_of _ = []

abbrev pub binary_of : Value → List ℕ
binary_of (binary b) = b
binary_of _ = []

abbrev pub signed_of : Value → ℤ
signed_of (signed x) = x
signed_of _ = pos 0

abbrev pub word_of : Value → ℕ
word_of (flags w) = w
word_of (unsigned x) = x
word_of _ = 0

-- `x + 128`
abbrev pub from_byte : ℤ → ℕ
from_byte (pos n) = n + 128
from_byte (negsuc n) = 127 - n

-- `x - 128`
abbrev pub to_byte : ℕ → ℤ
to_byte x = if ltb x 128 then negsuc (127 - x) else pos (x - 128)

-- The low 16 bits as an `int16_t`.
abbrev pub to_short : ℤ → ℤ
to_short (pos n) =
    if ltb (n % 2 ^ 16) (2 ^ 15) then pos (n % 2 ^ 16) else negsuc (2 ^ 16 - 1 - n % 2 ^ 16)
to_short (negsuc n) =
    if ltb (n % 2 ^ 16) (2 ^ 15) then negsuc (n % 2 ^ 16) else pos (2 ^ 16 - 1 - n % 2 ^ 16)

-- What it returns, with the output and the tables, or none where a text is cut off within a
-- character. `size` is the length of the buffer.
unfoldable pub exi_output_value :
    ℕ → ℕ → ℕ → ℕ → Output → Tables → Value → Option (Bool × Output × Tables)
exi_output_value size type name flag o tables v =
    let t = type % 16 in
    if ltb size (length o.done + 10)
    then some (false, o, tables)
    else if t == XsType.string || t == XsType.any_uri
    then Option.map (λ (r : Output × Tables). (true, r.0, r.1))
        (exi_output_string o tables name (text_of v))
    else if t == XsType.boolean
    then some (true, output_bit o (word_of v / 2 ^ flag % 2), tables)
    else if t == XsType.hex_binary
    then (let r = output_binary size o (binary_of v) in some (r.1, r.0, tables))
    else if t == XsType.long || t == XsType.int || t == XsType.short
    then some (true, output_integer o (signed_of v), tables)
    else if t == XsType.byte
    then some (true, output_bits o (from_byte (signed_of v)) 8, tables)
    else if t == XsType.ulong || t == XsType.uint || t == XsType.ushort
    then some (true, output_uint o (word_of v), tables)
    else if t == XsType.ubyte
    then some (true, output_bits o (word_of v) 8, tables)
    else some (true, o, tables)

-- `return !p->truncated`
abbrev pub whole : Tables → Value → Parser → Outcome (Value × Tables)
whole tables v q = if q.truncated then Outcome.truncated q else Outcome.value (v, tables) q

abbrev pub text_value : Outcome (Bytes × Tables) → Outcome (Value × Tables)
text_value (Outcome.value (s, tables) q) = Outcome.value (text s, tables) q
text_value (Outcome.truncated q) = Outcome.truncated q
text_value (Outcome.invalid q) = Outcome.invalid q
text_value Outcome.undefined = Outcome.undefined

abbrev pub binary_value : Tables → Outcome (List ℕ) → Outcome (Value × Tables)
binary_value tables (Outcome.value b q) = Outcome.value (binary b, tables) q
binary_value tables (Outcome.truncated q) = Outcome.truncated q
binary_value tables (Outcome.invalid q) = Outcome.invalid q
binary_value tables Outcome.undefined = Outcome.undefined

abbrev pub signed_value : Tables → (ℤ → ℤ) → Option (ℤ × Parser) → Outcome (Value × Tables)
signed_value tables cast none = Outcome.undefined
signed_value tables cast (some (x, q)) = whole tables (signed (cast x)) q

abbrev pub unsigned_value : Tables → ℕ → Option (ℕ × Parser) → Outcome (Value × Tables)
unsigned_value tables width none = Outcome.undefined
unsigned_value tables width (some (x, q)) = whole tables (unsigned (x % 2 ^ width)) q

-- `old` is what the field holds before. The numbers that `parse_uint` reads are below 2 ^ 31 or
-- undefined, so that the types of 32 and 64 bits hold them.
unfoldable pub exi_parse_value : ℕ → ℕ → ℕ → ℕ → Parser → Tables → Value → Outcome (Value × Tables)
exi_parse_value past type name flag p tables old =
    let t = type % 16 in
    if t == XsType.string
    then text_value (exi_parse_string past p tables name (type / 16))
    else if t == XsType.boolean
    then (let r = parse_bit p in
        whole tables
          (flags (if r.0 == 0 then word_of old else bit_or (word_of old) (2 ^ flag % 2 ^ 32))) r.1)
    else if t == XsType.hex_binary
    then binary_value tables (parse_binary p (binary_of old))
    else if t == XsType.any_uri
    then text_value (exi_parse_string past p tables name 0)
    else if t == XsType.long || t == XsType.int
    then signed_value tables (λ x. x) (parse_integer p)
    else if t == XsType.short
    then signed_value tables to_short (parse_integer p)
    else if t == XsType.byte
    then (let r = parse_bits past p 8 in whole tables (signed (to_byte r.0)) r.1)
    else if t == XsType.ulong
    then unsigned_value tables 64 (parse_uint p)
    else if t == XsType.uint
    then unsigned_value tables 32 (parse_uint p)
    else if t == XsType.ushort
    then unsigned_value tables 16 (parse_uint p)
    else if t == XsType.ubyte
    then (let r = parse_bits past p 8 in whole tables (unsigned r.0) r.1)
    else whole tables old p
