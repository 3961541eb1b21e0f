-- ===== src/Exi/Values/Tests.antt =====
-- Runs of `exi_output_value` and `exi_parse_value`.
use client.Base.{◌≡◌, refl, true, false, some, [], ◌∷◌, ◌++◌, arith}
use client.Base.Int.{negsuc}
use client.Schema.XsType
use client.Exi.{Output, output_byte, output_uint, Parser}
use client.Exi.Bits.{IsValid, written, pending}
use client.Exi.Groups.{IsClean}
use client.Exi.Integer.{output_bit, output_integer}
use client.Exi.Strings.{Tables}
use client.Exi.Values.{signed, unsigned, exi_output_value, exi_parse_value}
use client.Exi.Values.Numbers.{IsNumber, ReadValue, exi_parse_value-exi_output_value}

abbrev no_strings : Tables
no_strings = record { local = []; global = record { name = 0; space = 32; strings = [] } }

-- Three bits of a byte are written.
abbrev some_output : Output
some_output = record { done = []; last = 0xa0; bit = 3 }

some_output-IsValid : IsValid some_output
some_output-IsValid = record { offset = omega arith; byte = omega arith; clear = refl }

-- The number -3 behind them: its sign and a byte.
abbrev short_output : Output
short_output = record { done = 0xb0 ∷ []; last = 0x30; bit = 4 }

short_written :
    exi_output_value 11 XsType.short 7 0 some_output no_strings (signed (negsuc 2))
    ≡ some (true, short_output, no_strings)
unfolding exi_output_value output_integer output_bit output_uint output_byte
short_written = refl

-- One byte less of space.
no_space :
    exi_output_value 9 XsType.short 7 0 some_output no_strings (signed (negsuc 2))
    ≡ some (false, some_output, no_strings)
unfolding exi_output_value
no_space = refl

abbrev short_parser : Parser
short_parser = record { rest = 0xb0 ∷ 0x35 ∷ []; bit = 3; truncated = false }

short_parser-IsClean : IsClean short_parser
short_parser-IsClean =
    (record { offset = omega arith; bytes = (omega arith, (omega arith, tt)) }, refl)

short_stream :
    written some_output ++ pending short_parser ≡ written short_output ++ 0 ∷ 1 ∷ 0 ∷ 1 ∷ []
short_stream = refl

exi_parse_value-exi_output_value_example :
    ReadValue
      (signed (negsuc 2))
      no_strings
      (0 ∷ 1 ∷ 0 ∷ 1 ∷ [])
      (exi_parse_value 0 XsType.short 7 0 short_parser no_strings (unsigned 0))
exi_parse_value-exi_output_value_example =
    exi_parse_value-exi_output_value 0 11 XsType.short 7 0 no_strings no_strings some_output
      short_output (signed (negsuc 2)) (unsigned 0) short_parser (0 ∷ 1 ∷ 0 ∷ 1 ∷ []) (omega arith)
      some_output-IsValid short_parser-IsClean (IsNumber.short (negsuc 2) refl (omega arith))
      short_written short_stream
