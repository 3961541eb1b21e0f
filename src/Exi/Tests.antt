-- ===== src/Exi/Tests.antt =====
-- Runs of core/exi_output.c and core/exi_parse.c.
use client.Base.{◌^◌, ◌≡◌, refl, false, none, [], ◌∷◌, ◌++◌, ltb, arith}
use client.Exi.{Output, output_byte, output_uint, Parser, parse_byte, parse_uint, shift_group}
use client.Exi.Bits.{IsValid, written, pending}
use client.Exi.Groups.{IsClean}
use client.Exi.RoundTrip.{ReadBack, parse_uint-output_uint}
use client.Base.Int.{negsuc}
use client.Exi.Integer.{magnitude, output_bit, output_integer, parse_integer}
use client.Exi.Integer.SignBit.{ReadSigned, parse_integer-output_integer}

-- Three bits of a byte are written.
abbrev some_output : Output
some_output = record { done = []; last = 0xa0; bit = 3 }

some_output-IsValid : IsValid some_output
some_output-IsValid = record { offset = omega arith; byte = omega arith; clear = refl }

three_hundred :
    output_uint some_output 300 ≡ record { done = 0xb5 ∷ 0x80 ∷ []; last = 0x40; bit = 3 }
unfolding output_uint output_byte
three_hundred = refl

-- The data of `three_hundred` with five more bits.
abbrev some_parser : Parser
some_parser = record { rest = 0xb5 ∷ 0x80 ∷ 0x5f ∷ []; bit = 3; truncated = false }

some_parser-IsClean : IsClean some_parser
some_parser-IsClean =
    (record { offset = omega arith; bytes = (omega arith, (omega arith, (omega arith, tt))) }, refl)

same_stream :
    written some_output ++ pending some_parser
    ≡ written (output_uint some_output 300) ++ 1 ∷ 1 ∷ 1 ∷ 1 ∷ 1 ∷ []
unfolding output_uint output_byte
same_stream = refl

parse_uint-output_uint_example :
    ReadBack (ltb 300 (2 ^ 31)) 300 (1 ∷ 1 ∷ 1 ∷ 1 ∷ 1 ∷ []) (parse_uint some_parser)
parse_uint-output_uint_example =
    parse_uint-output_uint some_output 300 some_parser (1 ∷ 1 ∷ 1 ∷ 1 ∷ 1 ∷ []) some_output-IsValid
      some_parser-IsClean same_stream

-- 2 ^ 31, in five groups.
undefined_shift :
    parse_uint (record { rest = 0x80 ∷ 0x80 ∷ 0x80 ∷ 0x80 ∷ 0x08 ∷ []; bit = 0; truncated = false })
    ≡ none
unfolding parse_uint parse_byte shift_group
undefined_shift = refl

-- The number -300 is written across the two bits that are left in a byte.
abbrev signed_output : Output
signed_output = record { done = []; last = 0; bit = 6 }

signed_output-IsValid : IsValid signed_output
signed_output-IsValid = record { offset = omega arith; byte = omega arith; clear = refl }

abbrev signed_parser : Parser
signed_parser = record { rest = 3 ∷ 0x58 ∷ 0x04 ∷ []; bit = 6; truncated = false }

signed_parser-IsClean : IsClean signed_parser
signed_parser-IsClean =
    (record { offset = omega arith; bytes = (omega arith, (omega arith, (omega arith, tt))) }, refl)

same_signed_stream :
    written signed_output ++ pending signed_parser
    ≡ written (output_integer signed_output (negsuc 299)) ++ 0 ∷ []
unfolding output_integer output_bit output_uint output_byte
same_signed_stream = refl

parse_integer-output_integer_example :
    ReadSigned
      (ltb (magnitude (negsuc 299)) (2 ^ 31))
      (negsuc 299)
      (0 ∷ [])
      (parse_integer signed_parser)
parse_integer-output_integer_example =
    parse_integer-output_integer signed_output (negsuc 299) signed_parser (0 ∷ [])
      signed_output-IsValid signed_parser-IsClean same_signed_stream

-- The field 5 of three bits is written behind the three bits of a byte.
bits_parser : Parser
bits_parser = record { rest = 0xb5 ∷ []; bit = 3; truncated = false }
