-- ===== src/Xml/Tests.antt =====
-- Runs of core/xml_token.c, core/xml_output.c and core/xml_parse.c.
use client.Base.{◌-◌, ◌≡◌, ◌≢◌, refl, true, false, none, some, [], ◌∷◌, length, arith}
use client.Text.{Text, trim}
use client.Utf8.{utf8_char, step}
use client.Xml.{Value, att_value, strchr, xml_name, xml_attributes, xml_eq, set_attribute}
use client.Xml.Output.{Buffer, output_escaped}
use client.Xml.Escaped.{outside, xml_token-output_escaped}
use client.Exi.Binary.{strip_zeros}
use client.Xml.Hex.{output_hex, parse_hex}
use client.Xml.Hexadecimal.{parse_hex-output_hex}
use client.Xml.References.{Names, att_value-reference}
use client.Xml.Token.Rounds.{xml_token-ne-out_of_fuel}
use client.Xml.Token.{Scan, Token, Scanned, scan_round, token_end, xml_pi, xml_token, xml_tag}

-- `a<b`
abbrev some_text : Text
some_text = b'<' ∷ b'b' ∷ []

abbrev some_buffer : Buffer
some_buffer = record { out = b'>' ∷ []; room = 10 }

xml_token-output_escaped_example :
    (output_escaped some_buffer (some (b'a' ∷ some_text))
      ≡ some (record { out = b'>' ∷ b'a' ∷ b'&' ∷ b'l' ∷ b't' ∷ b';' ∷ b'b' ∷ []; room = 4 }, true))
    × (xml_token
          (outside [])
          (b'a' ∷ b'&' ∷ b'l' ∷ b't' ∷ b';' ∷ b'b' ∷ b'<' ∷ b'/' ∷ b'a' ∷ b'>' ∷ [])
        ≡ Scanned.token
            (Token.text_token (b'a' ∷ some_text))
            (record { state = 2; in_text = false; text = []; attr = [] })
            (b'/' ∷ b'a' ∷ b'>' ∷ []))
xml_token-output_escaped_example =
    xml_token-output_escaped some_buffer b'a' some_text [] b'/' (b'a' ∷ b'>' ∷ []) (omega arith)
      ((omega arith, refl), ((omega arith, refl), ((omega arith, refl), tt))) refl refl

-- A tag, the text before it, and a tag with a reference in its attribute.
abbrev element : Text
element = b'<' ∷ b'a' ∷ b' ' ∷ b'h' ∷ b'=' ∷ b'"' ∷ b'x' ∷ b'"' ∷ b'>' ∷ b'1' ∷ []

start_of_element :
    xml_token (outside []) element
    ≡ Scanned.token
        (Token.start_tag (b'a' ∷ []))
        (outside ((b'h' ∷ [], b'x' ∷ []) ∷ []))
        (b'1' ∷ [])
unfolding xml_token xml_tag att_value scan_round strchr xml_name utf8_char step xml_attributes trim
    xml_eq set_attribute
start_of_element = refl

-- The attributes of the tag before are still there.
stale_attributes :
    xml_token (outside ((b'h' ∷ [], b'x' ∷ []) ∷ [])) (b'<' ∷ b'b' ∷ b'>' ∷ [])
    ≡ Scanned.token (Token.start_tag (b'b' ∷ [])) (outside ((b'h' ∷ [], b'x' ∷ []) ∷ [])) []
unfolding xml_token xml_tag scan_round strchr xml_name utf8_char step
stale_attributes = refl

-- Behind a text, an instruction leaves the scanner within a tag, and the next tag is refused.
abbrev behind_text : Scan
behind_text = record { state = 2; in_text = false; text = []; attr = [] }

after_instruction :
    xml_token behind_text (b'?' ∷ b'p' ∷ b'?' ∷ b'>' ∷ b'<' ∷ b'/' ∷ b'a' ∷ b'>' ∷ [])
    ≡ Scanned.token
        (Token.instruction (b'p' ∷ []) none)
        behind_text
        (b'<' ∷ b'/' ∷ b'a' ∷ b'>' ∷ [])
unfolding xml_token scan_round token_end xml_pi xml_name utf8_char step
after_instruction = refl

refused_tag : xml_token behind_text (b'<' ∷ b'/' ∷ b'a' ∷ b'>' ∷ []) ≡ Scanned.invalid
unfolding xml_token xml_tag scan_round strchr xml_name utf8_char step
refused_tag = refl

parse_hex-output_hex_example :
    (digits : Text) × (output_hex some_buffer (0 ∷ 0xab ∷ [])
      ≡ (record { out = b'>' ∷ digits; room = 10 - length digits }, true))
    × (length digits ≡ 2)
    × (parse_hex 2 digits ≡ some (0 ∷ 0xab ∷ []))
unfolding strip_zeros
parse_hex-output_hex_example =
    parse_hex-output_hex some_buffer (0 ∷ 0xab ∷ []) (omega arith) (omega arith, (omega arith, tt))

att_value-reference_example :
    att_value (b'"' ∷ b'a' ∷ b'&' ∷ b'l' ∷ b't' ∷ b';' ∷ b'"' ∷ b'>' ∷ [])
    ≡ Value.value (b'a' ∷ b'<' ∷ b'&' ∷ []) (b'>' ∷ [])
att_value-reference_example =
    att_value-reference (b'a' ∷ []) (b'l' ∷ b't' ∷ []) (b'>' ∷ []) b'<' ((refl, refl, refl), tt)
      Names.lt

xml_token-ne-out_of_fuel_example : xml_token (outside []) (b'a' ∷ some_text) ≢ Scanned.out_of_fuel
xml_token-ne-out_of_fuel_example = xml_token-ne-out_of_fuel (outside []) (b'a' ∷ some_text)
