-- ===== src/Xml/Hex.antt =====
-- Hexadecimal data: `output_hex` of core/xml_output.c and `parse_hex` of core/xml_parse.c.
use mathlib.Core.Option
use client.Base.{
  ℕ, zero, suc, ◌+◌, ◌-◌, ◌*◌, ◌/◌, ◌%◌, ◌^◌, Bool, true, false, Option, none, some, List, [], ◌∷◌,
  ◌++◌, ◌==◌, leb, ltb, if◌then◌else◌, length, replicate,
}
use client.Text.{Text, trim}
use client.Xml.{hex_digit}
use client.Xml.Output.{Buffer}
use client.Exi.Binary.{strip_zeros}

abbrev pub hex_char : ℕ → ℕ
hex_char x = if ltb x 10 then b'0' + x else b'a' + (x - 10)

abbrev pub hex_chars : List ℕ → Text
hex_chars [] = []
hex_chars (x ∷ rest) = hex_char (x / 2 ^ 4) ∷ hex_char (x % 2 ^ 4) ∷ hex_chars rest

-- `while (i < n-1 && value[i] == 0) i++;` passes over the zeros at the front, like the loop of
-- `output_binary`.
unfoldable pub output_hex : Buffer → List ℕ → Buffer × Bool
output_hex o value =
    let v = strip_zeros value in
    if leb o.room (length v * 2)
    then (o, false)
    else (record { out = o.out ++ hex_chars v; room = o.room - length v * 2 }, true)

abbrev pub digit_is : Option ℕ → Bool
digit_is none = false
digit_is (some x) = true

-- The digits by two, and what follows them; none where one is alone or there are more than `n`
-- bytes.
unfoldable pub hex_bytes : ℕ → Text → Option (List ℕ × Text)
hex_bytes n [] = some ([], [])
hex_bytes n (d ∷ []) = if digit_is (hex_digit d) then none else some ([], d ∷ [])
hex_bytes zero (d ∷ e ∷ rest) = if digit_is (hex_digit d) then none else some ([], d ∷ e ∷ rest)
hex_bytes (suc n) (d ∷ e ∷ rest) = elim (hex_digit d) [
  | none ↦ some ([], d ∷ e ∷ rest)
  | some x ↦ elim (hex_digit e) [
    | none ↦ none
    | some y ↦ Option.map (λ (r : List ℕ × Text). ((x * 2 ^ 4 + y) ∷ r.0, r.1)) (hex_bytes n rest)
  ]
]

-- The bytes are moved to the end of the `n` bytes of the field, behind zeros.
abbrev pub moved : ℕ → List ℕ × Text → Option (List ℕ)
moved n (bytes, rest) =
    if length bytes == 0
    then none
    else elim (trim rest) [ [] ↦ some (replicate (n - length bytes) 0 ++ bytes) | c ∷ more ↦ none ]

-- None where it returns 0.
unfoldable pub parse_hex : ℕ → Text → Option (List ℕ)
unfolding hex_bytes
parse_hex n data' = elim (hex_bytes n data') [ none ↦ none | some r ↦ moved n r ]
