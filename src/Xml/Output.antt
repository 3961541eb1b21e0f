-- ===== src/Xml/Output.antt =====
-- The texts of core/xml_output.c: characters and escaped texts, within the buffer.
use client.Base.{
  ℕ, zero, suc, ◌-◌, Bool, true, false, Option, none, some, [], ◌∷◌, ◌++◌, ◌==◌, ltb, if◌then◌else◌,
  length,
}
use client.Text.{Text}
use client.Utf8.{utf8_char}
use client.Xml.{before}

-- What is written, and the bytes from `ptr` to `end`.
pub record Buffer : Type 0 where
  pub out : Text
  pub room : ℕ

-- The zero behind the text takes a byte too.
unfoldable pub output_char : Buffer → ℕ → Buffer × Bool
output_char o c =
    if ltb 1 o.room then (record { out = o.out ++ c ∷ []; room = o.room - 1 }, true) else (o, false)

-- The bytes that stand for a character, which `bytes` are in the text.
abbrev pub escape : ℕ → Text → Text
escape c bytes =
    if c == b'<'
    then b'&' ∷ b'l' ∷ b't' ∷ b';' ∷ []
    else if c == b'>'
    then b'&' ∷ b'g' ∷ b't' ∷ b';' ∷ []
    else if c == b'&'
    then b'&' ∷ b'a' ∷ b'm' ∷ b'p' ∷ b';' ∷ []
    else if c == b'"'
    then b'&' ∷ b'q' ∷ b'u' ∷ b'o' ∷ b't' ∷ b';' ∷ []
    else bytes

-- How the loop ends: with the bytes that are written, without space for them, or at bytes that are
-- not UTF-8, where the length of the character is not defined.
pub data Escaped : Type 0 where
  written : Text → Escaped
  full : Escaped
  undefined : Escaped

-- A character takes a byte at least, so that the fuel is the length of the text.
unfoldable pub escaped_loop : ℕ → ℕ → Text → Text → Escaped
escaped_loop fuel room out [] = written out
escaped_loop zero room out (b ∷ s) = written out
escaped_loop (suc fuel) room out (b ∷ s) = elim (utf8_char (b ∷ s)) [
  | none ↦ undefined
  | some (c, next) ↦
      let n = escape c (before (b ∷ s) next) in
      elim (ltb (length n) room) [
        | true ↦ escaped_loop fuel (room - length n) (out ++ n) next
        | false ↦ full
      ]
]

abbrev pub escaped_to : Buffer → Escaped → Option (Buffer × Bool)
escaped_to o (written out) = some (record { out = o.out ++ out; room = o.room - length out }, true)
escaped_to o full = some (o, false)
escaped_to o undefined = none

-- The buffer afterwards and what it returns, or none where it is undefined. A null text is refused.
unfoldable pub output_escaped : Buffer → Option Text → Option (Buffer × Bool)
unfolding escaped_loop
output_escaped o none = some (o, false)
output_escaped o (some s) = escaped_to o (escaped_loop (length s) o.room [] s)
