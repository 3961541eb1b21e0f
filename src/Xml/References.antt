-- ===== src/Xml/References.antt =====
-- References in the values of attributes, and sections of character data.
use mathlib.Core.Option
use client.Base.{
  ℕ, zero, suc, ◌+◌, ◌≤◌, ◌≡◌, refl, ap, false, some, [], ◌∷◌, ◌++◌, ◌==◌, length, length-append,
  arith, All,
}
use client.Text.{Text, string_index}
use client.Xml.{Reference, xml_reference, Value, prepend, att_value_loop, att_value}
use client.Xml.Token.{Scan, Scanned, stop, token_end, scan_round, cdata}

-- The names of the references, with the characters that they stand for.
pub data Names : Text → ℕ → Type 0 where
  amp : Names (b'a' ∷ b'm' ∷ b'p' ∷ []) b'&'
  lt : Names (b'l' ∷ b't' ∷ []) b'<'
  gt : Names (b'g' ∷ b't' ∷ []) b'>'
  quot : Names (b'q' ∷ b'u' ∷ b'o' ∷ b't' ∷ []) b'"'
  apos : Names (b'a' ∷ b'p' ∷ b'o' ∷ b's' ∷ []) b'\''

xml_reference-Names :
    (name : Text) (c : ℕ) (rest : Text)
    → Names name c
    → xml_reference (name ++ b';' ∷ rest) ≡ (Reference.bytes (c ∷ []), rest)
unfolding xml_reference string_index
xml_reference-Names name c rest amp = refl
xml_reference-Names name c rest lt = refl
xml_reference-Names name c rest gt = refl
xml_reference-Names name c rest quot = refl
xml_reference-Names name c rest apos = refl

-- A byte that stands for itself in a value that is quoted by `"`.
abbrev pub IsLiteral : ℕ → Type 0
IsLiteral c = ((c == b'<') ≡ false) × ((c == b'&') ≡ false) × ((c == b'"') ≡ false)

module _ (name : Text) (e : ℕ) (named : Names name e) (rest : Text) where
  quoted : (n : ℕ) → att_value_loop (suc n) b'"' (b'"' ∷ rest) ≡ Value.value [] rest
  unfolding att_value_loop
  quoted n = refl

  at_reference :
      (n : ℕ)
      → att_value_loop (suc (suc n)) b'"' (b'&' ∷ (name ++ b';' ∷ b'"' ∷ rest))
        ≡ Value.value (e ∷ b'&' ∷ []) rest
  unfolding att_value_loop
  at_reference n = rw (xml_reference-Names name e (b'"' ∷ rest) named, att_value_loop)

  in_literal :
      (pre : Text) (n : ℕ)
      → length pre + 2 ≤ n
      → All IsLiteral pre
      → att_value_loop n b'"' (pre ++ b'&' ∷ (name ++ b';' ∷ b'"' ∷ rest))
        ≡ Value.value (pre ++ e ∷ b'&' ∷ []) rest
  unfolding att_value_loop
  in_literal [] zero l h = absurd (omega arith)
  in_literal [] (suc zero) l h = absurd (omega arith)
  in_literal [] (suc (suc n)) l h = at_reference n
  in_literal (c ∷ pre) zero l h = absurd (omega arith)
  in_literal (c ∷ pre) (suc n) l h =
      rw (h.0.0, h.0.1, h.0.2) (ap (prepend (c ∷ [])) (in_literal pre n (omega arith) h.1))

-- A quoted value that ends with one of the five named references, behind bytes that stand for
-- themselves: the value that is stored has the character of the reference and the `&` behind it.
pub att_value-reference :
    (pre name rest : Text) (e : ℕ)
    → All IsLiteral pre
    → Names name e
    → att_value (b'"' ∷ (pre ++ b'&' ∷ (name ++ b';' ∷ b'"' ∷ rest)))
      ≡ Value.value (pre ++ e ∷ b'&' ∷ []) rest
unfolding att_value
att_value-reference pre name rest e h named =
    let tail = b'&' ∷ (name ++ b';' ∷ b'"' ∷ rest) in
    in_literal name e named rest pre (suc (length (pre ++ tail)))
      (omega (arith, length-append pre tail, length-append name (b';' ∷ b'"' ∷ rest))) h

-- The end of a section behind text without `]`.
abbrev section_end : Text
section_end = b']' ∷ b']' ∷ b'>' ∷ []

token_end-section :
    (text rest : Text)
    → All (λ c. (c == b']') ≡ false) text
    → token_end section_end (text ++ b']' ∷ b']' ∷ b'>' ∷ rest) ≡ some (text, rest)
unfolding token_end
token_end-section [] rest h = refl
token_end-section (c ∷ text) rest h =
    rw (h.0, token_end)
      (ap (Option.map (λ (r : Text × Text). (c ∷ r.0, r.1))) (token_end-section text rest h.1))

-- A section of character data that is not empty, of bytes other than `]`, is refused wherever it
-- stands.
pub scan_round-cdata :
    (entry : ℕ) (s : Scan) (c : ℕ) (text rest : Text)
    → s.state ≡ 4
    → All (λ d. (d == b']') ≡ false) (c ∷ text)
    → scan_round entry s b'[' (cdata ++ ((c ∷ text) ++ b']' ∷ b']' ∷ b'>' ∷ rest))
      ≡ stop Scanned.invalid
unfolding scan_round
scan_round-cdata entry s c text rest e h =
    let found =
      token_end-section (cdata ++ c ∷ text) rest
        (refl, (refl, (refl, (refl, (refl, (refl, h)))))) in
    rw (e, found, scan_round)
