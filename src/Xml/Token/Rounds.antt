-- ===== src/Xml/Token/Rounds.antt =====
-- The loop of `xml_token` in core/xml_token.c ends.
use mathlib.Core.Path.{subst}
use client.Base.{
  ℕ, zero, suc, ◌+◌, ◌≤◌, ◌<◌, ◌≡◌, ◌≢◌, refl, Bool, true, false, Option, none, some, [], ◌∷◌, ◌==◌,
  if◌then◌else◌, length, arith, Option-cases, ==_iff, inl, inr,
}
use client.Text.{Text, ws, streq}
use client.Utf8.{utf8_char, utf8_encode}
use client.Xml.{xml_char, Reference, xml_reference, strchr}
use client.Xml.Token.{
  Scan, Tag, Scanned, Round, go_on, stop, token_end, xml_pi, xml_tag, emit, to_state, round_0,
  text_reference, encoded_char, text_char, round_1, tag_next, round_2, round_3, round_4, round_6,
  cdata, last_byte, scan_round, scan_loop, xml_token,
}
use client.Xml.Token.Lengths.{trim-le, xml_reference-le, utf8_char-le, token_end-le}

-- A round that ends the loop gives a result of the source; one that goes on leaves less text, or
-- enters a text.
abbrev Fine : Scanned → Type 0
Fine Scanned.out_of_fuel = ⊥
Fine _ = Unit {0}

abbrev weight : Scan → ℕ
weight s = if s.state == 0 then 1 else 0

abbrev Falls : ℕ → Round → Type 0
Falls n (go_on s next) = length next + weight s < n
Falls n (stop r) = Fine r

weight-le : (s : Scan) → weight s ≤ 1
weight-le s = ground arith

-- Both branches of a test.
branches :
    (n : ℕ) (test : Bool) (x y : Round)
    → (test ≡ true → Falls n x)
    → (test ≡ false → Falls n y)
    → Falls n (if test then x else y)
branches n true x y h k = h refl
branches n false x y h k = k refl

emit-Falls : (n state : ℕ) (t : Tag) (next : Text) → Falls n (emit state t next)
emit-Falls n state Tag.refused next = tt
emit-Falls n state Tag.undefined next = tt
emit-Falls n state (Tag.tag t attr rest) next = tt

tag_next-Falls : (n : ℕ) (t : Tag) → Falls n (tag_next t)
tag_next-Falls n Tag.refused = tt
tag_next-Falls n Tag.undefined = tt
tag_next-Falls n (Tag.tag t attr rest) = tt

text_reference-Falls :
    (n : ℕ) (s : Scan) (r : Reference × Text)
    → length r.1 + weight s < n
    → Falls n (text_reference s r)
text_reference-Falls n s (Reference.refused, next) h = tt
text_reference-Falls n s (Reference.undefined, next) h = tt
text_reference-Falls n s (Reference.bytes b, next) h = h

encoded_char-Falls :
    (n : ℕ) (s : Scan) (o : Option Text) (next : Text)
    → length next + weight s < n
    → Falls n (encoded_char s o next)
encoded_char-Falls n s none next h = tt
encoded_char-Falls n s (some b) next h = h

text_char-Falls :
    (s : Scan) (c : ℕ) (rest : Text) (o : Option (ℕ × Text))
    → utf8_char (c ∷ rest) ≡ o
    → Falls (suc (length rest) + weight s) (text_char s (c ∷ rest) o)
text_char-Falls s c rest none e = tt
text_char-Falls s c rest (some (code, next)) e =
    let less = utf8_char-le c rest code next e in
    branches _ (xml_char code) _ _
      (λ _. encoded_char-Falls _ s (utf8_encode code) next (omega (arith, less))) (λ _. tt)

module _ (entry : ℕ) (s : Scan) (c : ℕ) (rest : Text) where
  abbrev n : ℕ
  n = suc (length rest) + weight s

  round_0-Falls : s.state ≡ 0 → Falls n (round_0 s c rest)
  round_0-Falls e =
      let zero_state : weight s ≡ 1 = rw e in
      branches n (c == b'<') _ _ (λ _. omega arith)
        (λ _.
          branches n (ws c) _ _ (λ _. omega (arith, trim-le rest)) (λ _. omega (arith, zero_state)))

  round_1-Falls : Falls n (round_1 s c rest)
  round_1-Falls =
      branches n (c == b'&') _ _
        (λ _. elim (Option-cases (strchr b';' rest)) [
          | inl absent ↦ rw absent tt
          | inr (r, found) ↦
              rw found (
                text_reference-Falls n s (xml_reference rest)
                  (omega (arith, xml_reference-le rest)))
        ])
        (λ _.
          branches n (c == b'<') _ _ (λ _. omega arith)
            (λ _. text_char-Falls s c rest (utf8_char (c ∷ rest)) refl))

  round_2-Falls : Falls n (round_2 s c rest)
  round_2-Falls =
      branches n (c == b'!') _ _ (λ _. omega arith)
        (λ _.
          branches n s.in_text _ _ (λ _. tt)
            (λ _.
              branches n (c == b'?') _ _ (λ _. omega arith)
                (λ _. elim (Option-cases (strchr b'>' rest)) [
                  | inl absent ↦ rw absent tt
                  | inr (r, found) ↦ rw found (tag_next-Falls n (xml_tag s.attr (c ∷ rest)))
                ])))

  instruction_end :
      (r : Option (Text × Text))
      → Falls n (elim r [
        | none ↦ stop (Scanned.incomplete s (c ∷ rest))
        | some (text, next) ↦ emit entry (xml_pi s.attr text) next
      ])
  instruction_end none = tt
  instruction_end (some (text, next)) = emit-Falls n entry (xml_pi s.attr text) next

  round_3-Falls : Falls n (round_3 entry s c rest)
  round_3-Falls = instruction_end (token_end (b'?' ∷ b'>' ∷ []) (c ∷ rest))

  round_4-Falls : Falls n (round_4 s c rest)
  round_4-Falls =
      branches n (c == b'-') _ _ (λ _. omega arith)
        (λ _.
          branches n (c == b'[') _ _
            (λ _. elim (Option-cases (token_end (b']' ∷ b']' ∷ b'>' ∷ []) rest)) [
              | inl absent ↦ rw absent tt
              | inr ((text, next), found) ↦
                  let less = token_end-le _ rest text next found in
                  rw found (
                    branches n (streq text cdata) _ _
                      (λ _. branches n s.in_text _ _ (λ _. omega (arith, less)) (λ _. tt))
                      (λ _. tt))
            ])
            (λ _. tt))

  comment_end :
      (r : Option (Text × Text))
      → token_end (b'-' ∷ b'-' ∷ b'>' ∷ []) (c ∷ rest) ≡ r
      → Falls n (elim r [
        | none ↦ stop (Scanned.incomplete s (c ∷ rest))
        | some (text, next) ↦
            if last_byte text == b'-'
            then stop Scanned.invalid
            else to_state (if s.in_text then 1 else 0) s next
      ])
  comment_end none e = tt
  comment_end (some (text, next)) e =
      let less = token_end-le _ (c ∷ rest) text next e in
      let back = weight-le (record s { state = if s.in_text then 1 else 0 }) in
      branches n (last_byte text == b'-') _ _ (λ _. tt) (λ _. omega (arith, less, back))

  round_6-Falls : Falls n (round_6 s c rest)
  round_6-Falls = comment_end (token_end (b'-' ∷ b'-' ∷ b'>' ∷ []) (c ∷ rest)) refl

  scan_round-Falls : Falls n (scan_round entry s c rest)
  unfolding scan_round
  scan_round-Falls =
      branches n (s.state == 0) _ _ (λ e. round_0-Falls ((==_iff _ _).0 e))
        (λ _.
          branches n (s.state == 1) _ _ (λ _. round_1-Falls)
            (λ _.
              branches n (s.state == 2) _ _ (λ _. round_2-Falls)
                (λ _.
                  branches n (s.state == 3) _ _ (λ _. round_3-Falls)
                    (λ _.
                      branches n (s.state == 4) _ _ (λ _. round_4-Falls)
                        (λ _.
                          branches n (s.state == 5) _ _
                            (λ _. branches n (c == b'-') _ _ (λ _. omega arith) (λ _. tt))
                            (λ _.
                              branches n (s.state == 6) _ _ (λ _. round_6-Falls)
                                (λ _. omega arith)))))))

scan_loop-Fine :
    (fuel entry : ℕ) (s : Scan) (data' : Text)
    → length data' + weight s < fuel
    → Fine (scan_loop fuel entry s data')
unfolding scan_loop
scan_loop-Fine zero entry s data' l = absurd (omega arith)
scan_loop-Fine (suc fuel) entry s [] l = tt
scan_loop-Fine (suc fuel) entry s (c ∷ rest) l =
    by_round (scan_round entry s c rest) (scan_round-Falls entry s c rest)
      (λ s' next. scan_loop-Fine fuel entry s' next)
  where
    by_round :
        (r : Round)
        → Falls (suc (length rest) + weight s) r
        → ((s' : Scan) (next : Text)
            → length next + weight s' < fuel
            → Fine (scan_loop fuel entry s' next))
        → Fine (elim r [ go_on s' next ↦ scan_loop fuel entry s' next | stop t ↦ t ])
    by_round (go_on s' next) h ih = ih s' next (omega arith)
    by_round (stop t) h ih = h

Fine-ne : (r : Scanned) → Fine r → r ≢ Scanned.out_of_fuel
Fine-ne r h e = subst Fine e h

-- The loop of `xml_token` ends on every text and from every state of the parser: the rounds that
-- the model allows are enough.
pub xml_token-ne-out_of_fuel : (s : Scan) (data' : Text) → xml_token s data' ≢ Scanned.out_of_fuel
unfolding xml_token
xml_token-ne-out_of_fuel s data' =
    Fine-ne _ (scan_loop-Fine (length data' + 2) s.state s data' (omega (arith, weight-le s)))
