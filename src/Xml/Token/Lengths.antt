-- ===== src/Xml/Token/Lengths.antt =====
-- What is left of a text behind a part of it, for core/xml_token.c.
use client.Base.{
  ℕ, zero, suc, ◌+◌, ◌-◌, ◌≤◌, ◌<◌, ◌≡◌, refl, ap, some, [], ◌∷◌, ◌==◌, take, drop, length, arith,
  Bool-cases, Option-cases, inl, inr,
}
use client.Text.{Text, streq, trim}
use client.Utf8.{Machine, machine, Next, fail, done, more, step, decode, utf8_char}
use client.Exi.Strings.Interned.{streq→eq}
use client.Xml.{xml_reference, strchr}
use client.Xml.Token.{token_end}

pub trim-le : (t : Text) → length (trim t) ≤ length t
unfolding trim
trim-le [] = omega arith
trim-le (c ∷ t) = ground (arith, trim-le t)

strchr-lt : (c : ℕ) (t a b : Text) → strchr c t ≡ some (a, b) → length b < length t
unfolding strchr
strchr-lt c [] a b e = absurd (cc)
strchr-lt c (d ∷ t) a b e = elim (Bool-cases (d == c)) [
  | inl here ↦
      let e' : some ([], t) ≡ some (a, b) = rw here at e in
      let same : t ≡ b = cc in omega (arith, ap length same)
  | inr later ↦ elim (Option-cases (strchr c t)) [
    | inl absent ↦ absurd (let e' = rw (later, absent) at e in cc)
    | inr ((a', b'), found) ↦
        let e' : some (d ∷ a', b') ≡ some (a, b) = rw (later, found) at e in
        let same : b' ≡ b = cc in omega (arith, strchr-lt c t a' b' found, ap length same)
  ]
]

pub xml_reference-le : (t : Text) → length (xml_reference t).1 ≤ length t
unfolding xml_reference
xml_reference-le t = elim (Option-cases (strchr b';' t)) [
  | inl absent ↦ rw (absent, xml_reference) (omega arith)
  | inr ((a, b), found) ↦ rw (found, xml_reference) (omega (arith, strchr-lt b';' t a b found))
]

decode-le :
    (m : Machine) (t : Text) (c : ℕ) (next : Text)
    → decode m t ≡ some (c, next)
    → length next ≤ length t - 1
unfolding decode
decode-le m [] c next e = ground (arith, e)
decode-le m (b ∷ t) c next e = by_step (step m b) refl (λ m' e'. decode-le m' t c next e')
  where
    by_step :
        (n : Next)
        → step m b ≡ n
        → ((m' : Machine) → decode m' t ≡ some (c, next) → length next ≤ length t - 1)
        → length next ≤ length (b ∷ t) - 1
    by_step fail s ih = absurd (let e' = rw (s, decode) at e in cc)
    by_step (done code) s ih =
        let e' : some (code, t) ≡ some (c, next) = rw (s, decode) at e in
        let same : t ≡ next = cc in omega (arith, ap length same)
    by_step (more m') s ih = omega (arith, ih m' (rw (s, decode) at e))

pub utf8_char-le :
    (b : ℕ) (t : Text) (c : ℕ) (next : Text)
    → utf8_char (b ∷ t) ≡ some (c, next)
    → length next ≤ length t
unfolding utf8_char
utf8_char-le b t c next e = omega (arith, decode-le (machine 0 0) (b ∷ t) c next e)

length-take : (n : ℕ) (t : Text) → length (take n t) ≤ length t
length-take zero t = omega arith
length-take (suc n) [] = omega arith
length-take (suc n) (c ∷ t) = omega (arith, length-take n t)

length-drop : (n : ℕ) (t : Text) → length (drop n t) ≡ length t - n
length-drop zero t = omega arith
length-drop (suc n) [] = omega arith
length-drop (suc n) (c ∷ t) = omega (arith, length-drop n t)

pub token_end-le :
    (mark t a b : Text) → token_end mark t ≡ some (a, b) → length b + length mark ≤ length t
unfolding token_end
token_end-le mark [] a b e = absurd (cc)
token_end-le mark (c ∷ t) a b e = elim (Bool-cases (streq (take (length mark) (c ∷ t)) mark)) [
  | inl here ↦
      let e' : some ([], drop (length mark) (c ∷ t)) ≡ some (a, b) = rw here at e in
      let same : drop (length mark) (c ∷ t) ≡ b = cc in
      let whole : take (length mark) (c ∷ t) ≡ mark = streq→eq _ _ here in
      omega (
        arith,
        ap length same,
        ap length whole,
        length-take (length mark) (c ∷ t),
        length-drop (length mark) (c ∷ t),
      )
  | inr later ↦ elim (Option-cases (token_end mark t)) [
    | inl absent ↦ absurd (let e' = rw (later, absent) at e in cc)
    | inr ((a', b'), found) ↦
        let e' : some (c ∷ a', b') ≡ some (a, b) = rw (later, found) at e in
        let same : b' ≡ b = cc in omega (arith, token_end-le mark t a' b' found, ap length same)
  ]
]
