-- ===== src/Xml/Escaped.antt =====
-- A text that is written escaped is read back by the scanner.
use client.Base.{
  append-nil, append_assoc, ℕ, zero, suc, ◌+◌, ◌-◌, ◌≤◌, ◌<◌, ◌≡◌, refl, sym, ◌∙◌, ap, true, false,
  some, List, [], ◌∷◌, ◌++◌, ◌==◌, ltb, leb, if◌then◌else◌, length, length-append, arith, All,
  Bool-cases, ==_iff, inl, inr,
}
use client.Text.{Text, ws, string_index}
use client.Utf8.{utf8_encode}
use client.Exi.Literal.RoundTrip.{utf8_char-ascii}
use client.Xml.{before, xml_char, xml_reference}
use client.Xml.Output.{Buffer, escape, Escaped, escaped_loop, escaped_to, output_escaped}
use client.Xml.Token.{Scan, Token, Scanned, go_on, text_char, scan_round, scan_loop, xml_token}

-- A character of XML that is one of ASCII.
abbrev pub IsPlain : ℕ → Type 0
IsPlain c = (c < 128) × (xml_char c ≡ true)

-- The text as it stands in a document.
abbrev pub escape_all : Text → Text
escape_all [] = []
escape_all (c ∷ s) = escape c (c ∷ []) ++ escape_all s

one_byte : (c : ℕ) (s : Text) → before (c ∷ s) s ≡ c ∷ []
one_byte c s = let e : length (c ∷ s) - length s ≡ 1 = omega arith in rw e

escape-length : (c : ℕ) → 1 ≤ length (escape c (c ∷ []))
escape-length c = ground arith

-- What `output_escaped` writes, or that there is no space for it and the zero behind it.
abbrev pub Writes : Text → ℕ → Text → Escaped
Writes out room t = if ltb (length t) room then Escaped.written (out ++ t) else Escaped.full

Writes-append :
    (out a t : Text) (room : ℕ)
    → ltb (length a) room ≡ true
    → Writes (out ++ a) (room - length a) t ≡ Writes out room (a ++ t)
Writes-append out a t room h =
    let sum = length-append a t in
    let test : ltb (length t) (room - length a) ≡ ltb (length (a ++ t)) room =
      ground (arith, sum, h) in
    rw (test, append_assoc out a t)

escaped_loop-Writes :
    (s : Text) (room : ℕ) (out : Text)
    → 1 ≤ room
    → All IsPlain s
    → escaped_loop (length s) room out s ≡ Writes out room (escape_all s)
unfolding escaped_loop
escaped_loop-Writes [] room out l h =
    let space : ltb 0 room ≡ true = ground arith in rw (space, append-nil out)
escaped_loop-Writes (c ∷ s) room out l h =
    let n = escape c (c ∷ []) in
    rw (utf8_char-ascii c s h.0.0, escaped_loop)
      (ap {B = Escaped}
          (λ b. elim (ltb (length (escape c b)) room) [
            | true ↦ escaped_loop (length s) (room - length (escape c b)) (out ++ escape c b) s
            | false ↦ Escaped.full
          ])
          (one_byte c s)
        ∙ elim (Bool-cases (ltb (length n) room)) [
          | inl space ↦ rw space (
              escaped_loop-Writes s (room - length n) (out ++ n) (ground (arith, space)) h.1
              ∙ Writes-append out n (escape_all s) room space)
          | inr full ↦
              let sum = length-append n (escape_all s) in
              let test : ltb (length (n ++ escape_all s)) room ≡ false =
                ground (arith, sum, full) in
              rw (full, test)
        ])

-- One round of the scanner for each character of the text, whether it is escaped or not.
module _ (entry : ℕ) (text : Text) (attr : List (Text × Text)) (rest : Text) where
  abbrev within : Text → Scan
  within t = record { state = 1; in_text = true; text = t; attr = attr }

  amp_round :
      scan_round entry (within text) b'&' (b'a' ∷ b'm' ∷ b'p' ∷ b';' ∷ rest)
      ≡ go_on (within (text ++ b'&' ∷ [])) rest
  unfolding scan_round xml_reference string_index
  amp_round = refl

  lt_round :
      scan_round entry (within text) b'&' (b'l' ∷ b't' ∷ b';' ∷ rest)
      ≡ go_on (within (text ++ b'<' ∷ [])) rest
  unfolding scan_round xml_reference string_index
  lt_round = refl

  gt_round :
      scan_round entry (within text) b'&' (b'g' ∷ b't' ∷ b';' ∷ rest)
      ≡ go_on (within (text ++ b'>' ∷ [])) rest
  unfolding scan_round xml_reference string_index
  gt_round = refl

  quot_round :
      scan_round entry (within text) b'&' (b'q' ∷ b'u' ∷ b'o' ∷ b't' ∷ b';' ∷ rest)
      ≡ go_on (within (text ++ b'"' ∷ [])) rest
  unfolding scan_round xml_reference string_index
  quot_round = refl

  plain_round :
      (c : ℕ)
      → IsPlain c
      → (c == b'&') ≡ false
      → (c == b'<') ≡ false
      → scan_round entry (within text) c rest ≡ go_on (within (text ++ c ∷ [])) rest
  unfolding scan_round utf8_encode
  plain_round c p a l =
      let small : leb c 0x7f ≡ true = ground (arith, p.0) in
      rw (a, l)
        (ap (text_char (within text) (c ∷ rest)) (utf8_char-ascii c rest p.0) ∙ rw (p.1, small))

  scan_loop-escape :
      (fuel b : ℕ)
      → IsPlain b
      → scan_loop (suc fuel) entry (within text) (escape b (b ∷ []) ++ rest)
        ≡ scan_loop fuel entry (within (text ++ b ∷ [])) rest
  unfolding scan_loop
  scan_loop-escape fuel b p = elim (Bool-cases (b == b'<')) [
    | inl lt ↦ let same : b ≡ b'<' = (==_iff _ _).0 lt in rw (lt, same) (rw (lt_round, scan_loop))
    | inr not_lt ↦ elim (Bool-cases (b == b'>')) [
      | inl gt ↦
          let same : b ≡ b'>' = (==_iff _ _).0 gt in
          rw (not_lt, gt, same) (rw (gt_round, scan_loop))
      | inr not_gt ↦ elim (Bool-cases (b == b'&')) [
        | inl amp ↦
            let same : b ≡ b'&' = (==_iff _ _).0 amp in
            rw (not_lt, not_gt, amp, same) (rw (amp_round, scan_loop))
        | inr not_amp ↦ elim (Bool-cases (b == b'"')) [
          | inl quot ↦
              let same : b ≡ b'"' = (==_iff _ _).0 quot in
              rw (not_lt, not_gt, not_amp, quot, same) (rw (quot_round, scan_loop))
          | inr not_quot ↦
              rw (not_lt, not_gt, not_amp, not_quot)
                (rw (plain_round b p not_amp not_lt, scan_loop))
        ]
      ]
    ]
  ]

-- The scanner's loop over an escaped text, up to the tag behind it.
scan_loop-escape_all :
    (s : Text) (fuel entry : ℕ) (text : Text) (attr : List (Text × Text)) (c : ℕ) (rest : Text)
    → length s + 2 ≤ fuel
    → All IsPlain s
    → (c == b'!') ≡ false
    → scan_loop fuel entry
        (record { state = 1; in_text = true; text = text; attr = attr })
        (escape_all s ++ b'<' ∷ c ∷ rest)
      ≡ Scanned.token
          (Token.text_token (text ++ s))
          (record { state = 2; in_text = false; text = []; attr = attr })
          (c ∷ rest)
unfolding scan_loop scan_round
scan_loop-escape_all [] zero entry text attr c rest l h t = absurd (omega arith)
scan_loop-escape_all [] (suc zero) entry text attr c rest l h t = absurd (omega arith)
scan_loop-escape_all [] (suc (suc fuel)) entry text attr c rest l h t =
    rw (t, scan_loop)
      (ap
        (λ x.
          Scanned.token (Token.text_token x)
            (record { state = 2; in_text = false; text = []; attr = attr }) (c ∷ rest))
        (sym (append-nil text)))
scan_loop-escape_all (b ∷ s) zero entry text attr c rest l h t = absurd (omega arith)
scan_loop-escape_all (b ∷ s) (suc fuel) entry text attr c rest l h t =
    ap (scan_loop (suc fuel) entry (record { state = 1; in_text = true; text = text; attr = attr }))
      (append_assoc (escape b (b ∷ [])) (escape_all s) (b'<' ∷ c ∷ rest))
    ∙ scan_loop-escape entry text attr (escape_all s ++ b'<' ∷ c ∷ rest) fuel b h.0
    ∙ scan_loop-escape_all s fuel entry (text ++ b ∷ []) attr c rest (omega arith) h.1 t
    ∙ ap
        (λ x.
          Scanned.token (Token.text_token x)
            (record { state = 2; in_text = false; text = []; attr = attr }) (c ∷ rest))
        (append_assoc text (b ∷ []) s)

-- Where a text begins.
escape-first :
    (b : ℕ) (t : Text)
    → ws b ≡ false
    → (d : ℕ) × (more : Text) × (escape b (b ∷ []) ++ t ≡ d ∷ more)
      × ((d == b'<') ≡ false)
      × (ws d ≡ false)
escape-first b t w = elim (Bool-cases (b == b'<')) [
  | inl lt ↦ (b'&', b'l' ∷ b't' ∷ b';' ∷ t, rw lt, refl, refl)
  | inr not_lt ↦ elim (Bool-cases (b == b'>')) [
    | inl gt ↦ (b'&', b'g' ∷ b't' ∷ b';' ∷ t, rw (not_lt, gt), refl, refl)
    | inr not_gt ↦ elim (Bool-cases (b == b'&')) [
      | inl amp ↦ (b'&', b'a' ∷ b'm' ∷ b'p' ∷ b';' ∷ t, rw (not_lt, not_gt, amp), refl, refl)
      | inr not_amp ↦ elim (Bool-cases (b == b'"')) [
        | inl quot ↦ (
          b'&',
          b'q' ∷ b'u' ∷ b'o' ∷ b't' ∷ b';' ∷ t,
          rw (not_lt, not_gt, not_amp, quot),
          refl,
          refl,
        )
        | inr not_quot ↦ (b, t, rw (not_lt, not_gt, not_amp, not_quot), not_lt, w)
      ]
    ]
  ]
]

-- The scan outside a text.
abbrev pub outside : List (Text × Text) → Scan
outside attr = record { state = 0; in_text = false; text = []; attr = attr }

begins :
    (fuel : ℕ) (attr : List (Text × Text)) (d : ℕ) (more : Text)
    → (d == b'<') ≡ false
    → ws d ≡ false
    → scan_loop (suc fuel) 0 (outside attr) (d ∷ more)
      ≡ scan_loop fuel 0 (record { state = 1; in_text = true; text = []; attr = attr }) (d ∷ more)
unfolding scan_loop scan_round
begins fuel attr d more l w = rw (l, w, scan_loop)

escape_all-length : (s : Text) → length s ≤ length (escape_all s)
escape_all-length [] = omega arith
escape_all-length (c ∷ s) =
    omega (
      arith,
      escape-length c,
      escape_all-length s,
      length-append (escape c (c ∷ [])) (escape_all s),
    )

xml_token-escape_all :
    (b : ℕ) (s : Text) (attr : List (Text × Text)) (c : ℕ) (rest : Text)
    → All IsPlain (b ∷ s)
    → ws b ≡ false
    → (c == b'!') ≡ false
    → xml_token (outside attr) (escape_all (b ∷ s) ++ b'<' ∷ c ∷ rest)
      ≡ Scanned.token
          (Token.text_token (b ∷ s))
          (record { state = 2; in_text = false; text = []; attr = attr })
          (c ∷ rest)
unfolding xml_token
xml_token-escape_all b s attr c rest h w t =
    let data' = escape_all (b ∷ s) ++ b'<' ∷ c ∷ rest in
    let (d, more, same, plain, no_space) = escape-first b (escape_all s ++ b'<' ∷ c ∷ rest) w in
    let same' : data' ≡ d ∷ more =
      append_assoc (escape b (b ∷ [])) (escape_all s) (b'<' ∷ c ∷ rest) ∙ same in
    let fuel : length data' + 2 ≡ suc (length data' + 1) = omega arith in
    ap (λ n. scan_loop n 0 (outside attr) data') fuel
    ∙ ap (scan_loop (suc (length data' + 1)) 0 (outside attr)) same'
    ∙ begins (length data' + 1) attr d more plain no_space
    ∙ ap
        (scan_loop (length data' + 1) 0
          (record { state = 1; in_text = true; text = []; attr = attr }))
        (sym same')
    ∙ scan_loop-escape_all (b ∷ s) (length data' + 1) 0 [] attr c rest
        (omega
          (arith, escape_all-length (b ∷ s), length-append (escape_all (b ∷ s)) (b'<' ∷ c ∷ rest)))
        h t

-- A text of ASCII characters that XML allows, which is not empty and does not begin with white
-- space. `output_escaped` writes it with `&lt;`, `&gt;`, `&amp;` and `&quot;` for those characters
-- where the buffer has the space and a byte more, and nothing otherwise; and where what it writes
-- stands behind a tag and before another one, not a comment or a section, `xml_token` gives the
-- text itself and is at the tag behind it then.
pub xml_token-output_escaped :
    (o : Buffer) (b : ℕ) (s : Text) (attr : List (Text × Text)) (c : ℕ) (rest : Text)
    → 1 ≤ o.room
    → All IsPlain (b ∷ s)
    → ws b ≡ false
    → (c == b'!') ≡ false
    → (output_escaped o (some (b ∷ s)) ≡ (
        if ltb (length (escape_all (b ∷ s))) o.room
        then some (
          record { out = o.out ++ escape_all (b ∷ s); room = o.room - length (escape_all (b ∷ s)) },
          true,
        )
        else some (o, false)))
      × (xml_token (outside attr) (escape_all (b ∷ s) ++ b'<' ∷ c ∷ rest)
          ≡ Scanned.token
              (Token.text_token (b ∷ s))
              (record { state = 2; in_text = false; text = []; attr = attr })
              (c ∷ rest))
unfolding output_escaped
xml_token-output_escaped o b s attr c rest l h w t = (
  ap (escaped_to o) (escaped_loop-Writes (b ∷ s) o.room [] l h) ∙ decided (escape_all (b ∷ s)),
  xml_token-escape_all b s attr c rest h w t,
)
  where
    decided :
        (text : Text)
        → escaped_to o (Writes [] o.room text) ≡ (
            if ltb (length text) o.room
            then some (record { out = o.out ++ text; room = o.room - length text }, true)
            else some (o, false))
    decided text = elim (Bool-cases (ltb (length text) o.room)) [
      | inl space ↦ rw space
      | inr full ↦ rw full
    ]
