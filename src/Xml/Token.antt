-- ===== src/Xml/Token.antt =====
-- The tokens of core/xml_token.c.
pub mod Lengths
pub mod Rounds
use mathlib.Core.Option
use client.Base.{
  ℕ, zero, suc, ◌+◌, Bool, true, false, Option, none, some, List, [], ◌∷◌, ◌++◌, ◌==◌,
  if◌then◌else◌, take, drop, length,
}
use client.Text.{Text, first, ws, streq, trim}
use client.Utf8.{utf8_char, utf8_encode}
use client.Xml.{
  before, xml_name, xml_char, Reference, xml_reference, strchr, Attributes, xml_attributes,
}

-- Between two calls: the state, whether a text has begun, what of it is decoded, and the attributes
-- of the last tag that had white space behind its name.
pub record Scan : Type 0 where
  pub state : ℕ
  pub in_text : Bool
  pub text : Text
  pub attr : List (Text × Text)

pub data Token : Type 0 where
  start_tag : Text → Token
  empty_tag : Text → Token
  end_tag : Text → Token
  decl : Token
  instruction : Text → Option Text → Token
  text_token : Text → Token

-- A token with the attributes that are kept then, and the text behind it.
pub data Tag : Type 0 where
  refused : Tag
  undefined : Tag
  tag : Token → List (Text × Text) → Text → Tag

-- What a call gives: a token, the state that the next call begins with and the text that it reads,
-- or a failure. `out_of_fuel` is no result of the source.
pub data Scanned : Type 0 where
  token : Token → Scan → Text → Scanned
  incomplete : Scan → Text → Scanned
  invalid : Scanned
  undefined : Scanned
  out_of_fuel : Scanned

-- `strstr`: the text before the mark and behind it.
unfoldable pub token_end : Text → Text → Option (Text × Text)
token_end mark [] = none
token_end mark (c ∷ rest) =
    let later = Option.map (λ (r : Text × Text). (c ∷ r.0, r.1)) (token_end mark rest) in
    if streq (take (length mark) (c ∷ rest)) mark
    then some ([], drop (length mark) (c ∷ rest))
    else later

abbrev pub xml_word : Text
xml_word = b'x' ∷ b'm' ∷ b'l' ∷ []

-- `only (data)`: nothing but white space follows.
only_space : Attributes → Tag
only_space Attributes.refused = Tag.refused
only_space Attributes.undefined = Tag.undefined
only_space (Attributes.attributes attr rest) = elim (trim rest) [
  | [] ↦ Tag.tag Token.decl attr []
  | _ ↦ Tag.refused
]

pi_behind : List (Text × Text) → Text → Text → Tag
unfolding only_space
pi_behind old name end =
    if ws (first end)
    then (if streq name xml_word
        then only_space (xml_attributes (drop 1 end))
        else Tag.tag (Token.instruction name (some (trim (drop 1 end)))) old [])
    else Tag.tag (Token.instruction name none) old []

-- A processing instruction or the declaration, by its text.
unfoldable pub xml_pi : List (Text × Text) → Text → Tag
unfolding pi_behind
xml_pi old data' = elim (xml_name data') [
  | none ↦ Tag.refused
  | some end ↦ pi_behind old (before data' end) end
]

-- The end of a tag, behind its name and its attributes.
abbrev pub closed : Text → List (Text × Text) → Text → Tag
closed name attr end =
    if first end == b'/'
    then (if first (drop 1 end) == b'>'
        then Tag.tag (Token.empty_tag name) attr (drop 2 end)
        else Tag.refused)
    else if first end == b'>'
    then Tag.tag (Token.start_tag name) attr (drop 1 end)
    else Tag.refused

abbrev pub closed_attributes : Text → Attributes → Tag
closed_attributes name Attributes.refused = Tag.refused
closed_attributes name Attributes.undefined = Tag.undefined
closed_attributes name (Attributes.attributes attr rest) = closed name attr rest

abbrev pub opened : Text → List (Text × Text) → Text → Tag
opened name old end =
    if ws (first end)
    then closed_attributes name (xml_attributes (drop 1 end))
    else closed name old end

abbrev pub closing : List (Text × Text) → Text → Text → Tag
closing old name end =
    if first end == b'>' then Tag.tag (Token.end_tag name) old (drop 1 end) else Tag.refused

-- A tag; where no white space follows its name, the attributes stay those of an earlier tag, `old`.
unfoldable pub xml_tag : List (Text × Text) → Text → Tag
xml_tag old data' =
    if first data' == b'/'
    then elim (xml_name (drop 1 data')) [
      | none ↦ Tag.refused
      | some end ↦ closing old (before (drop 1 data') end) (trim end)
    ]
    else elim (xml_name data') [ none ↦ Tag.refused | some end ↦ opened (before data' end) old end ]

-- A round of the loop goes on at a text, or ends it.
pub data Round : Type 0 where
  go_on : Scan → Text → Round
  stop : Scanned → Round

abbrev pub emit : ℕ → Tag → Text → Round
emit state Tag.refused next = stop Scanned.invalid
emit state Tag.undefined next = stop Scanned.undefined
emit state (Tag.tag t attr rest) next =
    stop (Scanned.token t (record { state = state; in_text = false; text = []; attr = attr }) next)

abbrev pub to_state : ℕ → Scan → Text → Round
to_state state s rest = go_on (record s { state = state }) rest

-- The initial state.
abbrev pub round_0 : Scan → ℕ → Text → Round
round_0 s c rest =
    if c == b'<'
    then to_state 2 s rest
    else if ws c
    then go_on s (trim rest)
    else go_on (record s { state = 1; in_text = true; text = [] }) (c ∷ rest)

abbrev pub text_reference : Scan → Reference × Text → Round
text_reference s (Reference.refused, next) = stop Scanned.invalid
text_reference s (Reference.undefined, next) = stop Scanned.undefined
text_reference s (Reference.bytes b, next) = go_on (record s { text = s.text ++ b }) next

abbrev pub encoded_char : Scan → Option Text → Text → Round
encoded_char s none next = stop Scanned.undefined
encoded_char s (some b) next = go_on (record s { text = s.text ++ b }) next

abbrev pub text_char : Scan → Text → Option (ℕ × Text) → Round
text_char s data' none = stop (Scanned.incomplete s data')
text_char s data' (some (c, next)) =
    if xml_char c then encoded_char s (utf8_encode c) next else stop Scanned.invalid

-- Within a text.
abbrev pub round_1 : Scan → ℕ → Text → Round
round_1 s c rest =
    if c == b'&'
    then elim (strchr b';' rest) [
      | none ↦ stop (Scanned.incomplete s (c ∷ rest))
      | some _ ↦ text_reference s (xml_reference rest)
    ]
    else if c == b'<'
    then to_state 2 s rest
    else text_char s (c ∷ rest) (utf8_char (c ∷ rest))

abbrev pub tag_next : Tag → Round
tag_next Tag.refused = stop Scanned.invalid
tag_next Tag.undefined = stop Scanned.undefined
tag_next (Tag.tag t attr rest) = emit 0 (Tag.tag t attr rest) rest

-- Behind a `<`.
abbrev pub round_2 : Scan → ℕ → Text → Round
round_2 s c rest =
    if c == b'!'
    then to_state 4 s rest
    else if s.in_text
    then stop (
        Scanned.token (Token.text_token s.text)
          (record { state = 2; in_text = false; text = []; attr = s.attr }) (c ∷ rest))
    else if c == b'?'
    then to_state 3 s rest
    else elim (strchr b'>' rest) [
      | none ↦ stop (Scanned.incomplete s (c ∷ rest))
      | some _ ↦ tag_next (xml_tag s.attr (c ∷ rest))
    ]

-- Behind `<?`: the state of the next call is the one that this call began with, `entry`.
abbrev pub round_3 : ℕ → Scan → ℕ → Text → Round
round_3 entry s c rest = elim (token_end (b'?' ∷ b'>' ∷ []) (c ∷ rest)) [
  | none ↦ stop (Scanned.incomplete s (c ∷ rest))
  | some (text, next) ↦ emit entry (xml_pi s.attr text) next
]

abbrev pub cdata : Text
cdata = b'C' ∷ b'D' ∷ b'A' ∷ b'T' ∷ b'A' ∷ b'[' ∷ []

-- Behind `<!`. The section up to its end is compared with `CDATA[`. Where no text has begun, the
-- place that is written to is not set.
abbrev pub round_4 : Scan → ℕ → Text → Round
round_4 s c rest =
    if c == b'-'
    then to_state 5 s rest
    else if c == b'['
    then elim (token_end (b']' ∷ b']' ∷ b'>' ∷ []) rest) [
      | none ↦ stop (Scanned.incomplete s (c ∷ rest))
      | some (text, next) ↦
          if streq text cdata
          then (if s.in_text then to_state 1 s next else stop Scanned.undefined)
          else stop Scanned.invalid
    ]
    else stop Scanned.invalid

-- The last byte of a comment, which for an empty one is the `-` before it.
abbrev pub last_byte : Text → ℕ
last_byte [] = b'-'
last_byte (c ∷ []) = c
last_byte (c ∷ d ∷ rest) = last_byte (d ∷ rest)

-- Behind `<!--`.
abbrev pub round_6 : Scan → ℕ → Text → Round
round_6 s c rest = elim (token_end (b'-' ∷ b'-' ∷ b'>' ∷ []) (c ∷ rest)) [
  | none ↦ stop (Scanned.incomplete s (c ∷ rest))
  | some (text, next) ↦
      if last_byte text == b'-'
      then stop Scanned.invalid
      else to_state (if s.in_text then 1 else 0) s next
]

unfoldable pub scan_round : ℕ → Scan → ℕ → Text → Round
scan_round entry s c rest =
    if s.state == 0
    then round_0 s c rest
    else if s.state == 1
    then round_1 s c rest
    else if s.state == 2
    then round_2 s c rest
    else if s.state == 3
    then round_3 entry s c rest
    else if s.state == 4
    then round_4 s c rest
    else if s.state == 5
    then (if c == b'-' then to_state 6 s rest else stop Scanned.invalid)
    else if s.state == 6
    then round_6 s c rest
    else go_on s rest

unfoldable pub scan_loop : ℕ → ℕ → Scan → Text → Scanned
scan_loop zero entry s data' = Scanned.out_of_fuel
scan_loop (suc fuel) entry s [] = Scanned.incomplete s []
scan_loop (suc fuel) entry s (c ∷ rest) = elim (scan_round entry s c rest) [
  | go_on s' next ↦ scan_loop fuel entry s' next
  | stop r ↦ r
]

-- Each round reads a byte, but the one that begins a text.
unfoldable pub xml_token : Scan → Text → Scanned
unfolding scan_loop
xml_token s data' = scan_loop (length data' + 2) s.state s data'
