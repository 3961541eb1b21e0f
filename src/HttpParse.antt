-- ===== src/HttpParse.antt =====
-- core/http_parse.c: the tokens of HTTP header fields. `char` is signed, so that no character is in
-- the range `obs_text`. A character above 127 is in none of the ranges.
pub mod Values
mod Tests
use client.Base.{
  ℕ, zero, suc, ◌+◌, ◌-◌, ◌*◌, ◌^◌, Bool, true, false, Option, none, some, List, [], ◌∷◌, ◌++◌,
  ◌&&◌, ◌||◌, ◌==◌, ltb, leb, length, not, if◌then◌else◌,
}
use client.Text.{Text, in_range, digit}
use client.Uri.{Uri, parse_uri}

unfoldable pub tchar : ℕ → Bool
tchar c =
    in_range c b'A' b'Z'
    || in_range c b'^' b'z'
    || in_range c b'0' b'9'
    || c == b'!'
    || in_range c b'#' 39
    || in_range c b'*' b'+'
    || in_range c b'-' b'.'
    || c == b'|'
    || c == b'~'

-- The characters of the token, and what follows.
unfoldable pub token_loop : Text → Text × Text
token_loop [] = ([], [])
token_loop (c ∷ data') =
    let rest = token_loop data' in if tchar c then (c ∷ rest.0, rest.1) else ([], c ∷ data')

-- None where there is no token.
unfoldable pub token : Text → Option (Text × Text)
unfolding token_loop
token data' =
    let found = token_loop data' in elim found.0 [ [] ↦ none | c ∷ t ↦ some (c ∷ t, found.1) ]

abbrev pub hws : ℕ → Bool
hws c = c == 32 || c == 9

abbrev pub vchar : ℕ → Bool
vchar c = in_range c 33 126

abbrev pub qdtext : ℕ → Bool
qdtext c = hws c || c == b'!' || in_range c b'#' b'[' || in_range c b']' b'~'

-- The loop of `quoted_string`, with the value so far: the value and what follows, which the source
-- takes to begin one character behind the quote. That is none where it is behind the end.
unfoldable pub quoted_loop : Text → Text → Option (Text × Option Text)
quoted_loop q [] = none
quoted_loop q (c ∷ []) = if c == b'"' then some (q, none) else none
quoted_loop q (c ∷ t ∷ data') =
    let escaped = quoted_loop (q ++ t ∷ []) data' in
    let next = quoted_loop (q ++ c ∷ []) (t ∷ data') in
    if c == 92
    then if hws t || vchar t then escaped else none
    else if c == b'"'
    then some (q, some data')
    else if qdtext c
    then next
    else none

-- `data` is at the quote, which the loop reads first.
unfoldable pub quoted_string : Text → Option (Text × Option Text)
unfolding quoted_loop
quoted_string data' = quoted_loop [] data'

unfoldable pub pvalue : Text → Option (Text × Option Text)
unfolding quoted_string token
pvalue [] = none
pvalue (c ∷ data') =
    if c == b'"'
    then quoted_string (c ∷ data')
    else elim (token (c ∷ data')) [ none ↦ none | some t ↦ some (t.0, some t.1) ]

-- The digits of a fraction, `n` at most, as thousandths.
unfoldable pub fraction : ℕ → ℕ → Text → ℕ × Text
fraction zero f data' = (f, data')
fraction (suc n) f [] = (f * 10 ^ suc n, [])
fraction (suc n) f (c ∷ data') =
    if digit c then fraction n (f * 10 + (c - b'0')) data' else (f * 10 ^ suc n, c ∷ data')

-- Behind the first digit, whose value is `q`.
unfoldable pub quality : ℕ → Text → Option (ℕ × Text)
unfolding fraction
quality q [] = some (q, [])
quality q (c ∷ data') =
    let f = fraction 3 0 data' in
    if c == b'.'
    then if q == 1000 && not (f.0 == 0) then none else some (q + f.0, f.1)
    else some (q, c ∷ data')

unfoldable pub qvalue : Text → Option (ℕ × Text)
unfolding quality
qvalue [] = none
qvalue (c ∷ data') =
    if c == b'0' then quality 0 data' else if c == b'1' then quality 1000 data' else none

unfoldable pub ows : Text → Text
ows [] = []
ows (c ∷ data') = if hws c then ows data' else c ∷ data'

-- The text before the first white space, and what follows the white space.
unfoldable pub token_sp : Text → Option (Text × Text)
token_sp [] = none
token_sp (c ∷ data') =
    let rest = token_sp data' in
    if hws c then some ([], ows data') else elim rest [ none ↦ none | some r ↦ some (c ∷ r.0, r.1) ]

-- The text before the first colon, and what follows it and white space.
unfoldable pub token_colon : Text → Option (Text × Text)
token_colon [] = none
token_colon (c ∷ data') =
    let rest = token_colon data' in
    if c == b':'
    then some ([], ows data')
    else elim rest [ none ↦ none | some r ↦ some (c ∷ r.0, r.1) ]

-- The target of a request, by the URI of the connection: too long (status 414), refused, or parsed.
pub data Target : Type 0 where
  too_long : Target
  refused : Target
  parsed : Uri → Target

unfoldable pub request_target : Uri → Text → Target
request_target uri data' =
    let origin : Bool = elim data' [ [] ↦ false | c ∷ _ ↦ c == b'/' ] in
    if ltb 255 (length data')
    then too_long
    else elim (parse_uri origin uri data') [ none ↦ refused | some r ↦ parsed r.0 ]
