-- ===== src/Uri.antt =====
-- core/uri.c: URIs are parsed and written. The source parses in a buffer that it overwrites; here
-- each component is the text that is found there when it returns.
pub mod RoundTrip
pub mod HostName
mod Tests
use client.Base.{
  ℕ, zero, suc, ◌+◌, ◌-◌, ◌*◌, ◌%◌, ◌^◌, Bool, true, false, Option, none, some, List, [], ◌∷◌, ◌++◌,
  ◌&&◌, ◌||◌, ◌==◌, leb, length, if◌then◌else◌,
}
use client.Text.{Text, first, in_range, alpha, digit, ws, streq, number}
use client.Text.Numbers.{decimal_int}
use client.Address.{Address, ipv4, ipv6, hex4, parse_address, write_address_port}

pub record Uri : Type 0 where
  pub scheme : Option Text
  pub name : Option Text
  pub path : Option Text
  pub query : Option Text
  pub host : Option Address
  pub port : ℕ

-- The characters that `pchar` takes as they are.
abbrev pub plain : ℕ → Bool
plain c =
    alpha c
    || in_range c b'&' b';'
    || c == b'='
    || c == b'!'
    || c == b'$'
    || c == b'@'
    || c == b'_'
    || c == b'~'

-- The character, and how many more than one have been read for it.
unfoldable pub pchar : ℕ → Text → Option (ℕ × ℕ)
pchar c [] = if plain c then some (c, 0) else none
pchar c (_ ∷ []) = if plain c then some (c, 0) else none
pchar c (a ∷ b ∷ _) =
    if plain c
    then some (c, 0)
    else if c == b'%'
    then elim (hex4 a) [
      | none ↦ none
      | some x ↦ elim (hex4 b) [ none ↦ none | some y ↦ some (x * 16 + y, 2) ]
    ]
    else none

unfoldable pub host_char : ℕ → Text → Option (ℕ × ℕ)
host_char c text = if c == b'@' then none else if c == b':' then none else pchar c text

-- The loop over a host name: the name, and what follows. `skip` counts the characters that `pchar`
-- has read.
unfoldable pub host_name : ℕ → Text → Text × Text
host_name skip [] = ([], [])
host_name (suc skip) (c ∷ text) = host_name skip text
host_name zero (c ∷ text) = elim (host_char c text) [
  | none ↦ ([], c ∷ text)
  | some p ↦ let rest = host_name p.1 text in (p.0 ∷ rest.0, rest.1)
]

-- The port of an address is a `uint16_t`.
abbrev pub set_port : ℕ → Address → Address
set_port port (ipv4 addr _) = ipv4 addr (port % 2 ^ 16)
set_port port (ipv6 host _) = ipv6 host (port % 2 ^ 16)

-- `number_q (&uri->port, data)`, with the address of the host.
unfoldable pub read_port : Uri → Text → Uri × Text
read_port uri text =
    let found : ℕ × Text = elim (number text) [ none ↦ (uri.port, text) | some a ↦ a ] in
    (
      record uri {
        port = found.0;
        host = elim uri.host [ none ↦ none | some host ↦ some (set_port found.0 host) ];
      },
      found.1,
    )

abbrev pub port_part : Uri → Text → Uri × Text
port_part uri [] = (uri, [])
port_part uri (c ∷ text) = if c == b':' then read_port uri text else (uri, c ∷ text)

unfoldable pub find_host : Uri → Text → Option (Address × Text) → Uri × Text
find_host uri text (some found) = (record uri { host = some found.0 }, found.1)
find_host uri text none =
    let found = host_name 0 text in
    (elim found.0 [ [] ↦ uri | c ∷ name ↦ record uri { name = some (c ∷ name) } ], found.1)

unfoldable pub parse_host : Uri → Text → Uri × Text
unfolding find_host
parse_host uri text =
    let found = find_host uri text (parse_address uri.port text) in port_part found.0 found.1

abbrev pub ends : ℕ → Bool
ends c = c == 0 || ws c

unfoldable pub path_char : ℕ → Text → Option (ℕ × ℕ)
path_char c text = if c == b'/' then some (c, 0) else pchar c text

unfoldable pub query_char : ℕ → Text → Option (ℕ × ℕ)
query_char c text =
    if c == b'/' then some (c, 0) else if c == b'?' then some (c, 0) else pchar c text

-- The states 6 and 7, without and with a query: what is read of the path, or of the query, and what
-- follows the URI. None where the parser refuses.
unfoldable pub query_part : ℕ → Text → Option (Text × Text)
query_part skip [] = some ([], [])
query_part (suc skip) (c ∷ text) = query_part skip text
query_part zero (c ∷ text) = if ends c then some ([], c ∷ text) else elim (query_char c text) [
  | none ↦ none
  | some p ↦ elim (query_part p.1 text) [ none ↦ none | some r ↦ some (p.0 ∷ r.0, r.1) ]
]

-- The path, the query and what follows.
unfoldable pub path_part : ℕ → Text → Option (Text × Option Text × Text)
path_part skip [] = some ([], none, [])
path_part (suc skip) (c ∷ text) = path_part skip text
path_part zero (c ∷ text) =
    let more : Option (Text × Option Text × Text) = elim (path_char c text) [
      | none ↦ none
      | some p ↦ elim (path_part p.1 text) [ none ↦ none | some r ↦ some (p.0 ∷ r.0, r.1, r.2) ]
    ] in
    if c == b'?'
    then elim (query_part 0 text) [ none ↦ none | some r ↦ some ([], some r.0, r.1) ]
    else if ends c
    then some ([], none, c ∷ text)
    else more

-- State 5.
unfoldable pub parse_path : Uri → Text → Option (Uri × Text)
parse_path uri text = elim (path_part 0 text) [
  | none ↦ none
  | some r ↦ some (record uri { path = some r.0; query = r.1 }, r.2)
]

-- State 3, behind a `/`: an authority, or a path with that `/`.
unfoldable pub hier_part : Uri → Text → Option (Uri × Text)
hier_part uri [] = parse_path uri (b'/' ∷ [])
hier_part uri (c ∷ text) =
    if c == b'/'
    then (let found = parse_host uri text in parse_path found.0 found.1)
    else parse_path uri (b'/' ∷ c ∷ text)

-- State 2, behind the scheme.
unfoldable pub after_scheme : Uri → Text → Option (Uri × Text)
after_scheme uri [] = parse_path uri []
after_scheme uri (c ∷ text) = if c == b'/' then hier_part uri text else parse_path uri (c ∷ text)

abbrev pub http_text : Text
http_text = b'h' ∷ b't' ∷ b't' ∷ b'p' ∷ []

abbrev pub https_text : Text
https_text = b'h' ∷ b't' ∷ b't' ∷ b'p' ∷ b's' ∷ []

abbrev pub default_port : Text → ℕ → ℕ
default_port scheme port =
    if streq scheme http_text then 80 else if streq scheme https_text then 443 else port

abbrev pub scheme_char : ℕ → Bool
scheme_char c = alpha c || digit c || c == b'+' || c == b'-' || c == b'.'

-- State 1: the scheme, and what follows the colon.
unfoldable pub scheme_part : Text → Option (Text × Text)
scheme_part [] = none
scheme_part (c ∷ text) =
    let rest = scheme_part text in
    if c == b':'
    then some ([], text)
    else if scheme_char c
    then elim rest [ none ↦ none | some r ↦ some (c ∷ r.0, r.1) ]
    else none

-- State 0.
unfoldable pub parse_start : Uri → Text → Option (Uri × Text)
parse_start uri [] = none
parse_start uri (c ∷ text) =
    if c == b'/'
    then elim uri.scheme [ none ↦ none | some _ ↦ hier_part uri text ]
    else if alpha c
    then elim (scheme_part (c ∷ text)) [
      | none ↦ none
      | some s ↦
          after_scheme (record uri { scheme = some s.0; port = default_port s.0 uri.port }) s.1
    ]
    else none

-- `parse_uri` from state 0, or from state 5 of an origin form; the scheme and the port are those
-- that the caller has set.
unfoldable pub parse_uri : Bool → Uri → Text → Option (Uri × Text)
unfolding parse_start
parse_uri origin uri text =
    let u = record uri { name = none; path = none; query = none; host = none } in
    if origin then parse_path u text else parse_start u text

-- None where the text is longer than the buffer, or is refused.
unfoldable pub uri_parse : Uri → Text → ℕ → Option Uri
unfolding parse_uri
uri_parse uri href limit =
    if leb (length href) limit
    then elim (parse_uri false uri href) [ none ↦ none | some r ↦ some r.0 ]
    else none

-- `http_parse_uri` of core/http_parse.c: the scheme and the port of the connection are set first,
-- where there is one.
unfoldable pub http_parse_uri : Option Bool → Uri → Text → ℕ → Option Uri
http_parse_uri none uri href limit = uri_parse uri href limit
http_parse_uri (some secure) uri href limit =
    uri_parse
      (record uri {
        scheme = some (if secure then https_text else http_text);
        port = if secure then 443 else 80;
      })
      href limit

abbrev pub text_of : Option Text → Text
text_of none = []
text_of (some t) = t

abbrev pub authority : Uri → Text
authority uri = elim uri.name [
  | some name ↦ text_of uri.scheme ++ b':' ∷ b'/' ∷ b'/' ∷ (name ++ b':' ∷ decimal_int uri.port)
  | none ↦ elim uri.host [
    | some host ↦ text_of uri.scheme ++ b':' ∷ b'/' ∷ b'/' ∷ write_address_port host
    | none ↦ []
  ]
]

unfoldable pub write_uri : Uri → Text
write_uri uri =
    authority uri ++ (text_of uri.path ++ (elim uri.query [ none ↦ [] | some q ↦ b'?' ∷ q ]))
