-- ===== src/Uri/RoundTrip.antt =====
-- A URI with an IPv4 host that core/uri.c writes is parsed back.
use native.Mathlib.Nat.{mod-eq_of_lt}
use client.Base.{
  ℕ, ◌/◌, ◌%◌, ◌^◌, ◌<◌, ◌≡◌, refl, ◌∙◌, ap, true, false, Option, none, some, [], ◌∷◌, ◌++◌, ◌==◌,
  leb, length, arith, append_assoc, append-nil, All,
}
use client.Text.{Text, digit, first, number}
use client.Text.Numbers.{decimal, EndsNumber, number_of-decimal, first-decimal}
use client.Address.{
  ipv4, fail, parse_ipv6, parse_address, write_ipv4, write_address, write_address_port,
}
use client.Address.RoundTrip.{parse_ipv4-write_ipv4}
use client.Uri.{
  Uri, plain, pchar, path_char, query_char, path_part, query_part, ends, parse_path, find_host,
  parse_host, read_port, hier_part, after_scheme, scheme_part, parse_start, parse_uri, uri_parse,
  write_uri, http_text,
}

abbrev pub IsPlain : Text → Type 0
IsPlain t = All (λ c. plain c ≡ true) t

pub pchar-plain : (c : ℕ) (t : Text) → plain c ≡ true → pchar c t ≡ some (c, 0)
unfolding pchar
pchar-plain c [] h = rw h
pchar-plain c (a ∷ []) h = rw h
pchar-plain c (a ∷ b ∷ t) h = rw h

plain-ends : (c : ℕ) → plain c ≡ true → ends c ≡ false
plain-ends c h = ground arith

plain-query : (c : ℕ) → plain c ≡ true → (c == b'?') ≡ false
plain-query c h = ground arith

path_char-plain : (c : ℕ) (t : Text) → plain c ≡ true → path_char c t ≡ some (c, 0)
unfolding path_char
path_char-plain c t h = ground (arith, pchar-plain c t h)

query_char-plain : (c : ℕ) (t : Text) → plain c ≡ true → query_char c t ≡ some (c, 0)
unfolding query_char
query_char-plain c t h = ground (arith, pchar-plain c t h)

query-plain : (q : Text) → IsPlain q → query_part 0 q ≡ some (q, [])
unfolding query_part
query-plain [] h = refl
query-plain (c ∷ q) h = rw (plain-ends c h.0, query_char-plain c q h.0, query-plain q h.1)

path-plain : (p : Text) → IsPlain p → path_part 0 p ≡ some (p, none, [])
unfolding path_part
path-plain [] h = refl
path-plain (c ∷ p) h =
    rw (plain-query c h.0, plain-ends c h.0, path_char-plain c p h.0, path-plain p h.1)

path-query :
    (p q : Text) → IsPlain p → IsPlain q → path_part 0 (p ++ b'?' ∷ q) ≡ some (p, some q, [])
unfolding path_part
path-query [] q h k = rw (query-plain q k)
path-query (c ∷ p) q h k = rw (
  plain-query c h.0,
  plain-ends c h.0,
  path_char-plain c (p ++ b'?' ∷ q) h.0,
  path-query p q h.1 k,
)

abbrev pub query_text : Option Text → Text
query_text none = []
query_text (some q) = b'?' ∷ q

abbrev pub IsPlainQuery : Option Text → Type 0
IsPlainQuery none = Unit {0}
IsPlainQuery (some q) = IsPlain q

parse_path-plain :
    (uri : Uri) (p : Text) (q : Option Text)
    → IsPlain p
    → IsPlainQuery q
    → parse_path uri (p ++ query_text q) ≡ some (record uri { path = some p; query = q }, [])
unfolding parse_path
parse_path-plain uri p none h k = rw (append-nil p, path-plain p h, parse_path)
parse_path-plain uri p (some q) h k = rw (path-query p q h k, parse_path)

not_bracket : (t : Text) → digit (first t) ≡ true → parse_ipv6 t ≡ fail
unfolding parse_ipv6
not_bracket [] h = cc
not_bracket (c ∷ t) h = let other : (c == b'[') ≡ false = ground arith in rw other

first-write_ipv4 : (addr : ℕ) (rest : Text) → digit (first (write_ipv4 addr ++ rest)) ≡ true
unfolding write_ipv4
first-write_ipv4 addr rest =
    ap (λ t. digit (first t)) (append_assoc (decimal (addr / 2 ^ 24 % 256)) _ rest)
    ∙ first-decimal (addr / 2 ^ 24 % 256) _

read_address :
    (port addr : ℕ) (rest : Text)
    → addr < 2 ^ 32
    → EndsNumber rest
    → parse_address port (write_ipv4 addr ++ rest) ≡ some (ipv4 addr (port % 2 ^ 16), rest)
unfolding parse_address
read_address port addr rest h e = rw (
  not_bracket (write_ipv4 addr ++ rest) (first-write_ipv4 addr rest),
  parse_ipv4-write_ipv4 addr rest h e,
  parse_address,
)

read_host :
    (uri : Uri) (addr port : ℕ) (rest : Text)
    → uri.port ≡ 80
    → addr < 2 ^ 32
    → port < 2 ^ 16
    → EndsNumber rest
    → parse_host uri (write_ipv4 addr ++ b':' ∷ (decimal port ++ rest))
      ≡ (record uri { host = some (ipv4 addr port); port = port }, rest)
unfolding parse_host
read_host uri addr port rest u h k e =
    rw (read_address uri.port addr (b':' ∷ (decimal port ++ rest)) h refl) (
      unfold find_host read_port number in
      (rw (number_of-decimal 32 port rest (omega (arith, k)) (omega (arith, k)) e, mod-eq_of_lt k)
        refl))

-- A URI with an IPv4 host, a port, a path and perhaps a query.
abbrev pub http_uri : ℕ → ℕ → Text → Option Text → Uri
http_uri addr port path query = record {
  scheme = some http_text;
  name = none;
  path = some path;
  query = query;
  host = some (ipv4 addr port);
  port = port;
}

write_uri-parts :
    (addr port : ℕ) (path : Text) (query : Option Text)
    → write_uri (http_uri addr port path query)
      ≡ http_text
        ++ b':'
          ∷ b'/'
          ∷ b'/'
          ∷ (write_ipv4 addr ++ b':' ∷ (decimal port ++ (path ++ query_text query)))
unfolding write_uri write_address_port write_address
write_uri-parts addr port path none = simp append_assoc
write_uri-parts addr port path (some q) = simp append_assoc

pub parse_start-http :
    (uri : Uri) (text : Text)
    → parse_start uri (http_text ++ b':' ∷ b'/' ∷ b'/' ∷ text)
      ≡ hier_part (record uri { scheme = some http_text; port = 80 }) (b'/' ∷ text)
unfolding parse_start scheme_part after_scheme
parse_start-http uri text = refl

abbrev with_scheme : Uri → Uri
with_scheme uri = record uri {
  scheme = some http_text;
  name = none;
  path = none;
  query = none;
  host = none;
  port = 80;
}

authority_path :
    (uri : Uri) (addr port : ℕ) (path : Text) (query : Option Text)
    → addr < 2 ^ 32
    → port < 2 ^ 16
    → IsPlain path
    → IsPlainQuery query
    → hier_part
        (with_scheme uri)
        (b'/' ∷ (write_ipv4 addr ++ b':' ∷ (decimal port ++ (b'/' ∷ path ++ query_text query))))
      ≡ some (http_uri addr port (b'/' ∷ path) query, [])
unfolding hier_part
authority_path uri addr port path query ha hp plain_path plain_query =
    rw (read_host (with_scheme uri) addr port (b'/' ∷ path ++ query_text query) refl ha hp refl)
      (parse_path-plain _ (b'/' ∷ path) query (refl, plain_path) plain_query)

-- An `http` URI with an IPv4 host and a port of 16 bits, that `write_uri` has written and that fits
-- the buffer, is parsed by `uri_parse` into the same components, where the path begins with `/` and
-- the path and the query are made of the characters that `pchar` takes as they are.
pub uri_parse-write_uri :
    (uri : Uri) (addr port : ℕ) (path : Text) (query : Option Text) (limit : ℕ)
    → addr < 2 ^ 32
    → port < 2 ^ 16
    → IsPlain path
    → IsPlainQuery query
    → leb (length (write_uri (http_uri addr port (b'/' ∷ path) query))) limit ≡ true
    → uri_parse uri (write_uri (http_uri addr port (b'/' ∷ path) query)) limit
      ≡ some (http_uri addr port (b'/' ∷ path) query)
unfolding uri_parse parse_uri
uri_parse-write_uri uri addr port path query limit ha hp plain_path plain_query fits =
    let u = record uri { name = none; path = none; query = none; host = none } in
    let text = write_uri (http_uri addr port (b'/' ∷ path) query) in
    let parsed : parse_start u text ≡ some (http_uri addr port (b'/' ∷ path) query, []) =
      ap (parse_start u) (write_uri-parts addr port (b'/' ∷ path) query)
      ∙ parse_start-http u _
      ∙ authority_path u addr port path query ha hp plain_path plain_query in
    rw (fits, parsed) refl
