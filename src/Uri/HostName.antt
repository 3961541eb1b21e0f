-- ===== src/Uri/HostName.antt =====
-- Host names in core/uri.c: what `parse_host` takes for one.
use client.Base.{
  ℕ, ◌≡◌, refl, ◌∙◌, Bool, true, false, ◌&&◌, none, some, [], ◌∷◌, ◌++◌, ◌==◌, leb, length,
  if◌then◌else◌, arith, All,
}
use client.Text.{Text, digit, number, number_of, alpha}
use client.Address.{fail, parse_ipv6, ipv4_loop, ipv4_octet, parse_ipv4, parse_address}
use client.Uri.{
  Uri, plain, host_char, host_name, path_part, parse_path, find_host, parse_host, hier_part,
  parse_uri, uri_parse, http_text,
}
use client.Uri.RoundTrip.{pchar-plain, parse_start-http}

-- A character that `pchar` takes and at which a host name does not end; `/` is one of them.
abbrev pub name_char : ℕ → Bool
name_char c = plain c && (if c == b'@' then false else if c == b':' then false else true)

name_char-plain : (c : ℕ) → name_char c ≡ true → plain c ≡ true
name_char-plain c h = ground arith

host_char-name : (c : ℕ) (t : Text) → name_char c ≡ true → host_char c t ≡ some (c, 0)
unfolding host_char
host_char-name c t h = ground (arith, pchar-plain c t (name_char-plain c h))

host_name-whole : (t : Text) → All (λ c. name_char c ≡ true) t → host_name 0 t ≡ (t, [])
unfolding host_name
host_name-whole [] h = refl
host_name-whole (c ∷ t) h = rw (host_char-name c t h.0, host_name-whole t h.1, host_name)

no_bracket : (c : ℕ) (t : Text) → alpha c ≡ true → parse_ipv6 (c ∷ t) ≡ fail
unfolding parse_ipv6
no_bracket c t h = let other : (c == b'[') ≡ false = ground arith in rw other

no_number : (c : ℕ) (t : Text) → alpha c ≡ true → number (c ∷ t) ≡ none
unfolding number number_of
no_number c t h = let letter : digit c ≡ false = ground arith in rw letter

no_ipv4 : (c : ℕ) (t : Text) → alpha c ≡ true → parse_ipv4 (c ∷ t) ≡ none
unfolding parse_ipv4 ipv4_loop ipv4_octet
no_ipv4 c t h = rw (no_number c t h)

no_address : (port c : ℕ) (t : Text) → alpha c ≡ true → parse_address port (c ∷ t) ≡ none
unfolding parse_address
no_address port c t h = rw (no_bracket c t h, no_ipv4 c t h, parse_address)

whole_name :
    (uri : Uri) (c : ℕ) (t : Text)
    → alpha c ≡ true
    → All (λ d. name_char d ≡ true) (c ∷ t)
    → parse_host uri (c ∷ t) ≡ (record uri { name = some (c ∷ t) }, [])
unfolding parse_host
whole_name uri c t letter chars =
    rw (no_address uri.port c t letter)
      (unfold find_host in (rw (host_name-whole (c ∷ t) chars, find_host) refl))

abbrev with_name : Uri → Text → Uri
with_name uri name = record uri { name = some name; path = some []; query = none }

name_path :
    (uri : Uri) (c : ℕ) (t : Text)
    → alpha c ≡ true
    → All (λ d. name_char d ≡ true) (c ∷ t)
    → hier_part uri (b'/' ∷ c ∷ t) ≡ some (with_name uri (c ∷ t), [])
unfolding hier_part
name_path uri c t letter chars =
    rw (whole_name uri c t letter chars) (unfold parse_path path_part in refl)

-- An absolute URI whose authority is a host name that begins with a letter, without a port or user
-- information, loses its path to the name: all that follows `//` is the name, up to the end, and
-- the path is empty. This is said of a text without a query, of characters that `pchar` takes.
uri_parse-name :
    (uri : Uri) (c : ℕ) (rest : Text) (limit : ℕ)
    → alpha c ≡ true
    → All (λ d. name_char d ≡ true) (c ∷ rest)
    → leb (length (http_text ++ b':' ∷ b'/' ∷ b'/' ∷ c ∷ rest)) limit ≡ true
    → uri_parse uri (http_text ++ b':' ∷ b'/' ∷ b'/' ∷ c ∷ rest) limit
      ≡ some (record {
        scheme = some http_text;
        name = some (c ∷ rest);
        path = some [];
        query = none;
        host = none;
        port = 80;
      })
unfolding uri_parse parse_uri
uri_parse-name uri c rest limit letter chars fits =
    let u = record uri { name = none; path = none; query = none; host = none } in
    let v = record u { scheme = some http_text; port = 80 } in
    let parsed = parse_start-http u (c ∷ rest) ∙ name_path v c rest letter chars in
    rw (fits, parsed) refl
