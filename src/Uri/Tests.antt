-- ===== src/Uri/Tests.antt =====
-- Runs of core/uri.c.
use client.Base.{◌≡◌, refl, true, some, none, [], ◌∷◌, leb, length, arith}
use client.Text.{Text}
use client.Text.Numbers.{decimal, decimal_digits}
use client.Address.{write_ipv4, write_address, write_address_port}
use client.Uri.{Uri, write_uri, uri_parse}
use client.Uri.RoundTrip.{http_uri, uri_parse-write_uri}

abbrev no_uri : Uri
no_uri = record { scheme = none; name = none; path = none; query = none; host = none; port = 0 }

-- `/edev` and `l=9`
abbrev edev : Text
edev = b'e' ∷ b'd' ∷ b'e' ∷ b'v' ∷ []

abbrev page : Text
page = b'l' ∷ b'=' ∷ b'9' ∷ []

abbrev edev_uri : Uri
edev_uri = http_uri 0xc0a80001 8080 (b'/' ∷ edev) (some page)

edev_uri-fits : leb (length (write_uri edev_uri)) 127 ≡ true
unfolding write_uri write_address_port write_address write_ipv4 decimal decimal_digits
edev_uri-fits = refl

uri_parse-write_uri_example : uri_parse no_uri (write_uri edev_uri) 127 ≡ some edev_uri
uri_parse-write_uri_example =
    uri_parse-write_uri no_uri 0xc0a80001 8080 edev (some page) 127 (omega arith) (omega arith)
      (refl, (refl, (refl, (refl, tt)))) (refl, (refl, (refl, tt))) edev_uri-fits
