-- ===== src/Http/Texts.antt =====
-- The texts of core/http.c.
use client.Base.{List, [], ◌∷◌, ℕ}
use client.Text.{Text}

abbrev pub version_text : Text
version_text = b'H' ∷ b'T' ∷ b'T' ∷ b'P' ∷ b'/' ∷ b'1' ∷ b'.' ∷ b'1' ∷ []

abbrev pub get_text : Text
get_text = b'G' ∷ b'E' ∷ b'T' ∷ []

abbrev pub put_text : Text
put_text = b'P' ∷ b'U' ∷ b'T' ∷ []

abbrev pub post_text : Text
post_text = b'P' ∷ b'O' ∷ b'S' ∷ b'T' ∷ []

abbrev pub delete_text : Text
delete_text = b'D' ∷ b'E' ∷ b'L' ∷ b'E' ∷ b'T' ∷ b'E' ∷ []

abbrev pub head_text : Text
head_text = b'H' ∷ b'E' ∷ b'A' ∷ b'D' ∷ []

abbrev pub http_methods : List Text
http_methods = get_text ∷ put_text ∷ post_text ∷ delete_text ∷ head_text ∷ []

abbrev pub newline : Text
newline = 13 ∷ 10 ∷ []

abbrev pub host_field : Text
host_field = b'H' ∷ b'o' ∷ b's' ∷ b't' ∷ b':' ∷ 32 ∷ []

abbrev pub accept_field : Text
accept_field = b'A' ∷ b'c' ∷ b'c' ∷ b'e' ∷ b'p' ∷ b't' ∷ b':' ∷ 32 ∷ []

abbrev pub content_type_field : Text
content_type_field =
    b'C' ∷ b'o' ∷ b'n' ∷ b't' ∷ b'e' ∷ b'n' ∷ b't' ∷ b'-' ∷ b'T' ∷ b'y' ∷ b'p' ∷ b'e' ∷ b':' ∷ 32
    ∷ []

abbrev pub content_length_field : Text
content_length_field =
    b'C' ∷ b'o' ∷ b'n' ∷ b't' ∷ b'e' ∷ b'n' ∷ b't' ∷ b'-' ∷ b'L' ∷ b'e' ∷ b'n' ∷ b'g' ∷ b't' ∷ b'h'
    ∷ b':' ∷ 32 ∷ []

abbrev pub no_content_length : Text
no_content_length =
    b'C' ∷ b'o' ∷ b'n' ∷ b't' ∷ b'e' ∷ b'n' ∷ b't' ∷ b'-' ∷ b'L' ∷ b'e' ∷ b'n' ∷ b'g' ∷ b't' ∷ b'h'
    ∷ b':' ∷ 32 ∷ b'0' ∷ 13 ∷ 10 ∷ []

abbrev pub location_field : Text
location_field = b'L' ∷ b'o' ∷ b'c' ∷ b'a' ∷ b't' ∷ b'i' ∷ b'o' ∷ b'n' ∷ b':' ∷ 32 ∷ []

abbrev pub allow_field : Text
allow_field = b'A' ∷ b'l' ∷ b'l' ∷ b'o' ∷ b'w' ∷ b':' ∷ 32 ∷ []

abbrev pub created_reason : Text
created_reason = b'C' ∷ b'r' ∷ b'e' ∷ b'a' ∷ b't' ∷ b'e' ∷ b'd' ∷ []

abbrev pub no_content_reason : Text
no_content_reason = b'N' ∷ b'o' ∷ 32 ∷ b'C' ∷ b'o' ∷ b'n' ∷ b't' ∷ b'e' ∷ b'n' ∷ b't' ∷ []

abbrev pub not_allowed_reason : Text
not_allowed_reason =
    b'M' ∷ b'e' ∷ b't' ∷ b'h' ∷ b'o' ∷ b'd' ∷ 32 ∷ b'N' ∷ b'o' ∷ b't' ∷ 32 ∷ b'A' ∷ b'l' ∷ b'l'
    ∷ b'o' ∷ b'w' ∷ b'e' ∷ b'd' ∷ []

-- The reasons of the statuses.
abbrev pub reasons : List (ℕ × Text)
reasons =
    (204, no_content_reason)
    ∷ (400, b'B' ∷ b'a' ∷ b'd' ∷ 32 ∷ b'R' ∷ b'e' ∷ b'q' ∷ b'u' ∷ b'e' ∷ b's' ∷ b't' ∷ [])
    ∷ (403, b'F' ∷ b'o' ∷ b'r' ∷ b'b' ∷ b'i' ∷ b'd' ∷ b'd' ∷ b'e' ∷ b'n' ∷ [])
    ∷ (404, b'N' ∷ b'o' ∷ b't' ∷ 32 ∷ b'F' ∷ b'o' ∷ b'u' ∷ b'n' ∷ b'd' ∷ [])
    ∷ (405, not_allowed_reason)
    ∷ (
      408,
      b'R' ∷ b'e' ∷ b'q' ∷ b'u' ∷ b'e' ∷ b's' ∷ b't' ∷ 32 ∷ b'T' ∷ b'i' ∷ b'm' ∷ b'e' ∷ b'o' ∷ b'u'
          ∷ b't' ∷ [],
    )
    ∷ (
      406,
      b'N' ∷ b'o' ∷ b't' ∷ 32 ∷ b'A' ∷ b'c' ∷ b'c' ∷ b'e' ∷ b'p' ∷ b't' ∷ b'a' ∷ b'b' ∷ b'l' ∷ b'e'
          ∷ [],
    )
    ∷ (
      415,
      b'U' ∷ b'n' ∷ b's' ∷ b'u' ∷ b'p' ∷ b'p' ∷ b'o' ∷ b'r' ∷ b't' ∷ b'e' ∷ b'd' ∷ 32 ∷ b'M' ∷ b'e'
          ∷ b'd' ∷ b'i' ∷ b'a' ∷ 32 ∷ b'T' ∷ b'y' ∷ b'p' ∷ b'e' ∷ [],
    )
    ∷ (
      500,
      b'I' ∷ b'n' ∷ b't' ∷ b'e' ∷ b'r' ∷ b'n' ∷ b'a' ∷ b'l' ∷ 32 ∷ b'S' ∷ b'e' ∷ b'r' ∷ b'v' ∷ b'e'
          ∷ b'r' ∷ 32 ∷ b'E' ∷ b'r' ∷ b'r' ∷ b'o' ∷ b'r' ∷ [],
    )
    ∷ []

abbrev pub host_name : Text
host_name = b'h' ∷ b'o' ∷ b's' ∷ b't' ∷ []

abbrev pub accept_name : Text
accept_name = b'a' ∷ b'c' ∷ b'c' ∷ b'e' ∷ b'p' ∷ b't' ∷ []

abbrev pub content_type_name : Text
content_type_name =
    b'c' ∷ b'o' ∷ b'n' ∷ b't' ∷ b'e' ∷ b'n' ∷ b't' ∷ b'-' ∷ b't' ∷ b'y' ∷ b'p' ∷ b'e' ∷ []

abbrev pub content_length_name : Text
content_length_name =
    b'c' ∷ b'o' ∷ b'n' ∷ b't' ∷ b'e' ∷ b'n' ∷ b't' ∷ b'-' ∷ b'l' ∷ b'e' ∷ b'n' ∷ b'g' ∷ b't' ∷ b'h'
    ∷ []

abbrev pub connection_name : Text
connection_name = b'c' ∷ b'o' ∷ b'n' ∷ b'n' ∷ b'e' ∷ b'c' ∷ b't' ∷ b'i' ∷ b'o' ∷ b'n' ∷ []

abbrev pub location_name : Text
location_name = b'l' ∷ b'o' ∷ b'c' ∷ b'a' ∷ b't' ∷ b'i' ∷ b'o' ∷ b'n' ∷ []

abbrev pub close_text : Text
close_text = b'c' ∷ b'l' ∷ b'o' ∷ b's' ∷ b'e' ∷ []

-- `headers`, of `http_receive`.
abbrev pub headers : List Text
headers =
    host_name ∷ accept_name ∷ content_type_name ∷ content_length_name ∷ connection_name
    ∷ location_name ∷ []
