-- ===== src/Http/Headers.antt =====
-- core/http.c: the lines of the header of a message, as `http_receive` reads them.
pub mod Length
use client.Base.{
  ℕ, zero, suc, ◌+◌, ◌-◌, ◌^◌, bit_and, bit_or, Bool, true, false, not, Option, none, some, List,
  [], ◌∷◌, ◌++◌, ◌&&◌, ◌||◌, ◌==◌, ltb, leb, if◌then◌else◌,
}
use client.LinkedList.{Ptr}
use client.Text.{Text, string_index, streq, to_lower, number}
use client.Address.{Address}
use client.Uri.{Uri, parse_host}
use client.HttpParse.{Target, parsed, request_target, token, ows, token_sp, token_colon}
use client.Http.{
  HttpState, http_start, http_header, http_data, http_complete, http_closed, HttpConnection,
  HttpRequest, dequeue_request,
}
use client.Http.Texts

-- What is known of a message. The method of a response is 6, `HTTP_RESPONSE`; the pointers into
-- the buffer are the texts that they lead to.
pub record Message : Type 0 where
  pub state : HttpState
  pub method : ℕ
  pub request_method : ℕ
  pub status : ℕ
  pub error : ℕ
  pub header : ℕ
  pub end_ : ℕ
  pub content_length : Option ℕ
  pub body : Bool
  pub close : Bool
  pub context : Option Ptr
  pub host : Option Address
  pub content_type : Option Text
  pub media_range : Option Text
  pub location : Option Text
  pub uri : Uri

-- Before the first line is read.
unfoldable pub new_message : Message → Message
new_message m = record m {
  close = false;
  end_ = 0;
  header = 0;
  error = 0;
  content_type = none;
  media_range = none;
  body = true;
  content_length = none;
}

-- The status of `HTTP/1.1 <status> <reason>`.
unfoldable pub status_of : Text → Option ℕ
status_of line = elim (token_sp line) [
  | none ↦ none
  | some v ↦
      let status : Option ℕ = elim (token_sp v.1) [
        | none ↦ none
        | some s ↦ elim (number s.0) [
          | none ↦ none
          | some n ↦ if leb n.0 999 || leb (2 ^ 31) n.0 then some n.0 else none
        ]
      ] in
      if streq v.0 Texts.version_text then status else none
]

-- `HTTP_START` of a client; none where the connection is closed.
unfoldable pub status_line : Text → Message → HttpConnection → Option (Message × HttpConnection)
status_line line m c = elim (status_of line) [
  | none ↦ none
  | some status ↦ elim (dequeue_request c) [
    | none ↦ none
    | some r ↦ elim (request_target m.uri r.0.uri) [
      | parsed uri ↦ some (
        record (new_message m) {
          status = status;
          uri = uri;
          context = r.0.context;
          method = 6;
          request_method = r.0.method;
          state = http_header;
        },
        r.1,
      )
      | _ ↦ none
    ]
  ]
]

-- `HTTP_START` of a server; none where the line is answered by an error.
unfoldable pub request_line : Text → Message → Option Message
request_line line m = elim (token_sp line) [
  | none ↦ none
  | some name ↦ elim (token_sp name.1) [
    | none ↦ none
    | some target ↦ elim (request_target m.uri target.0) [
      | parsed uri ↦
          let method = string_index name.0 Texts.http_methods in
          if streq target.1 Texts.version_text
          then some (record (new_message m) {
            uri = uri;
            request_method = method;
            method = method;
            state = http_header;
          })
          else none
      | _ ↦ none
    ]
  ]
]

abbrev pub ends_line : Text → Bool
ends_line [] = true
ends_line (_ ∷ _) = false

-- The field `Host`; `stale` is the local `uri`, which the source does not initialise. Its `host` is
-- taken to be null.
unfoldable pub host_line : Uri → Text → Message → Message
host_line stale data' m =
    let found = parse_host (record stale { host = none }) data' in
    record m {
      host = elim found.0.host [ some host ↦ some host | none ↦ m.host ];
      error = if ends_line (ows found.1) then m.error else 400;
    }

unfoldable pub length_line : Text → Message → Message
length_line data' m = elim (number data') [
  | none ↦ record m { error = 400 }
  | some n ↦
      if ends_line (ows n.1)
      then record m { end_ = n.0; content_length = some n.0 }
      else record m { end_ = n.0; error = 400 }
]

-- The token is not cut off before it is compared, so that it is the rest of the line.
unfoldable pub connection_line : Text → Message → Message
connection_line data' m = elim (token data') [
  | none ↦ m
  | some _ ↦ record m { close = streq (to_lower data') Texts.close_text }
]

unfoldable pub header_field : Uri → ℕ → Text → Message → Message
header_field stale i data' m =
    if i == 0
    then host_line stale data' m
    else if i == 1
    then record m { media_range = some data' }
    else if i == 2
    then record m { content_type = some data' }
    else if i == 3
    then length_line data' m
    else if i == 4
    then connection_line data' m
    else if i == 5
    then record m { location = some data' }
    else m

-- A line of the header that is not empty; one that begins with white space is refused.
unfoldable pub header_line : Uri → Text → Message → Message
header_line stale [] m = m
header_line stale (c ∷ line) m =
    let field : Message = elim (token_colon (c ∷ line)) [
      | none ↦ record m { error = 400 }
      | some h ↦
          let i = string_index (to_lower h.0) Texts.headers in
          header_field stale i h.1 (record m { header = bit_or m.header (2 ^ i) })
    ] in
    if c == 32 || c == 9 then record m { error = 400 } else field

-- A response or request without a body.
unfoldable pub has_no_body : Message → Bool
has_no_body m =
    if m.method == 6
    then (not (bit_and m.header 8 == 0) && m.end_ == 0)
      || (leb 100 m.status && leb m.status 199)
      || m.status == 204
      || m.status == 304
    else m.end_ == 0

-- The end of the header, `next` bytes from the beginning of the buffer; none where the connection
-- is closed or an error is sent.
unfoldable pub end_of_headers : ℕ → Message → Option Message
end_of_headers next m =
    if m.error == 0
    then some (
        if has_no_body m
        then record m { body = false; state = http_complete; end_ = m.end_ + next }
        else record m { close = m.close || m.end_ == 0; state = http_data; end_ = m.end_ + next })
    else none
