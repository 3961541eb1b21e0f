-- ===== src/Http.antt =====
-- core/http.c: what a connection writes, the queues of messages and requests, and the header fields
-- that it reads. A message is the text of its bytes. The socket is given by the space that it will
-- have at each write: it takes what fits, and refuses where there is none, as `conn_write` returns
-- the number of bytes written, or -1. `date` is the line that `http_date` writes.
pub mod Texts
pub mod Sending
pub mod Requests
pub mod Headers
pub mod Buffer
mod Tests
use mathlib.Core.Option
use client.Base.{
  ℕ, zero, suc, ◌+◌, ◌-◌, Bool, true, false, not, Option, none, some, List, [], ◌∷◌, ◌++◌, ◌&&◌,
  ◌||◌, ◌==◌, ltb, leb, min, length, take, drop, replicate, get_or, if◌then◌else◌,
}
use client.LinkedList.{Ptr}
use client.Text.{Text}
use client.Text.Numbers.{decimal_int}
use client.Address.{Address, write_address_port}
use client.Http.Texts

pub data HttpState : Type 0 where
  http_start http_header http_data http_complete http_closed : HttpState

pub record HttpRequest : Type 0 where
  pub context : Option Ptr
  pub method : ℕ
  pub uri : Text

-- What the sending side of a connection has.
pub record HttpConnection : Type 0 where
  -- the space of the socket at the writes to come, and what it has taken
  pub space : List ℕ
  pub wire : Text
  pub is_open : Bool
  pub state : HttpState
  pub close : Bool
  pub host : Address
  pub accept : Text
  pub media : Text
  pub send : List Text
  pub request : List HttpRequest

-- The number of bytes written, none for -1.
unfoldable pub conn_write : Text → HttpConnection → Option ℕ × HttpConnection
conn_write data' c = elim c.space [
  | [] ↦ (none, c)
  | n ∷ more ↦
      if n == 0
      then (none, record c { space = more })
      else (some (min n (length data')), record c { space = more; wire = c.wire ++ take n data' })
]

-- The loop over the queue; it ends at the first message that is not taken.
unfoldable pub flush_loop : List Text → HttpConnection → HttpConnection
flush_loop [] c = record c { send = [] }
flush_loop (item ∷ queue) c =
    let w = conn_write item (record c { send = item ∷ queue }) in
    let rest = flush_loop queue w.1 in
    elim w.0 [ none ↦ w.1 | some n ↦ if n == 0 then w.1 else rest ]

unfoldable pub http_flush : HttpConnection → HttpConnection
unfolding flush_loop
http_flush c =
    let d = flush_loop c.send c in
    elim d.send [ [] ↦ if d.close then record d { is_open = false } else d | _ ∷ _ ↦ d ]

abbrev pub is_empty : List Text → Bool
is_empty [] = true
is_empty (_ ∷ _) = false

unfoldable pub http_write : Text → HttpConnection → HttpConnection
http_write data' c =
    let w = conn_write data' c in
    if is_empty c.send
    then elim w.0 [ some _ ↦ w.1 | none ↦ record w.1 { send = w.1.send ++ data' ∷ [] } ]
    else record c { send = c.send ++ data' ∷ [] }

abbrev pub queue_request : ℕ → Text → HttpConnection → HttpConnection
queue_request method uri c = record c {
  request = c.request ++ record { context = none; method = method; uri = uri } ∷ [];
}

unfoldable pub set_last : Ptr → List HttpRequest → List HttpRequest
set_last context [] = []
set_last context (r ∷ []) = record r { context = some context } ∷ []
set_last context (r ∷ s ∷ queue) = r ∷ set_last context (s ∷ queue)

-- The context of the last request in the queue.
unfoldable pub set_request_context : Ptr → HttpConnection → HttpConnection
unfolding set_last
set_request_context context c = record c { request = set_last context c.request }

unfoldable pub dequeue_request : HttpConnection → Option (HttpRequest × HttpConnection)
dequeue_request c = elim c.request [
  | [] ↦ none
  | r ∷ queue ↦ some (r, record c { request = queue })
]

abbrev pub method_name : ℕ → Text
method_name method = get_or Texts.http_methods method []

-- The request line and the headers.
unfoldable pub request_text : Text → Text → ℕ → HttpConnection → Text
request_text date uri method c =
    method_name method
    ++ 32
      ∷ (uri
          ++ 32
            ∷ (Texts.version_text
                ++ Texts.newline
                ++ date
                ++ Texts.host_field
                ++ write_address_port c.host
                ++ Texts.newline
                ++ Texts.accept_field
                ++ c.accept
                ++ Texts.newline))

-- The text, in a buffer of `size` bytes, and the queue with the request; none where the text is
-- written behind the buffer, as in the functions below.
unfoldable pub http_request : ℕ → Text → Text → ℕ → HttpConnection → Option (Text × HttpConnection)
unfolding request_text
http_request size date uri method c =
    let t = request_text date uri method c in
    if ltb (length t) size then some (t, queue_request method uri c) else none

-- `http_write` of a text that was made in a buffer of `size` bytes.
unfoldable pub write_buffer : ℕ → Text → HttpConnection → Option HttpConnection
write_buffer size t c = if ltb (length t) size then some (http_write t c) else none

abbrev pub end_request : Option (Text × HttpConnection) → Option HttpConnection
end_request none = none
end_request (some r) = write_buffer 256 (r.0 ++ Texts.newline) r.1

unfoldable pub http_get : Text → Text → HttpConnection → Option HttpConnection
unfolding http_request
http_get date uri c = end_request (http_request 256 date uri 0 c)

unfoldable pub http_delete : Text → Text → HttpConnection → Option HttpConnection
unfolding http_request
http_delete date uri c = end_request (http_request 256 date uri 3 c)

-- `%-6d` at the `int` whose 32 bits are `n`.
abbrev pub padded : ℕ → Text
padded n = decimal_int n ++ replicate (6 - length (decimal_int n)) 32

unfoldable pub http_content : Text → ℕ → Text
http_content media n =
    Texts.content_type_field
    ++ media
    ++ Texts.newline
    ++ Texts.content_length_field
    ++ padded n
    ++ Texts.newline
    ++ Texts.newline

-- The text with its headers, in a buffer of `size` bytes.
abbrev pub with_content : ℕ → Option (Text × HttpConnection) → Option (Text × HttpConnection)
with_content size none = none
with_content size (some r) =
    let t = r.0 ++ http_content r.1.media 0 in if ltb (length t) size then some (t, r.1) else none

unfoldable pub http_send : ℕ → Text → Text → ℕ → HttpConnection → Option (Text × HttpConnection)
unfolding http_content
http_send size date uri method c = with_content size (http_request size date uri method c)

-- The requests that were queued.
unfoldable pub http_queued : HttpConnection → List HttpRequest × HttpConnection
http_queued c =
    (c.request, record c { send = []; request = []; is_open = false; state = http_closed })

unfoldable pub http_close : HttpConnection → HttpConnection
unfolding http_queued
http_close c = (http_queued c).1

unfoldable pub http_status_line : Text → ℕ → Text → Text
http_status_line date status reason =
    Texts.version_text ++ 32 ∷ (decimal_int status ++ 32 ∷ (reason ++ Texts.newline ++ date))

unfoldable pub http_created : Text → Text → HttpConnection → Option HttpConnection
unfolding http_status_line
http_created date uri c =
    write_buffer 512
      (http_status_line date 201 Texts.created_reason
        ++ Texts.no_content_length
        ++ Texts.location_field
        ++ uri
        ++ Texts.newline
        ++ Texts.newline)
      c

unfoldable pub http_no_content : Text → Text → HttpConnection → Option HttpConnection
unfolding http_status_line
http_no_content date uri c =
    write_buffer 512
      (http_status_line date 204 Texts.no_content_reason
        ++ Texts.location_field
        ++ uri
        ++ Texts.newline
        ++ Texts.newline)
      c

unfoldable pub http_allow : Text → Text → HttpConnection → Option HttpConnection
unfolding http_status_line
http_allow date allow c =
    write_buffer 512
      (http_status_line date 405 Texts.not_allowed_reason
        ++ Texts.allow_field
        ++ allow
        ++ Texts.newline
        ++ Texts.newline)
      c

unfoldable pub find_reason : ℕ → List (ℕ × Text) → Text
find_reason status [] = []
find_reason status (r ∷ l) = if r.0 == status then r.1 else find_reason status l

unfoldable pub http_reason : ℕ → Text
unfolding find_reason
http_reason status = find_reason status Texts.reasons

unfoldable pub http_respond : Text → ℕ → HttpConnection → Option HttpConnection
unfolding http_status_line http_reason
http_respond date status c =
    write_buffer 512
      (http_status_line date status (http_reason status)
        ++ Texts.no_content_length
        ++ Texts.newline)
      c

-- The status is sent, and the connection closed.
unfoldable pub http_error : Text → ℕ → HttpConnection → Option HttpConnection
unfolding http_respond http_close
http_error date status c = Option.map http_close (http_respond date status c)
