-- ===== src/Http/Tests.antt =====
-- Runs of core/http.c.
use client.Base.{
  ℕ, ◌-◌, ◌^◌, ◌≡◌, inl, inr, refl, false, true, bit_or, some, none, List, [], ◌∷◌, ◌++◌, arith,
  All, replicate,
}
use client.Text.{Text}
use client.Text.Numbers.{decimal, decimal_digits}
use client.Address.{ipv4, write_ipv4, write_address, write_address_port}
use client.Uri.{Uri}
use client.Http.{
  HttpConnection, http_start, http_header, padded, request_text, http_request, http_get,
}
use client.Http.Texts
use client.Http.Sending.{Step, write, flush, run, messages, run-Sends}
use client.Http.Sending.Writes.{stream}
use client.Http.Requests.{IsShort, get_all, requests, dequeue_all, dequeue-get_all}
use client.Http.Buffer.{line_at, scan, search_line}
use client.Http.Buffer.Lines.{Finds, search_line-Finds}
use client.Http.Headers.{Message, header_line}
use client.Http.Headers.Length.{header_line-content_length}

-- The socket takes the first message, then nothing, then the others.
abbrev some_connection : HttpConnection
some_connection = record {
  space = 100 ∷ 0 ∷ 100 ∷ 100 ∷ [];
  wire = [];
  is_open = true;
  state = http_start;
  close = false;
  host = ipv4 1 80;
  accept = [];
  media = [];
  send = [];
  request = [];
}

abbrev some_steps : List Step
some_steps = write (1 ∷ 2 ∷ []) ∷ write (3 ∷ []) ∷ write (4 ∷ []) ∷ flush ∷ []

run-Sends_example :
    stream (run some_steps some_connection) ≡ stream some_connection ++ messages some_steps
run-Sends_example =
    run-Sends 100 some_steps some_connection
      (inr (omega arith), (inl refl, (inr (omega arith), (inr (omega arith), tt)))) tt
      (omega arith, (omega arith, (omega arith, (omega arith, tt))))

abbrev some_gets : List (Text × ℕ)
some_gets = (b'/' ∷ b'a' ∷ [], 7) ∷ (b'/' ∷ b'b' ∷ [], 8) ∷ []

some_gets-IsShort : All (IsShort [] some_connection) some_gets
unfolding request_text write_address_port write_address write_ipv4 decimal decimal_digits
some_gets-IsShort = (omega arith, (omega arith, tt))

dequeue-get_all_example :
    (d : HttpConnection) × (get_all [] some_gets some_connection ≡ some d)
    × (dequeue_all 2 d ≡ some (requests some_gets, record d { request = [] }))
dequeue-get_all_example = dequeue-get_all [] some_gets some_connection refl some_gets-IsShort

-- A name of 240 bytes.
no_space : http_get [] (replicate 240 b'a') some_connection ≡ none
unfolding http_get http_request request_text write_address_port write_address write_ipv4 decimal
    decimal_digits
no_space = refl

abbrev no_uri : Uri
no_uri = record { scheme = none; name = none; path = none; query = none; host = none; port = 0 }

abbrev some_message : Message
some_message = record {
  state = http_header;
  method = 6;
  request_method = 0;
  status = 200;
  error = 0;
  header = 4;
  end_ = 0;
  content_length = none;
  body = true;
  close = false;
  context = some 7;
  host = none;
  content_type = none;
  media_range = none;
  location = none;
  uri = no_uri;
}

header_line-content_length_example :
    header_line no_uri (Texts.content_length_field ++ padded 431) some_message
    ≡ record some_message { header = bit_or 4 8; end_ = 431; content_length = some 431 }
header_line-content_length_example = header_line-content_length no_uri 431 some_message

-- `-1`
negative_length :
    header_line no_uri (Texts.content_length_field ++ padded (2 ^ 32 - 1)) some_message
    ≡ record some_message { header = bit_or 4 8; error = 400 }
negative_length = header_line-content_length no_uri (2 ^ 32 - 1) some_message

-- `ab`, `c` and CR LF with `x`.
abbrev two_reads : List Text
two_reads = (b'c' ∷ []) ∷ (13 ∷ 10 ∷ b'x' ∷ []) ∷ []

abbrev ab : Text
ab = b'a' ∷ b'b' ∷ []

two_reads-scan : scan (ab ++ b'c' ∷ 13 ∷ 10 ∷ b'x' ∷ []) ≡ some (b'a' ∷ b'b' ∷ b'c' ∷ [], b'x' ∷ [])
unfolding scan line_at
two_reads-scan = refl

search_line-Finds_example :
    Finds (b'a' ∷ b'b' ∷ b'c' ∷ []) (b'x' ∷ []) (search_line [] ab 100 two_reads)
search_line-Finds_example =
    search_line-Finds [] ab 100 two_reads (b'a' ∷ b'b' ∷ b'c' ∷ []) (b'x' ∷ []) (refl, (refl, tt))
      refl (refl, (refl, tt)) (omega arith) two_reads-scan

-- A read that ends between CR and LF, with the next one at hand: the end of the line is missed.
cut_line :
    search_line [] (b'a' ∷ 13 ∷ []) 100 ((10 ∷ b'b' ∷ 13 ∷ 10 ∷ []) ∷ [])
    ≡ record { line = some (b'a' ∷ 13 ∷ 10 ∷ b'b' ∷ [], []); read = []; input = [] }
unfolding search_line scan line_at
cut_line = refl
