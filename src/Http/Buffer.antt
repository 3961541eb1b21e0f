-- ===== src/Http/Buffer.antt =====
-- core/http.c: the buffer of a connection, the lines that are read through it and the data of a
-- message. The socket is the sequence of what its reads will give, where an empty text, like the
-- end, stands for a read without data; bytes are not zero. `BUFFER_SIZE` is 2048, and one byte is
-- kept for a zero.
pub mod Lines
use client.Base.{
  ℕ, zero, suc, ◌+◌, ◌-◌, Bool, true, false, Option, none, some, List, [], ◌∷◌, ◌++◌, ◌&&◌, ◌||◌,
  ◌==◌, leb, length, take, drop, if◌then◌else◌,
}
use client.Text.{Text}
use client.Http.{HttpState, http_data, http_closed}

pub record Buffer : Type 0 where
  -- `buffer`, of `length` bytes, and `data - buffer`
  pub text : Text
  pub at : ℕ
  pub end_ : ℕ
  pub state : HttpState
  pub close : Bool
  pub input : List Text
  -- `net_status (c) == Closed`
  pub is_closed : Bool

-- The line that ends at `c`, or the one that is found behind it, with `c`.
unfoldable pub line_at : Bool → ℕ → Text → Option (Text × Text) → Option (Text × Text)
line_at true c text found = some ([], text)
line_at false c text none = none
line_at false c text (some r) = some (c ∷ r.0, r.1)

-- The text before the first CR LF, and what follows it.
unfoldable pub scan : Text → Option (Text × Text)
scan [] = none
scan (c ∷ []) = none
scan (c ∷ d ∷ text) = line_at (c == 13 && d == 10) c text (scan (d ∷ text))

-- The result of a search for a line: the line with what follows it in the buffer, or all that was
-- read; and what the socket has still to give.
pub record Search : Type 0 where
  pub line : Option (Text × Text)
  pub read : Text
  pub input : List Text

-- The search in what the buffer has; where it fails, the next step gets what has been read.
abbrev pub search_or : Option (Text × Text) → Text → List Text → Search → Search
search_or (some r) passed input next = record {
  line = some (passed ++ r.0, r.1);
  read = [];
  input = input;
}
search_or none passed input next = next

-- The loop of `next_line`. `passed` is the text that the search has left behind: after a read it
-- goes on with what was read. `space` is what the buffer has left.
unfoldable pub search_line : Text → Text → ℕ → List Text → Search
search_line passed rest space [] =
    search_or (scan rest) passed [] (record { line = none; read = passed ++ rest; input = [] })
search_line passed rest space (chunk ∷ input) =
    let read = passed ++ rest in
    let part = take space chunk in
    let more = search_line read chunk (space - length chunk) input in
    let kept = drop space chunk ∷ input in
    let stopped : Search = record { line = none; read = read; input = chunk ∷ input } in
    let empty : Search = record { line = none; read = read; input = input } in
    let cut =
      search_or (scan part) read kept (record { line = none; read = read ++ part; input = kept }) in
    search_or (scan rest) passed (chunk ∷ input) (
      if space == 0
      then stopped
      else if length chunk == 0
      then empty
      else if leb (length chunk) space
      then more
      else cut)

-- `next_line`, with the line before `next`.
unfoldable pub next_line : Buffer → Search
next_line b = search_line [] (drop b.at b.text) (2047 - length b.text) b.input

unfoldable pub http_complete : Buffer → Bool
http_complete b = elim b.state [ http_closed ↦ true | _ ↦ leb b.end_ (length b.text) ]

-- `data` is at `n`; an end in front of `n` is taken to be 0.
unfoldable pub http_rebuffer : ℕ → Buffer → Buffer
http_rebuffer n b =
    if n == 0 then b else record b { text = drop n b.text; at = 0; end_ = b.end_ - n }

-- One read; the number of bytes, where there are any.
unfoldable pub http_read : Buffer → Option ℕ × Buffer
http_read b = elim b.input [
  | [] ↦ (none, b)
  | chunk ∷ input ↦
      let space = 2047 - length b.text in
      let left = if leb (length chunk) space then input else drop space chunk ∷ input in
      let n = length (take space chunk) in
      if n == 0
      then (none, if space == 0 then b else record b { input = input })
      else (some n, record b { text = b.text ++ take space chunk; input = left })
]

-- `HTTP_DATA` comes before `HTTP_COMPLETE`.
abbrev pub completed : Buffer → Buffer
completed b = record b { state = HttpState.http_complete }

-- The data of a message whose end is the end of the connection.
unfoldable pub data_to_close : Buffer → Text × Buffer
data_to_close b =
    let c = (http_read (if b.is_closed then completed b else b)).1 in (drop c.at c.text, c)

-- The data of a message of a known length, with as many reads as `fuel` allows; the buffer takes
-- less than 2048 of a byte or more.
unfoldable pub data_to_end : ℕ → Buffer → Text × Buffer
data_to_end zero b = (drop b.at b.text, b)
data_to_end (suc fuel) b =
    let r = http_read b in
    let more = data_to_end fuel r.1 in
    if leb b.end_ (length b.text)
    then (take (b.end_ - b.at) (drop b.at b.text), completed b)
    else if length b.text + 1 == 2048
    then (drop b.at b.text, b)
    else elim r.0 [ some _ ↦ more | none ↦ (drop b.at b.text, r.1) ]

-- None where there are no data.
unfoldable pub http_data_of : Buffer → Option (Text × Buffer)
http_data_of b = elim b.state [
  | http_data ↦ some (if b.close then data_to_close b else data_to_end 2048 b)
  | _ ↦ none
]
