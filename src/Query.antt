-- ===== src/Query.antt =====
-- core/query.c, the parser of the query of a list resource, and `get_seq` of core/retrieve.c, which
-- writes one.
pub mod RoundTrip
mod Tests
use client.Base.{
  ℕ, ◌+◌, ◌-◌, ◌*◌, ◌%◌, ◌^◌, ◌&&◌, ◌||◌, Bool, true, false, Option, none, some, List, [], ◌∷◌,
  ◌++◌, ◌==◌, ltb, leb, length, if◌then◌else◌,
}
use client.Text.{Text, digit}
use client.Text.Numbers.{decimal_int}

pub record Query : Type 0 where
  pub after : ℕ
  pub start : ℕ
  pub limit : ℕ

-- The states 0 to 4 of the loop.
pub data State : Type 0 where
  start name equals first_digit digits : State

-- The variables of the loop: the query, the name of the parameter and its value.
pub record Registers : Type 0 where
  pub query : Query
  pub p : ℕ
  pub x : ℕ

-- The return value 0, or 1 with the query, or a read behind the end of the text.
pub data Outcome : Type 0 where
  reject : Outcome
  accept : Query → Outcome
  overrun : Outcome

-- `int64_t after`, `uint16_t start` and `uint8_t limit`.
unfoldable pub store : Registers → Option Query
store r =
    if r.p == b'a'
    then some (record r.query { after = r.x })
    else if r.p == b'l'
    then some (record r.query { limit = r.x % 2 ^ 8 })
    else if r.p == b's'
    then some (record r.query { start = r.x % 2 ^ 16 })
    else none

-- Behind a `&` the loop is in state 1, which does not test for the end.
unfoldable pub query_loop : State → Registers → Text → Outcome
query_loop start r [] = accept r.query
query_loop start r (c ∷ t) = query_loop equals (record r { p = c }) t
query_loop name r [] = overrun
query_loop name r (c ∷ t) = query_loop equals (record r { p = c }) t
query_loop equals r [] = reject
query_loop equals r (c ∷ t) = if c == b'=' then query_loop first_digit r t else reject
query_loop first_digit r [] = reject
query_loop first_digit r (c ∷ t) =
    if digit c then query_loop digits (record r { x = c - b'0' }) t else reject
query_loop digits r [] = elim (store r) [ none ↦ reject | some q ↦ accept q ]
query_loop digits r (c ∷ t) = elim (c == b'&') [
  | true ↦ elim (store r) [ none ↦ reject | some q ↦ query_loop name (record r { query = q }) t ]
  | false ↦ elim (digit c) [
    | true ↦ query_loop digits (record r { x = (r.x * 10 + (c - b'0')) % 2 ^ 64 }) t
    | false ↦ reject
  ]
]

-- A null query leaves `q` as it is.
unfoldable pub parse_query : Query → Option Text → Outcome
parse_query q none = accept q
parse_query q (some text) =
    query_loop start (record { query = record { after = 0; start = 0; limit = 1 }; p = 0; x = 0 })
      text

-- `if (count > 255) count = 255;` of an `int` that is given by its 32 bits.
abbrev pub asked : ℕ → ℕ
asked count = if ltb 255 count && ltb count (2 ^ 31) then 255 else count

-- The query that `get_seq` appends to the name.
unfoldable pub seq_query : ℕ → ℕ → Text
seq_query offset count =
    let limit = b'l' ∷ b'=' ∷ decimal_int (asked count) in
    if offset == 0 then limit else b's' ∷ b'=' ∷ (decimal_int offset ++ b'&' ∷ limit)

-- The URI that `get_seq` gives to `http_get`, or none where it is written behind its 64 bytes. The
-- offset and the count are given by their 32 bits.
unfoldable pub get_seq : Text → ℕ → ℕ → Option Text
unfolding seq_query
get_seq resource offset count =
    let uri = resource ++ b'?' ∷ seq_query offset count in
    if count == 0 then some resource else if ltb (length uri) 64 then some uri else none
