-- ===== src/Query/RoundTrip.antt =====
-- The server's parser reads the query that the client writes.
use client.Base.{
  ℕ, ◌+◌, ◌-◌, ◌*◌, ◌%◌, ◌^◌, ◌≤◌, ◌<◌, ◌≡◌, refl, sym, ◌∙◌, ap, true, false, some, [], ◌∷◌, ◌++◌,
  ◌==◌, ltb, if◌then◌else◌, arith, Bool-cases, inl, inr, append-nil, length, length-append, ==_iff,
}
use client.Text.{Text, digit, first, digits_loop}
use client.Text.Numbers.{
  decimal, decimal_int, decimal_int-small, decimal_int-negative, length-decimal, length-decimal_int,
  EndsNumber, digits-decimal, first-decimal,
}
use client.Query.{
  Query, first_digit, digits, Registers, Outcome, accept, reject, store, query_loop, parse_query,
  asked, seq_query, get_seq,
}

digits-step :
    (r : Registers) (c : ℕ) (t : Text)
    → digit c ≡ true
    → query_loop digits r (c ∷ t)
      ≡ query_loop digits (record r { x = (r.x * 10 + (c - b'0')) % 2 ^ 64 }) t
unfolding query_loop
digits-step r c t e = ground arith

-- The digits of a value are read as `number64` reads them.
digits-loop :
    (r : Registers) (t : Text)
    → query_loop digits r t
      ≡ query_loop digits (record r { x = (digits_loop 64 r.x t).0 }) (digits_loop 64 r.x t).1
unfolding digits_loop
digits-loop r [] = refl
digits-loop r (c ∷ t) = elim (Bool-cases (digit c)) [
  | inl e ↦
      rw e (digits-step r c t e ∙ digits-loop (record r { x = (r.x * 10 + (c - b'0')) % 2 ^ 64 }) t)
  | inr e ↦ rw e
]

first-step :
    (r : Registers) (c : ℕ) (t : Text)
    → digit c ≡ true
    → query_loop first_digit r (c ∷ t) ≡ query_loop digits (record r { x = c - b'0' }) t
unfolding query_loop
first-step r c t e = rw e

first-digits :
    (r : Registers) (t : Text)
    → digit (first t) ≡ true
    → query_loop first_digit r t ≡ query_loop digits (record r { x = 0 }) t
first-digits r [] e = cc
first-digits r (c ∷ t) e =
    let small : c - b'0' ≡ (0 * 10 + (c - b'0')) % 2 ^ 64 = ground arith in
    first-step r c t e
    ∙ ap (λ v. query_loop digits (record r { x = v }) t) small
    ∙ sym (digits-step (record r { x = 0 }) c t e)

value-decimal :
    (r : Registers) (n : ℕ) (rest : Text)
    → n < 2 ^ 64
    → EndsNumber rest
    → query_loop first_digit r (decimal n ++ rest) ≡ query_loop digits (record r { x = n }) rest
value-decimal r n rest h e =
    first-digits r (decimal n ++ rest) (first-decimal n rest)
    ∙ digits-loop (record r { x = 0 }) (decimal n ++ rest)
    ∙ ap (λ t. query_loop digits (record r { x = t.0 }) t.1) (digits-decimal 64 n rest h h e)

limit-read :
    (r : Registers) (n : ℕ)
    → n ≤ 255
    → query_loop first_digit (record r { p = b'l' }) (decimal n)
      ≡ accept (record r.query { limit = n })
unfolding query_loop store
limit-read r n h =
    let small : n % 2 ^ 8 ≡ n = omega arith in
    ap (query_loop first_digit (record r { p = b'l' })) (sym (append-nil (decimal n)))
    ∙ value-decimal (record r { p = b'l' }) n [] (omega arith) refl
    ∙ rw small

start-read :
    (r : Registers) (n : ℕ) (t : Text)
    → n < 2 ^ 64
    → query_loop first_digit (record r { p = b's' }) (decimal n ++ b'&' ∷ b'l' ∷ b'=' ∷ t)
      ≡ query_loop first_digit
          (record { query = record r.query { start = n % 2 ^ 16 }; p = b'l'; x = n })
          t
unfolding query_loop store
start-read r n t h = value-decimal (record r { p = b's' }) n (b'&' ∷ b'l' ∷ b'=' ∷ t) h refl

abbrev initial : Registers
initial = record { query = record { after = 0; start = 0; limit = 1 }; p = 0; x = 0 }

-- A value of 2 ^ 31 or more is printed with a sign, which is no digit.
sign-refused : (r : Registers) (t : Text) → query_loop first_digit r (b'-' ∷ t) ≡ reject
unfolding query_loop
sign-refused r t = refl

-- What the parser makes of the limit of `count`.
abbrev pub limit_outcome : ℕ → ℕ → Outcome
limit_outcome offset count =
    if ltb count (2 ^ 31)
    then accept (record {
      after = 0;
      start = offset % 2 ^ 16;
      limit = if ltb 255 count then 255 else count;
    })
    else reject

limit-outcome :
    (r : Registers) (offset count : ℕ)
    → r.query ≡ record { after = 0; start = offset % 2 ^ 16; limit = 1 }
    → query_loop first_digit (record r { p = b'l' }) (decimal_int (asked count))
      ≡ limit_outcome offset count
limit-outcome r offset count e = elim (Bool-cases (ltb count (2 ^ 31))) [
  | inl small ↦
      let m = if ltb 255 count then 255 else count in
      let same : asked count ≡ m = ground arith in
      let octet : m ≤ 255 = ground arith in
      ap (λ v. query_loop first_digit (record r { p = b'l' }) (decimal_int v)) same
      ∙ ap (query_loop first_digit (record r { p = b'l' }))
          (decimal_int-small m (omega (arith, octet)))
      ∙ limit-read r m octet
      ∙ ap (λ v. accept (record v { limit = m })) e
      ∙ rw small refl
  | inr large ↦
      let same : asked count ≡ count = ground arith in
      ap (λ v. query_loop first_digit (record r { p = b'l' }) (decimal_int v)) same
      ∙ ap (query_loop first_digit (record r { p = b'l' }))
          (decimal_int-negative count (ground arith))
      ∙ sign-refused (record r { p = b'l' }) (decimal (2 ^ 32 - count))
      ∙ rw large refl
]

read-query :
    (q : Query) (offset count : ℕ)
    → offset < 2 ^ 31
    → parse_query q (some (seq_query offset count)) ≡ limit_outcome offset count
unfolding parse_query seq_query query_loop
read-query q offset count h = elim (Bool-cases (offset == 0)) [
  | inl e ↦
      let nothing : offset ≡ 0 = (==_iff _ _).0 e in rw nothing (limit-outcome initial 0 count refl)
  | inr e ↦
      rw (e, decimal_int-small offset h)
        (start-read initial offset (decimal_int (asked count)) (omega arith)
          ∙ limit-outcome
              (record {
                query = record { after = 0; start = offset % 2 ^ 16; limit = 1 };
                p = b'l';
                x = offset;
              })
              offset count refl)
]

length-limit : (count : ℕ) → count < 2 ^ 32 → length (b'l' ∷ b'=' ∷ decimal_int (asked count)) ≤ 13
length-limit count h =
    let below : asked count < 2 ^ 32 = ground arith in
    omega (arith, length-decimal_int (asked count) below)

length-seq_query :
    (offset count : ℕ) → offset < 2 ^ 31 → count < 2 ^ 32 → length (seq_query offset count) ≤ 26
unfolding seq_query
length-seq_query offset count h k = elim (Bool-cases (offset == 0)) [
  | inl e ↦ rw e (omega (arith, length-limit count k))
  | inr e ↦
      let limit = b'l' ∷ b'=' ∷ decimal_int (asked count) in
      rw (e, decimal_int-small offset h)
        (omega (
          arith,
          length-append (decimal offset) (b'&' ∷ limit),
          length-decimal offset (omega (arith, h)),
          length-limit count k,
        ))
]

-- The URI that `get_seq` makes of a name of 36 bytes at most and a count that is not 0 fits its
-- buffer, and has the query behind the name. The query is accepted where the count is not negative:
-- the start is the offset modulo 2 ^ 16, the limit is the count, 255 at most, and there is no time;
-- for a negative count, of 2 ^ 31 or more as a `uint32_t`, it is refused.
pub parse_query-get_seq :
    (q : Query) (resource : Text) (offset count : ℕ)
    → length resource ≤ 36
    → offset < 2 ^ 31
    → 1 ≤ count
    → count < 2 ^ 32
    → (get_seq resource offset count ≡ some (resource ++ b'?' ∷ seq_query offset count))
      × (parse_query q (some (seq_query offset count)) ≡ (
          if ltb count (2 ^ 31)
          then accept (record {
            after = 0;
            start = offset % 2 ^ 16;
            limit = if ltb 255 count then 255 else count;
          })
          else reject))
unfolding get_seq
parse_query-get_seq q resource offset count short h some_items k =
    let uri = resource ++ b'?' ∷ seq_query offset count in
    let fits : ltb (length uri) 64 ≡ true = ground (
      arith,
      length-append resource (b'?' ∷ seq_query offset count),
      length-seq_query offset count h k,
    ) in
    let not_zero : (count == 0) ≡ false = ground arith in
    (rw (not_zero, fits) refl, read-query q offset count h)
