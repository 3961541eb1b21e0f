-- ===== src/Http/Headers/Length.antt =====
-- The length that core/http.c writes into a header is the one that it reads there.
use client.Base.{
  ℕ, zero, suc, ◌-◌, ◌<◌, ◌^◌, ◌≡◌, refl, ◌∙◌, ap, bit_or, true, false, some, [], ◌∷◌, ◌++◌, length,
  replicate, arith, ltb, if◌then◌else◌, Bool-cases, inl, inr,
}
use client.Text.{Text, first, digit, number, number_of, string_index, to_lower}
use client.Text.Numbers.{
  decimal_int, decimal_int-small, decimal_int-negative, first-decimal, number_of-decimal,
  EndsNumber,
}
use client.Uri.{Uri}
use client.HttpParse.{hws, ows, token_colon}
use client.Http.{padded}
use client.Http.Texts
use client.Http.Headers.{Message, length_line, header_field, header_line}

ows-spaces : (k : ℕ) → ows (replicate k 32) ≡ []
unfolding ows
ows-spaces zero = refl
ows-spaces (suc k) = ows-spaces k

EndsNumber-spaces : (k : ℕ) → EndsNumber (replicate k 32)
EndsNumber-spaces zero = refl
EndsNumber-spaces (suc k) = refl

ows-digit : (t : Text) → digit (first t) ≡ true → ows t ≡ t
unfolding ows
ows-digit [] h = refl
ows-digit (c ∷ t) h = let other : hws c ≡ false = ground arith in rw other

-- What stands in the header for the length.
abbrev pub spaces : ℕ → Text
spaces n = replicate (6 - length (decimal_int n)) 32

read_length :
    (n : ℕ) (m : Message)
    → n < 2 ^ 31
    → length_line (padded n) m ≡ record m { end_ = n; content_length = some n }
unfolding length_line number
read_length n m h =
    let k = 6 - length (decimal_int n) in
    let read : number_of 32 (decimal_int n ++ replicate k 32) ≡ some (n, replicate k 32) =
      ap (λ t. number_of 32 (t ++ replicate k 32)) (decimal_int-small n h)
      ∙ number_of-decimal 32 n (replicate k 32) (omega (arith, h)) (omega (arith, h))
          (EndsNumber-spaces k) in
    rw (read, ows-spaces k, length_line) refl

no_length : (t : Text) (m : Message) → length_line (b'-' ∷ t) m ≡ record m { error = 400 }
unfolding length_line number number_of
no_length t m = refl

-- What the line of `n` makes of a message.
abbrev pub with_length : ℕ → Message → Message
with_length n m =
    if ltb n (2 ^ 31)
    then record m { header = bit_or m.header 8; end_ = n; content_length = some n }
    else record m { header = bit_or m.header 8; error = 400 }

length_line-padded :
    (n : ℕ) (m : Message)
    → length_line (ows (32 ∷ padded n)) (record m { header = bit_or m.header 8 }) ≡ with_length n m
unfolding ows
length_line-padded n m =
    let marked = record m { header = bit_or m.header 8 } in
    elim (Bool-cases (ltb n (2 ^ 31))) [
      | inl small ↦
          let h : n < 2 ^ 31 = ground arith in
          let digits : digit (first (padded n)) ≡ true =
            ap (λ t. digit (first (t ++ spaces n))) (decimal_int-small n h)
            ∙ first-decimal n (spaces n) in
          ap (λ t. length_line t marked) (ows-digit (padded n) digits)
          ∙ read_length n marked h
          ∙ rw small refl
      | inr large ↦
          ap (λ t. length_line (ows (t ++ spaces n)) marked) (decimal_int-negative n (ground arith))
          ∙ no_length _ marked
          ∙ rw large refl
    ]

-- The header line `Content-Length`, as `http_content` writes it for an `int`, padded with spaces,
-- is marked as seen. A length that is not negative is given to the message, without an error; for a
-- negative one, which is a number of 2 ^ 31 or more here, the message has the error 400.
pub header_line-content_length :
    (stale : Uri) (n : ℕ) (m : Message)
    → header_line stale (Texts.content_length_field ++ padded n) m ≡ (
        if ltb n (2 ^ 31)
        then record m { header = bit_or m.header 8; end_ = n; content_length = some n }
        else record m { header = bit_or m.header 8; error = 400 })
unfolding header_line token_colon to_lower string_index header_field
header_line-content_length stale n m = length_line-padded n m
