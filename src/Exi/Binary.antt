-- ===== src/Exi/Binary.antt =====
-- Binary data of core/exi_output.c and core/exi_parse.c: a length and the bytes, without the zeros
-- at the front.
pub mod RoundTrip
use client.Base.{
  ℕ, zero, suc, ◌+◌, ◌-◌, Bool, true, false, Option, none, some, List, [], ◌∷◌, ◌++◌, ◌==◌, ltb,
  if◌then◌else◌, take, length,
}
use client.Exi.{Output, output_byte, output_uint, Parser, parse_byte, parse_uint}

-- What a parser function returns: 1 with what it stored, 0 where the data end, 0 with the state
-- PARSE_INVALID, or nothing that C defines.
pub data Outcome {ℓ} (A : Type ℓ) : Type ℓ where
  value : A → Parser → Outcome A
  truncated : Parser → Outcome A
  invalid : Parser → Outcome A
  undefined : Outcome A

-- `while (n > 1 && *b == 0) n--, b++;`
unfoldable pub strip_zeros : List ℕ → List ℕ
strip_zeros [] = []
strip_zeros (b ∷ []) = b ∷ []
strip_zeros (b ∷ c ∷ rest) = if b == 0 then strip_zeros (c ∷ rest) else b ∷ c ∷ rest

unfoldable pub output_bytes : Output → List ℕ → Output
output_bytes o [] = o
output_bytes o (b ∷ rest) = output_bytes (output_byte o b) rest

-- `size` is the length of the buffer, `end - buffer`.
unfoldable pub output_binary : ℕ → Output → List ℕ → Output × Bool
unfolding strip_zeros output_bytes
output_binary size o bytes =
    let b = strip_zeros bytes in
    let o' = output_uint o (length b) in
    if ltb size (length o'.done + length b + 1) then (o', false) else (output_bytes o' b, true)

unfoldable pub parse_bytes : ℕ → Parser → List ℕ × Parser
parse_bytes zero p = ([], p)
parse_bytes (suc m) p =
    let r = parse_byte p in let rest = parse_bytes m r.1 in (r.0 ∷ rest.0, rest.1)

-- The bytes of the field are `old` before, and those past the ones read stay.
parse_binary_bytes : List ℕ → ℕ → Parser → Outcome (List ℕ)
parse_binary_bytes old m p =
    if ltb (length p.rest) (if p.bit == 0 then m else m + 1)
    then truncated (record p { truncated = true })
    else let r = parse_bytes m p in value (take (length old - m) old ++ r.0) r.1

parse_binary_length : List ℕ → Option (ℕ × Parser) → Outcome (List ℕ)
parse_binary_length old none = undefined
parse_binary_length old (some (m, p)) =
    if p.truncated
    then truncated p
    else if ltb (length old) m
    then invalid p
    else parse_binary_bytes old m p

unfoldable pub parse_binary : Parser → List ℕ → Outcome (List ℕ)
unfolding parse_binary_length parse_binary_bytes parse_bytes
parse_binary p old = parse_binary_length old (parse_uint p)
