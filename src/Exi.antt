-- ===== src/Exi.antt =====
-- core/exi_output.c and core/exi_parse.c: the bit stream of an EXI document, within bytes.
pub mod Bits
pub mod Bytes
pub mod Groups
pub mod Header
pub mod Binary
pub mod BitField
pub mod Literal
pub mod Strings
pub mod Values
pub mod Integer
pub mod RoundTrip
mod Tests
use client.Base.{
  ℕ, zero, suc, ◌+◌, ◌-◌, ◌*◌, ◌/◌, ◌%◌, ◌^◌, bit_and, bit_or, Bool, true, false, Option, none,
  some, List, [], ◌∷◌, ◌++◌, ◌&&◌, ◌==◌, ltb, if◌then◌else◌,
}

-- The bytes before `ptr`, and the one at `ptr` with the bits of it that are written. The buffer
-- behind it is zero: `exi_output_header` clears it.
pub record Output : Type 0 where
  pub done : List ℕ
  pub last : ℕ
  pub bit : ℕ

unfoldable pub output_byte : Output → ℕ → Output
output_byte o b =
    if o.bit == 0 then record { done = o.done ++ b ∷ []; last = 0; bit = 0 } else record {
      done = o.done ++ bit_or o.last (b / 2 ^ o.bit) ∷ [];
      last = b * 2 ^ (8 - o.bit) % 2 ^ 8;
      bit = o.bit;
    }

-- A 64-bit number has at most ten groups of seven bits, and the fuel is their number.
unfoldable pub output_groups : ℕ → Output → ℕ → Output
output_groups zero o x = o
output_groups (suc fuel) o x =
    let rest = output_groups fuel (output_byte o (bit_or (x % 2 ^ 7) 0x80)) (x / 2 ^ 7) in
    if x / 2 ^ 7 == 0 then output_byte o (x % 2 ^ 7) else rest

unfoldable pub output_uint : Output → ℕ → Output
unfolding output_groups
output_uint o x = output_groups 10 o x

-- The bytes from `ptr` to `end`.
pub record Parser : Type 0 where
  pub rest : List ℕ
  pub bit : ℕ
  pub truncated : Bool

abbrev truncate : Parser → ℕ × Parser
truncate p = (0, record p { truncated = true })

parse_aligned : List ℕ → Parser → ℕ × Parser
parse_aligned [] p = truncate p
parse_aligned (b ∷ next) p = (b, record p { rest = next })

parse_across : List ℕ → Parser → ℕ × Parser
parse_across (b ∷ c ∷ next) p =
    (bit_or (b * 2 ^ p.bit % 2 ^ 8) (c / 2 ^ (8 - p.bit)), record p { rest = c ∷ next })
parse_across _ p = truncate p

unfoldable pub parse_byte : Parser → ℕ × Parser
unfolding parse_aligned parse_across
parse_byte p = if p.bit == 0 then parse_aligned p.rest p else parse_across p.rest p

-- `(b & 0x7f) << n` is computed in an `int`: it is defined where n is below 32 and the result is
-- an `int`.
unfoldable pub shift_group : ℕ → ℕ → Option ℕ
shift_group v n = if ltb n 32 && ltb (v * 2 ^ n) (2 ^ 31) then some (v * 2 ^ n) else none

-- The number and the parser behind it, or none where the shift is undefined. Ten groups are read
-- at most, which is the fuel.
unfoldable pub parse_groups : ℕ → ℕ → ℕ → Parser → Option (ℕ × Parser)
parse_groups zero x n p = some (x, p)
parse_groups (suc fuel) x n p =
    let r = parse_byte p in
    elim (shift_group (r.0 % 2 ^ 7) n) [
      | none ↦ none
      | some v ↦ elim (r.1.truncated) [
        | true ↦ some (bit_or x v, r.1)
        | false ↦ elim (bit_and r.0 0x80 == 0) [
          | true ↦ some (bit_or x v, r.1)
          | false ↦ parse_groups fuel (bit_or x v) (n + 7) r.1
        ]
      ]
    ]

unfoldable pub parse_uint : Parser → Option (ℕ × Parser)
unfolding parse_groups
parse_uint p = parse_groups 10 0 0 p
