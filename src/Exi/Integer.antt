-- ===== src/Exi/Integer.antt =====
-- Bits and signed integers of core/exi_output.c and core/exi_parse.c.
pub mod SignBit
use client.Base.{
  ℕ, zero, suc, ◌+◌, ◌-◌, ◌*◌, ◌/◌, ◌%◌, ◌^◌, bit_or, Bool, true, false, Option, none, some, List,
  [], ◌∷◌, ◌++◌, ◌==◌, if◌then◌else◌,
}
use client.Base.Int.{ℤ, pos, negsuc}
use client.Exi.{Output, output_uint, Parser, parse_uint}

unfoldable pub output_bit : Output → ℕ → Output
output_bit o bit =
    if o.bit == 7
    then record { done = o.done ++ bit_or o.last bit ∷ []; last = 0; bit = 0 }
    else record { done = o.done; last = bit_or o.last (bit * 2 ^ (7 - o.bit)); bit = o.bit + 1 }

unfoldable pub bit_of : List ℕ → Parser → ℕ × Parser
bit_of [] p = (0, record p { truncated = true })
bit_of (b ∷ next) p = (
  b / 2 ^ (7 - p.bit) % 2,
  if p.bit + 1 == 8 then record p { rest = next; bit = 0 } else record p { bit = p.bit + 1 },
)

unfoldable pub parse_bit : Parser → ℕ × Parser
unfolding bit_of
parse_bit p = bit_of p.rest p

abbrev pub is_negative : ℤ → ℕ
is_negative (pos n) = 0
is_negative (negsuc n) = 1

abbrev pub magnitude : ℤ → ℕ
magnitude (pos n) = n
magnitude (negsuc n) = suc n

unfoldable pub output_integer : Output → ℤ → Output
output_integer o x = output_uint (output_bit o (is_negative x)) (magnitude x)

-- `sign? -x : x`
abbrev pub with_sign : ℕ → ℕ → ℤ
with_sign sign zero = pos zero
with_sign sign (suc n) = if sign == 0 then pos (suc n) else negsuc n

-- A truncated number leaves the parser where it was.
unfoldable pub restore : Parser → Parser → Parser
restore p r = if r.truncated then record r { rest = p.rest; bit = p.bit } else r

unfoldable pub parse_integer : Parser → Option (ℤ × Parser)
parse_integer p =
    let s = parse_bit p in
    elim (parse_uint s.1) [ none ↦ none | some r ↦ some (with_sign s.0 r.0, restore p r.1) ]
