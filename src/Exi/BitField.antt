-- ===== src/Exi/BitField.antt =====
-- Bit fields of core/exi_output.c and core/exi_parse.c: `output_bits` and `parse_bits`.
pub mod Fields
pub mod Written
pub mod Window
pub mod RoundTrip
use client.Base.{
  ℕ, zero, suc, ◌+◌, ◌-◌, ◌*◌, ◌/◌, ◌%◌, ◌^◌, bit_or, Bool, true, List, [], ◌∷◌, ◌++◌, ◌==◌, ltb,
  if◌then◌else◌, drop, length, get_or,
}
use client.Exi.{Output, Parser}

-- What the loop puts into the `i` bytes before the last one, the lowest last.
unfoldable pub high_bytes : ℕ → ℕ → List ℕ
high_bytes zero bits = []
high_bytes (suc i) bits = high_bytes i (bits / 2 ^ 8) ++ bits % 2 ^ 8 ∷ []

-- The byte at `ptr` holds bits already, and the others are zero before.
abbrev pub merge : ℕ → List ℕ → List ℕ
merge last [] = []
merge last (b ∷ bytes) = bit_or last b ∷ bytes

abbrev pub output_bits_to : Output → List ℕ → ℕ → ℕ → Output
output_bits_to o [] low m = record { done = o.done; last = bit_or o.last low; bit = m }
output_bits_to o (b ∷ bytes) low m = record {
  done = o.done ++ bit_or o.last b ∷ bytes;
  last = low;
  bit = m;
}

unfoldable pub output_bits : Output → ℕ → ℕ → Output
unfolding high_bytes
output_bits o bits n =
    let m = (o.bit + n) % 8 in
    let i = (o.bit + n) / 8 in
    output_bits_to o (high_bytes i (bits / 2 ^ m)) (bits * 2 ^ (8 - m) % 2 ^ 8) m

-- `while (bytes--) bits = (bits << 8) | *(++p->ptr);`, with `past` for a byte behind the data, which
-- is read where the last bit of the field is the last one of the data.
unfoldable pub gather : ℕ → ℕ → List ℕ → ℕ → ℕ
gather zero bits rest past = bits
gather (suc bytes) bits [] past = gather bytes (bit_or (bits * 2 ^ 8 % 2 ^ 32) past) [] past
gather (suc bytes) bits (b ∷ rest) past = gather bytes (bit_or (bits * 2 ^ 8 % 2 ^ 32) b) rest past

unfoldable pub parse_bits : ℕ → Parser → ℕ → ℕ × Parser
unfolding gather
parse_bits past p n =
    let bit = (p.bit + n) % 8 in
    let bytes = (p.bit + n) / 8 in
    if ltb (length p.rest) (if bit == 0 then bytes else bytes + 1)
    then (0, record p { truncated = true })
    else (
      gather bytes (get_or p.rest 0 past) (drop 1 p.rest) past / 2 ^ (8 - bit) % 2 ^ n,
      record p { rest = drop bytes p.rest; bit = bit },
    )
