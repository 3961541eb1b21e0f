-- ===== src/Xml/Hexadecimal.antt =====
-- Hexadecimal data are read back as they were written.
use client.Base.{
  ℕ, zero, suc, ◌+◌, ◌-◌, ◌*◌, ◌/◌, ◌%◌, ◌^◌, ◌≤◌, ◌<◌, ◌≡◌, refl, sym, ap, Bool, true, false, some,
  List, [], ◌∷◌, ◌++◌, ◌==◌, leb, ltb, length, arith, All, Bool-cases, inl, inr,
}
use client.Text.{Text, trim}
use client.Xml.{hex_digit}
use client.Xml.Output.{Buffer}
use client.Xml.Hex.{hex_char, hex_chars, output_hex, hex_bytes, parse_hex}
use client.Exi.Binary.{strip_zeros}
use client.Exi.Binary.RoundTrip.{
  IsByte, strip_zeros-replicate, strip_zeros-IsByte, strip_zeros-nonempty,
}

hex_digit-hex_char : (x : ℕ) → x < 16 → hex_digit (hex_char x) ≡ some x
unfolding hex_digit
hex_digit-hex_char x h = ground arith

hex_bytes-hex_chars :
    (n : ℕ) (v : List ℕ) → length v ≤ n → All IsByte v → hex_bytes n (hex_chars v) ≡ some (v, [])
unfolding hex_bytes
hex_bytes-hex_chars n [] l h = refl
hex_bytes-hex_chars zero (x ∷ v) l h = absurd (omega arith)
hex_bytes-hex_chars (suc n) (x ∷ v) l h =
    let high = hex_digit-hex_char (x / 2 ^ 4) (omega (arith, h.0)) in
    let low = hex_digit-hex_char (x % 2 ^ 4) (omega arith) in
    let byte : x / 2 ^ 4 * 2 ^ 4 + x % 2 ^ 4 ≡ x = omega arith in
    rw (high, low, hex_bytes) (rw (hex_bytes-hex_chars n v (omega arith) h.1, byte))

length-hex_chars : (v : List ℕ) → length (hex_chars v) ≡ length v * 2
length-hex_chars [] = omega arith
length-hex_chars (x ∷ v) = omega (arith, length-hex_chars v)

parse_hex-hex_chars :
    (v : List ℕ)
    → 1 ≤ length v
    → All IsByte v
    → parse_hex (length v) (hex_chars (strip_zeros v)) ≡ some v
unfolding parse_hex trim
parse_hex-hex_chars v ne h =
    let s = strip_zeros v in
    let (k, same, sum) = strip_zeros-replicate v in
    let read = hex_bytes-hex_chars (length v) s (omega (arith, sum)) (strip_zeros-IsByte v h) in
    let some_byte : (length s == 0) ≡ false = ground (arith, strip_zeros-nonempty v ne) in
    let zeros : length v - length s ≡ k = omega (arith, sum) in
    rw (read, parse_hex) (rw (some_byte, zeros) (ap some (sym same)))

-- What `output_hex` returns, with the space and without it.
abbrev pub Wrote : Bool → Buffer → List ℕ → Buffer × Bool → Type 0
Wrote true o v r =
    (digits : Text) × (r ≡ (record { out = o.out ++ digits; room = o.room - length digits }, true))
    × (length digits ≡ length (strip_zeros v) * 2)
    × (parse_hex (length v) digits ≡ some v)
Wrote false o v r = r ≡ (o, false)

-- `output_hex` writes a field of one byte or more where the buffer has the space for two digits for
-- each byte behind the zeros at the front and for one byte more, and else it writes nothing and
-- returns 0. What it writes are those digits, which `parse_hex` reads back into a field of the
-- same length as its bytes, with the zeros at the front.
pub parse_hex-output_hex :
    (o : Buffer) (v : List ℕ)
    → 1 ≤ length v
    → All IsByte v
    → Wrote (ltb (length (strip_zeros v) * 2) o.room) o v (output_hex o v)
unfolding output_hex
parse_hex-output_hex o v ne h = elim (Bool-cases (leb o.room (length (strip_zeros v) * 2))) [
  | inl full ↦
      let no_space : ltb (length (strip_zeros v) * 2) o.room ≡ false = ground arith in
      rw (full, no_space) refl
  | inr space ↦
      let fits : ltb (length (strip_zeros v) * 2) o.room ≡ true = ground arith in
      let digits = length-hex_chars (strip_zeros v) in
      rw (space, fits)
        (
          hex_chars (strip_zeros v),
          ap (λ n. (record { out = o.out ++ hex_chars (strip_zeros v); room = o.room - n }, true))
              (sym digits),
          digits,
          parse_hex-hex_chars v ne h,
        )
]
