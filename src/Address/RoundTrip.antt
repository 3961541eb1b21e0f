-- ===== src/Address/RoundTrip.antt =====
-- An IPv4 address that is written is read back.
use client.Base.{
  ℕ, suc, ◌+◌, ◌*◌, ◌/◌, ◌%◌, ◌^◌, ◌<◌, ◌≡◌, refl, ◌∙◌, ap, bit_or, true, false, some, ◌∷◌, ◌++◌,
  ◌==◌, arith, append_assoc,
}
use client.Base.Bits.{bit_or_comm, bit_or-shifted}
use client.Text.{Text, number}
use client.Text.Numbers.{decimal, EndsNumber, number_of-decimal}
use client.Address.{ipv4_loop, ipv4_octet, ipv4_point, parse_ipv4, write_ipv4, is_octet}

read_octet :
    (y : ℕ) (rest : Text) → y < 256 → EndsNumber rest → number (decimal y ++ rest) ≡ some (y, rest)
unfolding number
read_octet y rest h e = number_of-decimal 32 y rest (omega arith) (omega arith) e

join_octet : (x y : ℕ) → y < 256 → x < 2 ^ 24 → bit_or (x * 256 % 2 ^ 32) y ≡ x * 256 + y
join_octet x y h k =
    let whole : x * 256 % 2 ^ 32 ≡ x * 2 ^ 8 = omega arith in
    ap (λ a. bit_or a y) whole ∙ bit_or_comm (x * 2 ^ 8) y ∙ bit_or-shifted 8 y x h ∙ omega arith

octet : (y : ℕ) → y < 256 → is_octet y ≡ true
octet y h = ground arith

-- One octet of an address, with the point behind it.
ipv4-step :
    (n x y : ℕ) (rest : Text)
    → y < 256
    → x < 2 ^ 24
    → ipv4_loop (suc (suc n)) x (decimal y ++ b'.' ∷ rest) ≡ ipv4_loop (suc n) (x * 256 + y) rest
unfolding ipv4_loop
ipv4-step n x y rest h k =
    let more : (suc n == 0) ≡ false = ground arith in
    rw (more, read_octet y (b'.' ∷ rest) h refl)
      (unfold ipv4_octet in (rw (octet y h, join_octet x y h k) (unfold ipv4_point in refl)))

ipv4-last :
    (x y : ℕ) (rest : Text)
    → y < 256
    → x < 2 ^ 24
    → EndsNumber rest
    → ipv4_loop 1 x (decimal y ++ rest) ≡ some (x * 256 + y, rest)
unfolding ipv4_loop
ipv4-last x y rest h k e =
    rw (read_octet y rest h e)
      (unfold ipv4_octet in (rw (octet y h, join_octet x y h k) (unfold ipv4_point in refl)))

written :
    (a b c d : ℕ) (rest : Text)
    → a < 256
    → b < 256
    → c < 256
    → d < 256
    → EndsNumber rest
    → ipv4_loop 4 0
        (decimal a ++ b'.' ∷ (decimal b ++ b'.' ∷ (decimal c ++ b'.' ∷ (decimal d ++ rest))))
      ≡ some ((((0 * 256 + a) * 256 + b) * 256 + c) * 256 + d, rest)
written a b c d rest ha hb hc hd e =
    ipv4-step 2 0 a _ ha (omega arith)
    ∙ ipv4-step 1 (0 * 256 + a) b _ hb (omega arith)
    ∙ ipv4-step 0 ((0 * 256 + a) * 256 + b) c _ hc (omega arith)
    ∙ ipv4-last (((0 * 256 + a) * 256 + b) * 256 + c) d rest hd (omega arith) e

joined :
    (a b c d : ℕ) (rest : Text)
    → (decimal a ++ b'.' ∷ (decimal b ++ b'.' ∷ (decimal c ++ b'.' ∷ decimal d))) ++ rest
      ≡ decimal a ++ b'.' ∷ (decimal b ++ b'.' ∷ (decimal c ++ b'.' ∷ (decimal d ++ rest)))
joined a b c d rest = simp append_assoc

-- An IPv4 address that `write_ipv4` has written is read back by `parse_ipv4`, with what follows it,
-- unless that begins with a digit.
pub parse_ipv4-write_ipv4 :
    (addr : ℕ) (rest : Text)
    → addr < 2 ^ 32
    → EndsNumber rest
    → parse_ipv4 (write_ipv4 addr ++ rest) ≡ some (addr, rest)
unfolding parse_ipv4 write_ipv4
parse_ipv4-write_ipv4 addr rest h e =
    let a = addr / 2 ^ 24 % 256 in
    let b = addr / 2 ^ 16 % 256 in
    let c = addr / 2 ^ 8 % 256 in
    let d = addr % 256 in
    let whole : (((0 * 256 + a) * 256 + b) * 256 + c) * 256 + d ≡ addr = omega arith in
    ap (ipv4_loop 4 0) (joined a b c d rest)
    ∙ written a b c d rest (omega arith) (omega arith) (omega arith) (omega arith) e
    ∙ ap (λ x. some (x, rest)) whole
