-- ===== src/Address.antt =====
-- core/address.c: IPv4 and IPv6 addresses are read and written. The addresses of sockets are those
-- of core/bsd.c, with the host number and the port.

pub mod RoundTrip
pub mod Trailing
mod Tests
use client.Base.{
  ℕ, zero, suc, ◌+◌, ◌-◌, ◌*◌, ◌/◌, ◌%◌, ◌^◌, bit_or, Bool, true, false, Option, none, some, List,
  [], ◌∷◌, ◌++◌, ◌&&◌, ◌||◌, ◌==◌, ltb, leb, length, replicate, get_or, if◌then◌else◌,
}
use client.Text.{Text, in_range, number}
use client.Text.Numbers.{decimal}

pub data Address : Type 0 where
  ipv4 : ℕ → ℕ → Address
  ipv6 : List ℕ → ℕ → Address

-- The value of a hexadecimal digit.
unfoldable pub hex4 : ℕ → Option ℕ
hex4 c =
    if in_range c b'0' b'9'
    then some (c - b'0')
    else if in_range c b'a' b'f'
    then some (c - b'a' + 10)
    else if in_range c b'A' b'F'
    then some (c - b'A' + 10)
    else none

-- The loop of `hex16`, with the digits that it may still read: the value, and what follows.
unfoldable pub hex16_loop : ℕ → ℕ → Text → ℕ × Text
hex16_loop zero x text = (x, text)
hex16_loop (suc n) x [] = (x, [])
hex16_loop (suc n) x (c ∷ text) = elim (hex4 c) [
  | none ↦ (x, c ∷ text)
  | some y ↦ hex16_loop n (x * 16 + y) text
]

-- Up to four digits, and one at least.
unfoldable pub hex16 : Text → Option (ℕ × Text)
unfolding hex16_loop
hex16 [] = none
hex16 (c ∷ text) = elim (hex4 c) [ none ↦ none | some y ↦ some (hex16_loop 3 y text) ]

unfoldable pub ipv6_input : ℕ → ℕ
ipv6_input c = if c == b':' then 0 else if c == b']' then 1 else 2

-- The table `ipv6_state`.
abbrev pub ipv6_state : List ℕ
ipv6_state = 1 ∷ 7 ∷ 5 ∷ 2 ∷ 7 ∷ 7 ∷ 7 ∷ 8 ∷ 3 ∷ 4 ∷ 8 ∷ 7 ∷ 7 ∷ 7 ∷ 3 ∷ 6 ∷ 9 ∷ 7 ∷ 2 ∷ 7 ∷ 5 ∷ []

-- What `parse_ipv6` returns: null, or the bytes with what follows; `overflow` is a write behind the
-- 16 bytes of the buffer.
pub data Parsed : Type 0 where
  fail : Parsed
  overflow : Parsed
  done : List ℕ → Text → Parsed

-- The bytes before the gap and behind it, and whether there is a gap.
pub record Groups : Type 0 where
  pub before : List ℕ
  pub gap : Bool
  pub after : List ℕ

abbrev pub count : Groups → ℕ
count g = (length g.before + length g.after) / 2

abbrev pub add_group : Groups → ℕ → Groups
add_group g x =
    let bytes = (x / 256) ∷ (x % 256) ∷ [] in
    if g.gap then record g { after = g.after ++ bytes } else record g { before = g.before ++ bytes }

abbrev pub filled : Groups → List ℕ
filled g = g.before ++ replicate (16 - 2 * count g) 0 ++ g.after

-- The loop of `parse_ipv6`; `skip` is the number of characters that `hex16` has read already.
unfoldable pub ipv6_loop : ℕ → ℕ → Groups → Text → Parsed
ipv6_loop skip state g [] = fail
ipv6_loop (suc skip) state g (c ∷ text) = ipv6_loop skip state g text
ipv6_loop zero state g (c ∷ text) =
    let next = get_or ipv6_state (state * 3 + ipv6_input c) 7 in
    let group : Option (ℕ × Text) = hex16 (c ∷ text) in
    elim (next == 3 || next == 5) [
      | true ↦ elim group [
        | none ↦ fail
        | some h ↦
            let rest = ipv6_loop (length text - length h.1) next (add_group g h.0) text in
            if leb 8 (count g) then overflow else rest
      ]
      | false ↦
          let rest = ipv6_loop 0 next (if next == 2 then record g { gap = true } else g) text in
          if next == 7
          then fail
          else if next == 8
          then done (filled g) text
          else if next == 9
          then if count g == 8 then done (filled g) text else fail
          else if next == 4 && count g == 6
          then fail
          else if next == 6 && count g == 8
          then fail
          else rest
    ]

unfoldable pub parse_ipv6 : Text → Parsed
unfolding ipv6_loop
parse_ipv6 [] = fail
parse_ipv6 (c ∷ text) =
    if c == b'[' then ipv6_loop 0 0 (record { before = []; gap = false; after = [] }) text else fail

-- `y <= 255` of an `int`: a value that has wrapped below zero passes.
abbrev pub is_octet : ℕ → Bool
is_octet y = leb y 255 || leb (2 ^ 31) y

-- Behind an octet: the end of the address, or a point and the rest.
unfoldable pub ipv4_point : Bool → (ℕ → Text → Option (ℕ × Text)) → ℕ → Text → Option (ℕ × Text)
ipv4_point true rest x text = some (x, text)
ipv4_point false rest x [] = none
ipv4_point false rest x (c ∷ text) = if c == b'.' then rest x text else none

unfoldable pub ipv4_octet :
    Bool → (ℕ → Text → Option (ℕ × Text)) → ℕ → Option (ℕ × Text) → Option (ℕ × Text)
ipv4_octet last rest x none = none
ipv4_octet last rest x (some a) =
    if is_octet a.0 then ipv4_point last rest (bit_or (x * 256 % 2 ^ 32) a.0) a.1 else none

-- The loop, with the number of octets that are still to be read.
unfoldable pub ipv4_loop : ℕ → ℕ → Text → Option (ℕ × Text)
ipv4_loop zero x text = some (x, text)
ipv4_loop (suc n) x text = ipv4_octet (n == 0) (ipv4_loop n) x (number text)

unfoldable pub parse_ipv4 : Text → Option (ℕ × Text)
unfolding ipv4_loop
parse_ipv4 text = ipv4_loop 4 0 text

-- None where the source returns null; nothing is said of an overflow. The port of an address is a
-- `uint16_t`.
unfoldable pub parse_address : ℕ → Text → Option (Address × Text)
parse_address port text = elim (parse_ipv6 text) [
  | done bytes rest ↦ some (ipv6 bytes (port % 2 ^ 16), rest)
  | _ ↦ elim (parse_ipv4 text) [ none ↦ none | some a ↦ some (ipv4 a.0 (port % 2 ^ 16), a.1) ]
]

unfoldable pub write_ipv4 : ℕ → Text
write_ipv4 addr =
    decimal (addr / 2 ^ 24 % 256)
    ++ b'.'
      ∷ (decimal (addr / 2 ^ 16 % 256)
          ++ b'.' ∷ (decimal (addr / 2 ^ 8 % 256) ++ b'.' ∷ decimal (addr % 256)))

abbrev pub hex_digit : ℕ → ℕ
hex_digit d = if ltb d 10 then b'0' + d else b'a' + (d - 10)

-- `%x` of a number below 16 ^ fuel * 16.
unfoldable pub hex : ℕ → ℕ → Text
hex zero x = hex_digit (x % 16) ∷ []
hex (suc fuel) x =
    let more = hex fuel (x / 16) in (if x / 16 == 0 then [] else more) ++ hex_digit (x % 16) ∷ []

-- `zero`, the state of the loop of `write_ipv6`: 0, 1 and -1.
pub data Zero : Type 0 where
  unseen : Zero
  inside : Zero
  past : Zero

abbrev pub colon : Text → Text
colon [] = []
colon (c ∷ text) = (c ∷ text) ++ b':' ∷ []

unfoldable pub ipv6_groups : Zero → Text → List ℕ → Text
ipv6_groups z out [] = out
ipv6_groups z out (_ ∷ []) = out
ipv6_groups unseen out (a ∷ b ∷ host) =
    let x = a * 256 + b in
    if x == 0 then ipv6_groups inside out host else ipv6_groups unseen (colon out ++ hex 3 x) host
ipv6_groups inside out (a ∷ b ∷ host) =
    let x = a * 256 + b in
    if x == 0
    then ipv6_groups inside out host
    else ipv6_groups past (colon (out ++ b':' ∷ []) ++ hex 3 x) host
ipv6_groups past out (a ∷ b ∷ host) = ipv6_groups past (colon out ++ hex 3 (a * 256 + b)) host

unfoldable pub write_ipv6 : List ℕ → Text
unfolding ipv6_groups
write_ipv6 host =
    let out = ipv6_groups unseen [] host in
    b'[' ∷ (elim out [ [] ↦ b':' ∷ b':' ∷ [] | c ∷ rest ↦ c ∷ rest ]) ++ b']' ∷ []

unfoldable pub write_address : Address → Text
write_address (ipv4 addr port) = write_ipv4 addr
write_address (ipv6 host port) = write_ipv6 host

abbrev pub address_port : Address → ℕ
address_port (ipv4 addr port) = port
address_port (ipv6 host port) = port

unfoldable pub write_address_port : Address → Text
unfolding write_address
write_address_port addr = write_address addr ++ b':' ∷ decimal (address_port addr)
