-- ===== src/Address/Tests.antt =====
-- Runs of core/address.c.
use client.Base.{◌+◌, ◌*◌, ◌≡◌, ◌≢◌, refl, some, [], ◌∷◌, ◌++◌, arith}
use client.Address.{
  fail, overflow, done, hex4, hex16, hex16_loop, ipv6_input, ipv6_loop, parse_ipv6, ipv6_groups,
  hex, write_ipv6, parse_ipv4, write_ipv4,
}
use client.Address.RoundTrip.{parse_ipv4-write_ipv4}
use client.Address.Trailing.{HasGroups, zero_groups}

parse_ipv4-write_ipv4_example :
    parse_ipv4 (write_ipv4 0xc0a80001 ++ b':' ∷ b'8' ∷ b'0' ∷ [])
    ≡ some (0xc0a80001, b':' ∷ b'8' ∷ b'0' ∷ [])
parse_ipv4-write_ipv4_example =
    parse_ipv4-write_ipv4 0xc0a80001 (b':' ∷ b'8' ∷ b'0' ∷ []) (omega arith) refl

not_zero : 0xfe * 256 + 0x80 ≢ 0
not_zero = omega arith

one_group : HasGroups (0xfe ∷ 0x80 ∷ [])
unfolding HasGroups
one_group = (not_zero, tt)

-- The address of all zeros but the first group is written as `[fe80]`, which is no address.
trailing_text :
    write_ipv6 (0xfe ∷ 0x80 ∷ zero_groups 7) ≡ b'[' ∷ b'f' ∷ b'e' ∷ b'8' ∷ b'0' ∷ b']' ∷ []
unfolding write_ipv6 ipv6_groups hex
trailing_text = refl

trailing_refused : parse_ipv6 (b'[' ∷ b'f' ∷ b'e' ∷ b'8' ∷ b'0' ∷ b']' ∷ []) ≡ fail
unfolding parse_ipv6 ipv6_loop ipv6_input hex16 hex16_loop hex4
trailing_refused = refl

-- `[1:2:3:4:5:6:7::8:9]`: the ninth group is written behind the buffer.
ninth_group :
    parse_ipv6 (
      b'[' ∷ b'1' ∷ b':' ∷ b'2' ∷ b':' ∷ b'3' ∷ b':' ∷ b'4' ∷ b':' ∷ b'5' ∷ b':' ∷ b'6' ∷ b':'
      ∷ b'7' ∷ b':' ∷ b':' ∷ b'8' ∷ b':' ∷ b'9' ∷ b']' ∷ [])
    ≡ overflow
unfolding parse_ipv6 ipv6_loop ipv6_input hex16 hex16_loop hex4
ninth_group = refl

-- `[fe80::1]`
link_local :
    parse_ipv6 (b'[' ∷ b'f' ∷ b'e' ∷ b'8' ∷ b'0' ∷ b':' ∷ b':' ∷ b'1' ∷ b']' ∷ [])
    ≡ done (0xfe ∷ 0x80 ∷ 0 ∷ 0 ∷ 0 ∷ 0 ∷ 0 ∷ 0 ∷ 0 ∷ 0 ∷ 0 ∷ 0 ∷ 0 ∷ 0 ∷ 0 ∷ 1 ∷ []) []
unfolding parse_ipv6 ipv6_loop ipv6_input hex16 hex16_loop hex4
link_local = refl
