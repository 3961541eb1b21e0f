-- ===== src/Sha256.antt =====
-- core/sha256.c, with the byte order macros of core/pack.c. A 32-bit word is its number.
-- A message of `length` bytes is hashed in the buffer that holds it; lengths are below 2 ^ 28, so
-- that `length * 8` is an `int`.
pub mod Padding
pub mod Rounds
mod Tests
use client.Base.{
  ℕ, zero, suc, ◌+◌, ◌-◌, ◌*◌, ◌/◌, ◌%◌, ◌^◌, bit_and, bit_or, bit_xor, Bool, true, false, Option,
  none, some, List, [], ◌∷◌, ◌++◌, ltb, leb, get_or, take, drop, replicate, length, if◌then◌else◌,
}

abbrev pub Bytes : Type 0
Bytes = List ℕ

abbrev pub word : ℕ → ℕ
word x = x % 2 ^ 32

-- `S (x, n)`, the rotation to the right.
abbrev pub rotate : ℕ → ℕ → ℕ
rotate x n = bit_or (word (x * 2 ^ (32 - n))) (x / 2 ^ n)

abbrev pub ch : ℕ → ℕ → ℕ → ℕ
ch x y z = bit_xor z (bit_and x (bit_xor y z))

abbrev pub maj : ℕ → ℕ → ℕ → ℕ
maj x y z = bit_or (bit_and (bit_or x y) z) (bit_and x y)

abbrev pub big_sigma_0 : ℕ → ℕ
big_sigma_0 x = bit_xor (bit_xor (rotate x 2) (rotate x 13)) (rotate x 22)

abbrev pub big_sigma_1 : ℕ → ℕ
big_sigma_1 x = bit_xor (bit_xor (rotate x 6) (rotate x 11)) (rotate x 25)

abbrev pub sigma_0 : ℕ → ℕ
sigma_0 x = bit_xor (bit_xor (rotate x 7) (rotate x 18)) (x / 2 ^ 3)

abbrev pub sigma_1 : ℕ → ℕ
sigma_1 x = bit_xor (bit_xor (rotate x 17) (rotate x 19)) (x / 2 ^ 10)

abbrev pub initial_hash : List ℕ
initial_hash =
    0x6a09e667 ∷ 0xbb67ae85 ∷ 0x3c6ef372 ∷ 0xa54ff53a ∷ 0x510e527f ∷ 0x9b05688c ∷ 0x1f83d9ab
    ∷ 0x5be0cd19 ∷ []

abbrev pub round_constants : List ℕ
round_constants =
    0x428a2f98 ∷ 0x71374491 ∷ 0xb5c0fbcf ∷ 0xe9b5dba5 ∷ 0x3956c25b ∷ 0x59f111f1 ∷ 0x923f82a4
    ∷ 0xab1c5ed5 ∷ 0xd807aa98 ∷ 0x12835b01 ∷ 0x243185be ∷ 0x550c7dc3 ∷ 0x72be5d74 ∷ 0x80deb1fe
    ∷ 0x9bdc06a7 ∷ 0xc19bf174 ∷ 0xe49b69c1 ∷ 0xefbe4786 ∷ 0x0fc19dc6 ∷ 0x240ca1cc ∷ 0x2de92c6f
    ∷ 0x4a7484aa ∷ 0x5cb0a9dc ∷ 0x76f988da ∷ 0x983e5152 ∷ 0xa831c66d ∷ 0xb00327c8 ∷ 0xbf597fc7
    ∷ 0xc6e00bf3 ∷ 0xd5a79147 ∷ 0x06ca6351 ∷ 0x14292967 ∷ 0x27b70a85 ∷ 0x2e1b2138 ∷ 0x4d2c6dfc
    ∷ 0x53380d13 ∷ 0x650a7354 ∷ 0x766a0abb ∷ 0x81c2c92e ∷ 0x92722c85 ∷ 0xa2bfe8a1 ∷ 0xa81a664b
    ∷ 0xc24b8b70 ∷ 0xc76c51a3 ∷ 0xd192e819 ∷ 0xd6990624 ∷ 0xf40e3585 ∷ 0x106aa070 ∷ 0x19a4c116
    ∷ 0x1e376c08 ∷ 0x2748774c ∷ 0x34b0bcb5 ∷ 0x391c0cb3 ∷ 0x4ed8aa4a ∷ 0x5b9cca4f ∷ 0x682e6ff3
    ∷ 0x748f82ee ∷ 0x78a5636f ∷ 0x84c87814 ∷ 0x8cc70208 ∷ 0x90befffa ∷ 0xa4506ceb ∷ 0xbef9a3f7
    ∷ 0xc67178f2 ∷ []

-- The two registers that the macro `compress` assigns, d and h.
abbrev pub temp_0 : (e f g h k w : ℕ) → ℕ
temp_0 e f g h k w = h + big_sigma_1 e + ch e f g + k + w

abbrev pub temp_1 : (a b c : ℕ) → ℕ
temp_1 a b c = big_sigma_0 a + maj a b c

pub record Registers : Type 0 where
  pub a : ℕ
  pub b : ℕ
  pub c : ℕ
  pub d : ℕ
  pub e : ℕ
  pub f : ℕ
  pub g : ℕ
  pub h : ℕ

-- `compress (a, b, c, d, e, f, g, h, i)`: the new values of d and h.
unfoldable pub compress : (a b c d e f g h k w : ℕ) → ℕ × ℕ
compress a b c d e f g h k w =
    (word (d + temp_0 e f g h k w), word (temp_0 e f g h k w + temp_1 a b c))

-- K[i] + ..., W[i] at a round.
abbrev pub constant : ℕ → ℕ
constant i = get_or round_constants i 0

-- One pass of the unrolled loop, at the round `i`.
unfoldable pub eight_rounds : List ℕ → ℕ → Registers → Registers
unfolding compress
eight_rounds w i r =
    let k = λ (j : ℕ). constant (i + j) in
    let m = λ (j : ℕ). get_or w (i + j) 0 in
    let (d, h) = compress r.a r.b r.c r.d r.e r.f r.g r.h (k 0) (m 0) in
    let (c, g) = compress h r.a r.b r.c d r.e r.f r.g (k 1) (m 1) in
    let (b, f) = compress g h r.a r.b c d r.e r.f (k 2) (m 2) in
    let (a, e) = compress f g h r.a b c d r.e (k 3) (m 3) in
    let (h', d') = compress e f g h a b c d (k 4) (m 4) in
    let (g', c') = compress d' e f g h' a b c (k 5) (m 5) in
    let (f', b') = compress c' d' e f g' h' a b (k 6) (m 6) in
    let (e', a') = compress b' c' d' e f' g' h' a (k 7) (m 7) in
    record { a = a'; b = b'; c = c'; d = d'; e = e'; f = f'; g = g'; h = h' }

-- The words W[16..63] behind the first sixteen.
abbrev pub next_word : List ℕ → ℕ → ℕ
next_word w i = word (
    sigma_1 (get_or w (i - 2) 0)
    + get_or w (i - 7) 0
    + sigma_0 (get_or w (i - 15) 0)
    + get_or w (i - 16) 0)

unfoldable pub extend : ℕ → ℕ → List ℕ → List ℕ
extend zero i w = w
extend (suc n) i w = extend n (i + 1) (w ++ next_word w i ∷ [])

abbrev pub unpack_32 : Bytes → ℕ
unpack_32 (a ∷ b ∷ c ∷ d ∷ _) = a * 2 ^ 24 + b * 2 ^ 16 + c * 2 ^ 8 + d
unpack_32 _ = 0

abbrev pub pack_32 : ℕ → Bytes
pack_32 x = x / 2 ^ 24 % 256 ∷ x / 2 ^ 16 % 256 ∷ x / 2 ^ 8 % 256 ∷ x % 256 ∷ []

abbrev pub pack_64 : ℕ → Bytes
pack_64 x = pack_32 (x / 2 ^ 32) ++ pack_32 x

unfoldable pub first_words : ℕ → Bytes → List ℕ
first_words zero m = []
first_words (suc n) m = unpack_32 m ∷ first_words n (drop 4 m)

unfoldable pub all_rounds : ℕ → List ℕ → ℕ → Registers → Registers
all_rounds zero w i r = r
all_rounds (suc n) w i r = all_rounds n w (i + 8) (eight_rounds w i r)

abbrev pub to_registers : List ℕ → Registers
to_registers (a ∷ b ∷ c ∷ d ∷ e ∷ f ∷ g ∷ h ∷ _) = record {
  a = a;
  b = b;
  c = c;
  d = d;
  e = e;
  f = f;
  g = g;
  h = h;
}
to_registers _ = record { a = 0; b = 0; c = 0; d = 0; e = 0; f = 0; g = 0; h = 0 }

-- `H[i] += h[i]`
abbrev pub add_registers : Registers → Registers → Registers
add_registers x y = record {
  a = word (x.a + y.a);
  b = word (x.b + y.b);
  c = word (x.c + y.c);
  d = word (x.d + y.d);
  e = word (x.e + y.e);
  f = word (x.f + y.f);
  g = word (x.g + y.g);
  h = word (x.h + y.h);
}

-- One block of 64 bytes.
unfoldable pub block : Bytes → Registers → Registers
unfolding extend first_words all_rounds eight_rounds
block m r = add_registers r (all_rounds 8 (extend 48 16 (first_words 16 m)) 0 r)

unfoldable pub blocks : ℕ → Bytes → Registers → Registers
unfolding block
blocks zero m r = r
blocks (suc n) m r = blocks n (drop 64 m) (block m r)

unfoldable pub output : Registers → Bytes
output r =
    pack_32 r.a
    ++ pack_32 r.b
    ++ pack_32 r.c
    ++ pack_32 r.d
    ++ pack_32 r.e
    ++ pack_32 r.f
    ++ pack_32 r.g
    ++ pack_32 r.h

-- The buffer with the padding, or none where `pad` is negative: `memset` then takes it for a size
-- of nearly 2 ^ 64 bytes and writes past the buffer.
unfoldable pub padded : Bytes → ℕ → Option Bytes
padded message n =
    if leb (n % 64) 55
    then some (message ++ (0x80 ∷ replicate (55 - n % 64) 0) ++ pack_64 (n * 8))
    else none

abbrev pub block_count : ℕ → ℕ
block_count n = (n + 9 + 63) / 2 ^ 6

-- `sha256_size (length)`, the bytes that the caller allocates.
abbrev pub sha256_size : ℕ → ℕ
sha256_size n = (n + 9 + 63) / 64 * 64

abbrev pub hash_of : ℕ → Option Bytes → Option Bytes
hash_of n none = none
hash_of n (some m) = some (output (blocks (block_count n) m (to_registers initial_hash)))

unfoldable pub sha256 : Bytes → Option Bytes
unfolding padded output blocks
sha256 message = hash_of (length message) (padded message (length message))
