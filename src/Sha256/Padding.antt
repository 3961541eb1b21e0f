-- ===== src/Sha256/Padding.antt =====
-- The padding of core/sha256.c.
use client.Base.{
  ℕ, ◌+◌, ◌-◌, ◌*◌, ◌%◌, ◌≤◌, ◌≡◌, refl, Bool, true, false, Option, none, some, ◌∷◌, ◌++◌, leb,
  length, length-append, replicate, arith, Bool-cases, inl, inr,
}
use client.Sha256.{Bytes, pack_64, padded, block_count, sha256_size, sha256}

length-replicate : (n a : ℕ) → length (replicate n a) ≡ n
length-replicate ℕ.zero a = refl
length-replicate (ℕ.suc n) a = omega (arith, length-replicate n a)

-- Where the length modulo 64 is at most 55, the padded message fills the buffer that
-- `sha256_size` asks for exactly, and it is the number of blocks that the loop hashes.
pub length-padded :
    (m : Bytes)
    → length m % 64 ≤ 55
    → (p : Bytes) × (padded m (length m) ≡ some p)
      × (length p ≡ sha256_size (length m))
      × (length p ≡ 64 * block_count (length m))
unfolding padded
length-padded m h =
    let small : leb (length m % 64) 55 ≡ true = ground arith in
    let zeros = replicate (55 - length m % 64) 0 in
    let p = m ++ (0x80 ∷ zeros) ++ pack_64 (length m * 8) in
    let size : length p ≡ length m + (1 + (55 - length m % 64)) + 8 = omega (
      arith,
      length-append (m ++ (0x80 ∷ zeros)) (pack_64 (length m * 8)),
      length-append m (0x80 ∷ zeros),
      length-replicate (55 - length m % 64) 0,
    ) in
    (p, rw small, omega (arith, size), omega (arith, size))

abbrev pub returns : Option Bytes → Bool
returns none = false
returns (some _) = true

-- `sha256` returns a hash exactly for the messages whose length modulo 64 is at most 55; for the
-- others it writes past its buffer.
sha256_defined : (m : Bytes) → returns (sha256 m) ≡ leb (length m % 64) 55
unfolding sha256 padded
sha256_defined m = elim (Bool-cases (leb (length m % 64) 55)) [
  | inl small ↦ rw small
  | inr large ↦ rw large
]
