-- ===== src/Security.antt =====
-- core/security.c: the short and the long form device identifiers. The certificate's bytes are an
-- argument; the file access around `lfdi_hash` is not modelled.
pub mod CheckDigit
mod Tests
use client.Base.{
  ℕ, zero, suc, ◌+◌, ◌-◌, ◌*◌, ◌/◌, ◌%◌, ◌^◌, Option, none, some, List, [], ◌∷◌, ◌==◌, take, get_or,
  if◌then◌else◌,
}
use client.Sha256.{Bytes, sha256}

-- The loop of `check_digit`; a 64-bit number has at most twenty digits, and the fuel is more.
unfoldable pub digit_sum : ℕ → ℕ → ℕ
digit_sum zero x = 0
digit_sum (suc fuel) x = if x == 0 then 0 else x % 10 + digit_sum fuel (x / 10)

unfoldable pub check_digit : ℕ → ℕ
check_digit x = (10 - digit_sum 64 x % 10) % 10

-- The loop over the first five bytes, on 64 bits.
unfoldable pub sfdi_bytes : ℕ → Bytes → ℕ → ℕ
sfdi_bytes zero lfdi sfdi = sfdi
sfdi_bytes (suc n) lfdi sfdi =
    sfdi_bytes n lfdi ((sfdi * 2 ^ 8 + get_or lfdi (5 - suc n) 0) % 2 ^ 64)

unfoldable pub sfdi_gen : Bytes → ℕ
unfolding sfdi_bytes check_digit
sfdi_gen lfdi = let sfdi = sfdi_bytes 5 lfdi 0 / 2 ^ 4 in (sfdi * 10 + check_digit sfdi) % 2 ^ 64

-- The LFDI and the SFDI of a certificate, or none where `sha256` does not return.
unfoldable pub lfdi_hash : Bytes → Option (Bytes × ℕ)
unfolding sfdi_gen
lfdi_hash certificate = elim (sha256 certificate) [
  | none ↦ none
  | some hash ↦ some (take 20 hash, sfdi_gen (take 20 hash))
]
