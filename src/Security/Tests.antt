-- ===== src/Security/Tests.antt =====
-- Runs of core/security.c.
use client.Base.{◌/◌, ◌%◌, ◌<◌, ◌≡◌, refl, [], ◌∷◌, arith, All}
use client.Security.{digit_sum, sfdi_gen}
use client.Security.CheckDigit.{first_bits, sfdi_gen-digits}

example_bytes : All (λ x. x < 256) (0x3e ∷ 0x4f ∷ 0x45 ∷ 0xab ∷ 0x31 ∷ [])
example_bytes = (omega arith, (omega arith, (omega arith, (omega arith, (omega arith, tt)))))

-- The example of IEEE 2030.5, 6.3.2.
example_sfdi : sfdi_gen (0x3e ∷ 0x4f ∷ 0x45 ∷ 0xab ∷ 0x31 ∷ []) ≡ 167261211391
unfolding sfdi_gen digit_sum
example_sfdi = refl

sfdi_gen-digits_example :
    (sfdi_gen (0x3e ∷ 0x4f ∷ 0x45 ∷ 0xab ∷ 0x31 ∷ []) / 10
      ≡ first_bits 0x3e 0x4f 0x45 0xab 0x31 [] example_bytes)
    × (digit_sum 64 (sfdi_gen (0x3e ∷ 0x4f ∷ 0x45 ∷ 0xab ∷ 0x31 ∷ [])) % 10 ≡ 0)
sfdi_gen-digits_example = sfdi_gen-digits 0x3e 0x4f 0x45 0xab 0x31 [] example_bytes
