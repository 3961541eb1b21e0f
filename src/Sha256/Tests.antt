-- ===== src/Sha256/Tests.antt =====
-- Runs of core/sha256.c.
use client.Base.{◌≡◌, refl, none, some, [], ◌∷◌, replicate}
use client.Sha256.{Bytes, sha256}

abbrev abc : Bytes
abc = 97 ∷ 98 ∷ 99 ∷ []

-- The example of FIPS 180-4.
hash_of_abc :
    sha256 abc
    ≡ some (
        0xba ∷ 0x78 ∷ 0x16 ∷ 0xbf ∷ 0x8f ∷ 0x01 ∷ 0xcf ∷ 0xea ∷ 0x41 ∷ 0x41 ∷ 0x40 ∷ 0xde ∷ 0x5d
        ∷ 0xae ∷ 0x22 ∷ 0x23 ∷ 0xb0 ∷ 0x03 ∷ 0x61 ∷ 0xa3 ∷ 0x96 ∷ 0x17 ∷ 0x7a ∷ 0x9c ∷ 0xb4 ∷ 0x10
        ∷ 0xff ∷ 0x61 ∷ 0xf2 ∷ 0x00 ∷ 0x15 ∷ 0xad ∷ [])
unfolding sha256
hash_of_abc = refl

abbrev long_message : Bytes
long_message = replicate 60 97

past_the_buffer : sha256 long_message ≡ none
unfolding sha256
past_the_buffer = refl
