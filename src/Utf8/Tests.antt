-- ===== src/Utf8/Tests.antt =====
-- Runs of core/utf8.c.
use client.Base.{◌≡◌, refl, none, some, [], ◌∷◌, ◌++◌, arith}
use client.Utf8.{Bytes, utf8_char, utf8_encode, step}
use client.Utf8.RoundTrip.{read_back, utf8_char-utf8_encode}
use client.Utf8.Supplementary.{utf8_encode_supplementary}

-- The euro sign.
euro_encoded : utf8_encode 0x20ac ≡ some (0xe2 ∷ 0x82 ∷ 0xac ∷ [])
unfolding utf8_encode
euro_encoded = refl

utf8_char-utf8_encode_example :
    (bytes : Bytes) × (utf8_encode 0x20ac ≡ some bytes)
    × (utf8_char (bytes ++ 65 ∷ []) ≡ read_back 0x20ac (65 ∷ []))
utf8_char-utf8_encode_example = utf8_char-utf8_encode 0x20ac (65 ∷ []) (omega arith)

-- A code of four bytes is written with a lead byte of three.
emoji_encoded : utf8_encode 0x1f600 ≡ some (0xe0 ∷ 0x9f ∷ 0x98 ∷ 0x80 ∷ [])
unfolding utf8_encode
emoji_encoded = refl

utf8_encode_supplementary_example :
    (utf8_encode 0x1f600 ≡ some (0xe0 ∷ 0x9f ∷ 0x98 ∷ 0x80 ∷ []))
    × (utf8_char (0xe0 ∷ 0x9f ∷ 0x98 ∷ 0x80 ∷ []) ≡ none)
utf8_encode_supplementary_example = utf8_encode_supplementary 0x1f600 [] (omega arith)

-- The valid text f1 80 bf bf is refused.
refused : utf8_char (0xf1 ∷ 0x80 ∷ 0xbf ∷ 0xbf ∷ []) ≡ none
unfolding utf8_char step
refused = refl
