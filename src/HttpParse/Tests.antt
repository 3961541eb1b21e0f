-- ===== src/HttpParse/Tests.antt =====
-- Runs of core/http_parse.c.
use client.Base.{◌≡◌, refl, some, [], ◌∷◌, ◌++◌}
use client.Text.{Text}
use client.HttpParse.{
  tchar, token_loop, token, quoted_loop, quoted_string, pvalue, fraction, quality, qvalue,
}

-- `gzip` and `, br`
abbrev gzip : Text
gzip = b'g' ∷ b'z' ∷ b'i' ∷ b'p' ∷ []

abbrev then_br : Text
then_br = b',' ∷ 32 ∷ b'b' ∷ b'r' ∷ []

gzip-token : token (gzip ++ then_br) ≡ some (gzip, then_br)
unfolding token token_loop tchar
gzip-token = refl

-- `0.25;`
quarter : qvalue (b'0' ∷ b'.' ∷ b'2' ∷ b'5' ∷ b';' ∷ []) ≡ some (250, b';' ∷ [])
unfolding qvalue quality fraction
quarter = refl

-- `"ab"`: nothing is read, and the parser goes on at `b`.
quoted : pvalue (b'"' ∷ b'a' ∷ b'b' ∷ b'"' ∷ []) ≡ some ([], some (b'b' ∷ b'"' ∷ []))
unfolding pvalue quoted_string quoted_loop
quoted = refl
