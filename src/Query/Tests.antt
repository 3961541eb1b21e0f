-- ===== src/Query/Tests.antt =====
-- Runs of core/query.c.
use client.Base.{◌-◌, ◌^◌, ◌≡◌, refl, none, some, [], ◌∷◌, replicate, arith}
use client.Text.{Text}
use client.Text.Numbers.{decimal, decimal_digits, decimal_int}
use client.Query.{Query, accept, overrun, query_loop, store, parse_query, seq_query, get_seq}
use client.Query.RoundTrip.{parse_query-get_seq}

abbrev old_query : Query
old_query = record { after = 5; start = 6; limit = 7 }

-- `s=300&l=255`
abbrev page_text : Text
page_text = b's' ∷ b'=' ∷ b'3' ∷ b'0' ∷ b'0' ∷ b'&' ∷ b'l' ∷ b'=' ∷ b'2' ∷ b'5' ∷ b'5' ∷ []

-- `/d?s=300&l=255`
page_text-get_seq : get_seq (b'/' ∷ b'd' ∷ []) 300 1000 ≡ some (b'/' ∷ b'd' ∷ b'?' ∷ page_text)
unfolding get_seq seq_query decimal_int decimal decimal_digits
page_text-get_seq = refl

-- A name of 60 bytes.
no_space : get_seq (replicate 60 b'd') 0 9 ≡ none
unfolding get_seq seq_query decimal_int decimal decimal_digits
no_space = refl

parse_query-get_seq_example :
    (get_seq (b'/' ∷ b'd' ∷ []) 300 1000 ≡ some (b'/' ∷ b'd' ∷ b'?' ∷ seq_query 300 1000))
    × (parse_query old_query (some (seq_query 300 1000))
        ≡ accept (record { after = 0; start = 300; limit = 255 }))
parse_query-get_seq_example =
    parse_query-get_seq old_query (b'/' ∷ b'd' ∷ []) 300 1000 (omega arith) (omega arith)
      (omega arith) (omega arith)

-- `l=-1`, of a count of 2 ^ 32 - 1.
negative_count : seq_query 0 (2 ^ 32 - 1) ≡ b'l' ∷ b'=' ∷ b'-' ∷ b'1' ∷ []
unfolding seq_query decimal_int decimal decimal_digits
negative_count = refl

-- `l=9&`: the parser reads on behind the end of the text.
trailing_ampersand : parse_query old_query (some (b'l' ∷ b'=' ∷ b'9' ∷ b'&' ∷ [])) ≡ overrun
unfolding parse_query query_loop store
trailing_ampersand = refl
