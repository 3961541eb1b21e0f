-- ===== src/Text.antt =====
-- core/util.c: character tests, numbers and words. A C string is the list of its bytes before the
-- terminating zero; a pointer into it is the list that begins there.
pub mod Numbers
pub mod Width
use client.Base.{
  ℕ, zero, suc, ◌+◌, ◌-◌, ◌*◌, ◌/◌, ◌%◌, ◌^◌, Bool, true, false, Option, none, some, List, [], ◌∷◌,
  ◌++◌, ◌&&◌, ◌||◌, ◌==◌, leb, if◌then◌else◌,
}

abbrev pub Text : Type 0
Text = List ℕ

-- `*data`
abbrev pub first : Text → ℕ
first [] = 0
first (c ∷ rest) = c

abbrev pub in_range : ℕ → ℕ → ℕ → Bool
in_range x a b = leb a x && leb x b

abbrev pub alpha : ℕ → Bool
alpha c = in_range c b'a' b'z' || in_range c b'A' b'Z'

abbrev pub digit : ℕ → Bool
digit c = in_range c b'0' b'9'

abbrev pub ws : ℕ → Bool
ws c = c == 10 || c == 32 || c == 9 || c == 13

-- `streq (a, b)`
abbrev pub streq : Text → Text → Bool
streq [] [] = true
streq [] (y ∷ b) = false
streq (x ∷ a) [] = false
streq (x ∷ a) (y ∷ b) = x == y && streq a b

-- The number of bits up to the highest one that is set; 32 rounds are enough for 32 bits.
unfoldable pub bit_count_rounds : ℕ → ℕ → ℕ
bit_count_rounds zero x = 0
bit_count_rounds (suc n) x = if x == 0 then 0 else 1 + bit_count_rounds n (x / 2)

unfoldable pub bit_count : ℕ → ℕ
unfolding bit_count_rounds
bit_count x = bit_count_rounds 32 x

-- The index of the text in the list, or the length of the list.
unfoldable pub string_index : Text → List Text → ℕ
string_index s [] = 0
string_index s (t ∷ ss) = if streq s t then 0 else 1 + string_index s ss

unfoldable pub trim : Text → Text
trim [] = []
trim (c ∷ rest) = if ws c then trim rest else c ∷ rest

-- `tolower` of the "C" locale.
abbrev pub lower : ℕ → ℕ
lower c = if in_range c b'A' b'Z' then c + 32 else c

unfoldable pub to_lower : Text → Text
to_lower [] = []
to_lower (c ∷ rest) = lower c ∷ to_lower rest

-- The loop of `number` and `number64`: the value, and what follows the digits. The value wraps at
-- the width; for an `int` the source leaves that to the machine.
unfoldable pub digits_loop : ℕ → ℕ → Text → ℕ × Text
digits_loop width y [] = (y, [])
digits_loop width y (c ∷ rest) =
    if digit c then digits_loop width ((y * 10 + (c - b'0')) % 2 ^ width) rest else (y, c ∷ rest)

-- None where there is no digit.
unfoldable pub number_of : ℕ → Text → Option (ℕ × Text)
number_of width text = if digit (first text) then some (digits_loop width 0 text) else none

unfoldable pub number : Text → Option (ℕ × Text)
unfolding number_of
number text = number_of 32 text

unfoldable pub number64 : Text → Option (ℕ × Text)
unfolding number_of
number64 text = number_of 64 text
