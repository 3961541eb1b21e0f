-- ===== src/Utf8.antt =====
-- core/utf8.c: the UTF-8 decoder, which is a table-driven state machine, and the encoder.
-- A text is the list of its bytes up to the terminating zero; past the end the code reads zeros.
pub mod Decode
pub mod RoundTrip
pub mod Supplementary
mod Tests
use mathlib.Core.Option
use client.Base.{
  ℕ, zero, suc, ◌+◌, ◌-◌, ◌*◌, ◌/◌, ◌%◌, ◌^◌, bit_and, bit_or, bit_xor, Bool, true, false, Option,
  none, some, List, [], ◌∷◌, ◌++◌, ◌==◌, ltb, leb, not, get_or, if◌then◌else◌,
}

abbrev pub Bytes : Type 0
Bytes = List ℕ

abbrev pub utf_reject : ℕ
utf_reject = 99

-- The classes of the bytes c0..ff, and then the transitions, a row to a state.
abbrev pub utf_table : List ℕ
utf_table =
    1 ∷ 1 ∷ 2 ∷ 2 ∷ 2 ∷ 2 ∷ 2 ∷ 2 ∷ 2 ∷ 2 ∷ 2 ∷ 2 ∷ 2 ∷ 2 ∷ 2 ∷ 2 ∷ 2 ∷ 2 ∷ 2 ∷ 2 ∷ 2 ∷ 2 ∷ 2 ∷ 2
    ∷ 2 ∷ 2 ∷ 2 ∷ 2 ∷ 2 ∷ 2 ∷ 2 ∷ 2 ∷ 7 ∷ 3 ∷ 3 ∷ 3 ∷ 3 ∷ 3 ∷ 3 ∷ 3 ∷ 3 ∷ 3 ∷ 3 ∷ 3 ∷ 3 ∷ 4 ∷ 3 ∷ 3
    ∷ 8 ∷ 6 ∷ 6 ∷ 6 ∷ 5 ∷ 1 ∷ 1 ∷ 1 ∷ 1 ∷ 1 ∷ 1 ∷ 1 ∷ 1 ∷ 1 ∷ 1 ∷ 1 ∷ 99 ∷ 99 ∷ 9 ∷ 13 ∷ 17 ∷ 21
    ∷ 25 ∷ 29 ∷ 33 ∷ 0 ∷ 0 ∷ 0 ∷ 0 ∷ 9 ∷ 9 ∷ 9 ∷ 9 ∷ 9 ∷ 9 ∷ 99 ∷ 99 ∷ 17 ∷ 99 ∷ 99 ∷ 99 ∷ 17 ∷ 17
    ∷ 17 ∷ 17 ∷ 99 ∷ 99 ∷ 9 ∷ 9 ∷ 99 ∷ 17 ∷ 17 ∷ 17 ∷ []

-- The machine between two bytes: its state and the bits of the code so far.
pub record Machine : Type 0 where
  pub state : ℕ
  pub code : ℕ

abbrev pub machine : ℕ → ℕ → Machine
machine state code = record { state = state; code = code }

-- A byte of 128 or more.
unfoldable pub step_high : Machine → ℕ → Option Machine
step_high m c =
    if not (m.state == 0)
    then if bit_and c 0x40 == 0
      then some (
          machine (get_or utf_table (64 + m.state + c / 2 ^ 4 % 4) utf_reject)
            (bit_or (c % 2 ^ 6) (m.code * 2 ^ 6)))
      else none
    else if bit_and c 0x40 == 0
    then none
    else let type = get_or utf_table (bit_xor c 0xc0) utf_reject in
      some (machine (get_or utf_table (64 + type) utf_reject) (bit_and (0xff / 2 ^ type) c))

-- What the loop does next: it fails, it is done with a code, or it goes on.
pub data Next : Type 0 where
  fail : Next
  done : ℕ → Next
  more : Machine → Next

unfoldable pub after : Option Machine → Next
after none = fail
after (some m) =
    if m.state == utf_reject then fail else if m.state == 0 then done m.code else more m

unfoldable pub step : Machine → ℕ → Next
unfolding step_high after
step m c = if ltb c 128 then (if m.state == 0 then done c else fail) else after (step_high m c)

-- The code point at the head of the text and the rest, or none where the bytes are not UTF-8.
unfoldable pub decode : Machine → Bytes → Option (ℕ × Bytes)
decode m [] = if m.state == 0 then some (0, []) else none
decode m (c ∷ rest) = elim (step m c) [
  | fail ↦ none
  | done code ↦ some (code, rest)
  | more m' ↦ decode m' rest
]

unfoldable pub utf8_char : Bytes → Option (ℕ × Bytes)
unfolding decode
utf8_char text = decode (machine 0 0) text

-- The label `byte_1`, and `byte_2` behind it.
abbrev pub byte_1 : ℕ → Bytes
byte_1 code = bit_or 0x80 (code % 2 ^ 6) ∷ []

abbrev pub byte_2 : ℕ → Bytes
byte_2 code = bit_or 0x80 (code / 2 ^ 6 % 2 ^ 6) ∷ byte_1 code

-- The bytes that `utf8_encode` writes, or none where it returns NULL.
unfoldable pub utf8_encode : ℕ → Option Bytes
utf8_encode code =
    if leb code 0x7f
    then some (code ∷ [])
    else if leb code 0x7ff
    then some (bit_or 0xc0 (code / 2 ^ 6) ∷ byte_1 code)
    else if leb code 0xffff
    then some (bit_or 0xe0 (code / 2 ^ 12) ∷ byte_2 code)
    else if leb code 0x1ffff
    then some (bit_or 0xe0 (code / 2 ^ 18) ∷ bit_or 0x80 (code / 2 ^ 12 % 2 ^ 6) ∷ byte_2 code)
    else none

-- The bytes that are passed over behind one byte of a character.
abbrev pub more_bytes : ℕ → ℕ
more_bytes c =
    if bit_and c 0x80 == 0
    then 0
    else if bit_and c 0x20 == 0
    then 1
    else if bit_and c 0x10 == 0
    then 2
    else 3

-- The characters, or none where a character is cut off at the end of the text and the code reads on
-- behind it.
unfoldable pub utf8_length_past : ℕ → Bytes → Option ℕ
utf8_length_past zero [] = some 0
utf8_length_past (suc skip) [] = none
utf8_length_past zero (c ∷ rest) = Option.map (λ n. n + 1) (utf8_length_past (more_bytes c) rest)
utf8_length_past (suc skip) (c ∷ rest) = utf8_length_past skip rest

unfoldable pub utf8_length : Bytes → Option ℕ
unfolding utf8_length_past
utf8_length text = utf8_length_past 0 text
