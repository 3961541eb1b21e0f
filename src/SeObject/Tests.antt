-- ===== src/SeObject/Tests.antt =====
-- Runs of core/se_object.c.
use client.Base.{
  ℕ, ◌+◌, ◌-◌, ◌%◌, ◌^◌, ◌≤◌, ◌<◌, ◌≡◌, ◌↔◌, refl, true, List, [], ◌∷◌, replicate, arith, All,
}
use client.Base.Int.{pos, negsuc}
use client.SeObject.{Object, compare_key, compare_binary, compare_field, insert_se_object}
use client.SeObject.Keys.{
  time_key, time_at, is_negative, compare_key-time, program_keys, program_rank,
}
use client.SeObject.Insert.{IsSorted, WithObject, insert_se_object-program}

-- The times 1 and 2 ^ 32 + 1.
abbrev first_second : Object
first_second = 1 ∷ 0 ∷ 0 ∷ 0 ∷ 0 ∷ 0 ∷ 0 ∷ 0 ∷ []

abbrev much_later : Object
much_later = 1 ∷ 0 ∷ 0 ∷ 0 ∷ 1 ∷ 0 ∷ 0 ∷ 0 ∷ []

compare_key-time_example :
    ((compare_key first_second much_later (time_key 0) ≡ pos 0)
      ↔ (time_at 0 first_second % 2 ^ 32 ≡ time_at 0 much_later % 2 ^ 32))
    × (time_at 0 first_second < time_at 0 much_later
        → time_at 0 much_later ≤ time_at 0 first_second + 2 ^ 31
        → is_negative (compare_key first_second much_later (time_key 0)) ≡ true)
    × (time_at 0 much_later < time_at 0 first_second
        → time_at 0 first_second < time_at 0 much_later + 2 ^ 31
        → compare_key first_second much_later (time_key 0)
          ≡ pos (time_at 0 first_second - time_at 0 much_later))
compare_key-time_example = compare_key-time first_second much_later 0 (omega arith) (omega arith)

same_time : compare_key first_second much_later (time_key 0) ≡ pos 0
unfolding compare_key compare_field
same_time = refl

-- The last byte decides.
last_byte_first : compare_binary 2 (2 ∷ 0 ∷ []) (1 ∷ 1 ∷ []) ≡ negsuc 0
unfolding compare_binary
last_byte_first = refl

-- Programs of primacy 1 and 3 and one of primacy 2, with the primacy in front of the mRID.
abbrev program : ℕ → Object
program primacy = primacy ∷ replicate 16 0

abbrev some_programs : List Object
some_programs = program 1 ∷ program 3 ∷ []

program-byte : (n : ℕ) → n < 256 → All (λ c. c < 256) (program n)
program-byte n h = (h, omega arith)

insert_se_object-program_example :
    IsSorted (program_rank 0 1) (insert_se_object some_programs (program 2) (program_keys 0 1))
    × WithObject some_programs
        (program 2)
        (insert_se_object some_programs (program 2) (program_keys 0 1))
insert_se_object-program_example =
    insert_se_object-program 0 1 some_programs (program 2) (program-byte 2 (omega arith))
      (program-byte 1 (omega arith), (program-byte 3 (omega arith), tt))
      ((omega arith, tt), (tt, tt))
