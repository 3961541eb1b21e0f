-- ===== src/Hash/Tests.antt =====
-- Runs of core/hash.c.
use client.Base.{ℕ, ◌+◌, ◌*◌, ◌^◌, ◌≡◌, refl, none, some, [], ◌∷◌, arith}
use client.Hash.{SparseGroup, bit_rank, slots, sg_insert, empty_group}
use client.Hash.Rank.{bit_rank-total}
use client.Hash.Rank.Steps.{bit_total}

-- The places 3, 5 and 40 are taken.
abbrev some_bits : ℕ
some_bits = 3 * 2 ^ 58 + 2 ^ 40 + 2 ^ 5 + 2 ^ 3

bit_rank-total_example : bit_rank some_bits 41 ≡ bit_total 41 some_bits
bit_rank-total_example = bit_rank-total some_bits 41 (omega arith)

rank_of_40 : bit_rank some_bits 40 ≡ 2
unfolding bit_rank
rank_of_40 = refl

-- The entries 7 and 8 at the places 3 and 5.
abbrev two_entries : SparseGroup
two_entries = record { slot = some (some 7 ∷ some 8 ∷ []); bits = 2 * 2 ^ 58 + 2 ^ 5 + 2 ^ 3 }

two_inserted : sg_insert (sg_insert empty_group 5 8) 3 7 ≡ two_entries
unfolding sg_insert bit_rank
two_inserted = refl

-- The entry 7 is deleted, and 9 is put at its place, which `hash_find` marks: the slots are moved by
-- one, so that the place 5 has the deleted entry.
moved_slots :
    slots (sg_insert (record two_entries { slot = some (none ∷ some 8 ∷ []) }) 3 9)
    ≡ some 9 ∷ none ∷ some 8 ∷ []
unfolding sg_insert bit_rank
moved_slots = refl

place_five :
    bit_rank (sg_insert (record two_entries { slot = some (none ∷ some 8 ∷ []) }) 3 9).bits 5 ≡ 1
unfolding sg_insert bit_rank
place_five = refl
