-- ===== src/Hash.antt =====
-- core/hash.c: the hash table of sparse groups. An entry that has been deleted is null in its slot;
-- a key, the comparison and the hash function are those of the table's kind.

pub mod Rank
mod Tests
use client.Base.{
  ℕ, zero, suc, ◌+◌, ◌-◌, ◌*◌, ◌/◌, ◌%◌, ◌^◌, bit_and, bit_or, bit_xor, Bool, true, false, Option,
  none, some, List, [], ◌∷◌, ◌++◌, ◌==◌, ltb, leb, length, get_or, take, drop, replicate,
  if◌then◌else◌,
}
use client.LinkedList.{Ptr}
use client.Text.{Text}

-- `slot` is none where the group has not been allocated. The 58 low bits of `bits` tell the places
-- that are taken, the others count them.
pub record SparseGroup : Type 0 where
  pub slot : Option (List (Option Ptr))
  pub bits : ℕ

-- `~0UL / n`
abbrev pub all_over : ℕ → ℕ
all_over n = (2 ^ 64 - 1) / n

-- The steps of the parallel count, on 64 bits.
abbrev pub pairs : ℕ → ℕ
pairs r = r - bit_and (r / 2) (all_over 3)

abbrev pub nibbles : ℕ → ℕ
nibbles r = bit_and r (all_over 5) + bit_and (r / 4) (all_over 5)

abbrev pub bytes : ℕ → ℕ
bytes r = bit_and (r + r / 16) (all_over 17)

abbrev pub byte_sum : ℕ → ℕ
byte_sum r = r * all_over 255 % 2 ^ 64 / 2 ^ 56

unfoldable pub bit_rank : ℕ → ℕ → ℕ
bit_rank bits i =
    if i == 0 then 0 else byte_sum (bytes (nibbles (pairs (bits * 2 ^ (64 - i) % 2 ^ 64))))

abbrev pub slots : SparseGroup → List (Option Ptr)
slots g = elim g.slot [ none ↦ [] | some l ↦ l ]

unfoldable pub sg_insert : SparseGroup → ℕ → Ptr → SparseGroup
unfolding bit_rank
sg_insert g i data' =
    let s = bit_rank g.bits i in
    record {
      slot = some (take s (slots g) ++ some data' ∷ drop s (slots g));
      bits = bit_or ((g.bits + 2 ^ 58) % 2 ^ 64) (2 ^ i);
    }

unfoldable pub sg_empty : SparseGroup → ℕ → Bool
sg_empty g i = bit_and g.bits (2 ^ i) == 0

pub record HashTable : Type 0 where
  pub i : ℕ
  pub items : ℕ
  pub min : ℕ
  pub max : ℕ
  pub size : ℕ
  pub table : ℕ → SparseGroup
  -- the group that `hash_find` has marked
  pub g : Option ℕ

abbrev pub empty_group : SparseGroup
empty_group = record { slot = none; bits = 0 }

-- `hash_new` with `hash_init`; the size is a power of two.
unfoldable pub hash_new : ℕ → HashTable
hash_new size = record {
  i = 0;
  items = 0;
  min = size * 40 / 100;
  max = size * 80 / 100;
  size = size;
  table = λ _. empty_group;
  g = none;
}

abbrev pub hash_mark : ℕ → ℕ → HashTable → HashTable
hash_mark g i ht = elim ht.g [ none ↦ record ht { g = some g; i = i } | some _ ↦ ht ]

abbrev pub set_group : ℕ → SparseGroup → HashTable → HashTable
set_group n g ht = record ht { table = λ m. if m == n then g else ht.table m }

-- None where no group is marked: the source follows a null pointer.
unfoldable pub hash_insert : Ptr → HashTable → Option HashTable
unfolding sg_insert
hash_insert data' ht = elim ht.g [
  | none ↦ none
  | some n ↦ some (set_group n (sg_insert (ht.table n) ht.i data') ht)
]

-- The entries in the order of `hash_iterate` and `hash_next`.
unfoldable pub entries : List (Option Ptr) → List Ptr
entries [] = []
entries (none ∷ l) = entries l
entries (some data' ∷ l) = data' ∷ entries l

unfoldable pub group_entries : ℕ → ℕ → HashTable → List Ptr
group_entries zero n ht = []
group_entries (suc groups) n ht = entries (slots (ht.table n)) ++ group_entries groups (n + 1) ht

unfoldable pub hash_iterate : HashTable → List Ptr
unfolding group_entries
hash_iterate ht = group_entries ((ht.size + 57) / 58) 0 ht

unfoldable pub insert_all : List Ptr → HashTable → Option HashTable
insert_all [] ht = some ht
insert_all (data' ∷ l) ht = elim (hash_insert data' ht) [ none ↦ none | some gt ↦ insert_all l gt ]

unfoldable pub hash_resize : ℕ → HashTable → Option HashTable
hash_resize size ht = insert_all (hash_iterate ht) (record (hash_new size) { items = ht.items })

-- The place of an entry: its group and its index in the slots.
pub record Place : Type 0 where
  pub group : ℕ
  pub index : ℕ

-- What a probe tells: the entry, a place that is free, or that the search goes on.
pub data Probe : Type 0 where
  found : Place → Probe
  free : Probe
  next : HashTable → Probe

module _ (get_key : Ptr → Ptr) (hash : Ptr → ℕ) (equal : Ptr → Ptr → Bool) where
  unfoldable pub probe : Ptr → ℕ → HashTable → Probe
  probe key index ht =
      let n = index / 58 in
      let i = index % 58 in
      let g = ht.table n in
      let place = bit_rank g.bits i in
      let entry : Probe = elim (get_or (slots g) place none) [
        | some e ↦
            if equal key (get_key e) then found (record { group = n; index = place }) else next ht
        | none ↦ next (hash_mark n i ht)
      ] in
      elim g.slot [ none ↦ free | some _ ↦ if sg_empty g i then free else entry ]

  -- The loop of `hash_find`, with the number of probes that are left; there is no result where they
  -- are used up, while the source goes on.
  unfoldable pub find_loop : ℕ → ℕ → Ptr → ℕ → HashTable → Option (Option Place × HashTable)
  find_loop zero probes key index ht = none
  find_loop (suc fuel) probes key index ht = elim (probe key index ht) [
    | found p ↦ some (some p, ht)
    | free ↦ some (none, hash_mark (index / 58) (index % 58) ht)
    | next gt ↦ find_loop fuel (probes + 1) key (bit_and (index + (probes + 1)) (ht.size - 1)) gt
  ]

  unfoldable pub hash_find : Ptr → HashTable → Option (Option Place × HashTable)
  unfolding find_loop
  hash_find key ht =
      find_loop ht.size 0 key (bit_and (hash key) (ht.size - 1)) (record ht { g = none })

  abbrev pub set_slot : Place → Option Ptr → HashTable → HashTable
  set_slot p e ht =
      let g = ht.table p.group in
      let l = slots g in
      set_group p.group (record g { slot = some (take p.index l ++ e ∷ drop (p.index + 1) l) }) ht

  abbrev pub entry_at : Place → HashTable → Option Ptr
  entry_at p ht = get_or (slots (ht.table p.group)) p.index none

  -- The table of the result; the caller of the source keeps the one that it had.
  unfoldable pub hash_put : Ptr → HashTable → Option HashTable
  hash_put data' ht = elim (hash_find (get_key data') ht) [
    | none ↦ none
    | some r ↦ elim r.0 [
      | some p ↦ some (set_slot p (some data') r.1)
      | none ↦
          let table : Option HashTable =
            if r.1.items == r.1.max then hash_resize (r.1.size * 2) r.1 else some r.1 in
          elim table [
            | none ↦ none
            | some ht1 ↦ elim (hash_insert data' ht1) [
              | none ↦ none
              | some gt ↦ some (record gt { items = gt.items + 1 })
            ]
          ]
    ]
  ]

  unfoldable pub hash_delete : Ptr → HashTable → Option (Option Ptr × HashTable)
  hash_delete key ht = elim (hash_find key ht) [
    | none ↦ none
    | some r ↦ elim r.0 [
      | none ↦ some (none, r.1)
      | some p ↦
          let gt = set_slot p none r.1 in
          let table : Option HashTable =
            if gt.items == gt.min then hash_resize (gt.size / 2) gt else some gt in
          elim table [
            | none ↦ none
            | some ht1 ↦ some (entry_at p r.1, record ht1 { items = ht1.items - 1 })
          ]
    ]
  ]

  unfoldable pub hash_get : Ptr → HashTable → Option (Option Ptr × HashTable)
  hash_get key ht = elim (hash_find key ht) [
    | none ↦ none
    | some r ↦ elim r.0 [ none ↦ some (none, r.1) | some p ↦ some (entry_at p r.1, r.1) ]
  ]

-- A signed `char` on 64 bits.
abbrev pub char_word : ℕ → ℕ
char_word c = if leb 128 c then 2 ^ 64 - 256 + c else c

unfoldable pub string_hash_loop : ℕ → Text → ℕ
string_hash_loop hash [] = hash
string_hash_loop hash (c ∷ str) = string_hash_loop ((hash * 33 + char_word c) % 2 ^ 64) str

unfoldable pub string_hash : Text → ℕ
unfolding string_hash_loop
string_hash str = string_hash_loop 5381 str % 2 ^ 32

-- The sixteen bytes of the key.
unfoldable pub int128_hash : List ℕ → ℕ
unfolding string_hash_loop
int128_hash str = string_hash_loop 5381 (take 16 str) % 2 ^ 32

abbrev pub mix : ℕ → ℕ → ℕ
mix key n = bit_xor key (key / 2 ^ n)

unfoldable pub int64_hash : ℕ → ℕ
int64_hash key =
    let a = (2 ^ 64 - 1 - key + key * 2 ^ 21) % 2 ^ 64 in
    let b = mix a 24 in
    let c = (b + b * 2 ^ 3 + b * 2 ^ 8) % 2 ^ 64 in
    let d = mix c 14 in
    let e = (d + d * 2 ^ 2 + d * 2 ^ 4) % 2 ^ 64 in
    let f = mix e 28 in (f + f * 2 ^ 31) % 2 ^ 64 % 2 ^ 32
