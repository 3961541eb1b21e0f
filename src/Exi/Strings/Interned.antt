-- ===== src/Exi/Strings/Interned.antt =====
-- What the string tables hold.
use client.Base.{
  ℕ, zero, suc, ◌-◌, ◌^◌, ◌≤◌, ◌<◌, ◌≡◌, refl, sym, ap, true, false, some, List, [], ◌∷◌, ◌==◌,
  length, get_elem?, arith, Bool-cases, Option-cases, inl, inr,
}
use client.Text.{Text, streq, bit_count}
use client.Text.Width.{bit_count-fits}
use client.Utf8.{Bytes}
use client.Exi.Strings.{StringTable, find_string_in, find_string}

pub streq→eq : (a b : Text) → streq a b ≡ true → a ≡ b
streq→eq [] [] e = refl
streq→eq [] (y ∷ b) e = absurd (ground arith)
streq→eq (x ∷ a) [] e = absurd (ground arith)
streq→eq (x ∷ a) (y ∷ b) e = ground (arith, streq→eq a b)

-- The number that `find_string` gives is the place of the string.
find_string_in-some :
    (strings : List Bytes) (s : Bytes) (i : ℕ)
    → find_string_in strings s ≡ some i
    → (get_elem? strings i ≡ some s) × (i < length strings)
unfolding find_string_in
find_string_in-some [] s i e = absurd (ground arith)
find_string_in-some (t ∷ rest) s zero e = elim (Bool-cases (streq s t)) [
  | inl same ↦ (ap some (sym (streq→eq s t same)), omega arith)
  | inr other ↦ elim (Option-cases (find_string_in rest s)) [
    | inl absent ↦ absurd (ground arith)
    | inr (j, found) ↦ absurd (ground arith)
  ]
]
find_string_in-some (t ∷ rest) s (suc i) e = elim (Bool-cases (streq s t)) [
  | inl same ↦ absurd (ground arith)
  | inr other ↦
      let found : find_string_in rest s ≡ some i = ground arith in
      let later = find_string_in-some rest s i found in (later.0, omega (arith, later.1))
]

-- The number and the width of a compact id.
pub find_string-compact_id :
    (t : StringTable) (s : Bytes) (i : ℕ)
    → length t.strings ≤ 2 ^ 24
    → find_string t s ≡ some i
    → (get_elem? t.strings i ≡ some s)
      × (i < 2 ^ bit_count (length t.strings - 1))
      × (bit_count (length t.strings - 1) ≤ 24)
      × ((length t.strings == 0) ≡ false)
unfolding find_string
find_string-compact_id t s i few e =
    let found = find_string_in-some t.strings s i e in
    let fits = bit_count-fits (length t.strings - 1) 24 in
    (
      found.0,
      omega (arith, found.1, fits.0 (omega (arith, few))),
      fits.1 (omega (arith, found.1)),
      ground (arith, found.1),
    )
