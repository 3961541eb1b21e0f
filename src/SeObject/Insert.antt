-- ===== src/SeObject/Insert.antt =====
-- `insert_se_object` of core/se_object.c.
use client.Base.{
  ℕ, ◌≤◌, ◌<◌, ◌≡◌, refl, ap, List, [], ◌∷◌, ◌++◌, ltb, arith, All, All-mono, Bool-cases, inl, inr,
}
use client.SeObject.{Object, Key, compare_keys, is_positive, insert_se_object}
use client.SeObject.Keys.{program_keys, program_rank, compare_keys-program_rank}

-- No object has a place before that of an earlier one.
abbrev pub IsSorted : (Object → ℕ) → List Object → Type 0
IsSorted rank [] = Unit {0}
IsSorted rank (x ∷ l) = All (λ y. rank x ≤ rank y) l × IsSorted rank l

-- The list with the object at some place.
abbrev pub WithObject : List Object → Object → List Object → Type 0
WithObject l n r = (before after : List Object) × (l ≡ before ++ after) × (r ≡ before ++ n ∷ after)

pub insert_se_object-WithObject :
    (l : List Object) (n : Object) (keys : List Key) → WithObject l n (insert_se_object l n keys)
unfolding insert_se_object
insert_se_object-WithObject [] n keys = ([], [], refl, refl)
insert_se_object-WithObject (x ∷ l) n keys =
    let (before, after, same, put) = insert_se_object-WithObject l n keys in
    elim (Bool-cases (is_positive (compare_keys n x keys))) [
      | inl e ↦ (x ∷ before, after, ap (λ t. x ∷ t) same, rw e (ap (λ t. x ∷ t) put))
      | inr e ↦ ([], x ∷ l, refl, rw e)
    ]

module _ (keys : List Key) (rank : Object → ℕ) (P : Object → Type 0)
    (ordered : (a b : Object)
      → P a
      → P b
      → is_positive (compare_keys a b keys) ≡ ltb (rank b) (rank a)) where
  All-insert_se_object :
      (Q : Object → Type 0) (l : List Object) (n : Object)
      → Q n
      → All Q l
      → All Q (insert_se_object l n keys)
  unfolding insert_se_object
  All-insert_se_object Q [] n q h = (q, tt)
  All-insert_se_object Q (x ∷ l) n q h = elim (Bool-cases (is_positive (compare_keys n x keys))) [
    | inl e ↦ rw e (h.0, All-insert_se_object Q l n q h.1)
    | inr e ↦ rw e (q, h)
  ]

  pub insert_se_object-IsSorted :
      (l : List Object) (n : Object)
      → P n
      → All P l
      → IsSorted rank l
      → IsSorted rank (insert_se_object l n keys)
  unfolding insert_se_object
  insert_se_object-IsSorted [] n p h s = (tt, tt)
  insert_se_object-IsSorted (x ∷ l) n p h s =
      let order = ordered n x p h.0 in
      elim (Bool-cases (is_positive (compare_keys n x keys))) [
        | inl e ↦
            let below : rank x ≤ rank n = ground (arith, order, e) in
            rw e (
              All-insert_se_object (λ y. rank x ≤ rank y) l n below s.0,
              insert_se_object-IsSorted l n p h.1 s.1,
            )
        | inr e ↦
            let below : rank n ≤ rank x = ground (arith, order, e) in
            rw e ((below, All-mono l (λ y k. omega arith) s.0), s)
      ]

-- A list of programs, given by their bytes, that is sorted by its keys (`primacy` in ascending
-- order, and `mRID`, as a number with its lowest byte first, in descending order) is sorted after
-- `insert_se_object`, and has the new program in addition, at some place, and else the same
-- programs in the same order.
pub insert_se_object-program :
    (primacy m_rid : ℕ) (l : List Object) (n : Object)
    → All (λ c. c < 256) n
    → All (λ a. All (λ c. c < 256) a) l
    → IsSorted (program_rank primacy m_rid) l
    → IsSorted (program_rank primacy m_rid) (insert_se_object l n (program_keys primacy m_rid))
      × WithObject l n (insert_se_object l n (program_keys primacy m_rid))
insert_se_object-program primacy m_rid l n p h s = (
  insert_se_object-IsSorted (program_keys primacy m_rid) (program_rank primacy m_rid)
      (λ a. All (λ c. c < 256) a) (compare_keys-program_rank primacy m_rid) l n p h s,
  insert_se_object-WithObject l n (program_keys primacy m_rid),
)
