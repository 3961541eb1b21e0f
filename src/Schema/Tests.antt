-- ===== src/Schema/Tests.antt =====
-- Runs of core/schema.c.
use mathlib.Core.Path.{subst}
use client.Base.{
  ℕ, zero, suc, ◌<◌, ◌≡◌, ◌≢◌, refl, sym, ap, true, false, some, [], ◌∷◌, ◌||◌, get_elem?, arith,
}
use client.Schema.{SchemaElement, Schema, se_is_a}
use client.Schema.Derived.{IsAcyclic, Decides, se_is_a-Decides}

abbrev element : ℕ → ℕ → SchemaElement
element offset index = record {
  offset = offset;
  index = index;
  min = 0;
  max = 1;
  n = 1;
  bit = 0;
  attribute = false;
  simple = false;
  unbounded = false;
}

-- Two elements of the types at 2 and 3; the type at 3, of 24 bytes, derives from the one at 2.
abbrev some_schema : Schema
some_schema = record {
  length = 2;
  elements = element 0 2 ∷ element 0 3 ∷ element 8 0 ∷ element 24 2 ∷ [];
  names = [];
  ids = [];
}

abbrev IsType : ℕ → Type 0
IsType zero = ⊥
IsType (suc zero) = ⊥
IsType (suc (suc zero)) = Unit
IsType (suc (suc (suc zero))) = Unit
IsType (suc (suc (suc (suc i)))) = ⊥

abbrev rank : ℕ → ℕ
rank (suc (suc (suc zero))) = 1
rank _ = 0

some_type : (i : ℕ) → IsType i → (e : SchemaElement) × (get_elem? some_schema.elements i ≡ some e)
some_type zero h = absurd h
some_type (suc zero) h = absurd h
some_type (suc (suc zero)) h = (element 8 0, refl)
some_type (suc (suc (suc zero))) h = (element 24 2, refl)
some_type (suc (suc (suc (suc i)))) h = absurd h

some_base :
    (i : ℕ) (e : SchemaElement)
    → IsType i
    → get_elem? some_schema.elements i ≡ some e
    → e.index ≢ 0
    → IsType e.index × (rank e.index < rank i)
some_base zero e h s n = absurd h
some_base (suc zero) e h s n = absurd h
some_base (suc (suc zero)) e h s n =
    absurd (let same : element 8 0 ≡ e = cc in n (ap (λ t. t.index) (sym same)))
some_base (suc (suc (suc zero))) e h s n =
    let same : element 24 2 ≡ e = cc in
    subst (λ t. IsType t.index × (rank t.index < 1)) same (tt, omega arith)
some_base (suc (suc (suc (suc i)))) e h s n = absurd h

rank-lt : (i : ℕ) → IsType i → rank i < 2
rank-lt zero h = absurd h
rank-lt (suc zero) h = absurd h
rank-lt (suc (suc zero)) h = omega arith
rank-lt (suc (suc (suc zero))) h = omega arith
rank-lt (suc (suc (suc (suc i)))) h = absurd h

some_schema-IsAcyclic : IsAcyclic some_schema IsType rank
some_schema-IsAcyclic = record { bounded = rank-lt; element = some_type; base = some_base }

-- The second element is of a type that derives from the type of the first.
se_is_a-Decides_example :
    (((element 0 3).simple || (element 0 3).attribute) ≡ false
      → Decides some_schema 2 (element 0 3) (se_is_a (element 0 3) 0 some_schema))
    × (((element 0 3).simple || (element 0 3).attribute) ≡ true
        → se_is_a (element 0 3) 0 some_schema ≡ some false)
se_is_a-Decides_example =
    se_is_a-Decides some_schema IsType rank (element 0 3) (element 0 2) 0 some_schema-IsAcyclic refl
      (λ n. tt)

derived : se_is_a (element 0 3) 0 some_schema ≡ some true
unfolding se_is_a
derived = refl
