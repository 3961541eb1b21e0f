-- ===== src/Schema/Derived.antt =====
-- The types from which a type derives.
use mathlib.Core.Path.{subst}
use client.Base.{
  ℕ, zero, suc, ◌+◌, ◌≤◌, ◌<◌, ◌≡◌, ◌≢◌, sym, Bool, true, false, Option, none, some, ◌==◌, ◌||◌,
  get_elem?, arith, Bool-cases, ==_iff, ==_ne, inl, inr,
}
use client.Schema.{SchemaElement, Schema, derives, se_is_a}

-- The element's type is that of `base`, or derives from it in the table.
pub data DerivesFrom (schema : Schema) (base : ℕ) : SchemaElement → Type 0 where
  direct : (se : SchemaElement) → se.index ≢ 0 → se.index ≡ base → DerivesFrom schema base se
  further :
      (se next : SchemaElement)
      → se.index ≢ 0
      → get_elem? schema.elements se.index ≡ some next
      → DerivesFrom schema base next
      → DerivesFrom schema base se

-- A table in which every derivation ends: from the place of a type the next one has a smaller rank.
pub record IsAcyclic (schema : Schema) (IsType : ℕ → Type 0) (rank : ℕ → ℕ) : Type 0 where
  pub bounded : (i : ℕ) → IsType i → rank i < schema.length
  pub element : (i : ℕ) → IsType i → (e : SchemaElement) × (get_elem? schema.elements i ≡ some e)
  pub base :
      (i : ℕ) (e : SchemaElement)
      → IsType i
      → get_elem? schema.elements i ≡ some e
      → e.index ≢ 0
      → IsType e.index × (rank e.index < rank i)

-- The answer and what it means.
abbrev pub Decides : Schema → ℕ → SchemaElement → Option Bool → Type 0
Decides schema base se none = ⊥
Decides schema base se (some true) = DerivesFrom schema base se
Decides schema base se (some false) = ¬ DerivesFrom schema base se

not_root :
    (schema : Schema) (base : ℕ) (se : SchemaElement) → se.index ≡ 0 → ¬ DerivesFrom schema base se
not_root schema base se e (direct _ n _) = n e
not_root schema base se e (further _ next n _ _) = n e

not_further :
    (schema : Schema) (base : ℕ) (se next : SchemaElement)
    → se.index ≢ base
    → get_elem? schema.elements se.index ≡ some next
    → ¬ DerivesFrom schema base next
    → ¬ DerivesFrom schema base se
not_further schema base se next other e h (direct _ n same) = other same
not_further schema base se next other e h (further _ next' n e' d) =
    let same : next ≡ next' = ground (arith, e, e') in
    h (subst (DerivesFrom schema base) (sym same) d)

Decides-further :
    (schema : Schema) (base : ℕ) (se next : SchemaElement) (r : Option Bool)
    → se.index ≢ 0
    → se.index ≢ base
    → get_elem? schema.elements se.index ≡ some next
    → Decides schema base next r
    → Decides schema base se r
Decides-further schema base se next none n other e h = h
Decides-further schema base se next (some true) n other e h = further se next n e h
Decides-further schema base se next (some false) n other e h =
    not_further schema base se next other e h

module _ (schema : Schema) (IsType : ℕ → Type 0) (rank : ℕ → ℕ)
    (acyclic : IsAcyclic schema IsType rank) where
  derives-Decides :
      (fuel base : ℕ) (se : SchemaElement)
      → 1 ≤ fuel
      → (se.index ≢ 0 → IsType se.index × (rank se.index + 1 < fuel))
      → Decides schema base se (derives fuel schema se base)
  unfolding derives
  derives-Decides zero base se l h = absurd (omega arith)
  derives-Decides (suc fuel) base se l h = elim (Bool-cases (se.index == 0)) [
    | inl z ↦ rw z (not_root schema base se ((==_iff _ _).0 z))
    | inr n ↦ elim (Bool-cases (se.index == base)) [
      | inl same ↦ rw (n, same) (direct se (==_ne _ _ n) ((==_iff _ _).0 same))
      | inr other ↦
          let (type, below) = h (==_ne _ _ n) in
          let (next, e) = acyclic.element se.index type in
          rw (n, other, e)
            (Decides-further schema base se next (derives fuel schema next base) (==_ne _ _ n)
              (==_ne _ _ other) e
              (derives-Decides fuel base next (omega (arith, below)) (λ more.
                let later = acyclic.base se.index next type e more in
                (later.0, omega (arith, below, later.1)))))
    ]
  ]

-- In a table in which every derivation ends, `se_is_a` gives an answer for an element of a type of
-- the table and a type of the table; for an element that is neither simple nor an attribute, it is
-- whether the element's type is the given one or derives from it, and for the others it is no.
pub se_is_a-Decides :
    (schema : Schema) (IsType : ℕ → Type 0) (rank : ℕ → ℕ) (se b : SchemaElement) (base : ℕ)
    → IsAcyclic schema IsType rank
    → get_elem? schema.elements base ≡ some b
    → (se.index ≢ 0 → IsType se.index)
    → ((se.simple || se.attribute) ≡ false → Decides schema b.index se (se_is_a se base schema))
      × ((se.simple || se.attribute) ≡ true → se_is_a se base schema ≡ some false)
unfolding se_is_a
se_is_a-Decides schema IsType rank se b base acyclic e type = (
  λ complex.
      rw (e, se_is_a)
        (rw complex (
          derives-Decides schema IsType rank acyclic (suc schema.length) b.index se (omega arith)
            (λ n. (type n, omega (arith, acyclic.bounded se.index (type n)))))),
  λ plain. rw (e, se_is_a) (rw plain),
)
