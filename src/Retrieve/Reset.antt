-- ===== src/Retrieve/Reset.antt =====
-- `dep_reset` of core/retrieve.c, which follows the dependents of a resource that is updated.
use client.Base.{
  ℕ, zero, suc, ◌<◌, ◌≡◌, refl, ◌∙◌, ap, false, Option, none, some, List, [], ◌∷◌, if◌then◌else◌,
  bit_or, arith, All, All-mono,
}
use client.LinkedList.{Ptr, list_delete}
use client.Retrieve.{Client, set_stub}
use client.Retrieve.Update.{reset_deps, dep_reset}
use client.Retrieve.Dependencies.{IsRanked}

-- What a step of a reset keeps.
pub record Cleared (c d : Client) : Type 0 where
  pub deps : (q : Ptr) → (d.stub q).deps ≡ (c.stub q).deps
  pub incomplete : (q : Ptr) → (c.stub q).complete ≡ false → (d.stub q).complete ≡ false

Cleared-trans : {c d e : Client} → Cleared c d → Cleared d e → Cleared c e
Cleared-trans a b = record {
  deps = λ q. b.deps q ∙ a.deps q;
  incomplete = λ q h. b.incomplete q (a.incomplete q h);
}

-- The result of a reset of `s`.
pub record Resets (s : Ptr) (c : Client) (r : Option Client) : Type 0 where
  pub after : Client
  pub returns : r ≡ some after
  pub cleared : Cleared c after
  pub incomplete : (after.stub s).complete ≡ false
  pub dependents : All (λ d. (after.stub d).complete ≡ false) (c.stub s).deps

-- The result of the loop over `l`.
record Loop (l : List Ptr) (c : Client) (r : Option Client) : Type 0 where
  after : Client
  returns : r ≡ some after
  cleared : Cleared c after
  dependents : All (λ d. (after.stub d).complete ≡ false) l

-- A dependent before the reset reaches it.
touched : Ptr → Ptr → Client → Client
touched s d c =
    let x = c.stub d in
    let y =
      if x.is_list
      then record x { reqs = list_delete x.reqs s }
      else record x { flags = bit_or x.flags (c.stub s).flag } in
    set_stub d y c

touched-Cleared : (s d : Ptr) (c : Client) → Cleared c (touched s d c)
unfolding touched
touched-Cleared s d c = record { deps = λ q. ground arith; incomplete = λ q h. ground arith }

reset_deps-cons :
    (reset : Ptr → Client → Option Client) (s d : Ptr) (l : List Ptr) (c after : Client)
    → reset d (touched s d c) ≡ some after
    → reset_deps reset s (d ∷ l) c ≡ reset_deps reset s l after
unfolding reset_deps touched
reset_deps-cons reset s d l c after e =
    ap {B = Option Client} (λ r. elim r [ none ↦ none | some c' ↦ reset_deps reset s l c' ]) e

module _ (rank : Ptr → ℕ) where
  IsRanked-kept : {c d : Client} → Cleared c d → IsRanked rank c → IsRanked rank d
  IsRanked-kept k h q = rw (k.deps q) (h q)

  all_end :
      (n : ℕ) (reset : Ptr → Client → Option Client)
      → ((d : Ptr) (c : Client) → rank d < n → IsRanked rank c → Resets d c (reset d c))
      → (s : Ptr) (l : List Ptr) (c : Client) → All (λ d. rank d < n) l
      → IsRanked rank c
      → Loop l c (reset_deps reset s l c)
  unfolding reset_deps
  all_end n reset resets s [] c low ranked = record {
    after = c;
    returns = refl;
    cleared = record { deps = λ q. refl; incomplete = λ q h. h };
    dependents = tt;
  }
  all_end n reset resets s (d ∷ l) c low ranked =
      let k = touched-Cleared s d c in
      let a = resets d (touched s d c) low.0 (IsRanked-kept k ranked) in
      let k2 = Cleared-trans k a.cleared in
      let b = all_end n reset resets s l a.after low.1 (IsRanked-kept k2 ranked) in
      record {
        after = b.after;
        returns = reset_deps-cons reset s d l c a.after a.returns ∙ b.returns;
        cleared = Cleared-trans k2 b.cleared;
        dependents = (b.cleared.incomplete d a.incomplete, b.dependents);
      }

  abbrev uncompleted : Ptr → Client → Client
  uncompleted s c = set_stub s (record (c.stub s) { complete = false }) c

  uncompleted-Cleared : (s : Ptr) (c : Client) → Cleared c (uncompleted s c)
  uncompleted-Cleared s c = record { deps = λ q. ground arith; incomplete = λ q h. ground arith }

  result_ends :
      (fuel : ℕ) (s : Ptr) (c : Client)
      → Loop
          (c.stub s).deps
          (uncompleted s c)
          (reset_deps (dep_reset fuel) s (c.stub s).deps (uncompleted s c))
      → Resets s c (dep_reset (suc fuel) s c)
  unfolding dep_reset
  result_ends fuel s c r = record {
    after = r.after;
    returns = r.returns;
    cleared = Cleared-trans (uncompleted-Cleared s c) r.cleared;
    incomplete = r.cleared.incomplete s (ground arith);
    dependents = r.dependents;
  }

  -- Where the links have no cycle, `dep_reset` returns once the fuel exceeds the resource's rank.
  -- Then neither the resource nor any of its dependents is complete; no link has changed, and no
  -- other resource has become complete.
  pub dep_reset-Resets :
      (fuel : ℕ) (s : Ptr) (c : Client)
      → rank s < fuel
      → IsRanked rank c
      → Resets s c (dep_reset fuel s c)
  dep_reset-Resets zero s c low ranked = absurd (omega arith)
  dep_reset-Resets (suc fuel) s c low ranked =
      let k = uncompleted-Cleared s c in
      let below : All (λ d. rank d < fuel) (c.stub s).deps =
        All-mono (c.stub s).deps (λ d h. omega (arith, h, low)) (ranked s) in
      result_ends fuel s c (
        all_end fuel (dep_reset fuel) (λ d x a b. dep_reset-Resets fuel d x a b) s (c.stub s).deps
          (uncompleted s c) below (IsRanked-kept k ranked))
