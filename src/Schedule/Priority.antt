-- ===== src/Schedule/Priority.antt =====
-- `block_supersede` of core/schedule.c divides the controls between two blocks.
use client.Base.{
  ℕ, ◌^◌, ◌<◌, ◌≡◌, ◌≢◌, refl, sym, ◌∙◌, ap, bit_and, false, ◌==◌, ◌||◌, if◌then◌else◌, arith,
  Bool-cases, inl, inr, ne→==, ==_self,
}
use client.Base.Bits.{and_complement_disjoint, bit_and_comm, bit_and-zero}
use client.LinkedList.{Ptr}
use client.Schedule.{Client, and_not, outranks, block_supersede}

and_not-disjoint : (x y : ℕ) → y < 2 ^ 32 → bit_and (and_not x y) y ≡ 0
unfolding and_not
and_not-disjoint x y h = and_complement_disjoint 32 x y h

-- Two blocks met: whichever outranks the other keeps its controls, no control stays with both,
-- and the first supersedes the second exactly when it outranks it and either has no controls at
-- all or leaves none to the second.
pub block_supersede-disjoint :
    (a b : Ptr) (c : Client)
    → a ≢ b
    → (c.block a).der < 2 ^ 32
    → (c.block b).der < 2 ^ 32
    → let r = block_supersede a b c in
      (bit_and (r.1.block a).der (r.1.block b).der ≡ 0)
      × ((if outranks c a b then (r.1.block a).der else (r.1.block b).der)
          ≡ (if outranks c a b then (c.block a).der else (c.block b).der))
      × (r.0 ≡ (if outranks c a b then ((c.block a).der == 0 || (r.1.block b).der == 0) else false))
unfolding block_supersede
block_supersede-disjoint a b c ne ha hb =
    let x = (c.block a).der in
    let y = (c.block b).der in
    let other = ne→== a b ne in
    let other' = ne→== b a (λ e. ne (sym e)) in
    elim (Bool-cases (outranks c a b)) [
      | inl wins ↦ elim (Bool-cases (x == 0)) [
        | inl free ↦
            rw (wins, free)
              (
                ap (λ t. bit_and t y) (let e : x ≡ 0 = ground arith in e)
                    ∙ bit_and_comm 0 y
                    ∙ bit_and-zero y,
                refl,
                refl,
              )
        | inr held ↦
            rw (wins, held, other, ==_self b)
              (bit_and_comm x (and_not y x) ∙ and_not-disjoint y x ha, refl, refl)
      ]
      | inr yields ↦ rw (yields, other', ==_self a) (and_not-disjoint x y hb, refl, refl)
    ]
