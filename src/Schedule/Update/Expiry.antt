-- ===== src/Schedule/Update/Expiry.antt =====
-- The first loop of `update_schedule` of core/schedule.c: active blocks that have run to their end.
use client.Base.{
  ℕ, ◌≡◌, refl, ◌∙◌, ap, true, false, List, [], ◌∷◌, ◌==◌, ltb, leb, if◌then◌else◌, arith, count,
  Bool-cases, inl, inr,
}
use client.LinkedList.{Ptr}
use client.Schedule.{Status, Client, device_response}
use client.Schedule.Placed.{status_of}
use client.Schedule.Update.{Sweep, sweep, complete_block, sweep_active}

-- The blocks in front that end by now, those behind, and the end of the first of these.
abbrev pub expired : Client → List Ptr → List Ptr
expired c [] = []
expired c (a ∷ l) = let rest = expired c l in if leb (c.block a).finish c.now then a ∷ rest else []

abbrev pub remaining : Client → List Ptr → List Ptr
remaining c [] = []
remaining c (a ∷ l) =
    let rest = remaining c l in if leb (c.block a).finish c.now then rest else a ∷ l

abbrev pub first_end : Client → List Ptr → ℕ
first_end c [] = 0
first_end c (a ∷ l) = (c.block a).finish

-- Ends, the clock and the schedules are the same.
record Same (c d : Client) : Type 0 where
  ends : (p : Ptr) → (d.block p).finish ≡ (c.block p).finish
  clock : d.now ≡ c.now
  lists : d.schedule ≡ c.schedule

complete-Same : (s eb : Ptr) (c : Client) → Same c (complete_block s eb c)
unfolding complete_block device_response
complete-Same s eb c = record {
  ends = λ p. ground arith;
  clock = ground arith;
  lists = ground arith;
}

complete-status :
    (s eb p : Ptr) (c : Client)
    → status_of p (complete_block s eb c) ≡ (if p == eb then Status.completed else status_of p c)
unfolding complete_block device_response
complete-status s eb p c = ground arith

module _ (c d : Client) (same : Same c d) where
  expired-same : (l : List Ptr) → expired d l ≡ expired c l
  expired-same [] = refl
  expired-same (a ∷ l) = rw (same.ends a, same.clock, expired-same l)

  remaining-same : (l : List Ptr) → remaining d l ≡ remaining c l
  remaining-same [] = refl
  remaining-same (a ∷ l) = rw (same.ends a, same.clock, remaining-same l)

  first_end-same : (l : List Ptr) → first_end d l ≡ first_end c l
  first_end-same [] = refl
  first_end-same (a ∷ l) = same.ends a

-- What the loop leaves of the list `l`.
pub record Swept (l : List Ptr) (c : Client) (r : Sweep) : Type 0 where
  pub left : r.left ≡ remaining c l
  pub last : r.last ≡ first_end c (remaining c l)
  pub status :
      (p : Ptr)
      → status_of p r.client
        ≡ (if ltb 0 (count p (expired c l)) then Status.completed else status_of p c)
  pub lists : r.client.schedule ≡ c.schedule

sweep_over :
    (s a : Ptr) (l : List Ptr) (c : Client)
    → leb (c.block a).finish c.now ≡ true
    → sweep_active s (a ∷ l) c ≡ sweep_active s l (complete_block s a c)
unfolding sweep_active
sweep_over s a l c over = rw (over, sweep_active)

sweep_later :
    (s a : Ptr) (l : List Ptr) (c : Client)
    → leb (c.block a).finish c.now ≡ false
    → sweep_active s (a ∷ l) c ≡ sweep (a ∷ l) (c.block a).finish c
unfolding sweep_active
sweep_later s a l c later = rw (later, sweep_active)

-- The loop over the active blocks stops at the first one that ends later than now: it keeps that
-- one and those behind it and yields its end, or 0 where none is left; exactly the blocks in front
-- of it are completed, every other status is the same, and so are the lists of all schedules.
pub sweep_active-Swept : (s : Ptr) (l : List Ptr) (c : Client) → Swept l c (sweep_active s l c)
sweep_active-Swept s [] c =
    unfold sweep_active in record { left = refl; last = refl; status = λ p. refl; lists = refl }
sweep_active-Swept s (a ∷ l) c = elim (Bool-cases (leb (c.block a).finish c.now)) [
  | inl over ↦
      let d = complete_block s a c in
      let same = complete-Same s a c in
      let rest = sweep_active-Swept s l d in
      rw (sweep_over s a l c over) (record {
        left = rw over (rest.left ∙ remaining-same c d same l);
        last = rw over (
            rest.last
            ∙ ap (first_end d) (remaining-same c d same l)
            ∙ first_end-same c d same (remaining c l));
        status = λ p. ground (
          arith,
          over,
          rest.status p,
          complete-status s a p c,
          ap (count p) (expired-same c d same l),
        );
        lists = rest.lists ∙ same.lists;
      })
  | inr later ↦
      rw (sweep_later s a l c later)
        (record { left = rw later; last = rw later; status = λ p. rw later; lists = refl })
]
