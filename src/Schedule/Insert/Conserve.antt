-- ===== src/Schedule/Insert/Conserve.antt =====
-- The loop of `insert_block` loses no block and duplicates none.
use client.Base.{
  ◌+◌, ◌≤◌, ◌<◌, ◌≡◌, ◌≢◌, refl, ap, true, false, List, [], ◌∷◌, ◌==◌, if◌then◌else◌, arith, count,
  ◌∙◌,
}
use client.LinkedList.{Ptr}
use client.Schedule.{Status, Client, Interval}
use client.Schedule.Placed.{status_of}
use client.Schedule.Insert.Rounds.{superseded_of, Visited, visit-Visited}
use client.Schedule.Insert.{Visit, unlink, keep, return, Scan, keep_item, visit, scan}

-- What holds before a round of the loop, where the rest of the list is `l`.
pub record Before (s eb : Ptr) (l : List Ptr) (c : Client) : Type 0 where
  pub once : (p : Ptr) → count p l + count p (superseded_of s c) ≤ 1
  pub listed : (p : Ptr) → 0 < count p l → status_of p c ≡ Status.scheduled
  pub dropped :
      (p : Ptr) → 0 < count p (superseded_of s c) → status_of p c ≡ Status.schedule_superseded
  pub fresh : count eb l + count eb (superseded_of s c) ≡ 0
  pub entering : status_of eb c ≡ Status.scheduled

-- What holds after it.
pub record After (s eb : Ptr) (l : List Ptr) (c : Client) (r : Scan) : Type 0 where
  pub conserved :
      (p : Ptr)
      → count p r.kept + count p (superseded_of s r.client)
        ≡ count p l
          + count p (superseded_of s c)
          + (if r.finished then 0 else if p == eb then 1 else 0)
  pub listed : (p : Ptr) → 0 < count p r.kept → status_of p r.client ≡ Status.scheduled
  pub dropped :
      (p : Ptr)
      → 0 < count p (superseded_of s r.client)
      → status_of p r.client ≡ Status.schedule_superseded
  pub frame : (p : Ptr) → count p l ≡ 0 → p ≢ eb → status_of p r.client ≡ status_of p c
  pub entering : r.finished ≡ true → status_of eb r.client ≡ Status.scheduled
  pub active : (r.client.schedule s).active ≡ (c.schedule s).active

After-keep :
    (s eb e : Ptr) (l : List Ptr) (c d : Client) (r : Scan)
    → Before s eb (e ∷ l) c
    → Visited s eb e c (keep d)
    → After s eb l d r
    → After s eb (e ∷ l) c (keep_item e r)
After-keep s eb e l c d r b v a = record {
  conserved = λ p. omega (arith, a.conserved p, ap (λ t. count p (t s).superseded) v.1);
  listed = λ p h. ground (arith, a.listed p, a.frame p, b.listed p, v.0 p, b.once p, b.fresh);
  dropped = a.dropped;
  frame = λ p h n. a.frame p (omega arith) n ∙ v.0 p;
  entering = a.entering;
  active = a.active ∙ ap (λ t. (t s).active) v.1;
}

After-unlink :
    (s eb e : Ptr) (l : List Ptr) (c d : Client) (r : Scan)
    → Before s eb (e ∷ l) c
    → Visited s eb e c (unlink d)
    → After s eb l d r
    → After s eb (e ∷ l) c r
After-unlink s eb e l c d r b v a = record {
  conserved = λ p. omega (arith, a.conserved p, ap (count p) v.1);
  listed = a.listed;
  dropped = a.dropped;
  frame = λ p h n. a.frame p (omega arith) n ∙ ground (arith, v.0 p);
  entering = a.entering;
  active = a.active ∙ v.2;
}

After-return :
    (s eb e : Ptr) (l : List Ptr) (c d : Client)
    → Before s eb (e ∷ l) c
    → Visited s eb e c (return d)
    → After s eb (e ∷ l) c (record { kept = e ∷ l; client = d; finished = false })
After-return s eb e l c d b v = record {
  conserved = λ p. omega (arith, ap (count p) v.1);
  listed = λ p h. ground (arith, v.0 p, b.listed p h, b.fresh);
  dropped = λ p h. ground (arith, v.0 p, b.dropped p, ap (count p) v.1);
  frame = λ p h n. ground (arith, v.0 p);
  entering = λ f. cc;
  active = v.2;
}

Before-keep :
    (s eb e : Ptr) (l : List Ptr) (c d : Client)
    → Before s eb (e ∷ l) c
    → Visited s eb e c (keep d)
    → Before s eb l d
Before-keep s eb e l c d b v =
    let same = λ (p : Ptr). ap (λ t. count p (t s).superseded) v.1 in
    record {
      once = λ p. omega (arith, b.once p, same p);
      listed = λ p h. v.0 p ∙ b.listed p (omega arith);
      dropped = λ p h. v.0 p ∙ b.dropped p (omega (arith, same p));
      fresh = omega (arith, b.fresh, same eb);
      entering = v.0 eb ∙ b.entering;
    }

Before-unlink :
    (s eb e : Ptr) (l : List Ptr) (c d : Client)
    → Before s eb (e ∷ l) c
    → Visited s eb e c (unlink d)
    → Before s eb l d
Before-unlink s eb e l c d b v = record {
  once = λ p. omega (arith, b.once p, ap (count p) v.1);
  listed = λ p h. ground (arith, v.0 p, b.listed p, b.once p);
  dropped = λ p h. ground (arith, v.0 p, b.dropped p, ap (count p) v.1);
  fresh = ground (arith, b.fresh, ap (count eb) v.1);
  entering = ground (arith, v.0 eb, b.entering, b.fresh);
}

pub scan-After :
    (s eb : Ptr) (x : Interval) (l : List Ptr) (c : Client)
    → Before s eb l c
    → After s eb l c (scan s eb x l c)
unfolding scan
scan-After s eb x [] c b = record {
  conserved = λ p. omega arith;
  listed = λ p h. absurd (omega arith);
  dropped = b.dropped;
  frame = λ p h n. refl;
  entering = λ f. b.entering;
  active = refl;
}
scan-After s eb x (e ∷ l) c b =
    go (visit s eb x e c) (visit-Visited s eb x e c) (scan-After s eb x l)
  where
    go :
        (v : Visit)
        → Visited s eb e c v
        → ((d : Client) → Before s eb l d → After s eb l d (scan s eb x l d))
        → After s eb (e ∷ l) c (elim v [
          | unlink d ↦ scan s eb x l d
          | keep d ↦ keep_item e (scan s eb x l d)
          | return d ↦ record { kept = e ∷ l; client = d; finished = false }
        ])
    go (unlink d) v rest = After-unlink s eb e l c d _ b v (rest d (Before-unlink s eb e l c d b v))
    go (keep d) v rest = After-keep s eb e l c d _ b v (rest d (Before-keep s eb e l c d b v))
    go (return d) v rest = After-return s eb e l c d b v
