-- ===== src/Schedule/Active/Survivors.antt =====
-- The loop of `insert_active` over the active blocks.
use client.Base.{
  ◌≤◌, ◌<◌, ◌≡◌, ◌≢◌, refl, sym, ◌∙◌, ap, Bool, true, false, List, [], ◌∷◌, ◌⊎◌, if◌then◌else◌,
  arith, count, inl, inr,
}
use client.LinkedList.{Ptr}
use client.Schedule.{Status, Client}
use client.Schedule.Placed.{status_of}
use client.Schedule.Active.{meet, meet_all}
use client.Schedule.Active.Supersede.{SameLists, Ended, Shared, Yielded, Met, meet-Met}

abbrev pub is_superseded : Status → Bool
is_superseded Status.superseded = true
is_superseded _ = false

-- The part of the list behind its last superseded block; `all` where none is.
abbrev pub behind_superseded : Client → List Ptr → List Ptr → List Ptr
behind_superseded c [] all = all
behind_superseded c (a ∷ l) all =
    behind_superseded c l (if is_superseded (status_of a c) then l else all)

behind-none :
    (c : Client) (l all : List Ptr)
    → ((p : Ptr) → 0 < count p l → is_superseded (status_of p c) ≡ false)
    → behind_superseded c l all ≡ all
behind-none c [] all h = refl
behind-none c (a ∷ l) all h =
    rw (h a (ground arith)) (behind-none c l all (λ p k. h p (omega arith)))

-- What holds when the loop has reached the rest `l` of the list.
pub record Running (eb : Ptr) (l : List Ptr) (c : Client) : Type 0 where
  pub once : (p : Ptr) → count p l ≤ 1
  pub fresh : count eb l ≡ 0
  pub live : (p : Ptr) → 0 < count p l → is_superseded (status_of p c) ≡ false

pub record Looped (s eb : Ptr) (l : List Ptr) (c : Client) (r : Bool × Client) : Type 0 where
  pub frame : (p : Ptr) → count p l ≡ 0 → p ≢ eb → status_of p r.1 ≡ status_of p c
  pub new_block : status_of eb r.1 ≡ (if r.0 then status_of eb c else Status.superseded)
  pub met :
      (p : Ptr)
      → 0 < count p l
      → (status_of p r.1 ≡ status_of p c) ⊎ (status_of p r.1 ≡ Status.superseded)
  pub lists : SameLists s (behind_superseded r.1 l (c.schedule s).active) c r.1

Running-rest :
    (eb a : Ptr) (l : List Ptr) (c d : Client)
    → Running eb (a ∷ l) c
    → ((p : Ptr) → p ≢ a → status_of p d ≡ status_of p c)
    → Running eb l d
Running-rest eb a l c d b same = record {
  once = λ p. omega (arith, b.once p);
  fresh = omega (arith, b.fresh);
  live = λ p h. ground (arith, b.live p, b.once p, same p);
}

Looped-Ended :
    (s eb a : Ptr) (l : List Ptr) (c d : Client) (r : Bool × Client)
    → Running eb (a ∷ l) c
    → Ended s a l c d
    → Looped s eb l d r
    → Looped s eb (a ∷ l) c r
Looped-Ended s eb a l c d r b e o =
    let last : status_of a r.1 ≡ Status.superseded =
      o.frame a (ground (arith, b.once a)) (ground (arith, b.fresh)) ∙ ground (arith, e.0 a) in
    record {
      frame = λ p h n. o.frame p (omega arith) n ∙ ground (arith, e.0 p);
      new_block = ground (arith, o.new_block, e.0 eb, b.fresh);
      met = λ p h. ground (arith, o.met p, o.frame p, e.0 p, last, b.fresh, b.once p);
      lists = record {
        scheduled = o.lists.scheduled ∙ e.1.scheduled;
        active_is = rw last (o.lists.active_is ∙ ap (behind_superseded r.1 l) e.1.active_is);
        superseded = o.lists.superseded ∙ e.1.superseded;
      };
    }

Looped-Shared :
    (s eb a : Ptr) (l : List Ptr) (c d : Client) (r : Bool × Client)
    → Running eb (a ∷ l) c
    → Shared s c d
    → Looped s eb l d r
    → Looped s eb (a ∷ l) c r
Looped-Shared s eb a l c d r b e o =
    let same : status_of a r.1 ≡ status_of a c =
      o.frame a (ground (arith, b.once a)) (ground (arith, b.fresh)) ∙ e.0 a in
    let live : is_superseded (status_of a r.1) ≡ false =
      ap is_superseded same ∙ b.live a (ground arith) in
    record {
      frame = λ p h n. o.frame p (omega arith) n ∙ e.0 p;
      new_block = ground (arith, o.new_block, e.0 eb);
      met = λ p h. ground (arith, o.met p, o.frame p, e.0 p, b.fresh);
      lists = record {
        scheduled = o.lists.scheduled ∙ e.1.scheduled;
        active_is = rw live (o.lists.active_is ∙ ap (behind_superseded r.1 l) e.1.active_is);
        superseded = o.lists.superseded ∙ e.1.superseded;
      };
    }

Looped-Yielded :
    (s eb : Ptr) (l : List Ptr) (c d : Client)
    → Running eb l c
    → Yielded s eb c d
    → Looped s eb l c (false, d)
Looped-Yielded s eb l c d b e = record {
  frame = λ p h n. ground (arith, e.0 p);
  new_block = ground (arith, e.0 eb);
  met = λ p h. inl (ground (arith, e.0 p, b.fresh));
  lists = record {
    scheduled = e.1.scheduled;
    active_is =
        e.1.active_is ∙ sym (behind-none d l _ (λ p h. ground (arith, e.0 p, b.fresh, b.live p h)));
    superseded = e.1.superseded;
  };
}

-- The loop of `insert_active` over the active blocks `l`: a block that it meets is superseded or
-- keeps its status, the new block is superseded exactly when the loop is left early, the
-- `scheduled` and the `superseded` list are the same, and of the active list it leaves what stood
-- behind the last block that it superseded, or all of it where it superseded none.
pub meet_all-Looped :
    (s eb : Ptr) (l : List Ptr) (c : Client) → Running eb l c → Looped s eb l c (meet_all s eb l c)
unfolding meet_all
meet_all-Looped s eb [] c b = record {
  frame = λ p h n. refl;
  new_block = refl;
  met = λ p h. absurd (omega arith);
  lists = record { scheduled = refl; active_is = refl; superseded = refl };
}
meet_all-Looped s eb (a ∷ l) c b =
    go (meet s eb a l c) (meet-Met s eb a l c) (meet_all-Looped s eb l)
  where
    go :
        (r : Bool × Client)
        → Met s eb a l c r
        → ((d : Client) → Running eb l d → Looped s eb l d (meet_all s eb l d))
        → Looped s eb (a ∷ l) c (elim r.0 [ true ↦ meet_all s eb l r.1 | false ↦ r ])
    go (true, d) (inl e) rest =
        Looped-Ended s eb a l c d _ b e
          (rest d (Running-rest eb a l c d b (λ p n. ground (arith, e.0 p))))
    go (true, d) (inr e) rest =
        Looped-Shared s eb a l c d _ b e (rest d (Running-rest eb a l c d b (λ p n. e.0 p)))
    go (false, d) e rest = Looped-Yielded s eb (a ∷ l) c d b e
