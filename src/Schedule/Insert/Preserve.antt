-- ===== src/Schedule/Insert/Preserve.antt =====
-- `insert_block` keeps the lists of the schedule in order.
use client.Base.{
  ◌+◌, ◌≤◌, ◌<◌, ◌≡◌, ◌≢◌, refl, ◌∙◌, ap, Bool, true, false, ◌==◌, if◌then◌else◌, arith, count, ◌⊎◌,
}
use client.LinkedList.{Ptr}
use client.LinkedList
use client.LinkedList.Sorted.{count-insert_sorted}
use client.Schedule.{Status, Client, event_interval, update_self, compare_start}
use client.Schedule.Placed.{status_of, IsPlaced, IsUnlisted}
use client.Schedule.Insert.Rounds.{superseded_of}
use client.Schedule.Insert.Conserve.{Before, After, scan-After}
use client.Schedule.Insert.{Scan, enter, finish_insert, insert_block}

enter-status :
    (eb p : Ptr) (c : Client)
    → status_of p (enter eb c) ≡ (if p == eb then Status.scheduled else status_of p c)
unfolding enter
enter-status eb p c = ground arith

enter-schedule : (eb : Ptr) (c : Client) → (enter eb c).schedule ≡ c.schedule
unfolding enter
enter-schedule eb c = refl

-- What `finish_insert` does to the lists.
finish-lists :
    (s eb p : Ptr) (r : Scan)
    → (count p ((finish_insert s eb r).schedule s).scheduled
        ≡ count p r.kept + (if r.finished then (if p == eb then 1 else 0) else 0))
      × (superseded_of s (finish_insert s eb r) ≡ superseded_of s r.client)
      × (((finish_insert s eb r).schedule s).active ≡ (r.client.schedule s).active)
      × (status_of p (finish_insert s eb r) ≡ status_of p r.client)
unfolding finish_insert
finish-lists s eb p r =
    let t = r.client.schedule s in
    let placed = LinkedList.insert_sorted r.kept eb (compare_start r.client) in
    let u = record t { scheduled = if r.finished then placed else r.kept } in
    let stored = update_self r.client.schedule s u in
    (
      ap (λ v. count p v.scheduled) stored ∙ counted r.finished,
      ap (λ v. v.superseded) stored,
      ap (λ v. v.active) stored,
      refl,
    )
  where
    counted :
        (b : Bool)
        → count p
            (if b then LinkedList.insert_sorted r.kept eb (compare_start r.client) else r.kept)
          ≡ count p r.kept + (if b then (if p == eb then 1 else 0) else 0)
    counted true = omega (arith, count-insert_sorted r.kept eb p (compare_start r.client))
    counted false = omega arith

-- The scheduled and the superseded blocks after the insertion are those before it and `eb`.
abbrev pub Inserted : Ptr → Ptr → Client → Client → Type 0
Inserted s eb c d =
    ((p : Ptr)
      → count p (d.schedule s).scheduled + count p (d.schedule s).superseded
        ≡ count p (c.schedule s).scheduled
          + count p (c.schedule s).superseded
          + (if p == eb then 1 else 0))
    × ((d.schedule s).active ≡ (c.schedule s).active)

enter-superseded :
    (s eb p : Ptr) (c : Client)
    → count p (superseded_of s (enter eb c)) ≡ count p (superseded_of s c)
enter-superseded s eb p c = ap (λ t. count p (t s).superseded) (enter-schedule eb c)

entered-Before :
    (s eb : Ptr) (c : Client)
    → IsPlaced s c
    → IsUnlisted s eb c
    → Before s eb (c.schedule s).scheduled (enter eb c)
entered-Before s eb c v out = record {
  once = λ p. omega (arith, v.once p, enter-superseded s eb p c);
  listed = λ p h. ground (arith, enter-status eb p c, v.in_scheduled p h, out);
  dropped =
      λ p h. ground (arith, enter-status eb p c, v.in_superseded p, out, enter-superseded s eb p c);
  fresh = omega (arith, out, enter-superseded s eb eb c);
  entering = ground (arith, enter-status eb eb c);
}

module _ (s eb : Ptr) (c : Client) (r : Scan) (v : IsPlaced s c) (out : IsUnlisted s eb c)
    (a : After s eb (c.schedule s).scheduled (enter eb c) r) where
  active_same : ((finish_insert s eb r).schedule s).active ≡ (c.schedule s).active
  active_same = (finish-lists s eb eb r).2 ∙ a.active ∙ ap (λ t. (t s).active) (enter-schedule eb c)

  inserted_count :
      (p : Ptr)
      → count p ((finish_insert s eb r).schedule s).scheduled
          + count p ((finish_insert s eb r).schedule s).superseded
        ≡ count p (c.schedule s).scheduled
          + count p (c.schedule s).superseded
          + (if p == eb then 1 else 0)
  inserted_count p =
      let l = finish-lists s eb p r in
      ground (arith, l.0, ap (count p) l.1, a.conserved p, enter-superseded s eb p c)

  after-once :
      (p : Ptr)
      → count p ((finish_insert s eb r).schedule s).scheduled
          + count p ((finish_insert s eb r).schedule s).active
          + count p ((finish_insert s eb r).schedule s).superseded
        ≤ 1
  after-once p = ground (arith, inserted_count p, ap (count p) active_same, v.once p, out)

  after-scheduled :
      (p : Ptr)
      → 0 < count p ((finish_insert s eb r).schedule s).scheduled
      → status_of p (finish_insert s eb r) ≡ Status.scheduled
  after-scheduled p h =
      let l = finish-lists s eb p r in ground (arith, l.0, l.3, a.listed p, a.entering)

  after-active :
      (p : Ptr)
      → 0 < count p ((finish_insert s eb r).schedule s).active
      → (status_of p (finish_insert s eb r) ≡ Status.active)
        ⊎ (status_of p (finish_insert s eb r) ≡ Status.active_wait)
  after-active p h =
      let listed : 0 < count p (c.schedule s).active = omega (arith, h, ap (count p) active_same) in
      let other : p ≢ eb = ground (arith, out) in
      let same = (finish-lists s eb p r).3 ∙ a.frame p (omega (arith, v.once p)) other in
      ground (arith, same, enter-status eb p c, v.in_active p listed)

  after-superseded :
      (p : Ptr)
      → 0 < count p ((finish_insert s eb r).schedule s).superseded
      → status_of p (finish_insert s eb r) ≡ Status.schedule_superseded
  after-superseded p h =
      let l = finish-lists s eb p r in l.3 ∙ a.dropped p (omega (arith, h, ap (count p) l.1))

  IsPlaced-After : IsPlaced s (finish_insert s eb r) × Inserted s eb c (finish_insert s eb r)
  IsPlaced-After = (
    record {
      once = after-once;
      in_scheduled = after-scheduled;
      in_active = after-active;
      in_superseded = after-superseded;
    },
    (inserted_count, active_same),
  )

-- A block in none of the lists, inserted in a schedule whose lists are in order, leaves them in
-- order; the scheduled and the superseded blocks are then those of before and the new one, each
-- once, and the active blocks are the same.
pub insert_block-IsPlaced :
    (s eb : Ptr) (c : Client)
    → IsPlaced s c
    → IsUnlisted s eb c
    → IsPlaced s (insert_block s eb c) × Inserted s eb c (insert_block s eb c)
unfolding insert_block
insert_block-IsPlaced s eb c v out = IsPlaced-After s eb c _ v out (
    scan-After s eb (event_interval ((enter eb c).block eb).event (enter eb c))
      (c.schedule s).scheduled (enter eb c) (entered-Before s eb c v out))
