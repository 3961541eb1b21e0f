-- ===== src/Schedule/Insert/Rounds.antt =====
-- One round of the loop of `insert_block`.
use client.Base.{
  ◌≡◌, refl, ap, List, ◌∷◌, ◌==◌, if◌then◌else◌, arith, Bool-cases, inl, inr, ◌∙◌, ltb, ◌&&◌,
}
use client.LinkedList.{Ptr}
use client.Schedule.{
  Status, Client, Interval, event_interval, update_self, set_status, block_supersede,
}
use client.Schedule.Placed.{status_of}
use client.Schedule.Insert.{Visit, unlink, keep, return, push_superseded, contest, visit}

abbrev pub superseded_of : Ptr → Client → List Ptr
superseded_of s c = (c.schedule s).superseded

pub block_supersede-status :
    (a b p : Ptr) (c : Client) → status_of p (block_supersede a b c).1 ≡ status_of p c
unfolding block_supersede
block_supersede-status a b p c = ground arith

pub block_supersede-schedule :
    (a b : Ptr) (c : Client) → (block_supersede a b c).1.schedule ≡ c.schedule
unfolding block_supersede
block_supersede-schedule a b c = ground arith

-- What a round does to the statuses and to the lists.
abbrev pub Visited : Ptr → Ptr → Ptr → Client → Visit → Type 0
Visited s eb e c (unlink d) =
    ((p : Ptr) → status_of p d ≡ (if p == e then Status.schedule_superseded else status_of p c))
    × (superseded_of s d ≡ e ∷ superseded_of s c)
    × ((d.schedule s).active ≡ (c.schedule s).active)
Visited s eb e c (keep d) = ((p : Ptr) → status_of p d ≡ status_of p c) × (d.schedule ≡ c.schedule)
Visited s eb e c (return d) =
    ((p : Ptr) → status_of p d ≡ (if p == eb then Status.schedule_superseded else status_of p c))
    × (superseded_of s d ≡ eb ∷ superseded_of s c)
    × ((d.schedule s).active ≡ (c.schedule s).active)

pushed :
    (s b : Ptr) (d : Client)
    → ((p : Ptr)
        → status_of p (push_superseded s b d)
          ≡ (if p == b then Status.schedule_superseded else status_of p d))
      × (superseded_of s (push_superseded s b d) ≡ b ∷ superseded_of s d)
      × (((push_superseded s b d).schedule s).active ≡ (d.schedule s).active)
unfolding push_superseded
pushed s b d =
    let d' = set_status b Status.schedule_superseded d in
    let t = record (d'.schedule s) { superseded = b ∷ (d'.schedule s).superseded } in
    let stored = update_self d'.schedule s t in
    (λ p. ground arith, ap (λ u. u.superseded) stored, ap (λ u. u.active) stored)

contest-Visited : (s eb e : Ptr) (c : Client) → Visited s eb e c (contest s eb e c)
unfolding contest
contest-Visited s eb e c =
    let r = block_supersede eb e c in
    let same = block_supersede-schedule eb e c in
    let status = λ (p : Ptr). block_supersede-status eb e p c in
    elim (Bool-cases r.0) [
      | inl won ↦ rw won (moved e)
      | inr lost ↦ elim (Bool-cases ((r.1.block eb).der == 0)) [
        | inl gone ↦ rw (lost, gone) (moved eb)
        | inr left ↦ rw (lost, left) (status, same)
      ]
    ]
  where
    moved :
        (b : Ptr)
        → ((p : Ptr)
            → status_of p (push_superseded s b (block_supersede eb e c).1)
              ≡ (if p == b then Status.schedule_superseded else status_of p c))
          × (superseded_of s (push_superseded s b (block_supersede eb e c).1)
              ≡ b ∷ superseded_of s c)
          × (((push_superseded s b (block_supersede eb e c).1).schedule s).active
              ≡ (c.schedule s).active)
    moved b =
        let (f, g, h) = pushed s b (block_supersede eb e c).1 in
        let same = block_supersede-schedule eb e c in
        (
          λ p.
              f p
              ∙ ap (λ t. if p == b then Status.schedule_superseded else t)
                  (block_supersede-status eb e p c),
          g ∙ ap (λ t. b ∷ (t s).superseded) same,
          h ∙ ap (λ t. (t s).active) same,
        )

pub visit-Visited :
    (s eb : Ptr) (x : Interval) (e : Ptr) (c : Client) → Visited s eb e c (visit s eb x e c)
unfolding visit
visit-Visited s eb x e c =
    let y = event_interval (c.block e).event c in
    elim (Bool-cases (ltb x.start y.finish && ltb y.start x.finish)) [
      | inl overlap ↦ rw overlap (contest-Visited s eb e c)
      | inr apart ↦ rw apart (elim (Bool-cases (x.finish == y.start)) [
        | inl p ↦ rw p (λ q. ground arith, refl)
        | inr p ↦ rw p (elim (Bool-cases (x.finish == y.finish)) [
          | inl q ↦ rw q (λ r. ground arith, refl)
          | inr q ↦ rw q (λ r. refl, refl)
        ])
      ])
    ]
