-- ===== src/Schedule/Active/Supersede.antt =====
-- One round of the loop of `insert_active`.
use client.Base.{
  ◌≡◌, ◌∙◌, ap, Bool, true, false, List, ◌==◌, ◌⊎◌, if◌then◌else◌, arith, Bool-cases, inl, inr,
}
use client.LinkedList.{Ptr}
use client.Schedule.{Status, ResponseType, Client, device_response, block_supersede}
use client.Schedule.Placed.{status_of}
use client.Schedule.Insert.Rounds.{block_supersede-status, block_supersede-schedule}
use client.Schedule.Active.{end_active, yield_active, meet}

-- The lists of a schedule.
pub record SameLists (s : Ptr) (active : List Ptr) (c d : Client) : Type 0 where
  pub scheduled : (d.schedule s).scheduled ≡ (c.schedule s).scheduled
  pub active_is : (d.schedule s).active ≡ active
  pub superseded : (d.schedule s).superseded ≡ (c.schedule s).superseded

-- The active block `a` was superseded: the list is what followed it.
abbrev pub Ended : Ptr → Ptr → List Ptr → Client → Client → Type 0
Ended s a next c d =
    ((p : Ptr) → status_of p d ≡ (if p == a then Status.superseded else status_of p c))
    × SameLists s next c d

-- Both blocks stay.
abbrev pub Shared : Ptr → Client → Client → Type 0
Shared s c d = ((p : Ptr) → status_of p d ≡ status_of p c) × SameLists s (c.schedule s).active c d

-- The new block `eb` yielded.
abbrev pub Yielded : Ptr → Ptr → Client → Client → Type 0
Yielded s eb c d =
    ((p : Ptr) → status_of p d ≡ (if p == eb then Status.superseded else status_of p c))
    × SameLists s (c.schedule s).active c d

abbrev pub Met : Ptr → Ptr → Ptr → List Ptr → Client → Bool × Client → Type 0
Met s eb a next c (true, d) = Ended s a next c d ⊎ Shared s c d
Met s eb a next c (false, d) = Yielded s eb c d

pub device_response-block :
    (device event : Ptr) (t : ResponseType) (c : Client)
    → ((device_response device event t c).block ≡ c.block)
      × ((device_response device event t c).schedule ≡ c.schedule)
unfolding device_response
device_response-block device event t c = (ground arith, ground arith)

end_active-Ended :
    (s eb a : Ptr) (next : List Ptr) (c : Client) → Ended s a next c (end_active s eb a next c)
unfolding end_active
end_active-Ended s eb a next c = (
  λ p. ground arith,
  record { scheduled = ground arith; active_is = ground arith; superseded = ground arith },
)

yield_active-Yielded : (s eb : Ptr) (c : Client) → Yielded s eb c (yield_active s eb c)
unfolding yield_active
yield_active-Yielded s eb c = (
  λ p. ground arith,
  record { scheduled = ground arith; active_is = ground arith; superseded = ground arith },
)

pub meet-Met :
    (s eb a : Ptr) (next : List Ptr) (c : Client) → Met s eb a next c (meet s eb a next c)
unfolding meet
meet-Met s eb a next c =
    let r = block_supersede eb a c in
    let same = block_supersede-schedule eb a c in
    elim (Bool-cases r.0) [
      | inl won ↦ rw won (inl (ended (end_active-Ended s eb a next r.1)))
      | inr lost ↦ elim (Bool-cases ((r.1.block eb).der == 0)) [
        | inl gone ↦ rw (lost, gone) (yielded (yield_active-Yielded s eb r.1))
        | inr left ↦
            rw (lost, left)
              (inr (
                λ p. block_supersede-status eb a p c,
                record {
                  scheduled = ap (λ t. (t s).scheduled) same;
                  active_is = ap (λ t. (t s).active) same;
                  superseded = ap (λ t. (t s).superseded) same;
                },
              ))
      ]
    ]
  where
    r1 : Client
    r1 = (block_supersede eb a c).1

    ended : {d : Client} → Ended s a next r1 d → Ended s a next c d
    ended (f, g) = (
      λ p.
          f p ∙ ap (λ t. if p == a then Status.superseded else t) (block_supersede-status eb a p c),
      record {
        scheduled = g.scheduled ∙ ap (λ t. (t s).scheduled) (block_supersede-schedule eb a c);
        active_is = g.active_is;
        superseded = g.superseded ∙ ap (λ t. (t s).superseded) (block_supersede-schedule eb a c);
      },
    )

    yielded : {d : Client} → Yielded s eb r1 d → Yielded s eb c d
    yielded (f, g) = (
      λ p.
          f p
          ∙ ap (λ t. if p == eb then Status.superseded else t) (block_supersede-status eb a p c),
      record {
        scheduled = g.scheduled ∙ ap (λ t. (t s).scheduled) (block_supersede-schedule eb a c);
        active_is = g.active_is ∙ ap (λ t. (t s).active) (block_supersede-schedule eb a c);
        superseded = g.superseded ∙ ap (λ t. (t s).superseded) (block_supersede-schedule eb a c);
      },
    )
