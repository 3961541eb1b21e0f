-- ===== src/Schedule/Placed.antt =====
-- The invariant of the three lists of a schedule.
use client.Base.{◌+◌, ◌≤◌, ◌<◌, ◌≡◌, ◌⊎◌, count}
use client.LinkedList.{Ptr}
use client.Schedule.{Status, Client}

abbrev pub status_of : Ptr → Client → Status
status_of p c = (c.block p).status

-- A block is in one list at most, once, and its status is the one of its list.
pub record IsPlaced (s : Ptr) (c : Client) : Type 0 where
  pub once :
      (p : Ptr)
      → count p (c.schedule s).scheduled
          + count p (c.schedule s).active
          + count p (c.schedule s).superseded
        ≤ 1
  pub in_scheduled :
      (p : Ptr) → 0 < count p (c.schedule s).scheduled → status_of p c ≡ Status.scheduled
  pub in_active :
      (p : Ptr)
      → 0 < count p (c.schedule s).active
      → (status_of p c ≡ Status.active) ⊎ (status_of p c ≡ Status.active_wait)
  pub in_superseded :
      (p : Ptr) → 0 < count p (c.schedule s).superseded → status_of p c ≡ Status.schedule_superseded

-- The block is in none of the lists.
abbrev pub IsUnlisted : Ptr → Ptr → Client → Type 0
IsUnlisted s p c =
    count p (c.schedule s).scheduled
      + count p (c.schedule s).active
      + count p (c.schedule s).superseded
    ≡ 0
