-- ===== src/Schedule/Events/Removal.antt =====
-- `remove_block` takes a block out of its list.
use client.Base.{◌≡◌, refl, ◌∙◌, ◌==◌, if◌then◌else◌, arith, count}
use client.LinkedList.{Ptr}
use client.LinkedList
use client.LinkedList.Members.{count-list_remove}
use client.Schedule.{Status, Schedule, Client, update_self}
use client.Schedule.Placed.{status_of, IsPlaced}
use client.Schedule.Events.{unlink_block, remove_block}

-- The lists after the removal, by the status that the block had.
abbrev cut : Status → Ptr → Schedule → Schedule
cut Status.scheduled eb t = record t { scheduled = LinkedList.list_remove t.scheduled eb }
cut Status.active eb t = record t { active = LinkedList.list_remove t.active eb }
cut Status.active_wait eb t = record t { active = LinkedList.list_remove t.active eb }
cut Status.schedule_superseded eb t = record t {
  superseded = LinkedList.list_remove t.superseded eb;
}
cut _ eb t = t

unlinked-cut :
    (st : Status) (s eb : Ptr) (c : Client)
    → (unlink_block st s eb c).schedule s ≡ cut st eb (c.schedule s)
unfolding unlink_block
unlinked-cut Status.scheduled s eb c = update_self c.schedule s _
unlinked-cut Status.active s eb c = update_self c.schedule s _
unlinked-cut Status.active_wait s eb c = update_self c.schedule s _
unlinked-cut Status.schedule_superseded s eb c = update_self c.schedule s _
unlinked-cut _ s eb c = refl

unlinked-status :
    (st : Status) (s eb p : Ptr) (c : Client) → status_of p (unlink_block st s eb c) ≡ status_of p c
unfolding unlink_block
unlinked-status Status.active s eb p c = ground arith
unlinked-status _ s eb p c = refl

-- What is asked of the lists `t'` after the removal of `eb` from `t`.
abbrev pub CutOf : Ptr → Schedule → Schedule → Ptr → Type 0
CutOf eb t t' p =
    (count p t'.scheduled ≡ (if p == eb then 0 else count p t.scheduled))
    × (count p t'.active ≡ (if p == eb then 0 else count p t.active))
    × (count p t'.superseded ≡ (if p == eb then 0 else count p t.superseded))

cut-CutOf :
    (st : Status) (s eb p : Ptr) (c : Client)
    → IsPlaced s c
    → status_of eb c ≡ st
    → CutOf eb (c.schedule s) (cut st eb (c.schedule s)) p
cut-CutOf Status.scheduled s eb p c v e = ground (
  arith,
  count-list_remove (c.schedule s).scheduled eb p,
  v.once eb,
  v.in_active eb,
  v.in_superseded eb,
)
cut-CutOf Status.active s eb p c v e = ground (
  arith,
  count-list_remove (c.schedule s).active eb p,
  v.once eb,
  v.in_scheduled eb,
  v.in_superseded eb,
)
cut-CutOf Status.active_wait s eb p c v e = ground (
  arith,
  count-list_remove (c.schedule s).active eb p,
  v.once eb,
  v.in_scheduled eb,
  v.in_superseded eb,
)
cut-CutOf Status.schedule_superseded s eb p c v e = ground (
  arith,
  count-list_remove (c.schedule s).superseded eb p,
  v.once eb,
  v.in_scheduled eb,
  v.in_active eb,
)
cut-CutOf _ s eb p c v e = ground (arith, v.in_scheduled eb, v.in_active eb, v.in_superseded eb)

removed-CutOf :
    (s eb p : Ptr) (c : Client)
    → IsPlaced s c
    → CutOf eb (c.schedule s) ((remove_block s eb c).schedule s) p
unfolding remove_block
removed-CutOf s eb p c v =
    rw (unlinked-cut (status_of eb c) s eb c) (cut-CutOf (status_of eb c) s eb p c v refl)

removed-status : (s eb p : Ptr) (c : Client) → status_of p (remove_block s eb c) ≡ status_of p c
unfolding remove_block
removed-status s eb p c = unlinked-status (status_of eb c) s eb p c

-- Where the lists are in order, `remove_block` takes the block out of whatever list it is in, and
-- leaves the lists in order, with every other block in the list that it was in and no status
-- changed.
pub remove_block-IsPlaced :
    (s eb : Ptr) (c : Client)
    → IsPlaced s c
    → IsPlaced s (remove_block s eb c)
      × ((p : Ptr) → CutOf eb (c.schedule s) ((remove_block s eb c).schedule s) p)
      × ((p : Ptr) → status_of p (remove_block s eb c) ≡ status_of p c)
remove_block-IsPlaced s eb c v = (
  record {
    once = λ p. ground (arith, removed-CutOf s eb p c v, v.once p);
    in_scheduled = λ p h.
        removed-status s eb p c ∙ v.in_scheduled p (ground (arith, removed-CutOf s eb p c v));
    in_active = λ p h.
        rw (removed-status s eb p c) (v.in_active p (ground (arith, removed-CutOf s eb p c v)));
    in_superseded = λ p h.
        removed-status s eb p c ∙ v.in_superseded p (ground (arith, removed-CutOf s eb p c v));
  },
  λ p. removed-CutOf s eb p c v,
  λ p. removed-status s eb p c,
)
