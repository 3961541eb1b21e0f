-- ===== src/Schedule/Insert.antt =====
-- `insert_block` of core/schedule.c: a block enters the `scheduled` list, and overlapping blocks
-- are superseded.
pub mod Rounds
pub mod Conserve
pub mod Preserve
use client.Base.{ℕ, ◌+◌, Bool, true, false, List, [], ◌∷◌, ◌&&◌, ◌==◌, ltb, if◌then◌else◌}
use client.LinkedList.{Ptr}
use client.LinkedList
use client.Schedule.{
  Status, Stub, EventBlock, Schedule, Client, Interval, set_block, set_schedule, set_status,
  block_supersede, event_interval, compare_start,
}

-- `link_insert (s->superseded, e)` behind the change of status.
unfoldable pub push_superseded : Ptr → Ptr → Client → Client
push_superseded s e c =
    let d = set_status e Status.schedule_superseded c in
    set_schedule s (record (d.schedule s) { superseded = e ∷ (d.schedule s).superseded }) d

-- What one round of the loop does with the block that it has reached: it is unlinked, it stays,
-- or the function returns.
pub data Visit : Type 0 where
  unlink : Client → Visit
  keep : Client → Visit
  return : Client → Visit

-- The overlapping case.
unfoldable pub contest : Ptr → Ptr → Ptr → Client → Visit
unfolding push_superseded
contest s eb e c =
    let r = block_supersede eb e c in
    if r.0
    then unlink (push_superseded s e r.1)
    else if (r.1.block eb).der == 0
    then return (push_superseded s eb r.1)
    else keep r.1

unfoldable pub visit : Ptr → Ptr → Interval → Ptr → Client → Visit
visit s eb x e c =
    let y = event_interval (c.block e).event c in
    if ltb x.start y.finish && ltb y.start x.finish
    then contest s eb e c
    else if x.finish == y.start
    then keep (set_block e (record (c.block e) { start = (c.block eb).finish }) c)
    else if x.finish == y.finish
    then keep (set_block e (record (c.block e) { finish = (c.block eb).finish }) c)
    else keep c

-- The `scheduled` list after the loop over it, the state, and whether the loop ran to its end.
pub record Scan : Type 0 where
  pub kept : List Ptr
  pub client : Client
  pub finished : Bool

abbrev pub keep_item : Ptr → Scan → Scan
keep_item e r = record r { kept = e ∷ r.kept }

unfoldable pub scan : Ptr → Ptr → Interval → List Ptr → Client → Scan
scan s eb x [] c = record { kept = []; client = c; finished = true }
scan s eb x (e ∷ next) c = elim (visit s eb x e c) [
  | unlink d ↦ scan s eb x next d
  | keep d ↦ keep_item e (scan s eb x next d)
  | return d ↦ record { kept = e ∷ next; client = d; finished = false }
]

-- `eb->status = Scheduled`, and the controls of the event where it has some.
unfoldable pub enter : Ptr → Client → Client
enter eb c =
    let b = c.block eb in
    let r = c.stub b.event in
    set_block eb
      (record b { status = Status.scheduled; der = if r.is_der_control then r.der_base else b.der })
      c

-- The list is stored back, with the block in its place unless it was superseded.
unfoldable pub finish_insert : Ptr → Ptr → Scan → Client
finish_insert s eb r =
    let t = r.client.schedule s in
    set_schedule s
      (record t {
        scheduled =
            if r.finished
            then LinkedList.insert_sorted r.kept eb (compare_start r.client)
            else r.kept;
      })
      r.client

unfoldable pub insert_block : Ptr → Ptr → Client → Client
unfolding enter finish_insert
insert_block s eb c =
    let d = enter eb c in
    finish_insert s eb (scan s eb (event_interval (d.block eb).event d) (d.schedule s).scheduled d)
