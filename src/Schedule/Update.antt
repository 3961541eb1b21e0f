-- ===== src/Schedule/Update.antt =====
-- `update_schedule` of core/schedule.c: blocks move between the lists as time passes.
pub mod Expiry
use client.Base.{ℕ, true, false, List, [], ◌∷◌, ◌==◌, ltb, leb, if◌then◌else◌}
use client.LinkedList.{Ptr}
use client.EventQueue.{event_end, schedule_update}
use client.Schedule.{
  Status, ResponseType, Client, set_schedule, set_status, insert_event, remove_event,
  device_response, is_active,
}
use client.Schedule.Active.{insert_active}

-- `last? min (last, t) : t`, where 0 stands for no time.
abbrev pub earlier : ℕ → ℕ → ℕ
earlier last t = if last == 0 then t else if ltb last t then last else t

-- What is left of a list, the earliest time seen, and the state.
pub record Sweep : Type 0 where
  pub left : List Ptr
  pub last : ℕ
  pub client : Client

abbrev pub sweep : List Ptr → ℕ → Client → Sweep
sweep l last c = record { left = l; last = last; client = c }

-- An active block that has run to its end.
unfoldable pub complete_block : Ptr → Ptr → Client → Client
unfolding device_response
complete_block s eb c =
    let d =
      if is_active (c.block eb).status
      then insert_event eb event_end 0
          (device_response (c.schedule s).device (c.block eb).event ResponseType.event_completed c)
      else c in
    set_status eb Status.completed d

unfoldable pub sweep_active : Ptr → List Ptr → Client → Sweep
sweep_active s [] c = sweep [] 0 c
sweep_active s (eb ∷ next) c = elim (leb (c.block eb).finish c.now) [
  | true ↦ sweep_active s next (complete_block s eb c)
  | false ↦ sweep (eb ∷ next) (c.block eb).finish c
]

unfoldable pub sweep_scheduled : Ptr → List Ptr → ℕ → Client → Sweep
sweep_scheduled s [] last c = sweep [] last c
sweep_scheduled s (eb ∷ next) last c = elim (leb (c.block eb).start c.now) [
  | true ↦
      let d = insert_active s eb c in sweep_scheduled s next (earlier last (d.block eb).finish) d
  | false ↦ sweep (eb ∷ next) (earlier last (c.block eb).start) c
]

-- A block that was superseded in the schedule and whose start has come.
unfoldable pub drop_superseded : Ptr → Ptr → Client → Client
unfolding device_response
drop_superseded s eb c =
    device_response (c.schedule s).device (c.block eb).event ResponseType.event_superseded
      (set_status eb Status.superseded c)

unfoldable pub sweep_superseded : Ptr → List Ptr → ℕ → Client → Sweep
sweep_superseded s [] last c = sweep [] last c
sweep_superseded s (eb ∷ next) last c = elim (leb (c.block eb).start c.now) [
  | true ↦ sweep_superseded s next last (drop_superseded s eb c)
  | false ↦ sweep (eb ∷ next) (earlier last (c.block eb).start) c
]

-- The event that wakes the schedule up again.
unfoldable pub arm : Ptr → ℕ → Client → Client
arm s last c =
    if last == 0
    then set_schedule s (record (c.schedule s) { next = 0 }) c
    else let d =
        if last == (c.schedule s).next
        then c
        else insert_event s schedule_update last (remove_event s c) in
      set_schedule s (record (d.schedule s) { next = last }) d

unfoldable pub update_schedule : Ptr → Client → Client
update_schedule s c =
    let a = sweep_active s (c.schedule s).active c in
    let c1 = set_schedule s (record (a.client.schedule s) { active = a.left }) a.client in
    let b = sweep_scheduled s (c1.schedule s).scheduled a.last c1 in
    let c2 = set_schedule s (record (b.client.schedule s) { scheduled = b.left }) b.client in
    let d = sweep_superseded s (c2.schedule s).superseded b.last c2 in
    let c3 = set_schedule s (record (d.client.schedule s) { superseded = d.left }) d.client in
    arm s d.last c3
