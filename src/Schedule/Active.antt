-- ===== src/Schedule/Active.antt =====
-- `insert_active` of core/schedule.c: a block enters the `active` list.
pub mod Supersede
pub mod Survivors
use client.Base.{ℕ, Bool, true, false, List, [], ◌∷◌, ◌==◌, if◌then◌else◌}
use client.LinkedList.{Ptr}
use client.LinkedList
use client.EventQueue.{event_end}
use client.Schedule.{
  Status, ResponseType, EventBlock, Schedule, Client, set_block, set_schedule, set_status,
  insert_event, device_response, block_supersede, event_status, compare_end, is_active,
  activate_block,
}

abbrev pub set_active : Ptr → List Ptr → Client → Client
set_active s l c = set_schedule s (record (c.schedule s) { active = l }) c

-- A superseded active block: it ends where `eb` starts. `next` is what follows it in the list.
-- The source stores it to `prev->next`, where `prev` is the address of `s->active` in every round.
unfoldable pub end_active : Ptr → Ptr → Ptr → List Ptr → Client → Client
unfolding device_response
end_active s eb a next c =
    let d = set_active s next c in
    let b = d.block a in
    let e = set_block a (record b { finish = (d.block eb).start }) d in
    let f = if is_active b.status then insert_event a event_end 0 e else e in
    let g = set_status a Status.superseded f in
    device_response (g.schedule s).device b.event ResponseType.event_superseded g

-- The new block yields.
unfoldable pub yield_active : Ptr → Ptr → Client → Client
unfolding device_response
yield_active s eb c =
    device_response (c.schedule s).device (c.block eb).event ResponseType.event_superseded
      (set_status eb Status.superseded c)

-- One round of the loop: the state, and whether the loop goes on.
unfoldable pub meet : Ptr → Ptr → Ptr → List Ptr → Client → Bool × Client
unfolding end_active yield_active
meet s eb a next c =
    let r = block_supersede eb a c in
    if r.0
    then (true, end_active s eb a next r.1)
    else if (r.1.block eb).der == 0
    then (false, yield_active s eb r.1)
    else (true, r.1)

unfoldable pub meet_all : Ptr → Ptr → List Ptr → Client → Bool × Client
meet_all s eb [] c = (true, c)
meet_all s eb (a ∷ next) c =
    let r = meet s eb a next c in elim r.0 [ true ↦ meet_all s eb next r.1 | false ↦ r ]

-- By the status that the server gave.
unfoldable pub admit : Status → Ptr → Ptr → Client → Client
admit Status.scheduled s eb c =
    set_status eb Status.active_wait (record c { requests = (c.block eb).event ∷ c.requests })
admit Status.active s eb c = activate_block s eb c
admit _ s eb c = c

unfoldable pub enter_active : Ptr → Client → Client
enter_active eb c =
    let b = c.block eb in
    let r = c.stub b.event in
    if r.is_der_control then set_block eb (record b { der = r.der_base }) c else c

unfoldable pub link_active : Ptr → Ptr → Client → Client
link_active s eb c =
    set_active s (LinkedList.insert_sorted (c.schedule s).active eb (compare_end c)) c

unfoldable pub insert_active : Ptr → Ptr → Client → Client
unfolding enter_active link_active
insert_active s eb c =
    let d = enter_active eb c in
    let r = meet_all s eb (d.schedule s).active d in
    if r.0 then link_active s eb (admit (event_status (r.1.block eb).event r.1) s eb r.1) else r.1
