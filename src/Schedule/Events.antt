-- ===== src/Schedule/Events.antt =====
-- The functions of core/schedule.c that a change of an event calls.
pub mod Removal
pub mod Safety
use client.Base.{
  ℕ, ◌+◌, ◌-◌, Bool, true, false, Option, none, some, List, [], ◌∷◌, ◌==◌, leb, if◌then◌else◌,
}
use client.Base.Int.{ℤ, shift, pos}
use client.LinkedList.{Ptr, insert_unique}
use client.LinkedList
use client.EventQueue.{event_end, resource_update}
use client.Schedule.{
  Status, ResponseType, Stub, EventBlock, Schedule, Client, update, set_block, set_schedule,
  set_status, set_stub, insert_event, remove_event, device_response, event_status, is_active,
  activate_block,
}
use client.Schedule.Insert.{insert_block}
use client.Schedule.Active.{insert_active}

abbrev pub get_block : Ptr → Ptr → Client → Option Ptr
get_block s event c = (c.schedule s).blocks (c.stub event).mrid

-- The random offsets of `randomize_start` and `randomize_duration`.
pub record Offsets : Type 0 where
  pub start : ℤ
  pub duration : ℤ

-- The block that `new_block` fills in.
unfoldable pub new_block : Ptr → ℕ → Offsets → Client → EventBlock
new_block event primacy offsets c =
    let r = c.stub event in
    let start = shift r.start (if r.is_randomizable then offsets.start else pos 0) in
    record {
      event = event;
      status = Status.scheduled;
      primacy = primacy;
      der = 0;
      start = start;
      finish = shift (start + r.duration) (if r.is_randomizable then offsets.duration else pos 0);
    }

-- `hash_put` and `hash_delete` on the table of blocks.
abbrev pub put_block : Ptr → ℕ → Option Ptr → Client → Client
put_block s mrid b c =
    set_schedule s (record (c.schedule s) { blocks = update (c.schedule s).blocks mrid b }) c

abbrev pub is_waiting : Status → Bool
is_waiting Status.active_wait = true
is_waiting _ = false

-- A null block is dereferenced: `none`.
unfoldable pub activate_if_waiting : Ptr → Option Ptr → Client → Option Client
activate_if_waiting s none c = none
activate_if_waiting s (some eb) c =
    some (if is_waiting (c.block eb).status then activate_block s eb c else c)

unfoldable pub activate_all : Ptr → List Ptr → Client → Option Client
activate_all event [] c = some c
activate_all event (s ∷ l) c = elim (activate_if_waiting s (get_block s event c) c) [
  | none ↦ none
  | some d ↦ activate_all event l d
]

unfoldable pub activate_blocks : Ptr → Client → Option Client
activate_blocks event c = activate_all event (c.stub event).schedules c

unfoldable pub unlink_block : Status → Ptr → Ptr → Client → Client
unlink_block Status.scheduled s eb c =
    let t = c.schedule s in
    set_schedule s (record t { scheduled = LinkedList.list_remove t.scheduled eb }) c
unlink_block Status.active s eb c =
    let d = set_block eb (record (c.block eb) { finish = c.now }) c in
    let e = insert_event eb event_end 0 (remove_event eb d) in
    let t = e.schedule s in
    set_schedule s (record t { active = LinkedList.list_remove t.active eb }) e
unlink_block Status.active_wait s eb c =
    let t = c.schedule s in
    set_schedule s (record t { active = LinkedList.list_remove t.active eb }) c
unlink_block Status.schedule_superseded s eb c =
    let t = c.schedule s in
    set_schedule s (record t { superseded = LinkedList.list_remove t.superseded eb }) c
unlink_block _ s eb c = c

unfoldable pub remove_block : Ptr → Ptr → Client → Client
unfolding unlink_block
remove_block s eb c = unlink_block (c.block eb).status s eb c

abbrev pub status_code : Status → ℕ
status_code Status.scheduled = 0
status_code Status.active = 1
status_code Status.canceled = 2
status_code Status.canceled_random = 3
status_code Status.superseded = 4
status_code Status.aborted = 5
status_code Status.completed = 6
status_code Status.active_wait = 7
status_code Status.schedule_superseded = 8
status_code Status.unknown = 9

abbrev pub same_status : Status → Status → Bool
same_status a b = status_code a == status_code b

-- One round of `remove_blocks`: the status and the response are those of the event.
unfoldable pub remove_found :
    Ptr → Ptr → ResponseType → Status → Option Ptr → Client → Option Client
unfolding remove_block device_response
remove_found s event response status none c = none
remove_found s event response status (some eb) c =
    let d = remove_block s eb c in
    let e =
      if same_status (d.block eb).status status
      then d
      else device_response (d.schedule s).device event response d in
    some (set_status eb status e)

unfoldable pub remove_all : Ptr → ResponseType → Status → List Ptr → Client → Option Client
remove_all event response status [] c = some c
remove_all event response status (s ∷ l) c =
    elim (remove_found s event response status (get_block s event c) c) [
      | none ↦ none
      | some d ↦ remove_all event response status l d
    ]

unfoldable pub remove_blocks : Ptr → ResponseType → Client → Option Client
remove_blocks event response c =
    remove_all event response (event_status event c) (c.stub event).schedules c

-- The blocks of an event leave the tables of its schedules, and it forgets these.
unfoldable pub delete_all : ℕ → List Ptr → Client → Client
delete_all mrid [] c = c
delete_all mrid (s ∷ l) c = delete_all mrid l (put_block s mrid none c)

unfoldable pub delete_blocks : Ptr → Client → Client
unfolding delete_all
delete_blocks event c =
    let r = c.stub event in
    let d = delete_all r.mrid r.schedules c in
    set_stub event (record (d.stub event) { schedules = [] }) d

-- The clock is set back by a second, once for each second that it shows, and the event is asked
-- for again one second later.
unfoldable pub retry_event : Ptr → Client → Client
retry_event event c =
    if c.sync_time == c.now
    then insert_event event resource_update (c.now + 1) c
    else insert_event event resource_update c.now
        (record c { now = c.now - 1; sync_time = c.now - 1 })

unfoldable pub event_update_as : Status → Ptr → Client → Option Client
unfolding retry_event activate_blocks remove_blocks
event_update_as Status.scheduled event c = some (retry_event event c)
event_update_as Status.active event c = activate_blocks event c
event_update_as Status.canceled event c = remove_blocks event ResponseType.event_canceled c
event_update_as Status.canceled_random event c = remove_blocks event ResponseType.event_canceled c
event_update_as Status.superseded event c = remove_blocks event ResponseType.event_superseded c
event_update_as _ event c = some c

unfoldable pub event_update : Ptr → Client → Option Client
unfolding event_update_as
event_update event c = event_update_as (event_status event c) event c

unfoldable pub block_update : Ptr → Status → Client → Client
block_update eb status c =
    let d =
      if is_active (c.block eb).status
      then insert_event eb event_end 0 (set_block eb (record (c.block eb) { finish = c.now }) c)
      else c in
    set_status eb status d

-- `in_range (eb->status, Canceled, Completed)`
abbrev pub is_over : Status → Bool
is_over Status.canceled = true
is_over Status.canceled_random = true
is_over Status.superseded = true
is_over Status.aborted = true
is_over Status.completed = true
is_over _ = false

-- The switch on the status that the server gave.
unfoldable pub schedule_block : Status → Ptr → Ptr → Ptr → Client → Client
unfolding block_update
schedule_block Status.scheduled s event eb c =
    if is_waiting (c.block eb).status then insert_active s eb c else insert_block s eb c
schedule_block Status.active s event eb c = insert_active s eb c
schedule_block Status.canceled s event eb c =
    block_update eb Status.canceled
      (device_response (c.schedule s).device event ResponseType.event_canceled c)
schedule_block Status.canceled_random s event eb c =
    block_update eb Status.canceled_random
      (device_response (c.schedule s).device event ResponseType.event_canceled c)
schedule_block Status.superseded s event eb c =
    block_update eb Status.superseded
      (device_response (c.schedule s).device event ResponseType.event_superseded c)
schedule_block _ s event eb c = c

unfoldable pub schedule_known : Ptr → Ptr → Ptr → Client → Client
unfolding schedule_block
schedule_known s event eb c =
    if is_over (c.block eb).status then c else schedule_block (event_status event c) s event eb c

-- A block that the schedule does not have yet, at the address `fresh`.
unfoldable pub add_block : Ptr → Ptr → ℕ → Offsets → Ptr → Client → Client
unfolding new_block
add_block s event primacy offsets fresh c =
    let r = c.stub event in
    let d =
      set_stub event (record r { schedules = insert_unique r.schedules s; updates = true }) c in
    let e = set_block fresh (new_block event primacy offsets d) d in
    device_response (e.schedule s).device event ResponseType.event_received
      (put_block s r.mrid (some fresh) e)

-- `specified end time is in the past`
unfoldable pub expire_new : Ptr → Ptr → Ptr → Client → Client
unfolding device_response
expire_new s event eb c =
    let d = set_status eb Status.completed c in
    device_response (d.schedule s).device event ResponseType.event_expired d

unfoldable pub schedule_new : Ptr → Ptr → ℕ → Offsets → Ptr → Client → Client
unfolding add_block expire_new
schedule_new s event primacy offsets fresh c =
    let d = add_block s event primacy offsets fresh c in
    if leb (d.block fresh).finish d.now
    then expire_new s event fresh d
    else schedule_known s event fresh d

-- The block of the event, and the state.
unfoldable pub schedule_event : Ptr → Ptr → ℕ → Offsets → Ptr → Client → Ptr × Client
unfolding schedule_new schedule_known
schedule_event s event primacy offsets fresh c = elim (get_block s event c) [
  | some eb ↦
      (eb, schedule_known s event eb (set_block eb (record (c.block eb) { primacy = primacy }) c))
  | none ↦ (fresh, schedule_new s event primacy offsets fresh c)
]
