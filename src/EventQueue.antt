-- ===== src/EventQueue.antt =====
-- core/event.c: the timed event queue. `im_event` holds the events to deliver at once, in order,
-- and `cur_event` the others by time. Both are lists of events here: that the queue of
-- core/queue.c is such a list is shown in Queue/Refinement. The comparison function is the
-- source's, with its conversion of a 64-bit difference to `int`.
pub mod Delivery
pub mod Removal
pub mod Timed
mod Tests
use client.Base.{
  ℕ, ◌+◌, ◌-◌, ◌%◌, ◌^◌, Bool, true, false, Option, none, some, List, [], ◌∷◌, ◌++◌, ◌&&◌, ◌==◌,
  ltb, leb, if◌then◌else◌,
}
use client.LinkedList.{Ptr}

-- Event types, as in platform.c, event.c, retrieve.c, schedule.c and der.c.
abbrev pub event_none : ℕ
event_none = 0

abbrev pub event_new : ℕ
event_new = 32

abbrev pub event_start : ℕ
event_start = event_new + 3

abbrev pub event_end : ℕ
event_end = event_new + 4

abbrev pub resource_poll : ℕ
resource_poll = event_new + 6

abbrev pub resource_update : ℕ
resource_update = event_new + 7

abbrev pub resource_remove : ℕ
resource_remove = event_new + 8

abbrev pub retrieve_fail : ℕ
retrieve_fail = event_new + 9

abbrev pub schedule_update : ℕ
schedule_update = event_new + 10

pub record Event : Type 0 where
  pub subject : Ptr
  pub type : ℕ
  pub time : ℕ

-- `(int)(x - y)` of two 64-bit times, as a 32-bit pattern.
abbrev pub int_difference : ℕ → ℕ → ℕ
int_difference x y = (x + 2 ^ 64 - y) % 2 ^ 32

-- `compare (x, y) > 0`: the pattern is neither zero nor that of a negative number.
abbrev pub is_later : ℕ → ℕ → Bool
is_later x y = ltb 0 (int_difference x y) && ltb (int_difference x y) (2 ^ 31)

abbrev pub event_compare_gt : Event → Event → Bool
event_compare_gt x y = is_later x.time y.time

pub record EventQueue : Type 0 where
  pub cur_event : List Event
  pub im_event : List Event
  -- what `set_timer` was last called with, 0 to stop the timer
  pub timer : ℕ

-- `insert_sorted` of list.c with `event_compare`.
unfoldable pub insert_by_time : List Event → Event → List Event
insert_by_time [] e = e ∷ []
insert_by_time (l ∷ next) e =
    if event_compare_gt e l then l ∷ insert_by_time next e else e ∷ l ∷ next

abbrev pub event : Ptr → ℕ → ℕ → Event
event subject type time = record { subject = subject; type = type; time = time }

unfoldable pub insert_event : Ptr → ℕ → ℕ → EventQueue → EventQueue
insert_event subject type time q =
    if time == 0
    then record q { im_event = q.im_event ++ event subject type time ∷ [] }
    else record q { cur_event = insert_by_time q.cur_event (event subject type time) }

unfoldable pub remove_by_data : List Event → Ptr → List Event
remove_by_data [] x = []
remove_by_data (e ∷ next) x =
    let rest = remove_by_data next x in if e.subject == x then rest else e ∷ rest

unfoldable pub remove_event : Ptr → EventQueue → EventQueue
remove_event x q = record q {
  im_event = remove_by_data q.im_event x;
  cur_event = remove_by_data q.cur_event x;
}

-- The type and the subject of the next event, `event_none` and no subject where none is due.
abbrev pub Next : Type 0
Next = ℕ × Option Ptr

next_timed : List Event → ℕ → EventQueue → Next × EventQueue
next_timed [] now q = ((event_none, none), record q { timer = 0 })
next_timed (e ∷ rest) now q =
    if leb e.time now
    then ((e.type, some e.subject), record q { cur_event = rest })
    else ((event_none, none), record q { timer = e.time - now })

next_in : List Event → ℕ → EventQueue → Next × EventQueue
unfolding next_timed
next_in [] now q = next_timed q.cur_event now q
next_in (e ∷ rest) now q = ((e.type, some e.subject), record q { im_event = rest })

-- `now` is what `se_time` returns.
unfoldable pub next_event : ℕ → EventQueue → Next × EventQueue
unfolding next_in
next_event now q = next_in q.im_event now q
