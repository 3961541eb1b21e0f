-- ===== src/Schedule.antt =====
-- core/schedule.c: the data of the event schedule and the operations that its other functions are
-- composed of. Blocks, event stubs and schedules are held in stores by address, so that a block
-- which two lists or the hash table reach is one block. The hash table of blocks by mRID is a map
-- here. `update_resource` of retrieve.c, which sends a request, is a call that is logged.
-- Times are numbers of seconds, 0 or more; 64-bit sums stay in range.
pub mod Placed
pub mod Priority
pub mod Insert
pub mod Active
pub mod Update
pub mod Events
mod Tests
use Prim.Native.Nat.{Ordering}
use client.Base.{
  ℕ, ◌+◌, ◌-◌, ◌*◌, ◌/◌, ◌%◌, ◌^◌, bit_and, Bool, true, false, Option, none, some, List, [], ◌∷◌,
  ◌++◌, ◌&&◌, ◌||◌, ◌==◌, ltb, leb, if◌then◌else◌, ◌≡◌, refl, ==_self,
}
use client.LinkedList.{Ptr}
use client.EventQueue
use client.EventQueue.{EventQueue, int_difference, event_start, resource_poll}

-- `enum EventStatus`; of what a server sends, `unknown` stands for any other number.
pub data Status : Type 0 where
  scheduled active canceled canceled_random superseded aborted completed active_wait : Status
  schedule_superseded unknown : Status

-- The members of `enum ResponseType` of se_connection.c that schedule.c and der.c send.
pub data ResponseType : Type 0 where
  event_received event_started event_completed event_canceled event_superseded : ResponseType
  event_aborted_program event_expired : ResponseType

-- The stub of an event resource, with the fields of the event that scheduling reads.
pub record Stub : Type 0 where
  -- `resource_type (s) == SE_DERControl`, `se_event (resource_type (s))`, `randomizable (...)`
  pub is_der_control : Bool
  pub is_event : Bool
  pub is_randomizable : Bool
  pub mrid : ℕ
  pub start : ℕ
  pub duration : ℕ
  pub creation_time : ℕ
  pub current_status : Status
  pub response_required : ℕ
  -- `se_flags (&derc->DERControlBase)`
  pub der_base : ℕ
  pub poll_rate : ℕ
  pub poll_next : ℕ
  pub schedules : List Ptr
  -- `s->completion == event_update`
  pub updates : Bool

pub record EventBlock : Type 0 where
  pub event : Ptr
  pub status : Status
  pub primacy : ℕ
  pub der : ℕ
  pub start : ℕ
  pub finish : ℕ

pub record Schedule : Type 0 where
  pub next : ℕ
  pub device : Ptr
  pub blocks : ℕ → Option Ptr
  pub scheduled : List Ptr
  pub active : List Ptr
  pub superseded : List Ptr

-- A response posted to the server.
pub record Response : Type 0 where
  pub device : Ptr
  pub event : Ptr
  pub status : ResponseType

pub record Client : Type 0 where
  pub stub : Ptr → Stub
  pub block : Ptr → EventBlock
  pub schedule : Ptr → Schedule
  pub events : EventQueue
  -- what `se_time` returns
  pub now : ℕ
  -- the static variable of event_update
  pub sync_time : ℕ
  pub responses : List Response
  -- the stubs that update_resource was called with
  pub requests : List Ptr

abbrev pub update {ℓ} : {A : Type ℓ} → (Ptr → A) → Ptr → A → Ptr → A
update f p v q = if q == p then v else f q

pub update_self {ℓ} : {A : Type ℓ} (f : Ptr → A) (p : Ptr) (v : A) → update f p v p ≡ v
update_self f p v = rw (==_self p)

abbrev pub set_block : Ptr → EventBlock → Client → Client
set_block p b c = record c { block = update c.block p b }

abbrev pub set_schedule : Ptr → Schedule → Client → Client
set_schedule p s c = record c { schedule = update c.schedule p s }

abbrev pub set_stub : Ptr → Stub → Client → Client
set_stub p s c = record c { stub = update c.stub p s }

abbrev pub set_status : Ptr → Status → Client → Client
set_status p status c = set_block p (record (c.block p) { status = status }) c

abbrev pub insert_event : Ptr → ℕ → ℕ → Client → Client
insert_event subject type time c = record c {
  events = EventQueue.insert_event subject type time c.events;
}

abbrev pub remove_event : Ptr → Client → Client
remove_event subject c = record c { events = EventQueue.remove_event subject c.events }

-- `x & (1 << k)`, as a test.
abbrev pub test_bit : ℕ → ℕ → Bool
test_bit x k = x / 2 ^ k % 2 == 1

-- The event received needs bit 0 or bit 1 of `responseRequired`, any other response bit 1.
abbrev pub responds : ResponseType → ℕ → Bool
responds event_received required = test_bit required 0 || test_bit required 1
responds _ required = test_bit required 1

unfoldable pub device_response : Ptr → Ptr → ResponseType → Client → Client
device_response device event status c =
    if responds status (c.stub event).response_required
    then record c {
      responses = c.responses ++ record { device = device; event = event; status = status } ∷ [];
    }
    else c

-- `x & ~y` on 32 bits.
unfoldable pub and_not : ℕ → ℕ → ℕ
and_not x y = bit_and x (2 ^ 32 - 1 - y)

-- Of a higher priority, or of the same and created later.
unfoldable pub outranks : Client → Ptr → Ptr → Bool
outranks c a b =
    let x = c.stub (c.block a).event in
    let y = c.stub (c.block b).event in
    ((c.block a).primacy == (c.block b).primacy && ltb y.creation_time x.creation_time)
    || ltb (c.block a).primacy (c.block b).primacy

-- Whether `a` supersedes `b`; the controls that both set are taken from the one that yields.
unfoldable pub block_supersede : Ptr → Ptr → Client → Bool × Client
unfolding outranks
block_supersede a b c =
    let x = c.block a in
    let y = c.block b in
    if outranks c a b
    then if x.der == 0
      then (true, c)
      else (and_not y.der x.der == 0, set_block b (record y { der = and_not y.der x.der }) c)
    else (false, set_block a (record x { der = and_not x.der y.der }) c)

abbrev pub event_status : Ptr → Client → Status
event_status event c = (c.stub event).current_status

-- `compare_start` and `compare_end`, which convert a 64-bit difference to `int`.
abbrev pub int_sign : ℕ → Ordering
int_sign d = if d == 0 then Ordering.eq else if ltb d (2 ^ 31) then Ordering.gt else Ordering.lt

pub compare_start : Client → Ptr → Ptr → Ordering
compare_start c a b = int_sign (int_difference (c.block a).start (c.block b).start)

pub compare_end : Client → Ptr → Ptr → Ordering
compare_end c a b = int_sign (int_difference (c.block a).finish (c.block b).finish)

pub record Interval : Type 0 where
  pub start : ℕ
  pub finish : ℕ

-- The interval of the event itself, without randomization.
abbrev pub event_interval : Ptr → Client → Interval
event_interval event c = record {
  start = (c.stub event).start;
  finish = (c.stub event).start + (c.stub event).duration;
}

-- `poll_resource` of retrieve.c.
unfoldable pub poll_resource : Ptr → Client → Client
poll_resource s c =
    let r = c.stub s in
    let next = c.now + r.poll_rate in
    if r.is_event && leb (r.start + r.duration) next
    then c
    else if leb r.poll_next c.now
    then insert_event s resource_poll next (set_stub s (record r { poll_next = next }) c)
    else c

-- The value of the global variable of that name, which nothing changes.
abbrev pub active_poll_rate : ℕ
active_poll_rate = 300

abbrev pub is_active : Status → Bool
is_active active = true
is_active _ = false

-- `status := Active`, with the start event and the response, if the block is not active yet.
unfoldable pub start_block : Ptr → Ptr → Client → Client
unfolding device_response
start_block s eb c =
    if is_active (c.block eb).status
    then c
    else device_response (c.schedule s).device (c.block eb).event event_started
        (insert_event eb event_start 0 (set_status eb active c))

unfoldable pub activate_block : Ptr → Ptr → Client → Client
activate_block s eb c =
    let event = (c.block eb).event in
    let d = start_block s eb c in
    poll_resource event (set_stub event (record (d.stub event) { poll_rate = active_poll_rate }) d)
