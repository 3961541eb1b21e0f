-- ===== src/Schedule/Tests.antt =====
-- Runs of core/schedule.c.
use client.Base.{
  ◌+◌, ◌≡◌, refl, bit_and, true, false, none, some, List, [], ◌∷◌, ◌==◌, ◌||◌, if◌then◌else◌, arith,
}
use client.LinkedList.{Ptr, insert_sorted}
use client.EventQueue.{EventQueue}
use client.Schedule.{Status, Stub, EventBlock, Client, outranks, block_supersede, and_not}
use client.Schedule.Placed.{status_of, IsPlaced}
use client.Schedule.Priority.{block_supersede-disjoint}
use client.Schedule.Insert.{insert_block, scan, visit, contest}
use client.Schedule.Insert.Preserve.{Inserted, insert_block-IsPlaced}
use client.Schedule.Active.{meet, meet_all}
use client.Schedule.Update.{sweep_active, complete_block}
use client.Schedule.Update.Expiry.{Swept, sweep_active-Swept}
use client.Schedule.Active.Survivors.{Running, Looped, meet_all-Looped}
use client.Schedule.Events.{remove_block, event_update}
use client.Schedule.Events.Removal.{CutOf, remove_block-IsPlaced}
use client.Schedule.Events.Safety.{SameTables, event_update-Runs}

-- The control events 31, 32, ... of one hour from 1000 on, whose blocks are 21, 22, ...
abbrev stub_at : Ptr → Stub
stub_at e = record {
  is_der_control = true;
  is_event = true;
  is_randomizable = false;
  mrid = e;
  start = 1000;
  duration = 3600;
  creation_time = e;
  current_status = Status.active;
  response_required = 3;
  der_base = if e == 33 then 2 else 1;
  poll_rate = 900;
  poll_next = 0;
  schedules = 10 ∷ [];
  updates = true;
}

abbrev block_at : Ptr → EventBlock
block_at p = record {
  event = p + 10;
  status =
      if p == 21 then Status.scheduled else if p == 22 then Status.active else Status.active_wait;
  primacy = 5;
  der = if p == 23 then 2 else 1;
  start = 1000;
  finish = 4600;
}

abbrev no_events : EventQueue
no_events = record { cur_event = []; im_event = []; timer = 0 }

abbrev client_with : List Ptr → List Ptr → Client
client_with scheduled active = record {
  stub = stub_at;
  block = block_at;
  schedule = λ s. record {
    next = 0;
    device = 1;
    blocks = λ m. if m == 31 then some 21 else if m == 32 then some 22 else none;
    scheduled = scheduled;
    active = active;
    superseded = [];
  };
  events = no_events;
  now = 2000;
  sync_time = 0;
  responses = [];
  requests = [];
}

abbrev sample : Client
sample = client_with (21 ∷ []) (22 ∷ [])

sample-IsPlaced : IsPlaced 10 sample
sample-IsPlaced = record {
  once = λ p. ground arith;
  in_scheduled = λ p h. ground arith;
  in_active = λ p h. ground arith;
  in_superseded = λ p h. absurd (omega arith);
}

-- The block 24 is newer than the scheduled block 21 and takes its only control.
insert_block-IsPlaced_example :
    IsPlaced 10 (insert_block 10 24 sample) × Inserted 10 24 sample (insert_block 10 24 sample)
insert_block-IsPlaced_example = insert_block-IsPlaced 10 24 sample sample-IsPlaced refl

inserted_lists : ((insert_block 10 24 sample).schedule 10).scheduled ≡ 24 ∷ []
unfolding insert_block scan visit contest block_supersede and_not insert_sorted
inserted_lists = refl

remove_block-IsPlaced_example :
    IsPlaced 10 (remove_block 10 22 sample)
    × ((p : Ptr) → CutOf 22 (sample.schedule 10) ((remove_block 10 22 sample).schedule 10) p)
    × ((p : Ptr) → status_of p (remove_block 10 22 sample) ≡ status_of p sample)
remove_block-IsPlaced_example = remove_block-IsPlaced 10 22 sample sample-IsPlaced

event_update-Runs_example : (d : Client) × (event_update 32 sample ≡ some d) × SameTables sample d
event_update-Runs_example = event_update-Runs 32 sample ((22, refl), tt)

block_supersede-disjoint_example :
    let r = block_supersede 24 21 sample in
    (bit_and (r.1.block 24).der (r.1.block 21).der ≡ 0)
    × ((if outranks sample 24 21 then (r.1.block 24).der else (r.1.block 21).der)
        ≡ (if outranks sample 24 21 then (sample.block 24).der else (sample.block 21).der))
    × (r.0 ≡ (
        if outranks sample 24 21
        then ((sample.block 24).der == 0 || (r.1.block 21).der == 0)
        else false))
block_supersede-disjoint_example =
    block_supersede-disjoint 24 21 sample (ground arith) (omega arith) (omega arith)

-- Two active blocks with different controls.
abbrev two_active : Client
two_active = client_with [] (23 ∷ 22 ∷ [])

two_active-Running : Running 24 (23 ∷ 22 ∷ []) two_active
two_active-Running = record { once = λ p. ground arith; fresh = refl; live = λ p h. ground arith }

meet_all-Looped_example :
    Looped 10 24 (23 ∷ 22 ∷ []) two_active (meet_all 10 24 (23 ∷ 22 ∷ []) two_active)
meet_all-Looped_example = meet_all-Looped 10 24 (23 ∷ 22 ∷ []) two_active two_active-Running

-- The block 24 supersedes 22, the last one, and 23, which it does not, is no longer active.
survivor_lost : ((meet_all 10 24 (23 ∷ 22 ∷ []) two_active).1.schedule 10).active ≡ []
unfolding meet_all meet block_supersede and_not
survivor_lost = refl

-- Both active blocks end at 4600, and the clock shows 5000.
abbrev late : Client
late = record two_active { now = 5000 }

sweep_active-Swept_example : Swept (23 ∷ 22 ∷ []) late (sweep_active 10 (23 ∷ 22 ∷ []) late)
sweep_active-Swept_example = sweep_active-Swept 10 (23 ∷ 22 ∷ []) late

both_expired : (sweep_active 10 (23 ∷ 22 ∷ []) late).left ≡ []
unfolding sweep_active complete_block
both_expired = refl
