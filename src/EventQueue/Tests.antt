-- ===== src/EventQueue/Tests.antt =====
-- Runs of core/event.c.
use mathlib.Core.List.{map}
use client.Base.{◌≡◌, refl, none, [], ◌∷◌, ◌++◌, arith, inr}
use client.EventQueue.{
  EventQueue, event, event_start, event_end, insert_event, next_event, insert_by_time,
}
use client.EventQueue.Timed.{IsValid, insert_event-IsValid}
use client.EventQueue.Delivery.{delivered, due, deliveries, deliveries-due}

abbrev some_events : EventQueue
some_events = record {
  cur_event = event 4 event_start 100 ∷ event 5 event_end 200 ∷ [];
  im_event = event 6 event_start 0 ∷ [];
  timer = 0;
}

some_events-IsValid : IsValid 0 some_events
some_events-IsValid = record {
  sorted = ((omega arith, tt), (tt, tt));
  window = ((omega arith, omega arith, omega arith), ((omega arith, omega arith, omega arith), tt));
}

insert_event-IsValid_example : IsValid 0 (insert_event 7 event_end 150 some_events)
insert_event-IsValid_example =
    insert_event-IsValid 0 7 event_end 150 some_events some_events-IsValid
      (inr (omega arith, omega arith, omega arith))

inserted :
    (insert_event 7 event_end 150 some_events).cur_event
    ≡ event 4 event_start 100 ∷ event 7 event_end 150 ∷ event 5 event_end 200 ∷ []
unfolding insert_event insert_by_time
inserted = refl

-- The immediate event, and the one of the two timed events that is due.
deliveries-due_example :
    deliveries 5 120 some_events
    ≡ map delivered (some_events.im_event ++ due 120 some_events.cur_event)
deliveries-due_example = deliveries-due 0 120 5 some_events some_events-IsValid (omega arith)

two_delivered :
    deliveries 5 120 some_events
    ≡ delivered (event 6 event_start 0) ∷ delivered (event 4 event_start 100) ∷ []
unfolding deliveries next_event
two_delivered = refl

abbrev waiting_events : EventQueue
waiting_events = record { cur_event = event 4 event_start 100 ∷ []; im_event = []; timer = 0 }

waiting_events-IsValid : IsValid 0 waiting_events
waiting_events-IsValid = record {
  sorted = (tt, tt);
  window = ((omega arith, omega arith, omega arith), tt);
}

nothing_due : (next_event 40 waiting_events).0.1 ≡ none
unfolding next_event
nothing_due = refl
