-- ===== src/EventQueue/Delivery.antt =====
-- What `next_event` delivers, and in which order.
use mathlib.Core.List.{map}
use client.Base.{
  ℕ, zero, suc, ◌+◌, ◌-◌, ◌≤◌, ◌<◌, ◌≡◌, refl, ap, false, none, some, List, [], ◌∷◌, ◌++◌, leb,
  if◌then◌else◌, arith, length, All, All-mono, Bool-cases, inl, inr,
}
use client.EventQueue.{Event, EventQueue, Next, event_none, next_event}
use client.EventQueue.Timed.{IsSorted, IsValid}

abbrev pub delivered : Event → Next
delivered e = (e.type, some e.subject)

-- The events that are due at `now`, of a list in any order.
abbrev pub due : ℕ → List Event → List Event
due now [] = []
due now (e ∷ es) = let rest = due now es in if leb e.time now then e ∷ rest else rest

due-none :
    (now : ℕ) (e : Event) (es : List Event)
    → All (λ f. e.time ≤ f.time) es
    → leb e.time now ≡ false
    → due now es ≡ []
due-none now e [] h l = refl
due-none now e (f ∷ es) h l = ground (arith, due-none now e es h.1 l)

abbrev receive : Next × EventQueue → (EventQueue → List Next) → List Next
receive ((type, none), q) rest = []
receive ((type, some x), q) rest = (type, some x) ∷ rest q

-- What a loop `while (event = next_event (any))`, as in der_poll of der_client.c, receives from a
-- queue, in order.
unfoldable pub deliveries : ℕ → ℕ → EventQueue → List Next
deliveries zero now q = []
deliveries (suc fuel) now q = receive (next_event now q) (deliveries fuel now)

abbrev queue : List Event → List Event → ℕ → EventQueue
queue im cur timer = record { cur_event = cur; im_event = im; timer = timer }

deliveries-queue :
    (fuel now timer : ℕ) (im cur : List Event)
    → IsSorted cur
    → length im + length cur ≤ fuel
    → deliveries fuel now (queue im cur timer) ≡ map delivered (im ++ due now cur)
unfolding deliveries next_event
deliveries-queue zero now timer [] [] s h = refl
deliveries-queue zero now timer [] (e ∷ cur) s h = absurd (omega arith)
deliveries-queue zero now timer (e ∷ im) cur s h = absurd (omega arith)
deliveries-queue (suc fuel) now timer (e ∷ im) cur s h =
    ap (◌∷◌ (delivered e)) (deliveries-queue fuel now timer im cur s (omega arith))
deliveries-queue (suc fuel) now timer [] [] s h = refl
deliveries-queue (suc fuel) now timer [] (e ∷ cur) s h = elim (Bool-cases (leb e.time now)) [
  | inl d ↦ rw d (ap (◌∷◌ (delivered e)) (deliveries-queue fuel now timer [] cur s.1 (omega arith)))
  | inr d ↦ rw d (rw (due-none now e cur s.0 d))
]

-- Polling at one moment delivers the immediate events in the order of their insertion, then every
-- timed event that is due, the earliest first, and then reports that there is none.
pub deliveries-due :
    (base now fuel : ℕ) (q : EventQueue)
    → IsValid base q
    → length q.im_event + length q.cur_event ≤ fuel
    → deliveries fuel now q ≡ map delivered (q.im_event ++ due now q.cur_event)
deliveries-due base now fuel q v h =
    deliveries-queue fuel now q.timer q.im_event q.cur_event v.sorted h

-- The seconds to the first timed event, 0 where there is none.
abbrev pub first_wait : ℕ → List Event → ℕ
first_wait now [] = 0
first_wait now (e ∷ es) = e.time - now

idle-queue :
    (now timer : ℕ) (im cur : List Event)
    → IsSorted cur
    → (next_event now (queue im cur timer)).0.1 ≡ none
    → (im ≡ [])
      × All (λ e. now < e.time) cur
      × (next_event now (queue im cur timer)
          ≡ ((event_none, none), queue [] cur (first_wait now cur)))
unfolding next_event
idle-queue now timer (e ∷ im) cur s h = cc
idle-queue now timer [] [] s h = (refl, tt, refl)
idle-queue now timer [] (e ∷ cur) s h = elim (Bool-cases (leb e.time now)) [
  | inl d ↦ absurd (ground arith)
  | inr d ↦
      let later : now < e.time = ground arith in
      (refl, (later, All-mono cur (λ f p. omega arith) s.0), rw d)
]

-- `next_event` reports no event only where no immediate event is left and every timed event is
-- later than now; it then sets the timer for the first of these, or stops it, and changes nothing
-- else.
pub next_event-idle :
    (base now : ℕ) (q : EventQueue)
    → IsValid base q
    → (next_event now q).0.1 ≡ none
    → (q.im_event ≡ [])
      × All (λ e. now < e.time) q.cur_event
      × (next_event now q
          ≡ ((event_none, none), record q { im_event = []; timer = first_wait now q.cur_event }))
next_event-idle base now q v h = idle-queue now q.timer q.im_event q.cur_event v.sorted h
