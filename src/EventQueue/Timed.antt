-- ===== src/EventQueue/Timed.antt =====
-- The order of `cur_event`.
use client.Base.{
  ℕ, ◌+◌, ◌^◌, ◌≤◌, ◌<◌, ◌≡◌, List, [], ◌∷◌, ◌==◌, ltb, arith, All, All-mono, Bool-cases, inl, inr,
  ◌⊎◌, ==_ne,
}
use client.LinkedList.{Ptr}
use client.EventQueue.{
  Event, EventQueue, is_later, event_compare_gt, insert_by_time, insert_event, event,
}

-- Two times less than 2 ^ 31 seconds apart.
abbrev pub IsNear : ℕ → ℕ → Type 0
IsNear x y = (x < y + 2 ^ 31) × (y < x + 2 ^ 31)

-- The source's comparison is the order of the times, where they are near and in range.
pub is_later_lem : (x y : ℕ) → x < 2 ^ 63 → y < 2 ^ 63 → IsNear x y → is_later x y ≡ ltb y x
is_later_lem x y hx hy near = ground arith

-- Sorted by time.
abbrev pub IsSorted : List Event → Type 0
IsSorted [] = Unit {0}
IsSorted (e ∷ es) = All (λ f. e.time ≤ f.time) es × IsSorted es

-- All times lie within one window of 2 ^ 31 seconds that begins at `base`.
abbrev pub InWindow : ℕ → Event → Type 0
InWindow base e = (base ≤ e.time) × (e.time < base + 2 ^ 31) × (e.time < 2 ^ 63)

pub All-insert_by_time :
    (P : Event → Type 0) (l : List Event) (e : Event) → P e → All P l → All P (insert_by_time l e)
unfolding insert_by_time
All-insert_by_time P [] e p h = (p, tt)
All-insert_by_time P (x ∷ l) e p h = elim (Bool-cases (event_compare_gt e x)) [
  | inl g ↦ rw g (h.0, All-insert_by_time P l e p h.1)
  | inr g ↦ rw g (p, h)
]

insert_by_time-IsSorted :
    (base : ℕ) (l : List Event) (e : Event)
    → IsSorted l
    → All (InWindow base) l
    → InWindow base e
    → IsSorted (insert_by_time l e)
unfolding insert_by_time
insert_by_time-IsSorted base [] e s w we = (tt, tt)
insert_by_time-IsSorted base (x ∷ l) e s w we = elim (Bool-cases (event_compare_gt e x)) [
  | inl g ↦
      let later : x.time ≤ e.time = ground (arith, is_later_lem e.time x.time) in
      rw g (All-insert_by_time _ l e later s.0, insert_by_time-IsSorted base l e s.1 w.1 we)
  | inr g ↦
      let first : e.time ≤ x.time = ground (arith, is_later_lem e.time x.time) in
      rw g ((first, All-mono l (λ f p. omega arith) s.0), s)
]

-- The timed events are in order, and within one window.
pub record IsValid (base : ℕ) (q : EventQueue) : Type 0 where
  pub sorted : IsSorted q.cur_event
  pub window : All (InWindow base) q.cur_event

-- `insert_event` keeps the timed events sorted, for a time in their window or the time 0 of an
-- immediate event.
pub insert_event-IsValid :
    (base : ℕ) (x : Ptr) (type time : ℕ) (q : EventQueue)
    → IsValid base q
    → (time ≡ 0) ⊎ InWindow base (event x type time)
    → IsValid base (insert_event x type time q)
unfolding insert_event
insert_event-IsValid base x type time q v w = elim (Bool-cases (time == 0)) [
  | inl e ↦ rw e (record { sorted = v.sorted; window = v.window })
  | inr e ↦
      let inside : InWindow base (event x type time) = elim w [
        | inl z ↦ absurd (==_ne time 0 e z)
        | inr i ↦ i
      ] in
      rw e (record {
        sorted =
            insert_by_time-IsSorted base q.cur_event (event x type time) v.sorted v.window inside;
        window = All-insert_by_time (InWindow base) q.cur_event (event x type time) inside v.window;
      })
]
