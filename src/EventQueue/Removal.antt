-- ===== src/EventQueue/Removal.antt =====
-- `remove_event` drops every event of one subject, and nothing else.
use client.Base.{ℕ, ◌≡◌, List, [], ◌∷◌, ◌==◌, if◌then◌else◌, arith, All, Bool-cases, inl, inr}
use client.LinkedList.{Ptr}
use client.EventQueue.{Event, EventQueue, remove_by_data, remove_event}
use client.EventQueue.Timed.{IsSorted, IsValid}

-- The events of one subject, in order.
abbrev pub of_subject : Ptr → List Event → List Event
of_subject y [] = []
of_subject y (e ∷ es) = let rest = of_subject y es in if e.subject == y then e ∷ rest else rest

of_subject-remove_by_data :
    (l : List Event) (x y : Ptr)
    → of_subject y (remove_by_data l x) ≡ (if x == y then [] else of_subject y l)
unfolding remove_by_data
of_subject-remove_by_data [] x y = ground arith
of_subject-remove_by_data (e ∷ l) x y = ground (arith, of_subject-remove_by_data l x y)

All-remove_by_data :
    (P : Event → Type 0) (l : List Event) (x : Ptr) → All P l → All P (remove_by_data l x)
unfolding remove_by_data
All-remove_by_data P [] x h = tt
All-remove_by_data P (e ∷ l) x h = elim (Bool-cases (e.subject == x)) [
  | inl hit ↦ rw hit (All-remove_by_data P l x h.1)
  | inr miss ↦ rw miss (h.0, All-remove_by_data P l x h.1)
]

IsSorted-remove_by_data : (l : List Event) (x : Ptr) → IsSorted l → IsSorted (remove_by_data l x)
unfolding remove_by_data
IsSorted-remove_by_data [] x s = tt
IsSorted-remove_by_data (e ∷ l) x s = elim (Bool-cases (e.subject == x)) [
  | inl hit ↦ rw hit (IsSorted-remove_by_data l x s.1)
  | inr miss ↦ rw miss (All-remove_by_data _ l x s.0, IsSorted-remove_by_data l x s.1)
]

pub remove_event-IsValid :
    (base : ℕ) (x : Ptr) (q : EventQueue) → IsValid base q → IsValid base (remove_event x q)
unfolding remove_event
remove_event-IsValid base x q v = record {
  sorted = IsSorted-remove_by_data q.cur_event x v.sorted;
  window = All-remove_by_data _ q.cur_event x v.window;
}

-- After `remove_event x` neither list has an event of `x`, and of every other subject both have
-- the same events in the same order.
pub of_subject-remove_event :
    (x y : Ptr) (q : EventQueue)
    → (of_subject y (remove_event x q).im_event ≡ (if x == y then [] else of_subject y q.im_event))
      × (of_subject y (remove_event x q).cur_event
          ≡ (if x == y then [] else of_subject y q.cur_event))
unfolding remove_event
of_subject-remove_event x y q =
    (of_subject-remove_by_data q.im_event x y, of_subject-remove_by_data q.cur_event x y)
