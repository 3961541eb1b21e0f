-- ===== src/Queue.antt =====
-- core/queue.c: the queue of linked items, over the items' `next` pointers.
pub mod Chain
pub mod Refinement
mod Tests
use client.Base.{ℕ, Bool, ◌==◌, if◌then◌else◌}
use client.LinkedList.{Ptr}

abbrev pub null : Ptr
null = 0

-- The `next` pointer at each address.
abbrev pub Links : Type 0
Links = Ptr → Ptr

-- `p->next = q`
unfoldable pub set_next : Links → Ptr → Ptr → Links
set_next h p q a = if a == p then q else h a

pub record Queue : Type 0 where
  pub first : Ptr
  pub last : Ptr

abbrev pub queue_peek : Queue → Ptr
queue_peek q = q.first

pub queue_empty : Queue → Bool
queue_empty q = q.first == null

abbrev pub queue_clear : Queue
queue_clear = record { first = null; last = null }

-- A queue and the links that it leaves behind.
abbrev pub State : Type 0
State = Queue × Links

unfoldable pub queue_add : Queue → Ptr → Links → State
queue_add q item h =
    if q.last == null
    then (record { first = item; last = item }, h)
    else (record q { last = item }, set_next h q.last item)

-- The item removed, or null, and the queue without it.
unfoldable pub queue_remove : Queue → Links → Ptr × Queue
queue_remove q h =
    if q.first == null
    then (q.first, q)
    else (q.first, if q.first == q.last then queue_clear else record q { first = h q.first })
