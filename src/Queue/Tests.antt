-- ===== src/Queue/Tests.antt =====
-- Runs of core/queue.c.
use client.Base.{◌≡◌, refl, [], ◌∷◌, ◌++◌, arith}
use client.Queue.{Links, State, null, queue_add, queue_remove, set_next}
use client.Queue.Refinement.{IsQueue, Removed, queue_add-IsQueue, queue_remove-Removed}

abbrev no_links : Links
no_links p = null

abbrev one_item : State
one_item = (record { first = 8; last = 8 }, no_links)

one_item-IsQueue : IsQueue one_item (8 ∷ [])
one_item-IsQueue = record { chain = (refl, ground arith, refl, refl); last_is = refl }

queue_add-IsQueue_example : IsQueue (queue_add one_item.0 16 no_links) ((8 ∷ []) ++ 16 ∷ [])
queue_add-IsQueue_example =
    queue_add-IsQueue one_item.0 16 (8 ∷ []) no_links one_item-IsQueue (ground arith) refl refl

queue_remove-Removed_example : Removed no_links (8 ∷ []) (queue_remove one_item.0 no_links)
queue_remove-Removed_example = queue_remove-Removed one_item.0 (8 ∷ []) no_links one_item-IsQueue

-- The second item added is the second one removed.
abbrev two_items : State
two_items = queue_add one_item.0 16 no_links

second_out : (queue_remove (queue_remove two_items.0 two_items.1).1 two_items.1).0 ≡ 16
unfolding queue_add queue_remove set_next
second_out = refl
