-- ===== src/Queue/Refinement.antt =====
-- The queue of core/queue.c is a first-in first-out list.
use client.Base.{false, sym, ◌∙◌, ne→==, ◌≡◌, ◌≢◌, refl, List, [], ◌∷◌, ◌++◌, ◌==◌, arith, count}
use client.LinkedList.{Ptr}
use client.Queue.{null, Links, Queue, State, queue_add, queue_remove}
use client.Queue.Chain.{Chain, last_or_null, Chain-append, ne_last}

-- The queue stands for the items `xs`, the first to be removed in front.
pub record IsQueue (s : State) (xs : List Ptr) : Type 0 where
  pub chain : Chain s.1 s.0.first xs
  pub last_is : s.0.last ≡ last_or_null xs

last-append : (x item : Ptr) (xs : List Ptr) → last_or_null (x ∷ (xs ++ item ∷ [])) ≡ item
last-append x item [] = refl
last-append x item (y ∷ xs) = last-append y item xs

last-ne-null :
    (h : Links) (p x : Ptr) (xs : List Ptr) → Chain h p (x ∷ xs) → last_or_null (x ∷ xs) ≢ null
last-ne-null h p x [] c = c.1
last-ne-null h p x (y ∷ xs) c = last-ne-null h (h x) y xs c.3

add-nil :
    (q : Queue) (item : Ptr) (h : Links)
    → IsQueue (q, h) []
    → item ≢ null
    → h item ≡ null
    → IsQueue (queue_add q item h) (item ∷ [])
unfolding queue_add
add-nil q item h is ne end = ground arith

add-cons :
    (q : Queue) (x item : Ptr) (xs : List Ptr) (h : Links)
    → IsQueue (q, h) (x ∷ xs)
    → item ≢ null
    → count item (x ∷ xs) ≡ 0
    → h item ≡ null
    → IsQueue (queue_add q item h) (x ∷ (xs ++ item ∷ []))
unfolding queue_add
add-cons q x item xs h is ne out end =
    let some_last : (q.last == null) ≡ false =
      ne→== q.last null (λ e. last-ne-null h q.first x xs is.chain (sym is.last_is ∙ e)) in
    rw (some_last, is.last_is)
      (record {
        chain = Chain-append h q.first x item xs is.chain ne out end;
        last_is = sym (last-append x item xs);
      })

-- Adding an item that is not in the queue, and whose link is null, puts it behind all others.
pub queue_add-IsQueue :
    (q : Queue) (item : Ptr) (xs : List Ptr) (h : Links)
    → IsQueue (q, h) xs
    → item ≢ null
    → count item xs ≡ 0
    → h item ≡ null
    → IsQueue (queue_add q item h) (xs ++ item ∷ [])
queue_add-IsQueue q item [] h is ne out end = add-nil q item h is ne end
queue_add-IsQueue q item (x ∷ xs) h is ne out end = add-cons q x item xs h is ne out end

-- What the removal from the queue of `xs` yields.
abbrev pub Removed : Links → List Ptr → Ptr × Queue → Type 0
Removed h [] r = (r.0 ≡ null) × IsQueue (r.1, h) []
Removed h (x ∷ xs) r = (r.0 ≡ x) × IsQueue (r.1, h) xs

-- Removal yields the oldest item and leaves the others in order; an empty queue yields null and
-- stays empty.
pub queue_remove-Removed :
    (q : Queue) (xs : List Ptr) (h : Links) → IsQueue (q, h) xs → Removed h xs (queue_remove q h)
unfolding queue_remove
queue_remove-Removed q [] h is = ground arith
queue_remove-Removed q (x ∷ []) h is = ground arith
queue_remove-Removed q (x ∷ y ∷ xs) h is = ground (arith, ne_last x y xs is.chain.2)
