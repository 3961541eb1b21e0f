-- ===== src/Queue/Chain.antt =====
-- Chains of `next` pointers.
use mathlib.Core.Path.{subst}
use client.Base.{◌≡◌, ◌≢◌, List, [], ◌∷◌, ◌++◌, arith, count, count-append}
use client.LinkedList.{Ptr}
use client.Queue.{null, Links, set_next}

-- From `p` the links lead through the distinct items `xs` to null.
abbrev pub Chain : Links → Ptr → List Ptr → Type 0
Chain h p [] = p ≡ null
Chain h p (x ∷ xs) = (p ≡ x) × (x ≢ null) × (count x xs ≡ 0) × Chain h (h x) xs

abbrev pub last_or_null : List Ptr → Ptr
last_or_null [] = null
last_or_null (x ∷ []) = x
last_or_null (x ∷ y ∷ xs) = last_or_null (y ∷ xs)

pub count-last : (x : Ptr) (xs : List Ptr) → count (last_or_null (x ∷ xs)) (x ∷ xs) ≢ 0
count-last x [] = ground arith
count-last x (y ∷ xs) = ground (arith, count-last y xs)

-- A write outside a chain leaves it.
pub Chain-set_next :
    (h : Links) (a b p : Ptr) (xs : List Ptr)
    → count a xs ≡ 0
    → Chain h p xs
    → Chain (set_next h a b) p xs
unfolding set_next
Chain-set_next h a b p [] out c = c
Chain-set_next h a b p (x ∷ xs) out c =
    (c.0, c.1, c.2, ground (arith, Chain-set_next h a b (h x) xs))

pub set_next_ne : (h : Links) (a b p : Ptr) → p ≢ a → set_next h a b p ≡ h p
unfolding set_next
set_next_ne h a b p ne = ground arith

pub ne_last : (x y : Ptr) (xs : List Ptr) → count x (y ∷ xs) ≡ 0 → x ≢ last_or_null (y ∷ xs)
ne_last x y xs out e = count-last y xs (subst (λ z. count z (y ∷ xs) ≡ 0) e out)

-- Linking a fresh item, whose own link is null, behind the last one.
pub Chain-append :
    (h : Links) (p x item : Ptr) (xs : List Ptr)
    → Chain h p (x ∷ xs)
    → item ≢ null
    → count item (x ∷ xs) ≡ 0
    → h item ≡ null
    → Chain (set_next h (last_or_null (x ∷ xs)) item) p (x ∷ (xs ++ item ∷ []))
Chain-append h p x item [] c ne out end = unfold set_next in ground arith
Chain-append h p x item (y ∷ xs) c ne out end =
    let tail = Chain-append h (h x) y item xs c.3 ne (ground arith) end in
    (
      c.0,
      c.1,
      ground (arith, count-append x (y ∷ xs) (item ∷ [])),
      rw (set_next_ne h (last_or_null (y ∷ xs)) item x (ne_last x y xs c.2)) tail,
    )
