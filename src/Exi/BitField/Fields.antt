-- ===== src/Exi/BitField/Fields.antt =====
-- The bits of a number of a given width, the highest first.
use client.Base.{
  append-nil, append_assoc, ℕ, zero, suc, ◌+◌, ◌/◌, ◌%◌, ◌^◌, ◌<◌, ◌≡◌, refl, sym, ◌∙◌, ap, List,
  [], ◌∷◌, ◌++◌, length, length-append, arith,
}
use client.Exi.Bits.{byte_bits}
use native.Mathlib.Nat.{pow-suc}

abbrev pub field : ℕ → ℕ → List ℕ
field zero x = []
field (suc n) x = field n (x / 2) ++ x % 2 ∷ []

-- `x >> b`, one place at a time.
abbrev pub halve : ℕ → ℕ → ℕ
halve zero x = x
halve (suc b) x = halve b (x / 2)

pub field-append : (a b x : ℕ) → field (b + a) x ≡ field a (halve b x) ++ field b x
field-append a zero x = let e : zero + a ≡ a = omega arith in rw e (sym (append-nil (field a x)))
field-append a (suc b) x =
    let e : suc b + a ≡ suc (b + a) = omega arith in
    rw e (
      ap (λ t. t ++ x % 2 ∷ []) (field-append a b (x / 2))
      ∙ append_assoc (field a (halve b (x / 2))) (field b (x / 2)) (x % 2 ∷ []))

pub length-field : (n x : ℕ) → length (field n x) ≡ n
length-field zero x = refl
length-field (suc n) x =
    omega (arith, length-append (field n (x / 2)) (x % 2 ∷ []), length-field n (x / 2))

pub field-8 : (x : ℕ) → x < 256 → field 8 x ≡ byte_bits x
field-8 x h = ground arith

pub snoc-cancel :
    (xs ys : List ℕ) (a b : ℕ)
    → length xs ≡ length ys
    → xs ++ a ∷ [] ≡ ys ++ b ∷ []
    → (xs ≡ ys) × (a ≡ b)
snoc-cancel [] [] a b h e = (refl, ground (arith, e))
snoc-cancel [] (y ∷ ys) a b h e = absurd (omega (arith, h))
snoc-cancel (x ∷ xs) [] a b h e = absurd (omega (arith, h))
snoc-cancel (x ∷ xs) (y ∷ ys) a b h e =
    let r = snoc-cancel xs ys a b (omega (arith, h)) (ground (arith, e)) in
    (ground (arith, r, e), r.1)

-- A number is read off its bits.
pub field-injective : (n x y : ℕ) → x < 2 ^ n → y < 2 ^ n → field n x ≡ field n y → x ≡ y
field-injective zero x y h k e = omega arith
field-injective (suc n) x y h k e =
    let r =
      snoc-cancel (field n (x / 2)) (field n (y / 2)) (x % 2) (y % 2)
        (length-field n (x / 2) ∙ sym (length-field n (y / 2))) e in
    omega (
      arith,
      r.1,
      field-injective n (x / 2) (y / 2) (omega (arith, pow-suc 2 n)) (omega (arith, pow-suc 2 n))
          r.0,
    )
