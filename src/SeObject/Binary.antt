-- ===== src/SeObject/Binary.antt =====
-- The order of binary fields.
use client.Base.{
  ℕ, zero, suc, ◌+◌, ◌*◌, ◌^◌, ◌<◌, ◌≡◌, refl, sym, ◌∙◌, ap, ltb, if◌then◌else◌, get_or, arith,
  Bool-cases, ltb→lt, inl, inr,
}
use native.Mathlib.Nat.{pow-suc, mul_comm}
use client.Base.Int.{ℤ, pos, negsuc}
use client.SeObject.{Object, compare_binary}

-- What a comparison of two numbers returns.
abbrev pub compared : ℕ → ℕ → ℤ
compared x y = if ltb x y then negsuc 0 else if ltb y x then pos 1 else pos 0

-- The first `n` bytes as a number, the lowest first.
abbrev pub low : ℕ → Object → ℕ
low zero a = 0
low (suc n) a = low n a + get_or a n 0 * 256 ^ n

-- A higher digit decides.
digit-lt : (l m x y p : ℕ) → l < p → x < y → l + x * p < m + y * p
digit-lt l m x y p h k = grind arith

pub low-lt : (n : ℕ) (a : Object) → ((i : ℕ) → get_or a i 0 < 256) → low n a < 256 ^ n
low-lt zero a h = omega arith
low-lt (suc n) a h =
    let below = digit-lt (low n a) 0 (get_or a n 0) 256 (256 ^ n) (low-lt n a h) (h n) in
    omega (arith, below, pow-suc 256 n, mul_comm 256 (256 ^ n))

compared-lt : (x y : ℕ) → x < y → compared x y ≡ negsuc 0
compared-lt x y h = ground arith

compared-gt : (x y : ℕ) → y < x → compared x y ≡ pos 1
compared-gt x y h = ground arith

compared-add : (x y k : ℕ) → compared x y ≡ compared (x + k) (y + k)
compared-add x y k = ground arith

-- Binary fields of `n` bytes are in the order of the numbers that they are with the lowest byte
-- first.
pub compare_binary-low :
    (n : ℕ) (a b : Object)
    → ((i : ℕ) → get_or a i 0 < 256)
    → ((i : ℕ) → get_or b i 0 < 256)
    → compare_binary n a b ≡ compared (low n a) (low n b)
unfolding compare_binary
compare_binary-low zero a b h k = refl
compare_binary-low (suc n) a b h k =
    let x = get_or a n 0 in
    let y = get_or b n 0 in
    let p = 256 ^ n in
    let below = low-lt n a h in
    let below' = low-lt n b k in
    elim (Bool-cases (ltb x y)) [
      | inl lt ↦
          rw lt (sym (compared-lt _ _ (digit-lt (low n a) (low n b) x y p below (ltb→lt x y lt))))
      | inr not_lt ↦ elim (Bool-cases (ltb y x)) [
        | inl gt ↦
            rw (not_lt, gt)
              (sym (compared-gt _ _ (digit-lt (low n b) (low n a) y x p below' (ltb→lt y x gt))))
        | inr not_gt ↦
            let same : x ≡ y = ground arith in
            rw (not_lt, not_gt)
              (compare_binary-low n a b h k
                ∙ compared-add (low n a) (low n b) (y * p)
                ∙ ap (λ t. compared (low n a + t * p) (low n b + y * p)) (sym same))
      ]
    ]
