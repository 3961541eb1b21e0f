-- ===== src/Exi/BitField/Window.antt =====
-- `parse_bits` against `parse_bit`, for fields of at most 24 bits.
use client.Base.{
  ℕ, zero, suc, ◌+◌, ◌*◌, ◌/◌, ◌%◌, ◌^◌, ◌≤◌, ◌<◌, ◌≡◌, refl, ◌∙◌, ap, bit_or, List, [], ◌∷◌, drop,
  get_or, arith, All,
}
use client.Base.Bits.{bit_or-shifted, bit_or_comm, pow_pos}
use native.Mathlib.Nat.{
  pow-suc, mod-lt, div-add-mod, mul_comm, add-mul-mod_self_right, mod-eq_of_lt,
}
use client.Exi.BitField.{gather}

-- The byte of the loop's last round is the last byte of its number.
gather_byte : (v b : ℕ) → b < 256 → bit_or (v * 2 ^ 8 % 2 ^ 32) b ≡ v % 2 ^ 24 * 2 ^ 8 + b
gather_byte v b h =
    ap (λ t. bit_or t b) (omega arith)
    ∙ bit_or_comm (v % 2 ^ 24 * 2 ^ 8) b
    ∙ bit_or-shifted 8 b (v % 2 ^ 24) h
    ∙ omega arith

-- The window: the byte at `ptr` and `i` more.
abbrev pub window : ℕ → List ℕ → ℕ → ℕ
window past xs i = gather i (get_or xs 0 past) (drop 1 xs) past

module _ (past : ℕ) (small : past < 256) where
  pub window-byte : (i : ℕ) (xs : List ℕ) → All (λ b. b < 256) xs → get_or xs i past < 256
  window-byte i [] h = small
  window-byte zero (x ∷ xs) h = h.0
  window-byte (suc i) (x ∷ xs) h = window-byte i xs h.1

  -- One round more.
  gather-last :
      (i v : ℕ) (xs : List ℕ)
      → gather (suc i) v xs past ≡ bit_or (gather i v xs past * 2 ^ 8 % 2 ^ 32) (get_or xs i past)
  unfolding gather
  gather-last zero v [] = refl
  gather-last zero v (x ∷ xs) = refl
  gather-last (suc i) v [] = gather-last i (bit_or (v * 2 ^ 8 % 2 ^ 32) past) []
  gather-last (suc i) v (x ∷ xs) = gather-last i (bit_or (v * 2 ^ 8 % 2 ^ 32) x) xs

  get_or-drop : (i : ℕ) (xs : List ℕ) → get_or (drop 1 xs) i past ≡ get_or xs (suc i) past
  get_or-drop i [] = refl
  get_or-drop i (x ∷ xs) = refl

  pub window-suc :
      (xs : List ℕ) (i : ℕ)
      → All (λ b. b < 256) xs
      → window past xs (suc i) ≡ window past xs i % 2 ^ 24 * 2 ^ 8 + get_or xs (suc i) past
  window-suc xs i h =
      gather-last i (get_or xs 0 past) (drop 1 xs)
      ∙ ap (bit_or (window past xs i * 2 ^ 8 % 2 ^ 32)) (get_or-drop i xs)
      ∙ gather_byte (window past xs i) (get_or xs (suc i) past) (window-byte (suc i) xs h)

  pub window-low :
      (xs : List ℕ) (i : ℕ) → All (λ b. b < 256) xs → window past xs i % 2 ^ 8 ≡ get_or xs i past
  unfolding gather
  window-low xs zero h = omega (arith, window-byte 0 xs h)
  window-low xs (suc i) h = omega (arith, window-suc xs i h, window-byte (suc i) xs h)

  -- Up to two bytes more do not wrap.
  pub window-fits :
      (xs : List ℕ) (i : ℕ) → i ≤ 2 → All (λ b. b < 256) xs → window past xs i < 2 ^ 24
  unfolding gather
  window-fits xs zero l h = omega (arith, window-byte 0 xs h)
  window-fits xs (suc zero) l h =
      omega (arith, window-suc xs 0 h, window-byte 1 xs h, window-byte 0 xs h)
  window-fits xs (suc (suc zero)) l h = omega (
    arith,
    window-suc xs 0 h,
    window-suc xs 1 h,
    window-byte 2 xs h,
    window-byte 1 xs h,
    window-byte 0 xs h,
  )
  window-fits xs (suc (suc (suc i))) l h = absurd (omega arith)

pub double_mod : (n y : ℕ) → y % 2 ^ suc n ≡ y / 2 % 2 ^ n * 2 + y % 2
double_mod n y =
    let q = y / 2 / 2 ^ n in
    let low = y / 2 % 2 ^ n * 2 + y % 2 in
    let below : y / 2 % 2 ^ n < 2 ^ n = mod-lt (y / 2) (pow_pos n) in
    let split : y ≡ low + q * 2 ^ suc n = omega (
      arith,
      div-add-mod (y / 2) (2 ^ n),
      ap (λ (t : ℕ). q * t) (pow-suc 2 n),
      mul_comm q (2 ^ n),
    ) in
    ap (λ t. t % 2 ^ suc n) split
    ∙ add-mul-mod_self_right low q (2 ^ suc n)
    ∙ mod-eq_of_lt (omega (arith, pow-suc 2 n))
