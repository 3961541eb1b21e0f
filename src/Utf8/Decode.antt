-- ===== src/Utf8/Decode.antt =====
-- The decoder of core/utf8.c, byte by byte.
use client.Base.{
  ℕ, ◌+◌, ◌*◌, ◌/◌, ◌%◌, ◌<◌, ◌≡◌, refl, bit_or, Bool, true, false, some, ◌==◌, ◌&&◌, ltb,
  if◌then◌else◌, arith, ◌≢◌, ◌∙◌, get_or, bit_and,
}
use client.Base.Bits.{all_below, all_below-true, bit_or-shifted}
use client.Utf8.{machine, Next, fail, done, more, step, step_high, after, utf_table, utf_reject}

-- Equality of what the loop does next.
abbrev same_next : Next → Next → Bool
same_next fail fail = true
same_next (done a) (done b) = a == b
same_next (more m) (more n) = (m.state == n.state) && (m.code == n.code)
same_next _ _ = false

same_next→eq : (a b : Next) → same_next a b ≡ true → a ≡ b
same_next→eq fail fail h = refl
same_next→eq (done a) (done b) h = ground arith
same_next→eq (more m) (more n) h = ground arith
same_next→eq fail (done b) h = cc
same_next→eq fail (more b) h = cc
same_next→eq (done a) fail h = cc
same_next→eq (done a) (more b) h = cc
same_next→eq (more a) fail h = cc
same_next→eq (more a) (done b) h = cc

-- The lead bytes of two, three and four bytes, by their free bits.
abbrev pub lead_2 : ℕ → Next
lead_2 x = if ltb x 2 then fail else more (machine 9 x)

abbrev pub lead_3 : ℕ → Next
lead_3 x = more (machine (if x == 0 then 29 else if x == 13 then 17 else 13) x)

table_2 : all_below 32 (λ x. same_next (step (machine 0 0) (bit_or 0xc0 x)) (lead_2 x)) ≡ true
unfolding step all_below
table_2 = refl

table_3 : all_below 16 (λ x. same_next (step (machine 0 0) (bit_or 0xe0 x)) (lead_3 x)) ≡ true
unfolding step all_below
table_3 = refl

pub step-lead_2 : (x : ℕ) → x < 32 → step (machine 0 0) (bit_or 0xc0 x) ≡ lead_2 x
step-lead_2 x h = same_next→eq _ _ (all_below-true 32 x _ h table_2)

pub step-lead_3 : (x : ℕ) → x < 16 → step (machine 0 0) (bit_or 0xe0 x) ≡ lead_3 x
step-lead_3 x h = same_next→eq _ _ (all_below-true 16 x _ h table_3)

==→≡ : (a b : ℕ) → (a == b) ≡ true → a ≡ b
==→≡ a b h = ground arith

high_table : all_below 64 (λ y. bit_or 0x80 y == 128 + y) ≡ true
unfolding all_below
high_table = refl

low_table : all_below 64 (λ y. bit_and (128 + y) 0x40 == 0) ≡ true
unfolding all_below
low_table = refl

pub high-add : (y : ℕ) → y < 64 → bit_or 0x80 y ≡ 128 + y
high-add y h = ==→≡ _ _ (all_below-true 64 y _ h high_table)

-- Where the transition table leads from a state, at a byte of 128 + y.
abbrev pub next_state : ℕ → ℕ → ℕ
next_state s y = get_or utf_table (64 + s + y / 16) utf_reject

pub step-continue :
    (s v y : ℕ)
    → s ≢ 0
    → y < 64
    → step (machine s v) (bit_or 0x80 y) ≡ after (some (machine (next_state s y) (y + v * 64)))
unfolding step step_high
step-continue s v y ne h =
    let bit : bit_and (128 + y) 0x40 ≡ 0 = ==→≡ _ _ (all_below-true 64 y _ h low_table) in
    let big : ltb (128 + y) 128 ≡ false = ground arith in
    let state : (s == 0) ≡ false = ground arith in
    let type : (128 + y) / 16 % 4 ≡ y / 16 = omega arith in
    let low : (128 + y) % 64 ≡ y = omega arith in
    rw (high-add y h, big, state, bit, type, low, bit_or-shifted 6 y v h)

last_table : all_below 64 (λ y. next_state 9 y == 0) ≡ true
unfolding all_below
last_table = refl

middle_table : all_below 64 (λ y. next_state 13 y == 9) ≡ true
unfolding all_below
middle_table = refl

-- After the lead byte ed only the lower half of the continuation bytes may follow, after e0 only
-- the upper half.
low_half_table : all_below 64 (λ y. next_state 17 y == (if ltb y 32 then 9 else utf_reject)) ≡ true
unfolding all_below
low_half_table = refl

high_half_table : all_below 64 (λ y. next_state 29 y == (if ltb y 32 then utf_reject else 9)) ≡ true
unfolding all_below
high_half_table = refl

module _ (v y : ℕ) (h : y < 64) where
  pub step-last : step (machine 9 v) (bit_or 0x80 y) ≡ done (y + v * 64)
  step-last =
      step-continue 9 v y (ground arith) h
      ∙ rw (==→≡ _ _ (all_below-true 64 y _ h last_table)) (unfold after in refl)

  pub step-middle : step (machine 13 v) (bit_or 0x80 y) ≡ more (machine 9 (y + v * 64))
  step-middle =
      step-continue 13 v y (ground arith) h
      ∙ rw (==→≡ _ _ (all_below-true 64 y _ h middle_table)) (unfold after in refl)

  pub step-low_half :
      step (machine 17 v) (bit_or 0x80 y)
      ≡ (if ltb y 32 then more (machine 9 (y + v * 64)) else fail)
  step-low_half =
      step-continue 17 v y (ground arith) h
      ∙ rw (==→≡ _ _ (all_below-true 64 y _ h low_half_table)) (decide_half (ltb y 32))
    where
      decide_half :
          (b : Bool)
          → after (some (machine (if b then 9 else utf_reject) (y + v * 64)))
            ≡ (if b then more (machine 9 (y + v * 64)) else fail)
      decide_half true = unfold after in refl
      decide_half false = unfold after in refl

  pub step-high_half :
      step (machine 29 v) (bit_or 0x80 y)
      ≡ (if ltb y 32 then fail else more (machine 9 (y + v * 64)))
  step-high_half =
      step-continue 29 v y (ground arith) h
      ∙ rw (==→≡ _ _ (all_below-true 64 y _ h high_half_table)) (decide_half (ltb y 32))
    where
      decide_half :
          (b : Bool)
          → after (some (machine (if b then utf_reject else 9) (y + v * 64)))
            ≡ (if b then fail else more (machine 9 (y + v * 64)))
      decide_half true = unfold after in refl
      decide_half false = unfold after in refl

-- The lead bytes f1..f3 of four bytes.
wide_table :
    all_below 4 (λ x.
      if x == 0 then true else same_next (step (machine 0 0) (bit_or 0xf0 x)) (more (machine 25 x)))
    ≡ true
unfolding step all_below
wide_table = refl

pub step-lead_4 : (x : ℕ) → 0 < x → x < 4 → step (machine 0 0) (bit_or 0xf0 x) ≡ more (machine 25 x)
step-lead_4 x lo hi =
    let nonzero : (x == 0) ≡ false = ground arith in
    same_next→eq _ _ (rw nonzero at (all_below-true 4 x _ hi wide_table))

second_table : all_below 64 (λ y. next_state 25 y == 17) ≡ true
unfolding all_below
second_table = refl

pub step-wide :
    (v y : ℕ) → y < 64 → step (machine 25 v) (bit_or 0x80 y) ≡ more (machine 17 (y + v * 64))
step-wide v y h =
    step-continue 25 v y (ground arith) h
    ∙ rw (==→≡ _ _ (all_below-true 64 y _ h second_table)) (unfold after in refl)
