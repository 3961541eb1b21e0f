-- ===== src/Exi/RoundTrip.antt =====
-- `output_uint` of core/exi_output.c and `parse_uint` of core/exi_parse.c together.
use mathlib.Core.Path.{subst}
use client.Base.{
  append_assoc, ℕ, suc, ◌+◌, ◌*◌, ◌/◌, ◌%◌, ◌^◌, ◌≤◌, ◌<◌, ◌≡◌, ◌≢◌, refl, sym, ◌∙◌, ap, Bool, true,
  false, Option, none, some, List, [], ◌∷◌, ◌++◌, ◌==◌, ltb, if◌then◌else◌, arith, Bool-cases, inl,
  inr,
}
use client.Exi.{Output, output_uint, Parser, shift_group, parse_groups, parse_uint}
use client.Exi.Bits.{byte_bits, stream_bits, written, pending, IsValid}
use client.Exi.Groups.{groups, output_groups-written, IsClean, read_undefined, read_last, read_more}

-- What the parser makes of a number: the number and a parser at the bits behind it, where it fits
-- an `int`, and otherwise an undefined shift.
abbrev pub ReadBack : Bool → ℕ → List ℕ → Option (ℕ × Parser) → Type 0
ReadBack true x tail r = (q : Parser) × (r ≡ some (x, q)) × (pending q ≡ tail) × IsClean q
ReadBack false x tail r = r ≡ none

-- The loop from the group at bit `n` on.
abbrev Stage : ℕ → ℕ → Type 0
Stage n fuel =
    (acc x : ℕ) (p : Parser) (tail : List ℕ)
    → acc < 2 ^ n
    → (n ≢ 0 → 1 ≤ x)
    → IsClean p
    → pending p ≡ stream_bits (groups fuel x) ++ tail
    → ReadBack (ltb (acc + x * 2 ^ n) (2 ^ 31)) (acc + x * 2 ^ n) tail (parse_groups fuel acc n p)

-- The numbers at one group.
record IsGroup (n : ℕ) : Type 0 where
  next : (acc x : ℕ) → acc < 2 ^ n → acc + x % 128 * 2 ^ n < 2 ^ (n + 7)
  split : (acc x : ℕ) → acc + x % 128 * 2 ^ n + x / 128 * 2 ^ (n + 7) ≡ acc + x * 2 ^ n
  large :
      (acc x : ℕ) → ltb (x % 128 * 2 ^ n) (2 ^ 31) ≡ false → ltb (acc + x * 2 ^ n) (2 ^ 31) ≡ false
  fits :
      (acc x : ℕ)
      → acc < 2 ^ n
      → x / 128 ≡ 0
      → ltb (x % 128 * 2 ^ n) (2 ^ 31) ≡ true
      → (ltb (acc + x * 2 ^ n) (2 ^ 31) ≡ true) × (x % 128 ≡ x)

shift-some :
    (v n : ℕ)
    → ltb n 32 ≡ true
    → ltb (v * 2 ^ n) (2 ^ 31) ≡ true
    → shift_group v n ≡ some (v * 2 ^ n)
unfolding shift_group
shift-some v n a b = rw (a, b)

shift-none : (v n : ℕ) → ltb n 32 ≡ true → ltb (v * 2 ^ n) (2 ^ 31) ≡ false → shift_group v n ≡ none
unfolding shift_group
shift-none v n a b = rw (a, b)

group-byte : (x : ℕ) → (if x / 2 ^ 7 == 0 then x % 2 ^ 7 else x % 2 ^ 7 + 128) % 2 ^ 7 ≡ x % 2 ^ 7
group-byte x = ground arith

groups-first :
    (fuel x : ℕ) (tail : List ℕ)
    → (rest : List ℕ) × (stream_bits (groups (suc fuel) x) ++ tail
        ≡ byte_bits (if x / 2 ^ 7 == 0 then x % 2 ^ 7 else x % 2 ^ 7 + 128) ++ rest)
groups-first fuel x tail = elim (Bool-cases (x / 2 ^ 7 == 0)) [
  | inl e ↦ (tail, rw e)
  | inr e ↦ (
    stream_bits (groups fuel (x / 2 ^ 7)) ++ tail,
    rw e (append_assoc (byte_bits (x % 2 ^ 7 + 128)) _ tail),
  )
]

groups-last : (fuel x : ℕ) → (x / 2 ^ 7 == 0) ≡ true → groups (suc fuel) x ≡ x % 2 ^ 7 ∷ []
groups-last fuel x e = rw e

groups-more :
    (fuel x : ℕ)
    → (x / 2 ^ 7 == 0) ≡ false
    → groups (suc fuel) x ≡ (x % 2 ^ 7 + 128) ∷ groups fuel (x / 2 ^ 7)
groups-more fuel x e = rw e

Stage-step : (n fuel : ℕ) → IsGroup n → ltb n 32 ≡ true → Stage (n + 7) fuel → Stage n (suc fuel)
Stage-step n fuel g low later acc x p tail below some_left clean s =
    elim (Bool-cases (ltb (x % 128 * 2 ^ n) (2 ^ 31))) [
      | inr large ↦
          let (rest, first) = groups-first fuel x tail in
          rw (g.large acc x large) (
            read_undefined fuel acc n (x % 128) p rest clean (omega arith) _ (ground arith)
              (group-byte x) (s ∙ first) (shift-none (x % 128) n low large))
      | inl fits ↦
          let shifted = shift-some (x % 128) n low fits in
          elim (Bool-cases (x / 2 ^ 7 == 0)) [
            | inl last ↦
                let small = g.fits acc x below (ground arith) fits in
                let (q, read, left, clean') =
                  read_last fuel acc n (x % 128) p tail clean (omega arith) shifted below
                    (s ∙ ap (λ t. stream_bits t ++ tail) (groups-last fuel x last)) in
                rw small.0 (q, read ∙ ap (λ c. some (acc + c * 2 ^ n, q)) small.1, left, clean')
            | inr more ↦
                let rest = stream_bits (groups fuel (x / 2 ^ 7)) ++ tail in
                let (q, read, left, clean') =
                  read_more fuel acc n (x % 128) p rest clean (omega arith) shifted below (
                    s
                    ∙ ap (λ t. stream_bits t ++ tail) (groups-more fuel x more)
                    ∙ append_assoc (byte_bits (x % 2 ^ 7 + 128)) _ tail) in
                let after =
                  later (acc + x % 128 * 2 ^ n) (x / 128) q tail (g.next acc x below)
                    (λ _. ground arith) clean' left in
                subst (λ r. ReadBack (ltb (acc + x * 2 ^ n) (2 ^ 31)) (acc + x * 2 ^ n) tail r)
                  (sym read)
                  (subst
                    (λ t.
                      ReadBack (ltb t (2 ^ 31)) t tail
                        (parse_groups fuel (acc + x % 128 * 2 ^ n) (n + 7) q))
                    (g.split acc x) after)
          ]
    ]

Stage-35 : (fuel : ℕ) → Stage 35 (suc fuel)
Stage-35 fuel acc x p tail below some_left clean s =
    let (rest, first) = groups-first fuel x tail in
    let positive : 1 ≤ x = some_left (omega arith) in
    let large : ltb (acc + x * 2 ^ 35) (2 ^ 31) ≡ false = ground arith in
    rw large (
      read_undefined fuel acc 35 (x % 128) p rest clean (omega arith) _ (ground arith)
        (group-byte x) (s ∙ first) (unfold shift_group in refl))

IsGroup-28 : IsGroup 28
IsGroup-28 = record {
  next = λ acc x h. omega arith;
  split = λ acc x. omega arith;
  large = λ acc x h. ground arith;
  fits = λ acc x h z f. (ground arith, omega arith);
}

IsGroup-21 : IsGroup 21
IsGroup-21 = record {
  next = λ acc x h. omega arith;
  split = λ acc x. omega arith;
  large = λ acc x h. ground arith;
  fits = λ acc x h z f. (ground arith, omega arith);
}

IsGroup-14 : IsGroup 14
IsGroup-14 = record {
  next = λ acc x h. omega arith;
  split = λ acc x. omega arith;
  large = λ acc x h. ground arith;
  fits = λ acc x h z f. (ground arith, omega arith);
}

IsGroup-7 : IsGroup 7
IsGroup-7 = record {
  next = λ acc x h. omega arith;
  split = λ acc x. omega arith;
  large = λ acc x h. ground arith;
  fits = λ acc x h z f. (ground arith, omega arith);
}

IsGroup-0 : IsGroup 0
IsGroup-0 = record {
  next = λ acc x h. omega arith;
  split = λ acc x. omega arith;
  large = λ acc x h. ground arith;
  fits = λ acc x h z f. (ground arith, omega arith);
}

Stage-0 : Stage 0 10
Stage-0 = Stage-step 0 9 IsGroup-0 refl (
    Stage-step 7 8 IsGroup-7 refl (
      Stage-step 14 7 IsGroup-14 refl
        (Stage-step 21 6 IsGroup-21 refl (Stage-step 28 5 IsGroup-28 refl (Stage-35 4)))))

pub append_cancel : (xs ys zs : List ℕ) → xs ++ ys ≡ xs ++ zs → ys ≡ zs
append_cancel [] ys zs e = e
append_cancel (x ∷ xs) ys zs e = append_cancel xs ys zs (ground (arith, e))

-- A parser at the place where a number is written, on data that go on in any way, reads the number
-- back and stands behind it, where the number is below 2 ^ 31; for any other number of the stream
-- it shifts an `int` too far, which is undefined.
pub parse_uint-output_uint :
    (o : Output) (x : ℕ) (p : Parser) (tail : List ℕ)
    → IsValid o
    → IsClean p
    → written o ++ pending p ≡ written (output_uint o x) ++ tail
    → ReadBack (ltb x (2 ^ 31)) x tail (parse_uint p)
unfolding output_uint parse_uint
parse_uint-output_uint o x p tail v clean e =
    let bits : pending p ≡ stream_bits (groups 10 x) ++ tail = append_cancel (written o) _ _ (
      e
      ∙ ap (λ t. t ++ tail) (output_groups-written 10 o x v).0
      ∙ append_assoc (written o) (stream_bits (groups 10 x)) tail) in
    subst (λ t. ReadBack (ltb t (2 ^ 31)) t tail (parse_groups 10 0 0 p)) (omega arith)
      (Stage-0 0 x p tail (omega arith) (λ z. absurd (z refl)) clean bits)
