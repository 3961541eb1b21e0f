-- ===== src/Exi/BitField/RoundTrip.antt =====
-- `output_bits` and `parse_bits` together.
use mathlib.Core.Path.{subst}
use client.Base.{
  append_assoc, ℕ, zero, suc, ◌+◌, ◌-◌, ◌*◌, ◌/◌, ◌%◌, ◌^◌, ◌≤◌, ◌<◌, ◌≡◌, refl, sym, ◌∙◌, ap, true,
  false, List, [], ◌∷◌, ◌++◌, ◌==◌, ltb, if◌then◌else◌, length, length-append, drop, get_or, arith,
  Bool-cases, ==_ne, ◌≢◌, inl, inr,
}
use native.Mathlib.Nat.{pow-suc}
use client.Exi.{Output, Parser}
use client.Exi.Bits.{stream_bits, written, pending, IsValid, below_8}
use client.Exi.Bytes.{length-drop}
use client.Exi.Groups.{IsClean}
use client.Exi.RoundTrip.{append_cancel}
use client.Exi.BitField.{output_bits, gather, parse_bits}
use client.Exi.BitField.Fields.{field, length-field}
use client.Exi.BitField.Written.{output_bits-written}
use client.Exi.BitField.Window.{
  window, window-suc, window-byte, window-low, window-fits, double_mod,
}
use client.Exi.Integer.{parse_bit, bit_of}
use client.Exi.Integer.SignBit.{TakenBit, parse_bit-TakenBit}

pub length-stream_bits : (xs : List ℕ) → length (stream_bits xs) ≡ 8 * length xs
length-stream_bits [] = omega arith
length-stream_bits (x ∷ xs) = omega (arith, length-stream_bits xs)

drop-suc : (i : ℕ) (xs : List ℕ) → drop (suc i) xs ≡ drop 1 (drop i xs)
drop-suc zero xs = refl
drop-suc (suc i) [] = refl
drop-suc (suc i) (x ∷ xs) = drop-suc i xs

get_or-drop : (i : ℕ) (xs : List ℕ) (d : ℕ) → get_or (drop i xs) 0 d ≡ get_or xs i d
get_or-drop zero xs d = refl
get_or-drop (suc i) [] d = refl
get_or-drop (suc i) (x ∷ xs) d = get_or-drop i xs d

-- What a bit read by `parse_bit` says of the byte that it is in.
record IsBit (past b : ℕ) (tail rest : List ℕ) (q : Parser) : Type 0 where
  value : get_or rest 0 past / 2 ^ (7 - q.bit) % 2 ≡ b
  within :
      q.bit < 7
      → (pending (record q { rest = rest; bit = q.bit + 1 }) ≡ tail)
        × IsClean (record q { rest = rest; bit = q.bit + 1 })
  full :
      q.bit ≡ 7
      → (pending (record q { rest = drop 1 rest; bit = 0 }) ≡ tail)
        × IsClean (record q { rest = drop 1 rest; bit = 0 })

TakenBit-IsBit :
    (past b : ℕ) (tail rest : List ℕ) (q : Parser)
    → q.rest ≡ rest
    → TakenBit b tail (bit_of rest q)
    → IsBit past b tail rest q
unfolding bit_of
TakenBit-IsBit past b tail [] q e t = absurd (let c = t.clean.1 in cc)
TakenBit-IsBit past b tail (c ∷ rest) q e t = record {
  value = t.value;
  within = λ l.
      let inside : (q.bit + 1 == 8) ≡ false = ground arith in
      let next : (if q.bit + 1 == 8
            then record q { rest = rest; bit = 0 }
            else record q { bit = q.bit + 1 })
          ≡ record q { rest = c ∷ rest; bit = q.bit + 1 } =
        rw inside (ap (λ r. record q { rest = r; bit = q.bit + 1 }) e) in
      (ap pending (sym next) ∙ t.left, subst IsClean next t.clean);
  full = λ l.
      let end : (q.bit + 1 == 8) ≡ true = ground arith in
      let next : (if q.bit + 1 == 8
            then record q { rest = rest; bit = 0 }
            else record q { bit = q.bit + 1 })
          ≡ record q { rest = rest; bit = 0 } =
        rw end in
      (ap pending (sym next) ∙ t.left, subst IsClean next t.clean);
}

-- A bit more of the window, within its last byte and beyond it.
abbrev More : ℕ → ℕ → Type 0
More w m =
    m < 7
    → (w / 2 ^ (8 - (m + 1)) / 2 ≡ w / 2 ^ (8 - m))
      × (w / 2 ^ (8 - (m + 1)) % 2 ≡ w % 2 ^ 8 / 2 ^ (7 - m) % 2)

More-lem : (w m : ℕ) → m < 8 → More w m
More-lem w m =
    below_8 (More w) (λ l. (omega arith, omega arith)) (λ l. (omega arith, omega arith))
      (λ l. (omega arith, omega arith)) (λ l. (omega arith, omega arith))
      (λ l. (omega arith, omega arith)) (λ l. (omega arith, omega arith))
      (λ l. (omega arith, omega arith)) (λ l. absurd (omega arith)) m

-- The parser behind `n` bits, and the number that they are.
abbrev pub behind : Parser → ℕ → Parser
behind p n = record p { rest = drop ((p.bit + n) / 8) p.rest; bit = (p.bit + n) % 8 }

abbrev number : ℕ → Parser → ℕ → ℕ
number past p n = window past p.rest ((p.bit + n) / 8) / 2 ^ (8 - (p.bit + n) % 8) % 2 ^ n

bit_read :
    (q : Parser) (b : ℕ) (tail : List ℕ)
    → IsClean q
    → pending q ≡ b ∷ tail
    → TakenBit b tail (bit_of q.rest q)
bit_read q b tail c e = unfold parse_bit in parse_bit-TakenBit q b tail c e

lt-false : (a b : ℕ) → b ≤ a → ltb a b ≡ false
lt-false a b h = ground arith

module _ (past : ℕ) (small : past < 256) where
  number-suc :
      (p : Parser) (n x : ℕ) (tail : List ℕ)
      → n ≤ 23
      → IsClean p
      → number past p n ≡ x / 2
      → IsBit past (x % 2) tail (behind p n).rest (behind p n)
      → (number past p (suc n) ≡ x)
        × (pending (behind p (suc n)) ≡ tail)
        × IsClean (behind p (suc n))
  number-suc p n x tail l c value bit = elim (Bool-cases ((p.bit + n) % 8 == 7)) [
    | inl full ↦
        let i = (p.bit + n) / 8 in
        let m : (p.bit + n) % 8 ≡ 7 = ground arith in
        let m' : (p.bit + suc n) % 8 ≡ 0 = omega arith in
        let i' : (p.bit + suc n) / 8 ≡ suc i = omega arith in
        let w = window-suc past small p.rest i c.0.bytes in
        let few = window-fits past small p.rest i (omega (arith, c.0.offset)) c.0.bytes in
        let low = window-low past small p.rest i c.0.bytes in
        let next = window past p.rest (suc i) / 2 ^ (8 - 0) in
        let byte = window-byte past small (suc i) p.rest c.0.bytes in
        let same : next ≡ window past p.rest i = omega (arith, w, few, byte) in
        let halved : next / 2 ≡ window past p.rest i / 2 ^ (8 - (p.bit + n) % 8) =
          rw m (omega (arith, same)) in
        let last : next % 2 ≡ get_or (behind p n).rest 0 past / 2 ^ (7 - (behind p n).bit) % 2 =
          rw (m, get_or-drop i p.rest past) (omega (arith, same, low)) in
        (
          rw (i', m')
              (double_mod n next
                ∙ omega (arith, ap (λ t. t % 2 ^ n) halved, value, last, bit.value)),
          rw (i', m', drop-suc i p.rest) (bit.full m).0,
          rw (i', m', drop-suc i p.rest) (bit.full m).1,
        )
    | inr inside ↦
        let i = (p.bit + n) / 8 in
        let m = (p.bit + n) % 8 in
        let below : (p.bit + n) % 8 < 7 = ground arith in
        let m' : (p.bit + suc n) % 8 ≡ (p.bit + n) % 8 + 1 = omega arith in
        let i' : (p.bit + suc n) / 8 ≡ (p.bit + n) / 8 = omega arith in
        let w = window past p.rest i in
        let more = More-lem w m (omega arith) below in
        let low = window-low past small p.rest i c.0.bytes in
        (
          rw (i', m')
              (double_mod n (w / 2 ^ (8 - (m + 1)))
                ∙ omega (
                  arith,
                  ap (λ t. t % 2 ^ n) more.0,
                  value,
                  more.1,
                  ap (λ t. t / 2 ^ (7 - m) % 2) (low ∙ sym (get_or-drop i p.rest past)),
                  bit.value,
                )),
          rw (i', m') (bit.within below).0,
          rw (i', m') (bit.within below).1,
        )
  ]

  number-read :
      (p : Parser) (n x : ℕ) (tail : List ℕ)
      → n ≤ 24
      → IsClean p
      → x < 2 ^ n
      → pending p ≡ field n x ++ tail
      → (number past p n ≡ x) × (pending (behind p n) ≡ tail) × IsClean (behind p n)
  unfolding gather
  number-read p zero x tail l c h e =
      let i : (p.bit + 0) / 8 ≡ 0 = omega (arith, c.0.offset) in
      let m : (p.bit + 0) % 8 ≡ p.bit = omega (arith, c.0.offset) in
      (omega arith, rw (i, m) e, rw (i, m) c)
  number-read p (suc n) x tail l c h e =
      let front =
        number-read p n (x / 2) (x % 2 ∷ tail) (omega arith) c (omega (arith, pow-suc 2 n))
          (e ∙ append_assoc (field n (x / 2)) (x % 2 ∷ []) tail) in
      number-suc p n x tail (omega arith) c front.0 (
        TakenBit-IsBit past (x % 2) tail (behind p n).rest (behind p n) refl
          (bit_read (behind p n) (x % 2) tail front.2 front.1))

  enough :
      (p : Parser) (n x : ℕ) (tail : List ℕ)
      → 1 ≤ n + length tail
      → IsClean p
      → pending p ≡ field n x ++ tail
      → ltb (length p.rest) (if (p.bit + n) % 8 == 0 then (p.bit + n) / 8 else (p.bit + n) / 8 + 1)
        ≡ false
  enough p n x tail some c e =
      let bits : length (stream_bits p.rest) - p.bit ≡ n + length tail =
        sym (length-drop p.bit (stream_bits p.rest))
        ∙ ap length e
        ∙ length-append (field n x) tail
        ∙ ap (λ t. t + length tail) (length-field n x) in
      let offset = c.0.offset in
      let whole = length-stream_bits p.rest in
      elim (Bool-cases ((p.bit + n) % 8 == 0)) [
        | inl end ↦ rw end (lt-false _ _ (omega (arith, bits, whole)))
        | inr more ↦
            let rest : (p.bit + n) % 8 ≢ 0 = ==_ne _ _ more in
            rw more (lt-false _ _ (omega (arith, bits, whole)))
      ]

  -- A field of at most 24 bits at the parser's place, where it or the data behind it have a bit, is read as its number, whatever the byte
  -- behind the data is, and the parser is then behind it.
  pub parse_bits-field :
      (p : Parser) (n x : ℕ) (tail : List ℕ)
      → n ≤ 24
      → 1 ≤ n + length tail
      → IsClean p
      → x < 2 ^ n
      → pending p ≡ field n x ++ tail
      → (parse_bits past p n ≡ (x, behind p n))
        × (pending (behind p n) ≡ tail)
        × IsClean (behind p n)
  unfolding parse_bits
  parse_bits-field p n x tail l some c h e =
      let read = number-read p n x tail l c h e in
      (rw (enough p n x tail some c e) (ap (λ t. (t, behind p n)) read.0), read.1, read.2)

  -- A parser at the place where a field of at most 24 bits is written, at any offset within a byte
  -- and on data that go on in any way, reads the number of the field back and stands behind it.
  pub parse_bits-output_bits :
      (o : Output) (x n : ℕ) (p : Parser) (tail : List ℕ)
      → n ≤ 24
      → 1 ≤ n + length tail
      → x < 2 ^ n
      → IsValid o
      → IsClean p
      → written o ++ pending p ≡ written (output_bits o x n) ++ tail
      → (q : Parser) × (parse_bits past p n ≡ (x, q)) × (pending q ≡ tail) × IsClean q
  parse_bits-output_bits o x n p tail l some h v c e =
      let ahead : pending p ≡ field n x ++ tail = append_cancel (written o) _ _ (
        e
        ∙ ap (λ t. t ++ tail) (output_bits-written o x n v h).0
        ∙ append_assoc (written o) (field n x) tail) in
      let read = parse_bits-field p n x tail l some c h ahead in
      (behind p n, read.0, read.1, read.2)
