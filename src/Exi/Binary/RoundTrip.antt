-- ===== src/Exi/Binary/RoundTrip.antt =====
-- Binary data are read back as they were written.
use mathlib.Core.Path.{subst}
use client.Base.{
  append-nil, append_assoc, ℕ, zero, suc, ◌+◌, ◌-◌, ◌*◌, ◌^◌, ◌≤◌, ◌<◌, ◌≡◌, refl, sym, ◌∙◌, ap,
  Bool, true, false, some, List, [], ◌∷◌, ◌++◌, ◌==◌, ltb, if◌then◌else◌, take, length,
  length-append, replicate, arith, All, Bool-cases, ==_ne, inl, inr,
}
use client.Exi.{Output, output_byte, output_uint, Parser, parse_byte, parse_uint}
use client.Exi.Bits.{byte_bits, stream_bits, written, pending, IsValid}
use client.Exi.Bytes.{output_byte-written, parse_byte-Taken, length-drop}
use client.Exi.Groups.{IsClean, groups, output_groups-written}
use client.Exi.RoundTrip.{ReadBack, append_cancel, parse_uint-output_uint}
use client.Exi.BitField.RoundTrip.{length-stream_bits}
use client.Exi.Binary.{
  value, strip_zeros, output_bytes, output_binary, parse_bytes, parse_binary_bytes,
  parse_binary_length, parse_binary,
}

abbrev pub IsByte : ℕ → Type 0
IsByte b = b < 256

pub output_uint-written :
    (o : Output) (x : ℕ)
    → IsValid o
    → (written (output_uint o x) ≡ written o ++ stream_bits (groups 10 x))
      × IsValid (output_uint o x)
unfolding output_uint
output_uint-written o x v = output_groups-written 10 o x v

pub output_bytes-written :
    (o : Output) (b : List ℕ)
    → IsValid o
    → All IsByte b
    → (written (output_bytes o b) ≡ written o ++ stream_bits b) × IsValid (output_bytes o b)
unfolding output_bytes
output_bytes-written o [] v h = (sym (append-nil (written o)), v)
output_bytes-written o (b ∷ rest) v h =
    let first = output_byte-written o b v h.0 in
    let later = output_bytes-written (output_byte o b) rest first.1 h.1 in
    (
      later.0
          ∙ ap (λ t. t ++ stream_bits rest) first.0
          ∙ append_assoc (written o) (byte_bits b) (stream_bits rest),
      later.1,
    )

-- The number at the parser's place.
pub parse_uint-read :
    (x : ℕ) (p : Parser) (tail : List ℕ)
    → x < 2 ^ 31
    → IsClean p
    → pending p ≡ stream_bits (groups 10 x) ++ tail
    → (q : Parser) × (parse_uint p ≡ some (x, q)) × (pending q ≡ tail) × IsClean q
parse_uint-read x p tail h c e =
    let start : Output = record { done = []; last = 0; bit = 0 } in
    let v : IsValid start = record { offset = omega arith; byte = omega arith; clear = refl } in
    let small : ltb x (2 ^ 31) ≡ true = ground arith in
    subst (λ t. ReadBack t x tail (parse_uint p)) small
      (parse_uint-output_uint start x p tail v c
        (e ∙ ap (λ t. t ++ tail) (sym (output_uint-written start x v).0)))

record ReadBytes (b tail : List ℕ) (r : List ℕ × Parser) : Type 0 where
  bytes : r.0 ≡ b
  left : pending r.1 ≡ tail
  clean : IsClean r.1

parse_bytes-ReadBytes :
    (b : List ℕ) (p : Parser) (tail : List ℕ)
    → All IsByte b
    → IsClean p
    → pending p ≡ stream_bits b ++ tail
    → ReadBytes b tail (parse_bytes (length b) p)
unfolding parse_bytes
parse_bytes-ReadBytes [] p tail h c e = record { bytes = refl; left = e; clean = c }
parse_bytes-ReadBytes (b ∷ rest) p tail h c e =
    let first =
      parse_byte-Taken p b (stream_bits rest ++ tail) c.0 h.0
        (e ∙ append_assoc (byte_bits b) (stream_bits rest) tail) in
    let later =
      parse_bytes-ReadBytes rest (parse_byte p).1 tail h.1 (first.reading, first.whole ∙ c.1)
        first.left in
    record {
      bytes =
          ap (λ t. t ∷ (parse_bytes (length rest) (parse_byte p).1).0) first.value
          ∙ ap (λ t. b ∷ t) later.bytes;
      left = later.left;
      clean = later.clean;
    }

-- The zeros at the front.
pub strip_zeros-replicate :
    (b : List ℕ)
    → (k : ℕ) × (b ≡ replicate k 0 ++ strip_zeros b) × (k + length (strip_zeros b) ≡ length b)
unfolding strip_zeros
strip_zeros-replicate [] = (0, refl, omega arith)
strip_zeros-replicate (b ∷ []) = (0, refl, omega arith)
strip_zeros-replicate (b ∷ c ∷ rest) =
    let (k, same, sum) = strip_zeros-replicate (c ∷ rest) in
    elim (Bool-cases (b == 0)) [
      | inl z ↦
          let z' : b ≡ 0 = ground arith in
          (
            suc k,
            rw z (ap (λ t. t ∷ c ∷ rest) z' ∙ ap (λ t. 0 ∷ t) same),
            rw z (omega (arith, sum)),
          )
      | inr n ↦ (0, rw n, rw n (omega arith))
    ]

pub strip_zeros-IsByte : (b : List ℕ) → All IsByte b → All IsByte (strip_zeros b)
unfolding strip_zeros
strip_zeros-IsByte [] h = h
strip_zeros-IsByte (b ∷ []) h = h
strip_zeros-IsByte (b ∷ c ∷ rest) h = elim (Bool-cases (b == 0)) [
  | inl z ↦ rw z (strip_zeros-IsByte (c ∷ rest) h.1)
  | inr n ↦ rw n h
]

pub strip_zeros-nonempty : (b : List ℕ) → 1 ≤ length b → 1 ≤ length (strip_zeros b)
unfolding strip_zeros
strip_zeros-nonempty [] h = h
strip_zeros-nonempty (b ∷ []) h = omega arith
strip_zeros-nonempty (b ∷ c ∷ rest) h =
    ground (arith, strip_zeros-nonempty (c ∷ rest) (omega arith))

take-replicate : (k m : ℕ) → k ≤ m → take {A = ℕ} k (replicate m 0) ≡ replicate k 0
take-replicate zero m h = refl
take-replicate (suc k) zero h = absurd (omega arith)
take-replicate (suc k) (suc m) h = ap (λ t. 0 ∷ t) (take-replicate k m (omega arith))

length-replicate : (m : ℕ) → length {A = ℕ} (replicate m 0) ≡ m
length-replicate zero = refl
length-replicate (suc m) = omega (arith, length-replicate m)

lt-false : (a b : ℕ) → b ≤ a → ltb a b ≡ false
lt-false a b h = ground arith

parse_binary_bytes-read :
    (b : List ℕ) (p : Parser) (tail old : List ℕ)
    → 1 ≤ length b + length tail
    → All IsByte b
    → IsClean p
    → pending p ≡ stream_bits b ++ tail
    → (q : Parser) × (parse_binary_bytes old (length b) p
        ≡ value (take (length old - length b) old ++ b) q)
      × (pending q ≡ tail)
      × IsClean q
unfolding parse_binary_bytes
parse_binary_bytes-read b p tail old some_left h c e =
    let bits : length (stream_bits p.rest) - p.bit ≡ 8 * length b + length tail =
      sym (length-drop p.bit (stream_bits p.rest))
      ∙ ap length e
      ∙ length-append (stream_bits b) tail
      ∙ ap (λ t. t + length tail) (length-stream_bits b) in
    let whole = length-stream_bits p.rest in
    let r = parse_bytes-ReadBytes b p tail h c e in
    let space : ltb (length p.rest) (if p.bit == 0 then length b else length b + 1) ≡ false =
      elim (Bool-cases (p.bit == 0)) [
        | inl z ↦
            let start : p.bit ≡ 0 = ground arith in rw z (lt-false _ _ (omega (arith, bits, whole)))
        | inr n ↦ let inside = ==_ne _ _ n in rw n (lt-false _ _ (omega (arith, bits, whole)))
      ] in
    (
      (parse_bytes (length b) p).1,
      rw space (
          ap (λ t. value (take (length old - length b) old ++ t) (parse_bytes (length b) p).1)
            r.bytes),
      r.left,
      r.clean,
    )

parse_binary_length-some :
    (old : List ℕ) (m : ℕ) (p : Parser)
    → p.truncated ≡ false
    → m ≤ length old
    → parse_binary_length old (some (m, p)) ≡ parse_binary_bytes old m p
unfolding parse_binary_length
parse_binary_length-some old m p w l = rw (w, lt-false _ _ l)

-- Where the buffer has the space, binary data of less than 2 ^ 31 bytes are read back into zeroed
-- memory of their length as they were, the zeros at the front included, which are not in the
-- stream; the parser is at any offset within a byte, on data that go on in any way, and is behind
-- the bytes then.
pub parse_binary-output_binary :
    (size : ℕ) (o : Output) (b : List ℕ) (p : Parser) (tail : List ℕ)
    → 1 ≤ length b
    → length b < 2 ^ 31
    → All IsByte b
    → IsValid o
    → IsClean p
    → (output_binary size o b).1 ≡ true
    → written o ++ pending p ≡ written (output_binary size o b).0 ++ tail
    → (q : Parser) × (parse_binary p (replicate (length b) 0) ≡ value b q)
      × (pending q ≡ tail)
      × IsClean q
unfolding output_binary parse_binary
parse_binary-output_binary size o b p tail ne short h v c space e =
    let s = strip_zeros b in
    let (k, same, sum) = strip_zeros-replicate b in
    let first = output_uint-written o (length s) v in
    let o' = output_uint o (length s) in
    let bytes = strip_zeros-IsByte b h in
    let later = output_bytes-written o' s first.1 bytes in
    let result : Bool → Output × Bool =
      λ refused. if refused then (o', false) else (output_bytes o' s, true) in
    let fits : ltb size (length o'.done + length s + 1) ≡ false = ground (arith, space) in
    let stream : written (output_bytes o' s)
        ≡ written o ++ (stream_bits (groups 10 (length s)) ++ stream_bits s) =
      later.0 ∙ ap (λ t. t ++ stream_bits s) first.0 ∙ append_assoc (written o) _ _ in
    let ahead : pending p ≡ stream_bits (groups 10 (length s)) ++ (stream_bits s ++ tail) =
      append_cancel (written o) _ _ (
        e
        ∙ ap (λ t. written (result t).0 ++ tail) fits
        ∙ ap (λ t. t ++ tail) stream
        ∙ append_assoc (written o) _ tail
        ∙ ap (λ t. written o ++ t)
            (append_assoc (stream_bits (groups 10 (length s))) (stream_bits s) tail)) in
    let (q, read, left, clean) =
      parse_uint-read (length s) p (stream_bits s ++ tail) (omega arith) c ahead in
    let old : List ℕ = replicate (length b) 0 in
    let len = length-replicate (length b) in
    let (r, bytes', left', clean') =
      parse_binary_bytes-read s q tail old (omega (arith, strip_zeros-nonempty b ne)) bytes clean
        left in
    let padded : take (length old - length s) old ++ s ≡ b =
      ap (λ t. take t old ++ s) (omega (arith, len, sum))
      ∙ ap (λ t. t ++ s) (take-replicate k (length b) (omega (arith, sum)))
      ∙ sym same in
    (
      r,
      ap (parse_binary_length old) read
          ∙ parse_binary_length-some old (length s) q clean.1 (omega (arith, len, sum))
          ∙ bytes'
          ∙ ap (λ t. value t r) padded,
      left',
      clean',
    )
