-- ===== src/Exi/Values/Numbers.antt =====
-- Numbers are read back by their types.
use mathlib.Core.Path.{subst}
use client.Base.{
  ℕ, ◌+◌, ◌%◌, ◌^◌, ◌<◌, ◌≡◌, refl, sym, ◌∙◌, ap, Bool, true, false, Option, some, List, ◌++◌, ltb,
  if◌then◌else◌, length, arith,
}
use client.Base.Int.{ℤ}
use client.Schema.XsType
use client.Exi.{Output, output_uint, Parser, parse_uint}
use client.Exi.Bits.{written, pending, IsValid}
use client.Exi.Groups.{IsClean}
use client.Exi.RoundTrip.{ReadBack, parse_uint-output_uint}
use client.Exi.BitField.{output_bits, parse_bits}
use client.Exi.BitField.RoundTrip.{parse_bits-output_bits}
use client.Exi.Integer.{output_integer, parse_integer, magnitude}
use client.Exi.Integer.SignBit.{ReadSigned, parse_integer-output_integer}
use client.Exi.Binary.{Outcome}
use client.Exi.Strings.{Tables}
use client.Exi.Values.{
  Value, signed, unsigned, from_byte, to_byte, to_short, whole, signed_value, unsigned_value,
  exi_output_value, exi_parse_value,
}

-- A value of a number's type, below 2 ^ 31 in magnitude where the type allows more.
pub data IsNumber : ℕ → Value → Type 0 where
  long : (x : ℤ) → magnitude x < 2 ^ 31 → IsNumber XsType.long (signed x)
  int : (x : ℤ) → magnitude x < 2 ^ 31 → IsNumber XsType.int (signed x)
  short : (x : ℤ) → to_short x ≡ x → magnitude x < 2 ^ 31 → IsNumber XsType.short (signed x)
  byte : (x : ℤ) → from_byte x < 256 → to_byte (from_byte x) ≡ x → IsNumber XsType.byte (signed x)
  ulong : (x : ℕ) → x < 2 ^ 31 → IsNumber XsType.ulong (unsigned x)
  uint : (x : ℕ) → x < 2 ^ 31 → IsNumber XsType.uint (unsigned x)
  ushort : (x : ℕ) → x < 2 ^ 16 → IsNumber XsType.ushort (unsigned x)
  ubyte : (x : ℕ) → x < 2 ^ 8 → IsNumber XsType.ubyte (unsigned x)

abbrev pub ReadValue : Value → Tables → List ℕ → Outcome (Value × Tables) → Type 0
ReadValue v tables tail r =
    (q : Parser) × (r ≡ Outcome.value (v, tables) q) × (pending q ≡ tail) × IsClean q

module _ (past : ℕ) (small : past < 256) (tables : Tables) (o : Output) (p : Parser) (tail : List ℕ)
    (v : IsValid o) (c : IsClean p) where
  whole-value :
      (x : Value) (q : Parser)
      → q.truncated ≡ false
      → whole tables x q ≡ Outcome.value (x, tables) q
  whole-value x q w = ap (λ b. if b then Outcome.truncated q else Outcome.value (x, tables) q) w

  read_signed :
      (cast : ℤ → ℤ) (x : ℤ)
      → cast x ≡ x
      → magnitude x < 2 ^ 31
      → written o ++ pending p ≡ written (output_integer o x) ++ tail
      → ReadValue (signed x) tables tail (signed_value tables cast (parse_integer p))
  read_signed cast x same h e =
      let fits : ltb (magnitude x) (2 ^ 31) ≡ true = ground arith in
      let (q, read, left, clean) =
        subst (λ b. ReadSigned b x tail (parse_integer p)) fits
          (parse_integer-output_integer o x p tail v c e) in
      (
        q,
        ap (signed_value tables cast) read
            ∙ whole-value (signed (cast x)) q clean.1
            ∙ ap (λ t. Outcome.value (signed t, tables) q) same,
        left,
        clean,
      )

  read_unsigned :
      (width x : ℕ)
      → x % 2 ^ width ≡ x
      → x < 2 ^ 31
      → written o ++ pending p ≡ written (output_uint o x) ++ tail
      → ReadValue (unsigned x) tables tail (unsigned_value tables width (parse_uint p))
  read_unsigned width x same h e =
      let fits : ltb x (2 ^ 31) ≡ true = ground arith in
      let (q, read, left, clean) =
        subst (λ b. ReadBack b x tail (parse_uint p)) fits
          (parse_uint-output_uint o x p tail v c e) in
      (
        q,
        ap (unsigned_value tables width) read
            ∙ whole-value (unsigned (x % 2 ^ width)) q clean.1
            ∙ ap (λ t. Outcome.value (unsigned t, tables) q) same,
        left,
        clean,
      )

  read_bits :
      (of : ℕ → Value) (x : ℕ) (y : Value)
      → of x ≡ y
      → x < 256
      → written o ++ pending p ≡ written (output_bits o x 8) ++ tail
      → ReadValue y tables tail (whole tables (of (parse_bits past p 8).0) (parse_bits past p 8).1)
  read_bits of x y same h e =
      let (q, read, left, clean) =
        parse_bits-output_bits past small o x 8 p tail (omega arith) (omega arith) h v c e in
      (
        q,
        ap (λ r. whole tables (of r.0) r.1) read
            ∙ whole-value (of x) q clean.1
            ∙ ap (λ t. Outcome.value (t, tables) q) same,
        left,
        clean,
      )

-- What was written, where there was space.
has_space :
    (full : Bool) (o o2 o' : Output) (tables after : Tables)
    → if◌then◌else◌ {A = Option (Bool × Output × Tables)} full
        (some (false, o, tables))
        (some (true, o2, tables))
      ≡ some (true, o', after)
    → (o' ≡ o2) × (tables ≡ after)
has_space true o o2 o' tables after e = absurd (cc)
has_space false o o2 o' tables after e =
    let first : o2 ≡ o' = cc in let second : tables ≡ after = cc in (sym first, second)

-- A number of one of the eight types, below 2 ^ 31 in magnitude, that `exi_output_value` has
-- written is read back by `exi_parse_value` for the same type, and the tables are as they were; the
-- parser is at any offset within a byte, on data that go on in any way, and is behind the number
-- then.
pub exi_parse_value-exi_output_value :
    (past size type name flag : ℕ) (tables after : Tables) (o o' : Output) (x old : Value)
    (p : Parser) (tail : List ℕ)
    → past < 256
    → IsValid o
    → IsClean p
    → IsNumber type x
    → exi_output_value size type name flag o tables x ≡ some (true, o', after)
    → written o ++ pending p ≡ written o' ++ tail
    → ReadValue x after tail (exi_parse_value past type name flag p tables old)
unfolding exi_output_value exi_parse_value
exi_parse_value-exi_output_value past size type name flag tables after o o' _ old p tail small v c
      (long x h) out e =
    let (same, kept) =
      has_space (ltb size (length o.done + 10)) o (output_integer o x) o' tables after out in
    let e2 : written o ++ pending p ≡ written (output_integer o x) ++ tail =
      e ∙ ap (λ z. written z ++ tail) same in
    subst
      (λ t. ReadValue (signed x) t tail (exi_parse_value past XsType.long name flag p tables old))
      kept (read_signed past small tables o p tail v c (λ z. z) x refl h e2)
exi_parse_value-exi_output_value past size type name flag tables after o o' _ old p tail small v c
      (int x h) out e =
    let (same, kept) =
      has_space (ltb size (length o.done + 10)) o (output_integer o x) o' tables after out in
    let e2 : written o ++ pending p ≡ written (output_integer o x) ++ tail =
      e ∙ ap (λ z. written z ++ tail) same in
    subst
      (λ t. ReadValue (signed x) t tail (exi_parse_value past XsType.int name flag p tables old))
      kept (read_signed past small tables o p tail v c (λ z. z) x refl h e2)
exi_parse_value-exi_output_value past size type name flag tables after o o' _ old p tail small v c
      (short x w h) out e =
    let (same, kept) =
      has_space (ltb size (length o.done + 10)) o (output_integer o x) o' tables after out in
    let e2 : written o ++ pending p ≡ written (output_integer o x) ++ tail =
      e ∙ ap (λ z. written z ++ tail) same in
    subst
      (λ t. ReadValue (signed x) t tail (exi_parse_value past XsType.short name flag p tables old))
      kept (read_signed past small tables o p tail v c to_short x w h e2)
exi_parse_value-exi_output_value past size type name flag tables after o o' _ old p tail small v c
      (byte x h w) out e =
    let (same, kept) =
      has_space (ltb size (length o.done + 10)) o (output_bits o (from_byte x) 8) o' tables after
        out in
    let e2 : written o ++ pending p ≡ written (output_bits o (from_byte x) 8) ++ tail =
      e ∙ ap (λ z. written z ++ tail) same in
    subst
      (λ t. ReadValue (signed x) t tail (exi_parse_value past XsType.byte name flag p tables old))
      kept
      (read_bits past small tables o p tail v c (λ n. signed (to_byte n)) (from_byte x) (signed x)
        (ap signed w) h e2)
exi_parse_value-exi_output_value past size type name flag tables after o o' _ old p tail small v c
      (ulong x h) out e =
    let (same, kept) =
      has_space (ltb size (length o.done + 10)) o (output_uint o x) o' tables after out in
    let e2 : written o ++ pending p ≡ written (output_uint o x) ++ tail =
      e ∙ ap (λ z. written z ++ tail) same in
    subst
      (λ t.
        ReadValue (unsigned x) t tail (exi_parse_value past XsType.ulong name flag p tables old))
      kept (read_unsigned past small tables o p tail v c 64 x (omega arith) h e2)
exi_parse_value-exi_output_value past size type name flag tables after o o' _ old p tail small v c
      (uint x h) out e =
    let (same, kept) =
      has_space (ltb size (length o.done + 10)) o (output_uint o x) o' tables after out in
    let e2 : written o ++ pending p ≡ written (output_uint o x) ++ tail =
      e ∙ ap (λ z. written z ++ tail) same in
    subst
      (λ t. ReadValue (unsigned x) t tail (exi_parse_value past XsType.uint name flag p tables old))
      kept (read_unsigned past small tables o p tail v c 32 x (omega arith) h e2)
exi_parse_value-exi_output_value past size type name flag tables after o o' _ old p tail small v c
      (ushort x h) out e =
    let (same, kept) =
      has_space (ltb size (length o.done + 10)) o (output_uint o x) o' tables after out in
    let e2 : written o ++ pending p ≡ written (output_uint o x) ++ tail =
      e ∙ ap (λ z. written z ++ tail) same in
    subst
      (λ t.
        ReadValue (unsigned x) t tail (exi_parse_value past XsType.ushort name flag p tables old))
      kept (read_unsigned past small tables o p tail v c 16 x (omega arith) (omega arith) e2)
exi_parse_value-exi_output_value past size type name flag tables after o o' _ old p tail small v c
      (ubyte x h) out e =
    let (same, kept) =
      has_space (ltb size (length o.done + 10)) o (output_bits o x 8) o' tables after out in
    let e2 : written o ++ pending p ≡ written (output_bits o x 8) ++ tail =
      e ∙ ap (λ z. written z ++ tail) same in
    subst
      (λ t.
        ReadValue (unsigned x) t tail (exi_parse_value past XsType.ubyte name flag p tables old))
      kept (read_bits past small tables o p tail v c unsigned x (unsigned x) refl h e2)
