-- ===== src/Base/Int.antt =====
-- Integers over the native numbers; `negsuc n` is -(n + 1).
use Prim.Native.Nat.{ℕ, ◌+◌, ◌-◌, suc}

pub data ℤ : Type 0 where
  pos : ℕ → ℤ
  negsuc : ℕ → ℤ

-- A time moved by a signed number of seconds.
abbrev pub shift : ℕ → ℤ → ℕ
shift t (pos n) = t + n
shift t (negsuc n) = t - suc n
