-- ===== src/Base/Int.antt =====
-- Signed integers over the native numbers, under the library's names.
use Prim.Native.Nat.{ℕ, ◌%◌, ◌^◌, ◌-◌}
use mathlib.Core.Bool.{Bool, false}
use zookeeper_fork.Base.Tests.{◌==◌, ltb, if◌then◌else◌}

-- `negsuc n` is -(n + 1).
pub data ℤ : Type 0 where
  pos : ℕ → ℤ
  negsuc : ℕ → ℤ

abbrev pub eqb_ℤ : ℤ → ℤ → Bool
eqb_ℤ (pos a) (pos b) = a == b
eqb_ℤ (negsuc a) (negsuc b) = a == b
eqb_ℤ _ _ = false

-- A number of `b` bits and a sign.
abbrev pub fits : ℕ → ℤ → Bool
fits b (pos n) = ltb n (2 ^ b)
fits b (negsuc n) = ltb n (2 ^ b)

-- `(int)` of a `size_t` or of a `long` from 0 on
abbrev pub to_int : ℕ → ℤ
to_int n = let r = n % 2 ^ 32 in if ltb r (2 ^ 31) then pos r else negsuc (2 ^ 32 - r - 1)
