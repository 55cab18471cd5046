-- ===== src/Base/Int.antt =====
-- `int` values that come from differences of words. `negsuc n` is -(n + 1).
use Prim.Native.Nat.{ℕ, suc, ◌-◌}
use mathlib.Core.Path.{◌≡◌}
use mathlib.Core.Bool.{Bool, false}
use native.Mathlib.Omega.{arith}
use oai_lte_5g_multi_ue_prox.Base.Tests.{leb, ltb, if◌then◌else◌}

pub data ℤ : Type 0 where
  pos : ℕ → ℤ
  negsuc : ℕ → ℤ

-- a - b, as an integer.
abbrev pub sub_ℕ : ℕ → ℕ → ℤ
sub_ℕ a b = if leb b a then pos (a - b) else negsuc (b - a - 1)

-- `x > k` for a constant k.
abbrev pub exceeds : ℤ → ℕ → Bool
exceeds (pos n) k = ltb k n
exceeds (negsuc n) k = false

abbrev pub negate : ℤ → ℤ
negate (pos n) = sub_ℕ 0 n
negate (negsuc n) = pos (suc n)

pub negate-sub_ℕ : (a b : ℕ) → negate (sub_ℕ a b) ≡ sub_ℕ b a
negate-sub_ℕ a b = ground arith
