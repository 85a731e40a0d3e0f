-- ===== src/Base/Int.antt =====
-- Signed numbers over the native numbers: `long long` where it does not overflow.
use Prim.Native.Nat.{ℕ, ◌+◌, ◌-◌, zero, suc}
use mathlib.Core.Bool.{Bool, true, false}
use neon_world_os.Base.Tests.{leb, if◌then◌else◌}

-- `negsuc n` is -(n + 1).
pub data ℤ : Type 0 where
  pos : ℕ → ℤ
  negsuc : ℕ → ℤ

-- a - b, as an integer.
abbrev pub sub_ℕ : ℕ → ℕ → ℤ
sub_ℕ a b = if leb b a then pos (a - b) else negsuc (b - a - 1)

abbrev pub is_positive : ℤ → Bool
is_positive (pos zero) = false
is_positive (pos (suc n)) = true
is_positive (negsuc n) = false

-- `u + z`, and 0 if that is negative.
abbrev pub add_clamped : ℕ → ℤ → ℕ
add_clamped u (pos n) = u + n
add_clamped u (negsuc n) = u - (n + 1)
