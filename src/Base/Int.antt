-- ===== src/Base/Int.antt =====
-- Integers over the native numbers, as far as a difference of two amounts needs them.
use Prim.Native.Nat.{ℕ, ◌-◌}
use transport_backend.Base.Tests.{leb, if◌then◌else◌}

-- `negsuc n` is -(n + 1).
pub data ℤ : Type 0 where
  pos negsuc : ℕ → ℤ

-- a - b
abbrev pub sub_ℕ : ℕ → ℕ → ℤ
sub_ℕ a b = if leb b a then pos (a - b) else negsuc (b - a - 1)
