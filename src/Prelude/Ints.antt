-- ===== src/Prelude/Ints.antt =====
-- `int32_t` results. `negsuc n` is -(n + 1), under the library's names.
use Prim.Native.Nat.{ℕ, ◌-◌}
use linux_operating_system.Prelude.Tests.{leb, if◌then◌else◌}

pub data ℤ : Type 0 where
  pos : ℕ → ℤ
  negsuc : ℕ → ℤ

-- The error result of the kernel's calls, -1.
abbrev pub minus_one : ℤ
minus_one = negsuc 0

-- a - b, as an integer.
abbrev pub sub_ℕ : ℕ → ℕ → ℤ
sub_ℕ a b = if leb b a then pos (a - b) else negsuc (b - a - 1)
