-- ===== src/Prelude/Words.antt =====
-- 32-bit words as native numbers.
use Prim.Native.Nat.{ℕ, ◌+◌, ◌-◌, ◌%◌}
use linux_operating_system.Prelude.Tests.{ltb, if◌then◌else◌}
use linux_operating_system.Prelude.Ints.{ℤ, pos, negsuc}

abbrev pub word : ℕ
word = 4294967296

abbrev pub add32 : ℕ → ℕ → ℕ
add32 a b = (a + b) % word

abbrev pub sub32 : ℕ → ℕ → ℕ
sub32 a b = (a + word - b) % word

-- The `int32_t` that a bit pattern below 2 ^ 32 stands for.
abbrev pub to_int32 : ℕ → ℤ
to_int32 w = if ltb w 2147483648 then pos w else negsuc (word - 1 - w)
