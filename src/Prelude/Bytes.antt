-- ===== src/Prelude/Bytes.antt =====
-- The byte memory of the machine: one number below 256 at each address. Addresses are numbers; an
-- object never straddles the end of the 32-bit address space, so stepping through one does not wrap.
use Prim.Native.Nat.{ℕ, zero, suc, ◌+◌, ◌-◌, ◌*◌, ◌/◌, ◌%◌}
use mathlib.Core.Bool.{◌&&◌}
use mathlib.Core.List.{List, [], ◌∷◌}
use linux_operating_system.Prelude.Tests.{ltb, leb, ◌==◌, if◌then◌else◌}

abbrev pub Memory : Type 0
Memory = ℕ → ℕ

abbrev pub store : Memory → ℕ → ℕ → Memory
store m a v x = if x == a then v else m x

-- A little-endian 32-bit load and store.
abbrev pub load32 : Memory → ℕ → ℕ
load32 m a = m a + 256 * m (a + 1) + 65536 * m (a + 2) + 16777216 * m (a + 3)

abbrev pub store32 : Memory → ℕ → ℕ → Memory
store32 m a v =
    store (store (store (store m a (v % 256)) (a + 1) (v / 256 % 256)) (a + 2) (v / 65536 % 256))
      (a + 3) (v / 16777216 % 256)

-- The `n` bytes from address `a` on.
abbrev pub bytes : Memory → ℕ → ℕ → List ℕ
bytes m a zero = []
bytes m a (suc n) = m a ∷ bytes m (a + 1) n

-- The memory in which the block of `n` bytes at `d` holds what `m` has at `s`.
abbrev pub moved : ℕ → ℕ → ℕ → Memory → Memory
moved d s n m x = if leb d x && ltb x (d + n) then m (s + (x - d)) else m x

-- The memory in which the block of `n` bytes at `d` holds `v` throughout.
abbrev pub filled : ℕ → ℕ → ℕ → Memory → Memory
filled d v n m x = if leb d x && ltb x (d + n) then v else m x
