-- ===== src/Prelude/Bits.antt =====
-- Truth tables: a test that holds of every number of a small range, by evaluation.
use Prim.Native.Nat.{ℕ, zero, suc, ◌<◌}
use mathlib.Core.Path.{◌≡◌}
use mathlib.Core.Bool.{Bool, true, false, not}
use mathlib.Core.Logic.{inl, inr}
use native.Mathlib.Omega.{arith}
use linux_operating_system.Prelude.Tests.{Bool-cases, ◌==◌, if◌then◌else◌}

-- The test holds of the numbers below the first argument, the largest one tried first.
unfoldable pub is_table : ℕ → (ℕ → Bool) → Bool
is_table zero test = true
is_table (suc bound) test = let rest = is_table bound test in if test bound then rest else false

pub table_entry :
    (bound : ℕ) (test : ℕ → Bool) (k : ℕ) → is_table bound test ≡ true → k < bound → test k ≡ true
unfolding is_table
table_entry zero test k table below = absurd (omega arith)
table_entry (suc bound) test k table below = elim (Bool-cases (k == bound)) [
  | inl last ↦ ground (arith, table)
  | inr earlier ↦ table_entry bound test k (ground arith) (ground arith)
]

pub table_witness :
    (n : ℕ) (p : ℕ → Bool) → is_table n (λ k. not (p k)) ≡ false → (k : ℕ) × (k < n) × (p k ≡ true)
unfolding is_table
table_witness zero p h = absurd (ground arith)
table_witness (suc n) p h = elim (Bool-cases (p n)) [
  | inl e ↦ (n, omega arith, e)
  | inr e ↦ let (k, lt, q) = table_witness n p (rw e at h) in (k, omega arith, q)
]
