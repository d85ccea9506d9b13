-- ===== src/Kernel/Forest/Stacks.antt =====
-- What the processes come to from outside: how many each terminal has, one above the other, and which
-- terminal runs.
use linux_operating_system.Prelude.{
  ℕ, ◌+◌, ◌-◌, ◌<◌, ◌≡◌, ◌≢◌, ◌⊎◌, Bool, ◌&&◌, not, ◌==◌, if◌then◌else◌, ℤ, pos, minus_one, store,
}
use linux_operating_system.Kernel.{Outcome, returns, enters}

pub record Stacks : Type 0 where
  pub depth : ℕ → ℕ
  pub running : ℕ

abbrev pub population : Stacks → ℕ
population s = s.depth 0 + s.depth 1 + s.depth 2

-- A program more above the running one, or the running one less.
abbrev pub pushed : Stacks → Stacks
pushed s = record s { depth = store s.depth s.running (s.depth s.running + 1) }

abbrev pub popped : Stacks → Stacks
popped s = record s { depth = store s.depth s.running (s.depth s.running - 1) }

-- Terminal `t` runs, with the programs that it has or with its first one.
abbrev pub turned : ℕ → Stacks → Stacks
turned t s = record s { running = t }

abbrev pub opened : ℕ → Stacks → Stacks
opened t s = record { depth = store s.depth t 1; running = t }

abbrev pub Enters : Outcome → Type 0
Enters o = (entry : ℕ) × (stack : ℕ) × (o ≡ enters entry stack)

-- An attempt to start a program: it fails and returns -1, or it enters a program above the running one,
-- where less than six are there.
abbrev pub Starts : Stacks → Outcome → Stacks → Type 0
Starts s o s' =
    ((o ≡ returns minus_one) × (s' ≡ s)) ⊎ (Enters o × (population s < 6) × (s' ≡ pushed s))

-- The end of the running program: the first one of a terminal is replaced by another that is entered, any
-- other is taken off, and the one below goes on.
abbrev pub Ends : Stacks → Outcome → Stacks → Type 0
Ends s o s' =
    ((s.depth s.running ≡ 1) × Enters o × (s' ≡ s))
    ⊎ ((1 < s.depth s.running) × (o ≡ returns (pos 0)) × (s' ≡ popped s))

-- Terminal `t` is given the processor: with its last program, or with a first one that is entered.
abbrev pub Switches : ℕ → Stacks → Outcome → Stacks → Type 0
Switches t s o s' =
    ((s.depth t ≢ 0) × (o ≡ returns (pos 0)) × (s' ≡ turned t s))
    ⊎ ((s.depth t ≡ 0) × Enters o × (population s < 6) × (s' ≡ opened t s))

-- A tick when it is terminal `t`'s turn: it runs where it has a program and the scheduler is `free`.
abbrev pub Turns : Bool → ℕ → Stacks → Outcome → Stacks → Type 0
Turns free t s o s' =
    (o ≡ returns (pos 0)) × (s' ≡ (if free && not (s.depth t == 0) then turned t s else s))

-- A key that chooses terminal `t`, or none: a terminal without a program may get its first.
abbrev pub Shows : ℕ → Stacks → Outcome → Stacks → Type 0
Shows t s o s' =
    ((n : ℤ) × (o ≡ returns n) × (s' ≡ s))
    ⊎ ((t < 3) × (s.depth t ≡ 0) × Enters o × (population s < 6) × (s' ≡ opened t s))
