-- ===== src/Kernel/Live.antt =====
-- The kernel while every terminal has a program: what a run of interrupts finds and leaves.
pub mod Typing
pub mod Pressing
pub mod Runs
pub mod Fairness
use linux_operating_system.Prelude.{
  ℕ, zero, suc, ◌+◌, ◌-◌, ◌*◌, ◌/◌, ◌%◌, ◌^◌, ◌≤◌, ◌<◌, min, bit_and, bit_or, ◌≡◌, refl, sym, ap,
  ◌∙◌, fun_ext, subst, ◌≢◌, ◌↔◌, ◌⊎◌, inl, inr, Bool, true, false, ◌&&◌, ◌||◌, not, Option, none,
  some, List, [], ◌∷◌, ◌++◌, map, reverse, arith, ltb, leb, ◌==◌, if◌then◌else◌, ltb→lt, leb→le,
  ==_iff, Bool-cases, ◌>>=◌, bind_some, some_injective, Option-cases, if_branch, length, get_elem?,
  get_or, set, length-append, length-set, get_elem?-set_self, get_elem?-set_ne, ℤ, pos, negsuc,
  minus_one, sub_ℕ, Memory, store, load32, store32, bytes, codes, moved, filled, is_table,
  table_entry, table_witness, word, add32, sub32, to_int32,
}
use linux_operating_system.Rtc.{rtc_irq_handler}
use linux_operating_system.Terminal.{Term, line_buffer_size}
use linux_operating_system.Terminal.Coords.{OnScreen}
use linux_operating_system.Kernel.{Kernel, Outcome, returns, enters, Frame}
use linux_operating_system.Kernel.Schedule.{pit_handler}
use linux_operating_system.Kernel.Schedule.Turns.{IsRunning}
use linux_operating_system.Kernel.Keyboard.{Keys, get_c_keyboard}

-- The terminals between two calls: each reads or writes or does neither, and each cursor names a cell.
pub record IsCalm (s : Term) : Type 0 where
  pub running : s.curr_term < 3
  pub shown : s.disp_term < 3
  pub flags : (t : ℕ) → t < 3 → s.read_flag t + s.write_flag t ≤ 1
  pub cursors : (t : ℕ) → t < 3 → OnScreen t s

-- `left` more keys find room in every input line.
pub record IsLive (left : ℕ) (keys : Keys) (k : Kernel) : Type 0 where
  pub running : IsRunning k
  pub programs : (t : ℕ) → t < 3 → k.active_progs t ≢ 0
  pub calm : IsCalm k.term
  pub room : (t : ℕ) → t < 3 → k.term.curr_idx t + left ≤ line_buffer_size
  pub no_key : k.term.char_from_kb ≡ 0
  pub function_key : keys.fn_flag ≤ 3

-- An interrupt of the timer, of the keyboard with a scan code, or of the clock with two bytes of a port.
pub data Interrupt : Type 0 where
  timer : Interrupt
  scan : ℕ → Interrupt
  pulse : ℕ → ℕ → Interrupt

pub handle : ℕ → Frame → Interrupt → Keys → Kernel → Option (Keys × (Outcome × Kernel))
handle fuel f timer keys k = pit_handler fuel f k >>= λ r. some (keys, r)
handle fuel f (scan c) keys k = get_c_keyboard fuel f c keys k
handle fuel f (pulse a b) keys k =
    some (keys, (returns (pos 0), record k { rtc = rtc_irq_handler a b k.rtc }))

-- Interrupts one after the other, as long as no handler enters a program.
pub handle_all : ℕ → Frame → List Interrupt → Keys → Kernel → Option (Keys × Kernel)
handle_all fuel f [] keys k = some (keys, k)
handle_all fuel f (i ∷ rest) keys k = handle fuel f i keys k >>= λ r. elim (r.1.0) [
  | returns n ↦ handle_all fuel f rest (r.0) (r.1.1)
  | enters entry stack ↦ none
]

abbrev pub is_timer : Interrupt → ℕ
is_timer timer = 1
is_timer (scan c) = 0
is_timer (pulse a b) = 0

-- How many of the interrupts are the keyboard's.
unfoldable pub scans : List Interrupt → ℕ
scans [] = 0
scans (timer ∷ rest) = scans rest
scans (scan c ∷ rest) = suc (scans rest)
scans (pulse a b ∷ rest) = scans rest

-- How many of the interrupts are the timer's.
unfoldable pub timers : List Interrupt → ℕ
timers [] = 0
timers (i ∷ rest) = is_timer i + timers rest
