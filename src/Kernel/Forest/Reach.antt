-- ===== src/Kernel/Forest/Reach.antt =====
-- Every call of a program and every interrupt, one after the other in any order: what all of them keep,
-- and what each of them does to the stacks of processes.
use linux_operating_system.Prelude.{
  ℕ, ◌+◌, ◌-◌, ◌≤◌, ◌≡◌, refl, sym, subst, ◌≢◌, some, ◌==◌, ℤ, Memory,
}
use linux_operating_system.Rtc.{rtc_irq_handler}
use linux_operating_system.Kernel.{Kernel, Outcome, Frame, Events, with_mem}
use linux_operating_system.Kernel.Files.{magnitude, read_func, write_func, open_func, close_func}
use linux_operating_system.Kernel.Programs.{
  execute_func, finish_execute, halt_func, getargs_func, vidmap_func,
}
use linux_operating_system.Kernel.Schedule.{pit_handler}
use linux_operating_system.Kernel.Keyboard.{Keys, get_c_keyboard}
use linux_operating_system.Kernel.Exceptions.Handlers.{Fault, exception}
use linux_operating_system.Kernel.Forest.{IsForest}
use linux_operating_system.Kernel.Forest.Stacks.{Turns, Shows, Ends, Starts}
use linux_operating_system.Kernel.Forest.Same.{
  view, SameBlock-refl, SameForest, mem-SameForest, SameForest-IsForest, SameTree-view,
}
use linux_operating_system.Kernel.Forest.Calls.{
  rtc-SameForest, read_func-SameForest, write_func-SameForest,
}
use linux_operating_system.Kernel.Forest.Slots.{
  open_func-SameForest, close_func-SameForest, getargs_func-SameForest, vidmap_func-SameForest,
}
use linux_operating_system.Kernel.Forest.Ending.{execute_func-Starts}
use linux_operating_system.Kernel.Forest.Halting.{halt_func-Ends}
use linux_operating_system.Kernel.Forest.Interrupts.{pit_handler-Leads}
use linux_operating_system.Kernel.Forest.Devices.{get_c_keyboard-Leads, exception-Leads}

-- The `n` bytes at `a` are in the 4 MB page of the running program, where no block stands.
abbrev pub InUserPage : ℕ → ℕ → Type 0
InUserPage a n = (0x8000000 ≤ a) × (a + n ≤ 0x8400000)

-- A run of the kernel that ends, and that no interrupt breaks into: an interrupt of the timer, the
-- keyboard or the clock, an exception in a program, or a system call of one; or a program that writes to
-- memory. What read and getargs are given to write to is in the program's page, which the kernel does not
-- check; the other arguments are whatever the hardware or the program gives.
pub data Step (k k' : Kernel) : Type 0 where
  tick : (fuel : ℕ) (f : Frame) (o : Outcome) → pit_handler fuel f k ≡ some (o, k') → Step k k'
  key :
      (fuel : ℕ) (f : Frame) (c : ℕ) (keys keys' : Keys) (o : Outcome)
      → get_c_keyboard fuel f c keys k ≡ some (keys', (o, k'))
      → Step k k'
  clock :
      (index1 index2 : ℕ) → k' ≡ record k { rtc = rtc_irq_handler index1 index2 k.rtc } → Step k k'
  fault :
      (n : ℕ) (x : Fault) (rounds fuel : ℕ) (f : Frame) (o : Outcome)
      → k.curr_pcb_ptr ≢ 0
      → exception n x rounds fuel f k ≡ some (o, k')
      → Step k k'
  halt :
      (rounds fuel : ℕ) (f : Frame) (o : Outcome)
      → k.curr_pcb_ptr ≢ 0
      → halt_func rounds fuel f k ≡ some (o, k')
      → Step k k'
  execute :
      (fuel command : ℕ) (f : Frame) (o : Outcome)
      → execute_func fuel f command k ≡ some (o, k')
      → Step k k'
  finish : k' ≡ (finish_execute k).1 → Step k k'
  reads :
      (fuel : ℕ) (e : Events) (fd : ℤ) (buf : ℕ) (nbytes r : ℤ)
      → InUserPage buf (magnitude nbytes)
      → read_func fuel e fd buf nbytes k ≡ some (r, k')
      → Step k k'
  writes : (fd : ℤ) (buf : ℕ) (nbytes r : ℤ) → write_func fd buf nbytes k ≡ some (r, k') → Step k k'
  opens :
      (fuel port filename dentry : ℕ) (r : ℤ)
      → open_func fuel port filename dentry k ≡ some (r, k')
      → Step k k'
  closes : (fd : ℕ) → k' ≡ (close_func fd k).1 → Step k k'
  getargs :
      (fuel buf : ℕ) (r : ℤ)
      → InUserPage buf 128
      → getargs_func fuel buf k ≡ some (r, k')
      → Step k k'
  vidmap : (start : ℕ) → k' ≡ (vidmap_func start k).1 → Step k k'
  computes : (m : Memory) → k' ≡ with_mem k m → Step k k'

-- So many of them after one another.
pub data Reach (k0 : Kernel) : Kernel → Type 0 where
  here : Reach k0 k0
  next : {l k : Kernel} → Reach k0 l → Step l k → Reach k0 k

finish-SameForest : (k : Kernel) → SameForest k (finish_execute k).1
unfolding finish_execute
finish-SameForest k = record {
  tree = record {
    curr = refl;
    turn = refl;
    total = refl;
    next = refl;
    blocks = λ a. SameBlock-refl (k.pcbs a);
  };
  slots = refl;
  block = refl;
  pages = refl;
  stack = refl;
}

-- What each of them does to the stacks of processes.
pub Effect : (k k' : Kernel) → Step k k' → Type 0
Effect k k' (tick fuel f o run) = Turns (k.switch_lock == 0) k.pit_counter (view k) o (view k')
Effect k k' (key fuel f c keys keys' o run) = Shows (keys'.fn_flag - 1) (view k) o (view k')
Effect k k' (clock i j e) = view k' ≡ view k
Effect k k' (fault n x rounds fuel f o runs run) = Ends (view k) o (view k')
Effect k k' (halt rounds fuel f o runs run) = Ends (view k) o (view k')
Effect k k' (execute fuel command f o run) = Starts (view k) o (view k')
Effect k k' (finish e) = view k' ≡ view k
Effect k k' (reads fuel e fd buf nbytes r within run) = view k' ≡ view k
Effect k k' (writes fd buf nbytes r run) = view k' ≡ view k
Effect k k' (opens fuel port filename dentry r run) = view k' ≡ view k
Effect k k' (closes fd e) = view k' ≡ view k
Effect k k' (getargs fuel buf r within run) = view k' ≡ view k
Effect k k' (vidmap start e) = view k' ≡ view k
Effect k k' (computes m e) = view k' ≡ view k

same_processes : (k k' : Kernel) → IsForest k → SameForest k k' → IsForest k' × (view k' ≡ view k)
same_processes k k' v s = (SameForest-IsForest k k' s v, SameTree-view k k' s.tree)

Step-lem : (k k' : Kernel) → IsForest k → (s : Step k k') → IsForest k' × Effect k k' s
unfolding Effect
Step-lem k k' v (tick fuel f o run) = pit_handler-Leads fuel f k k' o v run
Step-lem k k' v (key fuel f c keys keys' o run) =
    get_c_keyboard-Leads fuel f c keys keys' k k' o v run
Step-lem k k' v (clock i j e) =
    let c = rtc_irq_handler i j k.rtc in
    same_processes k k' v (subst (SameForest k) (sym e) (rtc-SameForest k c))
Step-lem k k' v (fault n x rounds fuel f o runs run) =
    exception-Leads n x rounds fuel f k k' o v runs run
Step-lem k k' v (halt rounds fuel f o runs run) = halt_func-Ends rounds fuel f k k' o v runs run
Step-lem k k' v (execute fuel command f o run) = execute_func-Starts fuel command f k k' o v run
Step-lem k k' v (finish e) =
    same_processes k k' v (subst (SameForest k) (sym e) (finish-SameForest k))
Step-lem k k' v (reads fuel e fd buf nbytes r within run) =
    same_processes k k' v (read_func-SameForest fuel e fd buf nbytes k k' r run)
Step-lem k k' v (writes fd buf nbytes r run) =
    same_processes k k' v (write_func-SameForest fd buf nbytes k k' r run)
Step-lem k k' v (opens fuel port filename dentry r run) =
    same_processes k k' v (open_func-SameForest fuel port filename dentry k k' r run)
Step-lem k k' v (closes fd e) =
    same_processes k k' v (subst (SameForest k) (sym e) (close_func-SameForest fd k))
Step-lem k k' v (getargs fuel buf r within run) =
    same_processes k k' v (getargs_func-SameForest fuel buf k k' r run)
Step-lem k k' v (vidmap start e) =
    same_processes k k' v (subst (SameForest k) (sym e) (vidmap_func-SameForest start k))
Step-lem k k' v (computes m e) =
    same_processes k k' v (subst (SameForest k) (sym e) (mem-SameForest k m))

-- On a kernel whose processes are in order, the stacks of processes after an interrupt, an exception or a
-- system call that runs to its end without another one in between. A tick gives the processor to the
-- terminal that the counter names, where it has a program and the lock is free, and else changes nothing.
-- A halt or an exception takes the running program off, or, where it is its terminal's only one, enters
-- another in its place. An execute returns -1 and changes nothing, or enters a program above the running
-- one where less than six are there. A key changes nothing, or enters a first program on the terminal of
-- the function key. Every other call leaves the stacks as they are.
pub Step-Effect : (k k' : Kernel) → IsForest k → (s : Step k k') → Effect k k' s
Step-Effect k k' v s = (Step-lem k k' v s).1

pub Reach-IsForest : {k0 k : Kernel} → IsForest k0 → Reach k0 k → IsForest k
Reach-IsForest v here = v
Reach-IsForest v (next {l} {k} r s) = (Step-lem l k (Reach-IsForest v r) s).0
