-- ===== src/Kernel.antt =====
-- globals.h and structs.h: what the processes, the scheduler and the keyboard share. A process control
-- block is found by its address, which is also its identity; 0 is NULL. The argument text of a block is
-- in memory, at its place in the packed structure.
pub mod Process
pub mod Files
pub mod Programs
pub mod Paging
pub mod Schedule
pub mod Keyboard
pub mod Exceptions
pub mod Descriptors
pub mod Boot
pub mod Forest
pub mod Live
use linux_operating_system.Terminal.{Term}
use linux_operating_system.Terminal.Print.{terminal_printf}
use linux_operating_system.Rtc.{Rtc}
use linux_operating_system.FileSys.{Fs}
use linux_operating_system.Prelude.{
  ℕ, zero, suc, ◌+◌, ◌-◌, ◌*◌, ◌/◌, ◌%◌, ◌^◌, ◌≤◌, ◌<◌, min, bit_and, bit_or, ◌≡◌, refl, sym, ap,
  ◌∙◌, fun_ext, subst, ◌≢◌, ◌↔◌, ◌⊎◌, inl, inr, Bool, true, false, ◌&&◌, ◌||◌, not, Option, none,
  some, List, [], ◌∷◌, ◌++◌, map, reverse, arith, ltb, leb, ◌==◌, if◌then◌else◌, ltb→lt, leb→le,
  ==_iff, Bool-cases, ◌>>=◌, length, get_elem?, get_or, set, length-append, length-set,
  get_elem?-set_self, get_elem?-set_ne, ℤ, pos, negsuc, minus_one, sub_ℕ, Memory, store, load32,
  store32, bytes, codes, moved, filled, is_table, table_entry, table_witness, word, add32, sub32,
  to_int32,
}

-- The tables of file operations of syscalls.c and file_desc.c.
pub data Fops : Type 0 where
  stdin_fops : Fops
  stdout_fops : Fops
  rtc_fops : Fops
  dir_fops : Fops
  file_fops : Fops

pub record Fd : Type 0 where
  pub fops_ptr : Option Fops
  pub inode_num : ℕ
  pub pos : ℕ
  pub flags : ℕ

-- `saved_by_timer` stands for what is on the stack at `esp_s`: the frame of schedule, which returns to
-- pit_handler, or that of switch_terminals, which returns to get_c_keyboard.
pub record Pcb : Type 0 where
  pub p_id : ℕ
  pub parent_p_id : ℕ
  pub parent : ℕ
  pub child : ℕ
  pub fd_A : ℕ → Fd
  pub esp : ℕ
  pub ebp : ℕ
  pub esp_s : ℕ
  pub ebp_s : ℕ
  pub saved_by_timer : Bool
  pub esp0 : ℕ
  pub prog_entry : ℕ
  pub fd_total_open : ℕ
  pub shell_flag : ℕ
  pub term_num : ℕ

pub record Kernel : Type 0 where
  pub term : Term
  pub rtc : Rtc
  pub fs : Fs
  pub pcbs : ℕ → Pcb
  pub curr_pcb_ptr : ℕ
  pub active_progs : ℕ → ℕ
  pub total_progs : ℕ
  pub next_p_id : ℕ → ℕ
  pub halt_retval : ℕ → ℕ
  pub page_directory : ℕ → ℕ
  pub page_table : ℕ → ℕ
  pub video_table : ℕ → ℕ
  pub tss_esp0 : ℕ
  pub switch_lock : ℕ
  pub pit_counter : ℕ

abbrev pub num_terms : ℕ
num_terms = 3

abbrev pub max_progs : ℕ
max_progs = 6

abbrev pub max_fd : ℕ
max_fd = 8

-- `f[i] = v`.
abbrev pub put {ℓ} : {A : Type ℓ} → (ℕ → A) → ℕ → A → ℕ → A
put f i v j = if j == i then v else f j

abbrev pub with_mem : Kernel → Memory → Kernel
with_mem k m = record k { term = record k.term { mem = m } }

abbrev pub with_pcb : Kernel → ℕ → Pcb → Kernel
with_pcb k a p = record k { pcbs = put k.pcbs a p }

abbrev pub current : Kernel → Pcb
current k = k.pcbs k.curr_pcb_ptr

-- `curr_pcb_ptr->fd_A[fd] = f`.
abbrev pub with_fd : Kernel → ℕ → Fd → Kernel
with_fd k fd f = with_pcb k k.curr_pcb_ptr (record (current k) { fd_A = put (current k).fd_A fd f })

-- A message of terminal_printf with its arguments. A numeral needs 34 units of fuel.
unfoldable pub tell : List ℕ → List ℕ → Kernel → Option Kernel
unfolding terminal_printf
tell format args k = terminal_printf 40 format args k.term >>= λ r. some (record k { term = r.1 })

-- A message without arguments.
unfoldable pub say : List ℕ → Kernel → Option Kernel
unfolding tell
say format k = tell format [] k

-- What a call gets from outside while it runs: keys and clock interrupts in the order they come, the
-- value of a port, and the address in a pointer that was not set.
pub record Events : Type 0 where
  pub keys : List ℕ
  pub ticks : List (ℕ × ℕ)
  pub port : ℕ
  pub stray : ℕ

-- How a call leaves the kernel: with a result for the program that called, or for the entry point and
-- the user stack of a program that starts.
pub data Outcome : Type 0 where
  returns : ℤ → Outcome
  enters : ℕ → ℕ → Outcome

-- Addresses and registers that a call works with: the locals of execute_func, the constant "shell", and
-- the stack pointers at the point where they are saved, and whether that point is in schedule.
pub record Frame : Type 0 where
  pub file_name : ℕ
  pub args : ℕ
  pub file_entry : ℕ
  pub exec_check : ℕ
  pub shell : ℕ
  pub sp : ℕ
  pub bp : ℕ
  pub in_timer : Bool
