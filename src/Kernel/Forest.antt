-- ===== src/Kernel/Forest.antt =====
-- The processes of the three terminals, as file_desc.c, syscalls.c and schedule.c keep them: each
-- terminal has a stack of processes, one the parent of the next, and the last one is the one that runs.
pub mod Stacks
pub mod Same
pub mod Calls
pub mod Slots
pub mod Making
pub mod Growth
pub mod Executing
pub mod Ending
pub mod Halting
pub mod Turning
pub mod Interrupts
pub mod Devices
pub mod Reach
use linux_operating_system.Prelude.{
  ℕ, zero, suc, ◌+◌, ◌-◌, ◌*◌, ◌/◌, ◌%◌, ◌^◌, ◌≤◌, ◌<◌, min, bit_and, bit_or, ◌≡◌, refl, sym, ap,
  ◌∙◌, fun_ext, subst, ◌≢◌, ◌↔◌, ◌⊎◌, inl, inr, Bool, true, false, ◌&&◌, ◌||◌, not, Option, none,
  some, List, [], ◌∷◌, ◌++◌, map, reverse, arith, ltb, leb, ◌==◌, if◌then◌else◌, ltb→lt, leb→le,
  ==_iff, Bool-cases, ◌>>=◌, bind_some, some_injective, Option-cases, if_branch, length, get_elem?,
  get_or, set, length-append, length-set, get_elem?-set_self, get_elem?-set_ne, ℤ, pos, negsuc,
  minus_one, sub_ℕ, Memory, store, load32, store32, bytes, codes, moved, filled, is_table,
  table_entry, table_witness, word, add32, sub32, to_int32,
}
use linux_operating_system.Kernel.{Kernel, Pcb, num_terms, max_progs, current}
use linux_operating_system.Kernel.Process.{pid_to_pcb_addr, pid_to_kstack_bottom, program_page}
use linux_operating_system.Kernel.Schedule.{init_terminals, clear_terminals}

-- The block of the last of `n` processes of terminal `t`; NULL if there is none.
abbrev pub top : ℕ → ℕ → ℕ
top t zero = 0
top t (suc n) = pid_to_pcb_addr t n

-- The block of process `i` of terminal `t`: its number, its parent's block and number, and its stack.
pub record IsBlock (t i : ℕ) (p : Pcb) : Type 0 where
  pub id : p.p_id ≡ i
  pub parent : p.parent ≡ top t i
  pub parent_id : p.parent_p_id ≡ i - 1
  pub stack : p.esp0 ≡ pid_to_kstack_bottom t i

-- `next_p_id` counts the processes of each terminal and `total_progs` all of them, six at most.
pub record IsTree (k : Kernel) : Type 0 where
  pub running : k.term.curr_term < 3
  pub turn : k.pit_counter < 3
  pub total : k.total_progs ≡ k.next_p_id 0 + k.next_p_id 1 + k.next_p_id 2
  pub few : k.total_progs ≤ 6
  pub blocks : (t i : ℕ) → t < 3 → i < k.next_p_id t → IsBlock t i (k.pcbs (pid_to_pcb_addr t i))

-- Each terminal's slot holds its last process, and that of the running one has its block, its page and
-- its kernel stack in place.
pub record IsForest (k : Kernel) : Type 0 where
  pub tree : IsTree k
  pub slots : (t : ℕ) → t < 3 → k.active_progs t ≡ top t (k.next_p_id t)
  pub block : k.curr_pcb_ptr ≡ top k.term.curr_term (k.next_p_id k.term.curr_term)
  pub page :
      k.next_p_id k.term.curr_term ≢ 0
      → k.page_directory 32 ≡ program_page k.term.curr_term (k.next_p_id k.term.curr_term - 1)
  pub stack :
      k.next_p_id k.term.curr_term ≢ 0
      → k.tss_esp0 ≡ pid_to_kstack_bottom k.term.curr_term (k.next_p_id k.term.curr_term - 1)

pub below_three : (P : ℕ → Type 0) → P 0 → P 1 → P 2 → (t : ℕ) → t < 3 → P t
below_three P a b c zero h = a
below_three P a b c (suc zero) h = b
below_three P a b c (suc (suc zero)) h = c
below_three P a b c (suc (suc (suc t))) h = absurd (omega arith)

pub depth_le : (k : Kernel) → IsTree k → (t : ℕ) → t < 3 → k.next_p_id t ≤ k.total_progs
depth_le k v =
    let e = v.total in
    below_three (λ t. k.next_p_id t ≤ k.total_progs) (omega arith) (omega arith) (omega arith)

pub place_injective :
    (t u i j : ℕ)
    → t < 3
    → u < 3
    → i < 6
    → j < 6
    → pid_to_pcb_addr t i ≡ pid_to_pcb_addr u j
    → (t ≡ u) × (i ≡ j)
unfolding pid_to_pcb_addr
place_injective t u i j ht hu hi hj e = (omega arith, omega arith)

pub place_ne_null : (t i : ℕ) → t < 3 → i < 6 → pid_to_pcb_addr t i ≢ 0
unfolding pid_to_pcb_addr
place_ne_null t i ht hi e = omega arith

pub top_ne_null : (t n : ℕ) → t < 3 → n ≤ 6 → n ≢ 0 → top t n ≢ 0
top_ne_null t zero ht hn z e = z refl
top_ne_null t (suc n) ht hn z e = place_ne_null t n ht (omega arith) e

-- Before the first shell there is no process.
pub init_terminals-IsForest : (k : Kernel) → k.pit_counter < 3 → IsForest (init_terminals k)
unfolding init_terminals clear_terminals
init_terminals-IsForest k turn = record {
  tree = record {
    running = omega arith;
    turn = turn;
    total = refl;
    few = omega arith;
    blocks = λ t i ht hi. absurd (
        below_three (λ t. i < (init_terminals k).next_p_id t → ⊥) (λ h. elim h [ ])
          (λ h. elim h [ ]) (λ h. elim h [ ]) t ht hi);
  };
  slots =
      below_three (λ t. (init_terminals k).active_progs t ≡ top t ((init_terminals k).next_p_id t))
        refl refl refl;
  block = refl;
  page = λ z. absurd (z refl);
  stack = λ z. absurd (z refl);
}
