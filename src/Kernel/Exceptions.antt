-- ===== src/Kernel/Exceptions.antt =====
-- idt_handlers.c: an exception ends the program that ran, with a result of its own for the parent.
pub mod Handlers
pub mod Printed
pub mod Reports
use linux_operating_system.Prelude.{
  ℕ, zero, suc, ◌+◌, ◌-◌, ◌*◌, ◌/◌, ◌%◌, ◌^◌, ◌≤◌, ◌<◌, min, bit_and, bit_or, ◌≡◌, refl, sym, ap,
  ◌∙◌, fun_ext, subst, ◌≢◌, ◌↔◌, ◌⊎◌, inl, inr, Bool, true, false, ◌&&◌, ◌||◌, not, Option, none,
  some, List, [], ◌∷◌, ◌++◌, map, reverse, arith, ltb, leb, ◌==◌, if◌then◌else◌, ltb→lt, leb→le,
  ==_iff, Bool-cases, ◌>>=◌, bind_some, some_injective, Option-cases, if_branch, length, get_elem?,
  get_or, set, length-append, length-set, get_elem?-set_self, get_elem?-set_ne, ℤ, pos, negsuc,
  minus_one, sub_ℕ, Memory, store, load32, store32, bytes, codes, moved, filled, is_table,
  table_entry, table_witness, word, add32, sub32, to_int32,
}
use linux_operating_system.Kernel.{Kernel, current, Outcome, returns, Frame}
use linux_operating_system.Kernel.Process.{get_parent_pcb, swap_pages}
use linux_operating_system.Kernel.Programs.Inverse.{restart_shell-parent}
use linux_operating_system.Kernel.Programs.{halt_func, restart_shell, leave_program, finish_execute}

abbrev pub exception_ret : ℕ
exception_ret = 256

unfoldable pub squash_user_prog : ℕ → ℕ → Frame → Kernel → Option (Outcome × Kernel)
squash_user_prog rounds fuel f k =
    halt_func rounds fuel f
      (record k { halt_retval = store k.halt_retval k.term.curr_term exception_ret })

-- What the parent of a squashed program finds: its own block is the current one and the one in the
-- terminal's slot, a process less is counted, and execute_func returns 256 to it.
pub record IsSquashed (k k' : Kernel) : Type 0 where
  pub block : k'.curr_pcb_ptr ≡ (current k).parent
  pub slot : k'.active_progs k.term.curr_term ≡ (current k).parent
  pub total : k'.total_progs ≡ sub32 k.total_progs 1
  pub next : k'.next_p_id k.term.curr_term ≡ sub32 (k.next_p_id k.term.curr_term) 1
  pub childless : (current k').child ≡ 0
  pub stack : k'.tss_esp0 ≡ (current k').esp0
  pub result : (finish_execute k').0 ≡ exception_ret
  pub cleared : (finish_execute k').1.halt_retval k.term.curr_term ≡ 0

-- The state in which halt_func leaves the program.
abbrev counted_down : Kernel → Kernel
counted_down k = record k {
  halt_retval = store k.halt_retval k.term.curr_term exception_ret;
  total_progs = sub32 k.total_progs 1;
  next_p_id = store k.next_p_id k.term.curr_term (sub32 (k.next_p_id k.term.curr_term) 1);
}

squashed_run :
    (rounds fuel : ℕ) (f : Frame) (k : Kernel)
    → (current k).parent ≢ 0
    → squash_user_prog (suc rounds) fuel f k
      ≡ some (returns (pos 0), leave_program (counted_down k))
unfolding squash_user_prog halt_func
squashed_run rounds fuel f k q =
    let e = restart_shell-parent rounds fuel f (counted_down k) q in rw e refl

-- squash_user_prog on a program that has a parent comes back without starting a shell. The parent goes
-- on: its block is the current one, the counts of processes are down by one, it has no child any more,
-- its kernel stack is in place, and its execute_func returns 256 and clears the result.
pub squash_user_prog-IsSquashed :
    (rounds fuel : ℕ) (f : Frame) (k : Kernel)
    → 0 < rounds
    → (current k).parent ≢ 0
    → (k' : Kernel) × (squash_user_prog rounds fuel f k ≡ some (returns (pos 0), k'))
      × IsSquashed k k'
unfolding leave_program get_parent_pcb swap_pages finish_execute
squash_user_prog-IsSquashed zero fuel f k h q = absurd (omega arith)
squash_user_prog-IsSquashed (suc rounds) fuel f k h q =
    let e : ((current k).parent == 0) ≡ false = ground arith in
    (
      leave_program (counted_down k),
      squashed_run rounds fuel f k q,
      record {
        block = rw e refl;
        slot = rw e (ground arith);
        total = rw e refl;
        next = rw e (ground arith);
        childless = rw e (ground arith);
        stack = rw e (ground arith);
        result = rw e (ground arith);
        cleared = rw e (ground arith);
      },
    )
