-- ===== src/Kernel/Programs/Inverse.antt =====
-- halt undoes what execute has done to the tree of processes.
use linux_operating_system.Prelude.{
  ℕ, zero, suc, ◌+◌, ◌-◌, ◌<◌, ◌≡◌, refl, sym, ap, ◌∙◌, ◌≢◌, Bool, true, false, not, Option, some,
  List, arith, leb, ◌==◌, if◌then◌else◌, bind_some, ℤ, pos, Memory, store, load32, sub32,
}
use linux_operating_system.FileSys.{read_data, read_dentry_by_name}
use linux_operating_system.Kernel.{
  Kernel, Pcb, num_terms, max_progs, current, with_mem, Outcome, Frame, say, returns, enters,
}
use linux_operating_system.Kernel.Process.{
  pid_to_pcb_addr, program_page, get_parent_pcb, swap_pages,
}
use linux_operating_system.Kernel.Programs.{
  restart_shell, halt_func, leave_program, load_program, refuse, execute_func, not_executable,
  get_args_fname, is_minus_one,
}
use linux_operating_system.Kernel.Programs.Starting.{IsStarted, load_program-IsStarted}

-- A process that runs: it is the one in its terminal's slot, its page is mapped, its kernel stack is in
-- place, it has no child, and the number of processes on the terminal has room for the next one.
pub record IsAlone (k : Kernel) : Type 0 where
  pub exists : k.curr_pcb_ptr ≢ 0
  pub others : k.next_p_id k.term.curr_term ≢ 0
  pub room : k.next_p_id k.term.curr_term < max_progs
  pub few : k.total_progs < max_progs
  pub slot : k.active_progs k.term.curr_term ≡ k.curr_pcb_ptr
  pub place : k.curr_pcb_ptr ≡ pid_to_pcb_addr k.term.curr_term (k.next_p_id k.term.curr_term - 1)
  pub terminal : k.term.curr_term < num_terms
  pub page : k.page_directory 32 ≡ program_page k.term.curr_term (k.next_p_id k.term.curr_term - 1)
  pub stack : k.tss_esp0 ≡ (current k).esp0
  pub childless : (current k).child ≡ 0

-- What a process and the tree around it were is what they are again.
pub record IsRestored (k k' : Kernel) : Type 0 where
  pub block : k'.curr_pcb_ptr ≡ k.curr_pcb_ptr
  pub caller : k'.pcbs k.curr_pcb_ptr ≡ current k
  pub slots : (t : ℕ) → k'.active_progs t ≡ k.active_progs t
  pub total : k'.total_progs ≡ k.total_progs
  pub next : (t : ℕ) → k'.next_p_id t ≡ k.next_p_id t
  pub pages : (x : ℕ) → k'.page_directory x ≡ k.page_directory x
  pub stack : k'.tss_esp0 ≡ k.tss_esp0

halted-IsRestored :
    (pcb : ℕ) (k k1 : Kernel)
    → IsAlone k
    → pcb ≢ k.curr_pcb_ptr
    → IsStarted pcb (k.next_p_id k.term.curr_term) k k1
    → IsRestored k (
        leave_program (record k1 {
          total_progs = sub32 k1.total_progs 1;
          next_p_id =
              store k1.next_p_id k1.term.curr_term (sub32 (k1.next_p_id k1.term.curr_term) 1);
        }))
unfolding leave_program get_parent_pcb swap_pages
halted-IsRestored pcb k k1 a apart v =
    let q = a.exists in
    let parent : (current k1).parent ≡ k.curr_pcb_ptr =
      ap (λ b. (k1.pcbs b).parent) v.block ∙ v.parent in
    let orphan : ((current k1).parent == 0) ≡ false = rw parent (ground arith) in
    let id : (current k1).parent_p_id ≡ k.next_p_id k.term.curr_term - 1 =
      ap (λ b. (k1.pcbs b).parent_p_id) v.block ∙ v.parent_id in
    let self : (k.curr_pcb_ptr == k.curr_pcb_ptr) ≡ true = ground arith in
    let back : record (k1.pcbs k.curr_pcb_ptr) { child = 0 } ≡ current k =
      ap (λ (p : Pcb). record p { child = 0 }) v.caller
      ∙ ap (λ n. record (current k) { child = n }) (sym a.childless) in
    let page : program_page k1.term.curr_term (current k1).parent_p_id ≡ k.page_directory 32 =
      rw (v.running, id) (sym a.page) in
    rw orphan (record {
      block = parent;
      caller = rw (parent, self) back;
      slots = λ t. rw (v.slots, v.running, parent) (ground (arith, a.slot));
      total = rw v.total (ground (arith, a.few));
      next = λ t. rw (v.next, v.running) (ground (arith, a.room));
      pages = λ x. rw page (ground (arith, v.pages x));
      stack = rw parent (ap (λ (p : Pcb). p.esp0) v.caller ∙ sym a.stack);
    })

-- A program with a parent leaves without a new shell.
pub restart_shell-parent :
    (rounds fuel : ℕ) (f : Frame) (k : Kernel)
    → (current k).parent ≢ 0
    → restart_shell (suc rounds) fuel f k ≡ some (returns (pos 0), k)
unfolding restart_shell
restart_shell-parent rounds fuel f k q =
    let e : ((current k).parent == 0) ≡ false = ground arith in rw e refl

load_program-halt :
    (fuel rounds fuel' : ℕ) (f f' : Frame) (k k1 : Kernel) (o : Outcome)
    → IsAlone k
    → load_program fuel f k ≡ some (o, k1)
    → (k2 : Kernel) × (halt_func (suc rounds) fuel' f' k1 ≡ some (returns (pos 0), k2))
      × IsRestored k k2
unfolding halt_func pid_to_pcb_addr
load_program-halt fuel rounds fuel' f f' k k1 o a run =
    let pcb = pid_to_pcb_addr k.term.curr_term (k.next_p_id k.term.curr_term) in
    let apart : pcb ≢ k.curr_pcb_ptr = λ e. ground (arith, a.place, a.room, a.terminal, a.others) in
    let v = load_program-IsStarted fuel f k k1 o a.exists a.others apart run in
    let counted : Kernel = record k1 {
      total_progs = sub32 k1.total_progs 1;
      next_p_id = store k1.next_p_id k1.term.curr_term (sub32 (k1.next_p_id k1.term.curr_term) 1);
    } in
    let parent : (current k1).parent ≡ k.curr_pcb_ptr =
      ap (λ b. (k1.pcbs b).parent) v.block ∙ v.parent in
    let has_parent : (current counted).parent ≢ 0 = rw parent a.exists in
    (
      leave_program counted,
      rw (restart_shell-parent rounds fuel' f' counted has_parent) refl,
      halted-IsRestored pcb k k1 a apart v,
    )

-- A refusal does not enter a program.
refuse-enters :
    (text : List ℕ) (k k1 : Kernel) (entry stack : ℕ)
    → refuse text k ≢ some (enters entry stack, k1)
refuse-enters text k k1 entry stack e =
    let (s, said, run) = bind_some {A = Kernel} (say text k) _ (enters entry stack, k1) e in cc

not_refused :
    (b : Bool) (text : List ℕ) (k k1 : Kernel) (entry stack : ℕ) (rest : Option (Outcome × Kernel))
    → (if b then refuse text k else rest) ≡ some (enters entry stack, k1)
    → rest ≡ some (enters entry stack, k1)
not_refused true text k k1 entry stack rest e = absurd (refuse-enters text k k1 entry stack e)
not_refused false text k k1 entry stack rest e = e

with_mem-IsAlone : (k : Kernel) (m : Memory) → IsAlone k → IsAlone (with_mem k m)
with_mem-IsAlone k m a = record {
  exists = a.exists;
  others = a.others;
  room = a.room;
  few = a.few;
  slot = a.slot;
  place = a.place;
  terminal = a.terminal;
  page = a.page;
  stack = a.stack;
  childless = a.childless;
}

-- An execute_func that enters a program has loaded it, with the state but the memory as it was.
execute_func-loads :
    (fuel command : ℕ) (f : Frame) (k k1 : Kernel) (entry stack : ℕ)
    → execute_func fuel f command k ≡ some (enters entry stack, k1)
    → (m : Memory) × (load_program fuel f (with_mem k m) ≡ some (enters entry stack, k1))
unfolding execute_func
execute_func-loads fuel command f k k1 entry stack e =
    let (m, parsed, run) =
      bind_some {A = Memory} (get_args_fname fuel command f.file_name f.args k.term.mem) _
        (enters entry stack, k1) e in
    let run1 = not_refused (leb max_progs k.total_progs) _ (with_mem k m) k1 entry stack _ run in
    let (r, found, run2) =
      bind_some {A = ℤ × Memory} (read_dentry_by_name fuel k.fs f.file_name f.file_entry m) _
        (enters entry stack, k1) run1 in
    let run3 = not_refused (is_minus_one (r.0)) _ (with_mem k (r.1)) k1 entry stack _ run2 in
    let run4 =
      not_refused (not (load32 (r.1) (f.file_entry + 32) == 2)) _ (with_mem k (r.1)) k1 entry stack
        _ run3 in
    let (d, read, run5) =
      bind_some {A = ℤ × Memory}
        (read_data fuel k.fs (load32 (r.1) (f.file_entry + 36)) 0 f.exec_check 4 (r.1)) _
        (enters entry stack, k1) run4 in
    (
      d.1,
      not_refused (not_executable f.exec_check (d.1)) _ (with_mem k (d.1)) k1 entry stack _ run5,
    )

-- A process that runs, is the one in its terminal's slot, has its page mapped, its kernel stack in place
-- and no child, and leaves room for another one on the terminal and in all, executes a program. When the
-- program, once entered, halts at once, halt_func comes back with 0 and without a new shell, and the
-- caller's block, the block that is current, the slots, the counts of processes, the page directory and
-- the kernel stack in the TSS are what they were before execute_func.
pub execute_func-halt :
    (fuel command rounds fuel' entry stack : ℕ) (f f' : Frame) (k k1 : Kernel)
    → IsAlone k
    → execute_func fuel f command k ≡ some (enters entry stack, k1)
    → 0 < rounds
    → (k2 : Kernel) × (halt_func rounds fuel' f' k1 ≡ some (returns (pos 0), k2)) × IsRestored k k2
execute_func-halt fuel command zero fuel' entry stack f f' k k1 a run h = absurd (omega arith)
execute_func-halt fuel command (suc rounds) fuel' entry stack f f' k k1 a run h =
    let (m, loads) = execute_func-loads fuel command f k k1 entry stack run in
    let (k2, halts, v) =
      load_program-halt fuel rounds fuel' f f' (with_mem k m) k1 (enters entry stack)
        (with_mem-IsAlone k m a) loads in
    (
      k2,
      halts,
      record {
        block = v.block;
        caller = v.caller;
        slots = v.slots;
        total = v.total;
        next = v.next;
        pages = v.pages;
        stack = v.stack;
      },
    )
