-- ===== src/Kernel/Programs/Starting.antt =====
-- execute links the program that it starts into the tree of processes.
use linux_operating_system.Prelude.{
  ℕ, ◌+◌, ◌-◌, ◌≡◌, refl, ap, ◌∙◌, subst, ◌≢◌, true, false, ◌&&◌, not, some, arith, ◌==◌, bind_some,
  some_injective, ℤ, Memory, store, load32, add32,
}
use linux_operating_system.CLib.Strings.{strcpy}
use linux_operating_system.FileSys.{read_data, get_file_size}
use linux_operating_system.Kernel.{Fd, Kernel, current, with_mem, with_pcb, Outcome, Frame}
use linux_operating_system.Kernel.Process.{
  args_offset, prog_entry_offset, pid_to_pcb_addr, program_page, link_pcb, pcb_init,
}
use linux_operating_system.Kernel.Programs.{start_program, load_program}

-- What a program that starts takes over from the one that runs.
pub record IsStarted (pcb n : ℕ) (k k' : Kernel) : Type 0 where
  pub running : k'.term.curr_term ≡ k.term.curr_term
  pub block : k'.curr_pcb_ptr ≡ pcb
  pub parent : (k'.pcbs pcb).parent ≡ k.curr_pcb_ptr
  pub parent_id : (k'.pcbs pcb).parent_p_id ≡ n - 1
  pub caller : k'.pcbs k.curr_pcb_ptr ≡ record (current k) { child = pcb }
  pub slots : k'.active_progs ≡ store k.active_progs k.term.curr_term pcb
  pub total : k'.total_progs ≡ add32 k.total_progs 1
  pub next : k'.next_p_id ≡ store k.next_p_id k.term.curr_term (n + 1)
  pub pages : (x : ℕ) → x ≢ 32 → k'.page_directory x ≡ k.page_directory x

-- pcb_init, when it returns, links the block below the current one.
record IsLinked (pcb n : ℕ) (k k' : Kernel) : Type 0 where
  running : k'.term.curr_term ≡ k.term.curr_term
  block : k'.curr_pcb_ptr ≡ k.curr_pcb_ptr
  parent : (k'.pcbs pcb).parent ≡ k.curr_pcb_ptr
  parent_id : (k'.pcbs pcb).parent_p_id ≡ n - 1
  caller : k'.pcbs k.curr_pcb_ptr ≡ record (current k) { child = pcb }
  slots : k'.active_progs ≡ k.active_progs
  total : k'.total_progs ≡ k.total_progs
  next : k'.next_p_id ≡ k.next_p_id
  pages : k'.page_directory ≡ k.page_directory

link_pcb-IsLinked :
    (pcb n : ℕ) (k : Kernel)
    → k.curr_pcb_ptr ≢ 0
    → k.next_p_id k.term.curr_term ≡ n
    → n ≢ 0
    → pcb ≢ k.curr_pcb_ptr
    → IsLinked pcb n k (link_pcb pcb k)
unfolding link_pcb
link_pcb-IsLinked pcb n k c e z apart =
    let test : (not (k.curr_pcb_ptr == 0) && not (k.next_p_id k.term.curr_term == 0)) ≡ true =
      ground arith in
    let other : (k.curr_pcb_ptr == pcb) ≡ false = ground arith in
    let self : (k.curr_pcb_ptr == k.curr_pcb_ptr) ≡ true = ground arith in
    rw test (record {
      running = refl;
      block = refl;
      parent = ground arith;
      parent_id = ground arith;
      caller = rw (other, self) refl;
      slots = refl;
      total = refl;
      next = refl;
      pages = refl;
    })

-- The rest of pcb_init writes to the memory and to the new block.
filled-IsLinked :
    (pcb n : ℕ) (k l : Kernel) (m : Memory) (fds : ℕ → Fd) (entry term opened : ℕ)
    → pcb ≢ k.curr_pcb_ptr
    → IsLinked pcb n k l
    → IsLinked pcb n k (
        with_pcb (with_mem l m) pcb (record (l.pcbs pcb) {
          fd_A = fds;
          term_num = term;
          prog_entry = entry;
          fd_total_open = opened;
        }))
filled-IsLinked pcb n k l m fds entry term opened apart v =
    let other : (k.curr_pcb_ptr == pcb) ≡ false = ground arith in
    let self : (pcb == pcb) ≡ true = ground arith in
    record {
      running = v.running;
      block = v.block;
      parent = rw self v.parent;
      parent_id = rw self v.parent_id;
      caller = rw other v.caller;
      slots = v.slots;
      total = v.total;
      next = v.next;
      pages = v.pages;
    }

pcb_init-IsLinked :
    (fuel pcb args entry n : ℕ) (k k' : Kernel)
    → k.curr_pcb_ptr ≢ 0
    → k.next_p_id k.term.curr_term ≡ n
    → n ≢ 0
    → pcb ≢ k.curr_pcb_ptr
    → pcb_init fuel pcb args entry k ≡ some k'
    → IsLinked pcb n k k'
unfolding pcb_init
pcb_init-IsLinked fuel pcb args entry n k k' c e z apart run =
    let l = link_pcb pcb k in
    let (m, copied, run1) =
      bind_some {A = Memory} (strcpy fuel (pcb + args_offset) args l.term.mem) _ k' run in
    let (r, read, run2) =
      bind_some {A = ℤ × Memory}
        (read_data fuel l.fs (load32 m (entry + 36)) 24 (pcb + prog_entry_offset) 4 m) _ k' run1 in
    subst (IsLinked pcb n k) (some_injective _ k' run2)
      (filled-IsLinked pcb n k l (r.1) _ _ _ _ apart (link_pcb-IsLinked pcb n k c e z apart))

-- The directory that execute_func sets up, and a memory that the program is read into.
abbrev loaded : Kernel → Memory → Kernel
loaded k m =
    with_mem
      (record k {
        page_directory =
            store k.page_directory 32
              (program_page k.term.curr_term (k.next_p_id k.term.curr_term));
      })
      m

start_program-IsStarted :
    (pcb : ℕ) (f : Frame) (m : Memory) (k s : Kernel)
    → pcb ≢ k.curr_pcb_ptr
    → IsLinked pcb (k.next_p_id k.term.curr_term) (loaded k m) s
    → IsStarted pcb (k.next_p_id k.term.curr_term) k (start_program f pcb s).1
unfolding start_program
start_program-IsStarted pcb f m k s apart v =
    let self : (pcb == pcb) ≡ true = ground arith in
    let other : (k.curr_pcb_ptr == pcb) ≡ false = ground arith in
    record {
      running = v.running;
      block = refl;
      parent = rw self v.parent;
      parent_id = rw self v.parent_id;
      caller = rw other v.caller;
      slots = rw (v.slots, v.running) refl;
      total = ap (λ n. add32 n 1) v.total;
      next = rw (v.next, v.running) refl;
      pages = λ x q. ap (λ (d : ℕ → ℕ). d x) v.pages ∙ ground arith;
    }

-- load_program, when it returns, has started the program in the block of the next process.
pub load_program-IsStarted :
    (fuel : ℕ) (f : Frame) (k k' : Kernel) (o : Outcome)
    → k.curr_pcb_ptr ≢ 0
    → k.next_p_id k.term.curr_term ≢ 0
    → pid_to_pcb_addr k.term.curr_term (k.next_p_id k.term.curr_term) ≢ k.curr_pcb_ptr
    → load_program fuel f k ≡ some (o, k')
    → IsStarted
        (pid_to_pcb_addr k.term.curr_term (k.next_p_id k.term.curr_term))
        (k.next_p_id k.term.curr_term)
        k
        k'
unfolding load_program
load_program-IsStarted fuel f k k' o c z apart run =
    let pcb = pid_to_pcb_addr k.term.curr_term (k.next_p_id k.term.curr_term) in
    let (r, read, run1) =
      bind_some {A = ℤ × Memory}
        (read_data fuel k.fs (load32 k.term.mem (f.file_entry + 36)) 0 (0x8000000 + 0x48000)
          (get_file_size k.fs k.term.mem f.file_entry) k.term.mem)
        _ (o, k') run in
    let (s, made, run2) =
      bind_some {A = Kernel} (pcb_init fuel pcb f.args f.file_entry (loaded k (r.1))) _ (o, k')
        run1 in
    let linked =
      pcb_init-IsLinked fuel pcb f.args f.file_entry _ (loaded k (r.1)) s c refl z apart made in
    subst (IsStarted pcb (k.next_p_id k.term.curr_term) k)
      (ap (λ (x : Outcome × Kernel). x.1) (some_injective (start_program f pcb s) (o, k') run2))
      (start_program-IsStarted pcb f (r.1) k s apart linked)
