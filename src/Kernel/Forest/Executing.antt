-- ===== src/Kernel/Forest/Executing.antt =====
-- execute_func puts one process above the running terminal's last one, or leaves the processes alone.
use linux_operating_system.Prelude.{
  ℕ, suc, ◌+◌, ◌-◌, ◌<◌, ◌≡◌, refl, sym, ap, ◌∙◌, subst, ◌≢◌, ◌⊎◌, inl, inr, true, not, some, List,
  arith, leb, ◌==◌, ==_iff, Bool-cases, bind_some, some_injective, if_branch, ℤ, minus_one, Memory,
  store, load32, add32,
}
use linux_operating_system.FileSys.{read_data, read_dentry_by_name, get_file_size}
use linux_operating_system.Kernel.{
  Kernel, max_progs, with_mem, say, Outcome, returns, enters, Frame,
}
use linux_operating_system.Kernel.Process.{
  pid_to_kstack_bottom, ustack_bottom, program_page, pcb_init,
}
use linux_operating_system.Kernel.Files.{is_minus_one}
use linux_operating_system.Kernel.Programs.{
  start_program, load_program, execute_func, refuse, get_args_fname, not_executable,
}
use linux_operating_system.Kernel.Forest.{top, depth_le, top_ne_null}
use linux_operating_system.Kernel.Forest.Same.{
  SameForest, SameForest-trans, mem-SameForest, say-SameForest, SameTree-IsTree,
}
use linux_operating_system.Kernel.Forest.Making.{IsMade, pcb_init-IsMade}
use linux_operating_system.Kernel.Forest.Growth.{
  CanStart, Grows, grown_total, new_blocks, here, count, place,
}

start_program-Grows :
    (f : Frame) (k s : Kernel)
    → CanStart k
    → k.total_progs < 6
    → k.page_directory 32 ≡ program_page k.term.curr_term (k.next_p_id k.term.curr_term)
    → IsMade (place k) (here k) (count k) k s
    → Grows k (start_program f (place k) s).1
unfolding start_program
start_program-Grows f k s w room paged m =
    let t = k.term.curr_term in
    let n = k.next_p_id t in
    let v = w.tree in
    let k' = (start_program f (place k) s).1 in
    let self : (t == t) ≡ true = ground arith in
    let n' : s.next_p_id s.term.curr_term ≡ n =
      ap s.next_p_id m.curr ∙ ap (λ (g : Memory). g t) m.next in
    let next : k'.next_p_id ≡ store k.next_p_id t (n + 1) = rw (m.next, m.curr) refl in
    let counted : k'.next_p_id t ≡ n + 1 = ap (λ (g : Memory). g t) next ∙ rw self refl in
    let total : k'.total_progs ≡ k.total_progs + 1 = ap (λ x. add32 x 1) m.total ∙ omega arith in
    let grown = grown_total k.next_p_id t v.running in
    let sums = v.total in
    let up : n + 1 ≡ suc n = omega arith in
    let top' : top t (k'.next_p_id t) ≡ place k = ap (top t) (counted ∙ up) in
    let slots : k'.active_progs ≡ store k.active_progs t (place k) = rw (m.slots, m.curr) refl in
    let last : k'.next_p_id s.term.curr_term - 1 ≡ n =
      ap (λ (x : ℕ). x - 1) (ap k'.next_p_id m.curr ∙ counted) ∙ omega arith in
    record {
      forest = record {
        tree = record {
          running = rw m.curr v.running;
          turn = rw m.turn v.turn;
          total = total ∙ (omega arith) ∙ ap (λ (g : Memory). g 0 + g 1 + g 2) (sym next);
          few = rw total (omega arith);
          blocks = λ u i hu hi.
              new_blocks k s _ v room m
                (record {
                  id = refl;
                  parent = refl;
                  parent_id = refl;
                  stack = λ j. pid_to_kstack_bottom (m.curr j) (n' j);
                })
                u i hu (subst (λ (g : Memory). i < g u) next hi);
        };
        slots = λ u hu. elim (Bool-cases (u == t)) [
          | inl e ↦
              let q : u ≡ t = (==_iff u t).0 e in
              ap (λ (g : Memory). g u) slots
              ∙ rw e (sym (subst (λ x. top x (k'.next_p_id x) ≡ place k) (sym q) top'))
          | inr e ↦
              let ne : u ≢ t = λ q. (let b = (==_iff u t).1 q in cc) in
              let same : k'.next_p_id u ≡ k.next_p_id u =
                ap (λ (g : Memory). g u) next ∙ rw e refl in
              ap (λ (g : Memory). g u) slots ∙ rw e (w.others u hu ne ∙ ap (top u) (sym same))
        ];
        block = sym top' ∙ λ j. top (sym m.curr j) (k'.next_p_id (sym m.curr j));
        page = λ z. ap (λ (g : Memory). g 32) m.pages ∙ paged ∙ λ j.
            program_page (sym m.curr j) (sym last j);
        stack = λ z. λ j. pid_to_kstack_bottom s.term.curr_term ((n' ∙ sym last) j);
      };
      curr = m.curr;
      next = next;
      room = room;
    }

-- The outcome of execute_func: it fails and the processes are the same, or it enters the program of a
-- new one.
abbrev pub Executes : Kernel → Outcome → Kernel → Type 0
Executes k o k' =
    ((o ≡ returns minus_one) × SameForest k k')
    ⊎ ((entry : ℕ) × (stack : ℕ) × (o ≡ enters entry stack) × Grows k k')

with_mem-Executes :
    (k k' : Kernel) (m : Memory) (o : Outcome) → Executes (with_mem k m) o k' → Executes k o k'
with_mem-Executes k k' m o (inl (e, s)) =
    inl (e, SameForest-trans k (with_mem k m) k' (mem-SameForest k m) s)
with_mem-Executes k k' m o (inr (entry, stack, e, g)) =
    inr (entry, stack, e, record { forest = g.forest; curr = g.curr; next = g.next; room = g.room })

with_mem-CanStart : (k : Kernel) (m : Memory) → CanStart k → CanStart (with_mem k m)
with_mem-CanStart k m w = record {
  tree = SameTree-IsTree k (with_mem k m) (mem-SameForest k m).tree w.tree;
  others = w.others;
  caller = w.caller;
}

refuse-Executes :
    (message : List ℕ) (k k' : Kernel) (o : Outcome)
    → refuse message k ≡ some (o, k')
    → Executes k o k'
refuse-Executes message k k' o run =
    let (s, q, done) = bind_some {A = Kernel} (say message k) _ (o, k') run in
    let e = some_injective {A = Outcome × Kernel} (returns minus_one, s) (o, k') done in
    inl (
      ap (λ (r : Outcome × Kernel). r.0) (sym e),
      subst (SameForest k) (ap (λ (r : Outcome × Kernel). r.1) e) (say-SameForest message k s q),
    )

load_program-Executes :
    (fuel : ℕ) (f : Frame) (k k' : Kernel) (o : Outcome)
    → CanStart k
    → k.total_progs < 6
    → load_program fuel f k ≡ some (o, k')
    → Executes k o k'
unfolding load_program
load_program-Executes fuel f k k' o w room run =
    let t = k.term.curr_term in
    let n = k.next_p_id t in
    let pages = store k.page_directory 32 (program_page t n) in
    let (r, read, run1) =
      bind_some {A = ℤ × Memory}
        (read_data fuel k.fs (load32 k.term.mem (f.file_entry + 36)) 0 (0x8000000 + 0x48000)
          (get_file_size k.fs k.term.mem f.file_entry) k.term.mem)
        _ (o, k') run in
    let l = with_mem (record k { page_directory = pages }) (r.1) in
    let (s, made, run2) =
      bind_some {A = Kernel} (pcb_init fuel (place k) f.args f.file_entry l) _ (o, k') run1 in
    let w' : CanStart l = record {
      tree = record {
        running = w.tree.running;
        turn = w.tree.turn;
        total = w.tree.total;
        few = w.tree.few;
        blocks = w.tree.blocks;
      };
      others = w.others;
      caller = w.caller;
    } in
    let linked =
      pcb_init-IsMade fuel (place k) f.args f.file_entry l s
        (λ z.
          let e = w.caller z in
          (
            e,
            λ q.
                top_ne_null t n w.tree.running
                  (let d = depth_le k w.tree t w.tree.running in omega arith) z (sym e ∙ q),
          ))
        made in
    let g = start_program-Grows f l s w' room refl linked in
    let e = some_injective {A = Outcome × Kernel} (start_program f (place k) s) (o, k') run2 in
    inr (
      (s.pcbs (place k)).prog_entry,
      ustack_bottom,
      ap (λ (x : Outcome × Kernel). x.0) (sym e) ∙ unfold start_program in ground arith,
      subst (Grows k) (ap (λ (x : Outcome × Kernel). x.1) e)
          (record { forest = g.forest; curr = g.curr; next = g.next; room = g.room }),
    )

pub execute_func-Executes :
    (fuel command : ℕ) (f : Frame) (k k' : Kernel) (o : Outcome)
    → CanStart k
    → execute_func fuel f command k ≡ some (o, k')
    → Executes k o k'
unfolding execute_func
execute_func-Executes fuel command f k k' o w run =
    let (m, parsed, run1) =
      bind_some {A = Memory} (get_args_fname fuel command f.file_name f.args k.term.mem) _ (o, k')
        run in
    elim (if_branch (leb max_progs k.total_progs) _ _ (some (o, k')) run1) [
      | inl (full, q) ↦ with_mem-Executes k k' m o (refuse-Executes _ (with_mem k m) k' o q)
      | inr (room, run2) ↦
          let ((r, m1), found, run3) =
            bind_some {A = ℤ × Memory} (read_dentry_by_name fuel k.fs f.file_name f.file_entry m) _
              (o, k') run2 in
          with_mem-Executes k k' m1 o (elim (if_branch (is_minus_one r) _ _ (some (o, k')) run3) [
            | inl (_, q) ↦ refuse-Executes _ (with_mem k m1) k' o q
            | inr (_, run4) ↦
                elim (if_branch (not (load32 m1 (f.file_entry + 32) == 2)) _ _ (some (o, k'))
                  run4) [
                    | inl (_, q) ↦ refuse-Executes _ (with_mem k m1) k' o q
                    | inr (_, run5) ↦
                        let ((d, m2), read, run6) =
                          bind_some {A = ℤ × Memory}
                            (read_data fuel k.fs (load32 m1 (f.file_entry + 36)) 0 f.exec_check 4
                              m1)
                            _ (o, k') run5 in
                        with_mem-Executes (with_mem k m1) k' m2 o
                          (elim (if_branch (not_executable f.exec_check m2) _ _ (some (o, k'))
                            run6) [
                              | inl (_, q) ↦ refuse-Executes _ (with_mem k m2) k' o q
                              | inr (_, q) ↦
                                  load_program-Executes fuel f (with_mem k m2) k' o
                                    (with_mem-CanStart k m2 w) (ground (arith, room)) q
                            ])
                  ]
          ])
    ]
