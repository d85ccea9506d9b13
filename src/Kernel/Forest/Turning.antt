-- ===== src/Kernel/Forest/Turning.antt =====
-- The timer and the function keys: another terminal's last process goes on, or a terminal without one
-- gets its first.
use linux_operating_system.Prelude.{
  ℕ, suc, ◌+◌, ◌-◌, ◌≤◌, ◌<◌, ◌≡◌, refl, sym, ap, ◌∙◌, subst, ◌≢◌, inl, inr, Option, none, some,
  arith, ◌==◌, ==_iff, Bool-cases, bind_some, some_injective, if_branch, pos, store,
}
use linux_operating_system.Terminal.{terminal_update_cursor}
use linux_operating_system.Kernel.{Kernel, current, Outcome, returns, Frame}
use linux_operating_system.Kernel.Process.{pid_to_pcb_addr, program_page, swap_pages}
use linux_operating_system.Kernel.Programs.{execute_func}
use linux_operating_system.Kernel.Schedule.{hand_over, resume, do_switch}
use linux_operating_system.Kernel.Forest.{top, IsBlock, IsTree, IsForest, depth_le, top_ne_null}
use linux_operating_system.Kernel.Forest.Stacks.{Switches}
use linux_operating_system.Kernel.Forest.Same.{view, SameTree-IsTree, pcb-SameForest}
use linux_operating_system.Kernel.Forest.Growth.{CanStart}
use linux_operating_system.Kernel.Forest.Executing.{execute_func-Executes}
use linux_operating_system.Kernel.Forest.Ending.{Leads}

pub top_null : (t n : ℕ) → t < 3 → n ≤ 6 → top t n ≡ 0 → n ≡ 0
top_null t n ht hn e = elim (Bool-cases (n == 0)) [
  | inl b ↦ (==_iff n 0).0 b
  | inr b ↦ absurd (top_ne_null t n ht hn (λ z. (let c = (==_iff n 0).1 z in cc)) e)
]

-- The processor is given to terminal `dest`.
module _ (f : Frame) (dest : ℕ) (k : Kernel) (v : IsForest k) (h : dest < 3) where
  abbrev handed : Kernel
  handed = hand_over f dest k

  slots_kept : (t : ℕ) → t < 3 → handed.active_progs t ≡ top t (k.next_p_id t)
  unfolding hand_over
  slots_kept t ht = elim (Bool-cases (t == k.term.curr_term)) [
    | inl b ↦
        let e : t ≡ k.term.curr_term = (==_iff t k.term.curr_term).0 b in
        rw b (v.block ∙ λ i. top (sym e i) (k.next_p_id (sym e i)))
    | inr b ↦ rw b (v.slots t ht)
  ]

  handed_ptr : handed.curr_pcb_ptr ≡ top dest (k.next_p_id dest)
  unfolding hand_over
  handed_ptr = slots_kept dest h

  handed-IsTree : IsTree handed
  unfolding hand_over
  handed-IsTree =
      let same =
        pcb-SameForest k k.curr_pcb_ptr
          (record (current k) { esp_s = f.sp; ebp_s = f.bp; saved_by_timer = f.in_timer })
          (record { id = refl; parent = refl; parent_id = refl; stack = refl }) in
      let w = SameTree-IsTree k _ same.tree v.tree in
      record { running = h; turn = w.turn; total = w.total; few = w.few; blocks = w.blocks }

  handed-CanStart : CanStart (record handed { switch_lock = 0 })
  unfolding hand_over
  handed-CanStart =
      let w = handed-IsTree in
      record {
        tree = record {
          running = w.running;
          turn = w.turn;
          total = w.total;
          few = w.few;
          blocks = w.blocks;
        };
        others = λ t ht ne. slots_kept t ht;
        caller = λ z. handed_ptr;
      }

  depth_small : k.next_p_id dest ≤ 6
  depth_small = let e = depth_le k v.tree dest h in let q = v.tree.few in omega arith

  -- A terminal that has a program: its last process goes on.
  resumed-Switches :
      k.next_p_id dest ≢ 0 → Leads (Switches dest (view k)) (returns (pos 0)) (resume handed)
  unfolding resume swap_pages terminal_update_cursor hand_over
  resumed-Switches z =
      let w = handed-IsTree in
      let n = k.next_p_id dest in
      let at : top dest n ≡ pid_to_pcb_addr dest (n - 1) =
        ap (top dest) (let e : n ≡ suc (n - 1) = omega arith in e) in
      let block : IsBlock dest (n - 1) (current handed) =
        subst (λ a. IsBlock dest (n - 1) (handed.pcbs a)) (sym (handed_ptr ∙ at))
          (w.blocks dest (n - 1) h (omega arith)) in
      (
        record {
          tree = record {
            running = h;
            turn = w.turn;
            total = w.total;
            few = w.few;
            blocks = w.blocks;
          };
          slots = slots_kept;
          block = handed_ptr;
          page = λ _. ap (program_page dest) block.id;
          stack = λ _. block.stack;
        },
        inl (z, refl, refl),
      )

  pub do_switch-Switches :
      (fuel : ℕ) (k' : Kernel) (o : Outcome)
      → do_switch fuel f dest k ≡ some (o, k')
      → Leads (Switches dest (view k)) o k'
  unfolding do_switch
  do_switch-Switches fuel k' o run =
      elim (if_branch (handed.curr_pcb_ptr == 0) _ _ (some (o, k')) run) [
        | inl (b, run1) ↦
            let empty : k.next_p_id dest ≡ 0 =
              top_null dest (k.next_p_id dest) h depth_small
                (sym handed_ptr ∙ (==_iff handed.curr_pcb_ptr 0).0 b) in
            let start = record handed { switch_lock = 0 } in
            let ((p, l), ran, done) =
              bind_some {A = Outcome × Kernel} (execute_func fuel f f.shell start) _ (o, k') run1 in
            elim (execute_func-Executes fuel f.shell f start l p handed-CanStart ran) [
              | inl (e, s) ↦ absurd (
                  let z : ◌≡◌ {A = Option (Outcome × Kernel)} none (some (o, k')) = rw e at done in
                  cc)
              | inr (entry, stack, e, g) ↦
                  let d = some_injective {A = Outcome × Kernel} (p, l) (o, k') (rw e at done) in
                  subst (λ (x : Outcome × Kernel). Leads (Switches dest (view k)) (x.0) (x.1)) d
                    (
                      g.forest,
                      inr (
                        empty,
                        (entry, stack, e),
                        (let q = v.tree.total in let r = g.room in unfold hand_over in omega arith),
                        (λ i. record {
                          depth =
                              (g.next ∙ ap (store k.next_p_id dest) (ap (λ (x : ℕ). x + 1) empty))
                                i;
                          running = g.curr i;
                        }),
                      ),
                    )
            ]
        | inr (b, done) ↦
            let d =
              some_injective {A = Outcome × Kernel} (returns (pos 0), resume handed) (o, k') done in
            subst (λ (x : Outcome × Kernel). Leads (Switches dest (view k)) (x.0) (x.1)) d
              (resumed-Switches (λ z.
                (let c = (==_iff handed.curr_pcb_ptr 0).1 (handed_ptr ∙ ap (top dest) z) in cc)))
      ]
