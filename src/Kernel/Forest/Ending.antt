-- ===== src/Kernel/Forest/Ending.antt =====
-- halt takes the running terminal's last process away, and starts a new shell for the first one.
use linux_operating_system.Prelude.{
  ℕ, zero, suc, ◌+◌, ◌≡◌, sym, ap, ◌∙◌, subst, inl, inr, some, arith, ◌==◌, ==_iff, bind_some,
  some_injective, if_branch, Memory, store,
}
use linux_operating_system.Kernel.{Kernel, current, say, Outcome, enters, Frame}
use linux_operating_system.Kernel.Programs.{execute_func, restart_shell}
use linux_operating_system.Kernel.Forest.{top, IsForest}
use linux_operating_system.Kernel.Forest.Stacks.{Stacks, Starts}
use linux_operating_system.Kernel.Forest.Same.{
  view, SameForest, SameForest-trans, SameForest-IsForest, SameTree-IsTree, SameTree-view,
  say-SameForest,
}
use linux_operating_system.Kernel.Forest.Growth.{CanStart, Grows}
use linux_operating_system.Kernel.Forest.Executing.{execute_func-Executes}

-- A run that ends in `k'` with the outcome `o` leaves the processes in order and does `Q` to the stacks.
abbrev pub Leads : (Outcome → Stacks → Type 0) → Outcome → Kernel → Type 0
Leads Q o k' = IsForest k' × Q o (view k')

pub IsForest-CanStart : (k : Kernel) → IsForest k → CanStart k
IsForest-CanStart k v = record {
  tree = v.tree;
  others = λ t h _. v.slots t h;
  caller = λ z. v.block;
}

pub execute_func-Starts :
    (fuel command : ℕ) (f : Frame) (k k' : Kernel) (o : Outcome)
    → IsForest k
    → execute_func fuel f command k ≡ some (o, k')
    → Leads (Starts (view k)) o k'
execute_func-Starts fuel command f k k' o v run =
    elim (execute_func-Executes fuel command f k k' o (IsForest-CanStart k v) run) [
      | inl (e, s) ↦ (SameForest-IsForest k k' s v, inl (e, SameTree-view k k' s.tree))
      | inr (entry, stack, e, g) ↦ (
        g.forest,
        inr (
          (entry, stack, e),
          let r = g.room in let q = v.tree.total in omega arith,
          λ i. record { depth = g.next i; running = g.curr i },
        ),
      )
    ]

same-CanStart : (k l : Kernel) → SameForest k l → CanStart k → CanStart l
same-CanStart k l s w =
    let n : l.next_p_id l.term.curr_term ≡ k.next_p_id k.term.curr_term =
      ap (λ (f : Memory). f l.term.curr_term) s.tree.next ∙ ap k.next_p_id s.tree.curr in
    record {
      tree = SameTree-IsTree k l s.tree w.tree;
      others = λ t h ne. rw (s.slots, s.tree.next) (w.others t h (λ q. ne (q ∙ sym s.tree.curr)));
      caller = λ z. s.block ∙ w.caller (λ q. z (n ∙ q)) ∙ λ i. top (sym s.tree.curr i) (sym n i);
    }

same-Grows : (k l m : Kernel) → SameForest k l → Grows l m → Grows k m
same-Grows k l m s g = record {
  forest = g.forest;
  curr = g.curr ∙ s.tree.curr;
  next = g.next ∙ λ i. store (s.tree.next i) (s.tree.curr i) (s.tree.next i (s.tree.curr i) + 1);
  room = let r = g.room in let q = s.tree.total in omega arith;
}

same-parent : (k l : Kernel) → SameForest k l → (current l).parent ≡ (current k).parent
same-parent k l s = (s.tree.blocks l.curr_pcb_ptr).parent ∙ ap (λ a. (k.pcbs a).parent) s.block

-- The `while` of halt_func ends with a new first process.
pub restart_shell-Grows :
    (rounds fuel : ℕ) (f : Frame) (k k' : Kernel) (o : Outcome)
    → CanStart k
    → (current k).parent ≡ 0
    → restart_shell rounds fuel f k ≡ some (o, k')
    → (entry : ℕ) × (stack : ℕ) × (o ≡ enters entry stack) × Grows k k'
unfolding restart_shell
restart_shell-Grows zero fuel f k k' o w q run = cc
restart_shell-Grows (suc rounds) fuel f k k' o w q run =
    elim (if_branch ((current k).parent == 0) _ _ (some (o, k')) run) [
      | inr (b, _) ↦ absurd (let c = (==_iff (current k).parent 0).1 q in cc)
      | inl (_, run1) ↦
          let (s, said, run2) = bind_some {A = Kernel} (say _ k) _ (o, k') run1 in
          let ((p, l), ran, run3) =
            bind_some {A = Outcome × Kernel} (execute_func fuel f f.shell s) _ (o, k') run2 in
          let v = say-SameForest _ k s said in
          elim (execute_func-Executes fuel f.shell f s l p (same-CanStart k s v w) ran) [
            | inl (e, u) ↦
                let ku = SameForest-trans k s l v u in
                let (entry, stack, e', g) =
                  restart_shell-Grows rounds fuel f l k' o (same-CanStart k l ku w)
                    (same-parent k l ku ∙ q) (rw e at run3) in
                (entry, stack, e', same-Grows k l k' ku g)
            | inr (entry, stack, e, g) ↦
                let d = some_injective {A = Outcome × Kernel} (p, l) (o, k') (rw e at run3) in
                (
                  entry,
                  stack,
                  ap (λ (x : Outcome × Kernel). x.0) (sym d) ∙ e,
                  subst (Grows k) (ap (λ (x : Outcome × Kernel). x.1) d) (same-Grows k s l v g),
                )
          ]
    ]
