-- ===== src/Kernel/Forest/Halting.antt =====
-- halt_func takes the running terminal's last process away; the first one is replaced by a new shell.
use linux_operating_system.Prelude.{
  ℕ, zero, suc, ◌+◌, ◌-◌, ◌≤◌, ◌<◌, ◌≡◌, refl, sym, ap, ◌∙◌, fun_ext, subst, ◌≢◌, inl, inr, true,
  false, some, arith, ◌==◌, ==_iff, Bool-cases, bind_some, some_injective, pos, Memory, store,
  sub32,
}
use linux_operating_system.Kernel.{Kernel, current, Outcome, returns, Frame}
use linux_operating_system.Kernel.Process.{
  pid_to_pcb_addr, pid_to_kstack_bottom, program_page, get_parent_pcb, swap_pages,
}
use linux_operating_system.Kernel.Programs.{restart_shell, leave_program, halt_func}
use linux_operating_system.Kernel.Forest.{
  top, IsBlock, IsTree, IsForest, below_three, depth_le, top_ne_null,
}
use linux_operating_system.Kernel.Forest.Stacks.{Ends, Enters}
use linux_operating_system.Kernel.Forest.Same.{view, SameTree-IsTree, pcb-SameForest}
use linux_operating_system.Kernel.Forest.Growth.{CanStart}
use linux_operating_system.Kernel.Forest.Ending.{Leads, restart_shell-Grows}

shrunk_total :
    (f : Memory) (t d : ℕ)
    → t < 3
    → f t ≡ suc d
    → store f t d 0 + store f t d 1 + store f t d 2 + 1 ≡ f 0 + f 1 + f 2
shrunk_total f t d =
    below_three
      (λ t. f t ≡ suc d → store f t d 0 + store f t d 1 + store f t d 2 + 1 ≡ f 0 + f 1 + f 2)
      (λ e. omega arith) (λ e. omega arith) (λ e. omega arith) t

-- The kernel with a process less on the running terminal.
abbrev pub fewer : Kernel → Kernel
fewer k = record k {
  total_progs = sub32 k.total_progs 1;
  next_p_id = store k.next_p_id k.term.curr_term (sub32 (k.next_p_id k.term.curr_term) 1);
}

-- A kernel whose running terminal has `suc d` processes.
module _ (k : Kernel) (d : ℕ) (v : IsForest k) (deep : k.next_p_id k.term.curr_term ≡ suc d) where
  abbrev t : ℕ
  t = k.term.curr_term

  bounded : suc d ≤ k.total_progs
  bounded = let e = depth_le k v.tree t v.tree.running in omega arith

  counted : sub32 (k.next_p_id t) 1 ≡ d
  counted = let b = bounded in let q = v.tree.few in rw deep (omega arith)

  last : IsBlock t d (current k)
  last = rw (v.block, deep) (v.tree.blocks t d v.tree.running (omega arith))

  fewer-IsTree : IsTree (fewer k)
  fewer-IsTree = record {
    running = v.tree.running;
    turn = v.tree.turn;
    total =
        let e = v.tree.total in
        let q = v.tree.few in
        let b = bounded in
        let s = shrunk_total k.next_p_id t d v.tree.running deep in rw counted (omega arith);
    few = let q = v.tree.few in let b = bounded in omega arith;
    blocks = λ u i hu hi. v.tree.blocks u i hu (elim (Bool-cases (u == t)) [
      | inl e ↦
          let q : u ≡ t = (==_iff u t).0 e in
          let lt : i < d = rw (e, counted) at hi in rw (q, deep) (omega arith)
      | inr e ↦ rw e at hi
    ]);
  }

  self : (t == t) ≡ true
  self = ground arith

  left : (fewer k).next_p_id t ≡ d
  left = rw self counted

  elsewhere : (u : ℕ) → u ≢ t → (fewer k).next_p_id u ≡ k.next_p_id u
  elsewhere u ne = ground arith

  -- The first process of the terminal is done, and a shell takes its place.
  first-Ends :
      (rounds fuel : ℕ) (f : Frame) (k' : Kernel) (o : Outcome)
      → (current k).parent ≡ 0
      → restart_shell rounds fuel f (fewer k) ≡ some (o, k')
      → Enters o × Leads (Ends (view k)) o k'
  first-Ends rounds fuel f k' o q run =
      let root : d ≡ 0 = elim (Bool-cases (d == 0)) [
        | inl e ↦ (==_iff d 0).0 e
        | inr e ↦ absurd (
            top_ne_null t d v.tree.running (let b = bounded in let w = v.tree.few in omega arith)
              (λ z. (let b = (==_iff d 0).1 z in cc)) (sym last.parent ∙ q))
      ] in
      let w : CanStart (fewer k) = record {
        tree = fewer-IsTree;
        others = λ u h ne. v.slots u h ∙ ap (top u) (sym (elsewhere u ne));
        caller = λ z. absurd (z (left ∙ root));
      } in
      let (entry, stack, e, g) = restart_shell-Grows rounds fuel f (fewer k) k' o w q run in
      let depths : k'.next_p_id ≡ k.next_p_id =
        g.next
        ∙ fun_ext (λ u. elim (Bool-cases (u == t)) [
          | inl b ↦
              let eu : u ≡ t = (==_iff u t).0 b in
              rw b (rw left (omega (arith, root, deep, ap k.next_p_id eu)))
          | inr b ↦ rw b refl
        ]) in
      (
        (entry, stack, e),
        (
          g.forest,
          inl (
            deep ∙ ap suc root,
            (entry, stack, e),
            λ i. record { depth = depths i; running = g.curr i },
          ),
        ),
      )

  -- The process below goes on.
  parent-Ends :
      (current k).parent ≢ 0 → Leads (Ends (view k)) (returns (pos 0)) (leave_program (fewer k))
  unfolding leave_program get_parent_pcb swap_pages
  parent-Ends ne =
      let parent = (current k).parent in
      let orphan : (parent == 0) ≡ false = ground arith in
      let others : d ≢ 0 = λ z. ne (last.parent ∙ ap (top t) z) in
      let e : ℕ = d - 1 in
      let above : d ≡ suc e = omega arith in
      let at : parent ≡ pid_to_pcb_addr t e = last.parent ∙ ap (top t) above in
      let block = v.tree.blocks t e v.tree.running (omega (arith, deep)) in
      let same =
        pcb-SameForest (fewer k) parent (record (k.pcbs parent) { child = 0 })
          (record { id = refl; parent = refl; parent_id = refl; stack = refl }) in
      rw orphan (
        record {
          tree =
              SameTree-IsTree (fewer k) _
                (record {
                  curr = refl;
                  turn = refl;
                  total = refl;
                  next = refl;
                  blocks = same.tree.blocks;
                })
                fewer-IsTree;
          slots = λ u hu. elim (Bool-cases (u == t)) [
            | inl b ↦
                let q : u ≡ t = (==_iff u t).0 b in
                rw b (last.parent ∙ λ i. top (sym q i) (sym counted i))
            | inr b ↦
                let other : u ≢ t = λ q. (let c = (==_iff u t).1 q in cc) in rw b (v.slots u hu)
          ];
          block = last.parent ∙ ap (top t) (sym left);
          page = λ z. ap (program_page t) (last.parent_id ∙ ap (λ (x : ℕ). x - 1) (sym left));
          stack = λ z.
              ap (λ a. (k.pcbs a).esp0) at
              ∙ block.stack
              ∙ ap (pid_to_kstack_bottom t) (ap (λ (x : ℕ). x - 1) (sym left));
        },
        inr (
          omega (arith, deep),
          refl,
          λ i. record {
            depth =
                store k.next_p_id t
                  ((counted ∙ (let z : d ≡ k.next_p_id t - 1 = omega (arith, deep) in z)) i);
            running = t;
          },
        ),
      )

  halting :
      (rounds fuel : ℕ) (f : Frame) (k' : Kernel) (o : Outcome)
      → halt_func rounds fuel f k ≡ some (o, k')
      → Leads (Ends (view k)) o k'
  unfolding halt_func restart_shell
  halting zero fuel f k' o run = cc
  halting (suc rounds) fuel f k' o run =
      let ((p, l), ran, done) =
        bind_some {A = Outcome × Kernel} (restart_shell (suc rounds) fuel f (fewer k)) _ (o, k')
          run in
      elim (Bool-cases ((current k).parent == 0)) [
        | inl b ↦
            let ((entry, stack, e), w) =
              first-Ends (suc rounds) fuel f l p ((==_iff (current k).parent 0).0 b) ran in
            let d' = some_injective {A = Outcome × Kernel} (p, l) (o, k') (rw e at done) in
            subst (λ (x : Outcome × Kernel). Leads (Ends (view k)) (x.0) (x.1)) d' w
        | inr b ↦
            let ne : (current k).parent ≢ 0 =
              λ z. (let c = (==_iff (current k).parent 0).1 z in cc) in
            let r =
              some_injective {A = Outcome × Kernel} (returns (pos 0), fewer k) (p, l)
                (rw (restart_shell, b) at ran) in
            let e = ap (λ (x : Outcome × Kernel). x.0) r in
            let g = ap (λ (x : Outcome × Kernel). x.1) r in
            let d' =
              some_injective {A = Outcome × Kernel} (returns (pos 0), leave_program l) (o, k')
                (rw (← e) at done) in
            subst (λ (x : Outcome × Kernel). Leads (Ends (view k)) (x.0) (x.1))
              (ap (λ (u : Kernel). (returns (pos 0), leave_program u)) g ∙ d') (parent-Ends ne)
      ]

-- halt of the program that runs.
pub halt_func-Ends :
    (rounds fuel : ℕ) (f : Frame) (k k' : Kernel) (o : Outcome)
    → IsForest k
    → k.curr_pcb_ptr ≢ 0
    → halt_func rounds fuel f k ≡ some (o, k')
    → Leads (Ends (view k)) o k'
halt_func-Ends rounds fuel f k k' o v runs run =
    let n = k.next_p_id k.term.curr_term in
    let some_left : n ≢ 0 = λ z. runs (v.block ∙ ap (top k.term.curr_term) z) in
    halting k (n - 1) v (omega arith) rounds fuel f k' o run
