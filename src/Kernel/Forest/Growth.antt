-- ===== src/Kernel/Forest/Growth.antt =====
-- execute puts one process above the running terminal's last one, or leaves the processes alone.
use linux_operating_system.Prelude.{
  ℕ, ◌+◌, ◌<◌, ◌≡◌, ◌∙◌, ◌≢◌, inl, inr, arith, ◌==◌, ==_iff, Bool-cases, Memory, store,
}
use linux_operating_system.Kernel.{Pcb, Kernel, put}
use linux_operating_system.Kernel.Process.{pid_to_pcb_addr, pid_to_kstack_bottom}
use linux_operating_system.Kernel.Forest.{
  top, IsBlock, IsTree, IsForest, below_three, depth_le, place_injective,
}
use linux_operating_system.Kernel.Forest.Same.{SameBlock}
use linux_operating_system.Kernel.Forest.Making.{IsMade}

-- What execute_func counts on: the processes are in order, and the running terminal's last process, if
-- it has one, is the one that calls.
pub record CanStart (k : Kernel) : Type 0 where
  pub tree : IsTree k
  pub others : (t : ℕ) → t < 3 → t ≢ k.term.curr_term → k.active_progs t ≡ top t (k.next_p_id t)
  pub caller :
      k.next_p_id k.term.curr_term ≢ 0
      → k.curr_pcb_ptr ≡ top k.term.curr_term (k.next_p_id k.term.curr_term)

pub record Grows (k k' : Kernel) : Type 0 where
  pub forest : IsForest k'
  pub curr : k'.term.curr_term ≡ k.term.curr_term
  pub next : k'.next_p_id ≡ store k.next_p_id k.term.curr_term (k.next_p_id k.term.curr_term + 1)
  pub room : k.total_progs < 6

pub grown_total :
    (f : Memory) (t : ℕ)
    → t < 3
    → store f t (f t + 1) 0 + store f t (f t + 1) 1 + store f t (f t + 1) 2 ≡ f 0 + f 1 + f 2 + 1
grown_total f =
    below_three
      (λ t.
        store f t (f t + 1) 0 + store f t (f t + 1) 1 + store f t (f t + 1) 2 ≡ f 0 + f 1 + f 2 + 1)
      (omega arith) (omega arith) (omega arith)

abbrev pub here : Kernel → ℕ
here k = k.term.curr_term

abbrev pub count : Kernel → ℕ
count k = k.next_p_id (here k)

-- The block of the running terminal's next process.
abbrev pub place : Kernel → ℕ
place k = pid_to_pcb_addr (here k) (count k)

-- The blocks of a kernel whose running terminal has one process more than before.
module _ (k s : Kernel) (p : Pcb) (v : IsTree k) (room : k.total_progs < 6) where
  pub count_lt : (count k) < 6
  count_lt = let e = depth_le k v (here k) v.running in omega arith

  pub new_blocks :
      IsMade (place k) (here k) (count k) k s
      → SameBlock (record (s.pcbs (place k)) { esp0 = pid_to_kstack_bottom (here k) (count k) }) p
      → (t i : ℕ) → t < 3
      → i < store k.next_p_id (here k) ((count k) + 1) t
      → IsBlock t i (put s.pcbs (place k) p (pid_to_pcb_addr t i))
  new_blocks m same t i ht hi = elim (Bool-cases (pid_to_pcb_addr t i == (place k))) [
    | inl e ↦
        let q : pid_to_pcb_addr t i ≡ (place k) = (==_iff (pid_to_pcb_addr t i) (place k)).0 e in
        let small : i < 6 = let d = depth_le k v t ht in let c = count_lt in ground arith in
        let (et, ei) = place_injective t (here k) i (count k) ht v.running small count_lt q in
        rw e (
          rw (et, ei)
            (record {
              id = same.id ∙ m.id;
              parent = same.parent ∙ m.parent;
              parent_id = same.parent_id ∙ m.parent_id;
              stack = same.stack;
            }))
    | inr e ↦
        let ne : pid_to_pcb_addr t i ≢ (place k) =
          λ q. (let b = (==_iff (pid_to_pcb_addr t i) (place k)).1 q in cc) in
        let below : i < k.next_p_id t = elim (Bool-cases (t == (here k))) [
          | inl b ↦
              let et : t ≡ (here k) = (==_iff t (here k)).0 b in
              let other : i ≢ (count k) = λ ei. ne (λ j. pid_to_pcb_addr (et j) (ei j)) in
              rw et (let le : i < (count k) + 1 = rw (b, ◌==◌) at hi in omega arith)
          | inr b ↦ rw b at hi
        ] in
        let old = v.blocks t i ht below in
        let c = m.others (pid_to_pcb_addr t i) ne in
        rw e (record {
          id = c.id ∙ old.id;
          parent = c.parent ∙ old.parent;
          parent_id = c.parent_id ∙ old.parent_id;
          stack = c.stack ∙ old.stack;
        })
  ]
