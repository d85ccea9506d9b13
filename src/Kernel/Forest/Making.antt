-- ===== src/Kernel/Forest/Making.antt =====
-- pcb_init puts a block above the running terminal's last one.
use linux_operating_system.Prelude.{
  ℕ, ◌+◌, ◌-◌, ◌≡◌, refl, sym, subst, ◌≢◌, inl, inr, true, false, ◌&&◌, not, some, arith, ◌==◌,
  ==_iff, Bool-cases, bind_some, some_injective, ℤ, Memory, load32,
}
use linux_operating_system.CLib.Strings.{strcpy}
use linux_operating_system.FileSys.{read_data}
use linux_operating_system.Kernel.{Fd, Kernel, put, current, with_mem, with_pcb}
use linux_operating_system.Kernel.Process.{args_offset, prog_entry_offset, link_pcb, pcb_init}
use linux_operating_system.Kernel.Forest.{top}
use linux_operating_system.Kernel.Forest.Same.{SameBlock, SameBlock-refl}

-- Only the block `pcb` is made anew, as number `n` of terminal `t`.
pub record IsMade (pcb t n : ℕ) (k k' : Kernel) : Type 0 where
  pub curr : k'.term.curr_term ≡ k.term.curr_term
  pub turn : k'.pit_counter ≡ k.pit_counter
  pub total : k'.total_progs ≡ k.total_progs
  pub next : k'.next_p_id ≡ k.next_p_id
  pub slots : k'.active_progs ≡ k.active_progs
  pub pages : k'.page_directory ≡ k.page_directory
  pub others : (a : ℕ) → a ≢ pcb → SameBlock (k.pcbs a) (k'.pcbs a)
  pub id : (k'.pcbs pcb).p_id ≡ n
  pub parent : (k'.pcbs pcb).parent ≡ top t n
  pub parent_id : (k'.pcbs pcb).parent_p_id ≡ n - 1

-- The block that runs is told of its child, which `IsMade` does not look at.
child-SameBlock :
    (k : Kernel) (pcb a : ℕ)
    → SameBlock (k.pcbs a) (put k.pcbs k.curr_pcb_ptr (record (current k) { child = pcb }) a)
child-SameBlock k pcb a = elim (Bool-cases (a == k.curr_pcb_ptr)) [
  | inl e ↦
      let q : a ≡ k.curr_pcb_ptr = (==_iff a k.curr_pcb_ptr).0 e in
      rw e (
        subst (λ b. SameBlock (k.pcbs b) (record (current k) { child = pcb })) (sym q)
          (record { id = refl; parent = refl; parent_id = refl; stack = refl }))
  | inr e ↦ rw e (SameBlock-refl (k.pcbs a))
]

link_pcb-IsMade :
    (pcb : ℕ) (k : Kernel)
    → (k.next_p_id k.term.curr_term ≢ 0
        → (k.curr_pcb_ptr ≡ top k.term.curr_term (k.next_p_id k.term.curr_term))
          × (k.curr_pcb_ptr ≢ 0))
    → IsMade pcb k.term.curr_term (k.next_p_id k.term.curr_term) k (link_pcb pcb k)
unfolding link_pcb
link_pcb-IsMade pcb k h =
    let n = k.next_p_id k.term.curr_term in
    let self : (pcb == pcb) ≡ true = ground arith in
    elim (Bool-cases (n == 0)) [
      | inl z ↦
          let q : n ≡ 0 = (==_iff n 0).0 z in
          let test : (not (k.curr_pcb_ptr == 0) && not (n == 0)) ≡ false = ground arith in
          rw test (record {
            curr = refl;
            turn = refl;
            total = refl;
            next = refl;
            slots = refl;
            pages = refl;
            others = λ a ne.
                let e : (a == pcb) ≡ false = ground arith in rw e (SameBlock-refl (k.pcbs a));
            id = rw self (sym q);
            parent = rw self (rw q refl);
            parent_id = rw self (omega arith);
          })
      | inr z ↦
          let nz : n ≢ 0 = λ e. (let b = (==_iff n 0).1 e in cc) in
          let ne = (h nz).1 in
          let test : (not (k.curr_pcb_ptr == 0) && not (n == 0)) ≡ true = ground arith in
          rw test (record {
            curr = refl;
            turn = refl;
            total = refl;
            next = refl;
            slots = refl;
            pages = refl;
            others = λ a ne'.
                let e : (a == pcb) ≡ false = ground arith in rw e (child-SameBlock k pcb a);
            id = rw self refl;
            parent = rw self ((h nz).0);
            parent_id = rw self refl;
          })
    ]

filled-IsMade :
    (pcb t n : ℕ) (k l : Kernel) (m : Memory) (fds : ℕ → Fd) (entry term opened : ℕ)
    → IsMade pcb t n k l
    → IsMade pcb t n k (
        with_pcb (with_mem l m) pcb (record (l.pcbs pcb) {
          fd_A = fds;
          term_num = term;
          prog_entry = entry;
          fd_total_open = opened;
        }))
filled-IsMade pcb t n k l m fds entry term opened v =
    let self : (pcb == pcb) ≡ true = ground arith in
    record {
      curr = v.curr;
      turn = v.turn;
      total = v.total;
      next = v.next;
      slots = v.slots;
      pages = v.pages;
      others = λ a ne. let e : (a == pcb) ≡ false = ground arith in rw e (v.others a ne);
      id = rw self v.id;
      parent = rw self v.parent;
      parent_id = rw self v.parent_id;
    }

pub pcb_init-IsMade :
    (fuel pcb args entry : ℕ) (k k' : Kernel)
    → (k.next_p_id k.term.curr_term ≢ 0
        → (k.curr_pcb_ptr ≡ top k.term.curr_term (k.next_p_id k.term.curr_term))
          × (k.curr_pcb_ptr ≢ 0))
    → pcb_init fuel pcb args entry k ≡ some k'
    → IsMade pcb k.term.curr_term (k.next_p_id k.term.curr_term) k k'
unfolding pcb_init
pcb_init-IsMade fuel pcb args entry k k' h run =
    let l = link_pcb pcb k in
    let t = k.term.curr_term in
    let n = k.next_p_id t in
    let (m, copied, run1) =
      bind_some {A = Memory} (strcpy fuel (pcb + args_offset) args l.term.mem) _ k' run in
    let (r, read, run2) =
      bind_some {A = ℤ × Memory}
        (read_data fuel l.fs (load32 m (entry + 36)) 24 (pcb + prog_entry_offset) 4 m) _ k' run1 in
    subst (IsMade pcb t n k) (some_injective _ k' run2)
      (filled-IsMade pcb t n k l (r.1) _ _ _ _ (link_pcb-IsMade pcb k h))
