-- ===== src/Kernel/Exceptions/Reports.antt =====
-- Every exception squashes the program that caused it.
use linux_operating_system.Prelude.{
  ℕ, ◌≤◌, ◌<◌, ◌≡◌, refl, sym, ap, ◌∙◌, ◌≢◌, inl, inr, true, false, ◌&&◌, Option, none, some, List,
  arith, leb, ◌==◌, if◌then◌else◌, Bool-cases, length, get_elem?, pos, codes, is_table, table_entry,
  word, sub32,
}
use linux_operating_system.CLib.Console.Plain.{is_plain}
use linux_operating_system.Kernel.{Kernel, current, say, returns, Frame}
use linux_operating_system.Kernel.Programs.{finish_execute}
use linux_operating_system.Kernel.Exceptions.{
  squash_user_prog, IsSquashed, squash_user_prog-IsSquashed,
}
use linux_operating_system.Kernel.Exceptions.Handlers.{Fault, messages, report, exception}
use linux_operating_system.Kernel.Exceptions.Printed.{
  CanPrint, Printed, Printed-trans, say-Printed, line-Printed,
}

-- The values that exception_14 prints have 32 bits.
pub record IsFault (x : Fault) : Type 0 where
  pub page_fault_addr : x.page_fault_addr < word
  pub error_code : x.error_code < word
  pub eip : x.eip < word
  pub cs : x.cs < word
  pub eflags : x.eflags < word

report-Printed :
    (t : ℕ) (x : Fault) (k : Kernel)
    → CanPrint t k
    → IsFault x
    → (k' : Kernel) × (report x k ≡ some k') × Printed t k k'
unfolding report is_plain
report-Printed t x k c w =
    let (k1, r1, p1) =
      line-Printed t (codes "Address:") x.page_fault_addr k c refl (omega arith)
        w.page_fault_addr in
    let (k2, r2, p2) =
      line-Printed t (codes "Error code:") x.error_code k1 p1.again refl (omega arith)
        w.error_code in
    let (k3, r3, p3) = line-Printed t (codes "EIP:") x.eip k2 p2.again refl (omega arith) w.eip in
    let (k4, r4, p4) = line-Printed t (codes "CS:") x.cs k3 p3.again refl (omega arith) w.cs in
    let (k5, r5, p5) =
      line-Printed t (codes "EFLAGS:") x.eflags k4 p4.again refl (omega arith) w.eflags in
    (
      k5,
      rw (r1, r2, r3, r4, r5) refl,
      Printed-trans t k k4 k5
          (Printed-trans t k k3 k4 (Printed-trans t k k2 k3 (Printed-trans t k k1 k2 p1 p2) p3) p4)
          p5,
    )

messages_table :
    is_table 20 (λ n. elim (get_elem? messages n) [
      | none ↦ false
      | some cs ↦ is_plain cs && leb (length cs) 64
    ])
    ≡ true
unfolding is_table is_plain
messages_table = refl

message_of :
    (n : ℕ)
    → n < 20
    → (cs : List ℕ) × (get_elem? messages n ≡ some cs) × (is_plain cs ≡ true) × (length cs ≤ 64)
message_of n h = go (get_elem? messages n) (table_entry 20 _ n messages_table h)
  where
    go :
        (o : Option (List ℕ))
        → (elim o [ none ↦ false | some cs ↦ is_plain cs && leb (length cs) 64 ]) ≡ true
        → (cs : List ℕ) × (o ≡ some cs) × (is_plain cs ≡ true) × (length cs ≤ 64)
    go none e = absurd (ground arith)
    go (some cs) e = (cs, refl, ground arith, ground arith)

-- Printing does not change whom the squashed program belongs to.
IsSquashed-Printed :
    (t : ℕ) (k k1 k' : Kernel)
    → k.term.curr_term ≡ t
    → Printed t k k1
    → IsSquashed k1 k'
    → IsSquashed k k'
IsSquashed-Printed t k k1 k' e p q =
    let (s, same) = p.terminals in
    let back : k1.term.curr_term ≡ k.term.curr_term = p.again.ready.running ∙ sym e in
    record {
      block = q.block ∙ ap (λ u. (current u).parent) same;
      slot = ap k'.active_progs (sym back) ∙ q.slot ∙ ap (λ u. (current u).parent) same;
      total = q.total ∙ ap (λ u. sub32 u.total_progs 1) same;
      next =
          ap k'.next_p_id (sym back)
          ∙ q.next
          ∙ ap (λ u. sub32 (u.next_p_id k1.term.curr_term) 1) same
          ∙ ap (λ c. sub32 (k.next_p_id c) 1) back;
      childless = q.childless;
      stack = q.stack;
      result = q.result;
      cleared = ap (finish_execute k').1.halt_retval (sym back) ∙ q.cleared;
    }

-- Every one of the 20 exceptions, raised while the running terminal is ready with at most 63 characters
-- on its line, by a program that has a parent: the terminal_printf of its message, and for a page fault of
-- the five 32-bit values, returns; the handler goes on to squash the program in the state that they leave,
-- comes back without starting a shell, and leaves the parent running: its block is
-- the current one, the counts of processes are down by one, it has no child any more, its kernel stack is
-- in place, and its execute_func returns 256 and clears the result.
pub exception-IsSquashed :
    (n t : ℕ) (x : Fault) (rounds fuel : ℕ) (f : Frame) (k : Kernel)
    → n < 20
    → 0 < rounds
    → IsFault x
    → CanPrint t k
    → (current k).parent ≢ 0
    → (cs : List ℕ) × (said : Kernel) × (reported : Kernel) × (k' : Kernel) × (get_elem? messages n
        ≡ some cs)
      × (say cs k ≡ some said)
      × ((if n == 14 then report x said else some said) ≡ some reported)
      × (squash_user_prog rounds fuel f reported ≡ some (returns (pos 0), k'))
      × (exception n x rounds fuel f k ≡ some (returns (pos 0), k'))
      × IsSquashed k k'
unfolding exception
exception-IsSquashed n t x rounds fuel f k h r w c q =
    let (cs, found, plain, le) = message_of n h in
    let (k1, run1, p1) = say-Printed t cs k c plain le in
    let (k2, run2, p2) = reported k1 p1 in
    let p = Printed-trans t k k1 k2 p1 p2 in
    let parent : (current k2).parent ≢ 0 = rw p.terminals.1 q in
    let (k3, run3, s) = squash_user_prog-IsSquashed rounds fuel f k2 r parent in
    (
      cs,
      k1,
      k2,
      k3,
      found,
      run1,
      run2,
      run3,
      rw (found, run1, run2) run3,
      IsSquashed-Printed t k k2 k3 c.ready.running p s,
    )
  where
    reported :
        (k1 : Kernel)
        → Printed t k k1
        → (k2 : Kernel) × ((if n == 14 then report x k1 else some k1) ≡ some k2) × Printed t k1 k2
    reported k1 p1 = elim (Bool-cases (n == 14)) [
      | inl e ↦ rw e (report-Printed t x k1 p1.again w)
      | inr e ↦ rw e (k1, refl, record { terminals = (k1.term, refl); again = p1.again })
    ]
