-- ===== src/Kernel/Schedule/Turns.antt =====
-- What a tick of the timer does: whose turn it is, and what the processor runs afterwards.
use linux_operating_system.Prelude.{
  ℕ, ◌+◌, ◌-◌, ◌*◌, ◌%◌, ◌≤◌, ◌<◌, ◌≡◌, refl, sym, ap, ◌∙◌, subst, ◌≢◌, inl, inr, Bool, true, false,
  ◌&&◌, ◌||◌, not, some, arith, ◌==◌, if◌then◌else◌, ==_iff, Bool-cases, pos, Memory, add32,
}
use linux_operating_system.Kernel.{Kernel, current, returns, Frame}
use linux_operating_system.Kernel.Process.{program_page, swap_pages}
use linux_operating_system.Kernel.Schedule.{
  with_pic, hand_over, resume, do_switch, unlock, schedule, next_turn, pit_handler,
}
use linux_operating_system.Pic.{send_eoi}
use linux_operating_system.Terminal.{Term, terminal_update_cursor}

-- The processor runs the program of the running terminal: its block is the current one and the one
-- that the terminal's slot holds, and its page and its kernel stack are in place.
pub record IsRunning (k : Kernel) : Type 0 where
  pub in_range : k.term.curr_term < 3
  pub turn : k.pit_counter < 3
  pub unlocked : k.switch_lock ≡ 0
  pub block : k.curr_pcb_ptr ≢ 0
  pub slot : k.active_progs k.term.curr_term ≡ k.curr_pcb_ptr
  pub page : k.page_directory 32 ≡ program_page k.term.curr_term (current k).p_id
  pub stack : k.tss_esp0 ≡ (current k).esp0

-- Whose turn it is when the timer ticks: the terminal that the counter names, if it has a program.
abbrev pub chosen : Kernel → ℕ
chosen k = if k.active_progs k.pit_counter == 0 then k.term.curr_term else k.pit_counter

-- A tick leaves the display, the flags, the lines' indexes and the cursors of the terminals alone.
pub record SameScreen (s s' : Term) : Type 0 where
  pub disp : s'.disp_term ≡ s.disp_term
  pub reads : s'.read_flag ≡ s.read_flag
  pub writes : s'.write_flag ≡ s.write_flag
  pub key : s'.char_from_kb ≡ s.char_from_kb
  pub lines : s'.curr_idx ≡ s.curr_idx
  pub xs : s'.term_x ≡ s.term_x
  pub ys : s'.term_y ≡ s.term_y

-- Whether a tick counts: no program's turn, that of the one that runs, or that of one that a tick has
-- suspended.
abbrev pub counts : Kernel → Bool
counts k =
    let slot = k.active_progs k.pit_counter in
    (slot == 0) || ((slot == k.curr_pcb_ptr) || (k.pcbs slot).saved_by_timer)

-- The slots stay as they are, and the counter moves on where the tick counts.
pub record Ticks (k k' : Kernel) : Type 0 where
  pub screen : SameScreen k.term k'.term
  pub running : IsRunning k'
  pub runs : k'.term.curr_term ≡ chosen k
  pub slots : (t : ℕ) → k'.active_progs t ≡ k.active_progs t
  pub counter : k'.pit_counter ≡ (if counts k then (k.pit_counter + 1) % 3 else k.pit_counter)

handed-SameScreen :
    (f : Frame) (dest : ℕ) (k : Kernel) → SameScreen k.term (resume (hand_over f dest k)).term
unfolding resume swap_pages terminal_update_cursor hand_over
handed-SameScreen f dest k = record {
  disp = refl;
  reads = refl;
  writes = refl;
  key = refl;
  lines = refl;
  xs = refl;
  ys = refl;
}

slots_kept :
    (f : Frame) (dest : ℕ) (k : Kernel)
    → k.active_progs k.term.curr_term ≡ k.curr_pcb_ptr
    → (t : ℕ) → (hand_over f dest k).active_progs t ≡ k.active_progs t
unfolding hand_over
slots_kept f dest k h t = ground (arith, h)

resume-IsRunning :
    (f : Frame) (q c : ℕ) (k : Kernel)
    → q < 3
    → c < 3
    → k.active_progs k.term.curr_term ≡ k.curr_pcb_ptr
    → k.active_progs q ≢ 0
    → IsRunning (record (resume (hand_over f q k)) { switch_lock = 0; pit_counter = c })
unfolding resume swap_pages terminal_update_cursor hand_over
resume-IsRunning f q c k lt turn h active = record {
  in_range = lt;
  turn = turn;
  unlocked = refl;
  block = λ z. active (ground (arith, h));
  slot = refl;
  page = refl;
  stack = refl;
}

resume-frame :
    (k : Kernel)
    → ((resume k).term.curr_term ≡ k.term.curr_term)
      × ((resume k).active_progs ≡ k.active_progs)
      × ((resume k).pit_counter ≡ k.pit_counter)
unfolding resume swap_pages terminal_update_cursor
resume-frame k = (refl, refl, refl)

counted_if :
    (b : Bool) (r : Kernel)
    → record r {
      switch_lock = 0;
      pit_counter = if b then add32 r.pit_counter 1 % 3 else r.pit_counter;
    }
      ≡ (if b
          then record r { switch_lock = 0; pit_counter = add32 r.pit_counter 1 % 3 }
          else record r { switch_lock = 0 })
counted_if true r = refl
counted_if false r = refl

-- The mark of the program that a change of stacks leads to.
resume-mark :
    (f : Frame) (q : ℕ) (k : Kernel)
    → k.active_progs k.term.curr_term ≡ k.curr_pcb_ptr
    → (current (resume (hand_over (record f { in_timer = true }) q k))).saved_by_timer
      ≡ ((k.active_progs q == k.curr_pcb_ptr) || (k.pcbs (k.active_progs q)).saved_by_timer)
unfolding resume swap_pages terminal_update_cursor hand_over
resume-mark f q k h = ground (arith, h)

-- On a kernel that runs a program, with its block, page and stack in place and the scheduler's
-- lock free, a tick of the timer comes back whatever the fuel. The terminal that the counter
-- names runs afterwards if it has a program, the one that ran before if not; its block, its
-- program's page and its kernel stack are in place; no terminal loses its program; and the
-- display, the flags, the lines' indexes and the cursors are as before. The counter is the next of the three, except
-- where the terminal that it names was suspended by switch_terminals, since when it has not run:
-- there it stays.
pub pit_handler-Ticks :
    (fuel : ℕ) (f : Frame) (k : Kernel)
    → IsRunning k
    → (k' : Kernel) × (pit_handler fuel f k ≡ some (returns (pos 0), k')) × Ticks k k'
unfolding pit_handler schedule do_switch unlock next_turn
pit_handler-Ticks fuel f k v =
    let q = k.pit_counter in
    let base = with_pic k (send_eoi 0 k.rtc.pic) in
    let free : (k.switch_lock == 0) ≡ true = ground (arith, v.unlocked) in
    elim (Bool-cases (k.active_progs q == 0)) [
      | inl e ↦ (
        record base { pit_counter = add32 q 1 % 3 },
        rw e refl,
        record {
          screen = record {
            disp = refl;
            reads = refl;
            writes = refl;
            key = refl;
            lines = refl;
            xs = refl;
            ys = refl;
          };
          running = record {
            in_range = v.in_range;
            turn = ground arith;
            unlocked = v.unlocked;
            block = v.block;
            slot = v.slot;
            page = v.page;
            stack = v.stack;
          };
          runs = rw e refl;
          slots = λ t. refl;
          counter = rw e (ground (arith, v.turn));
        },
      )
      | inr e ↦
          let timed = record f { in_timer = true } in
          let locked = record base { switch_lock = 1 } in
          let h = hand_over timed q locked in
          let kept = slots_kept timed q locked v.slot in
          let there : (h.active_progs q == 0) ≡ false = rw (kept q) e in
          let r = resume h in
          let (curr, slots, count) = resume-frame h in
          let mark = resume-mark f q locked v.slot in
          let m = (current r).saved_by_timer in
          let c = if m then add32 r.pit_counter 1 % 3 else r.pit_counter in
          let counted : c ≡ (if m then (q + 1) % 3 else q) = rw count (ground (arith, v.turn)) in
          let w = handed-SameScreen timed q locked in
          (
            record r { switch_lock = 0; pit_counter = c },
            rw (e, free, there)
                (ap (λ (x : Kernel). some (returns (pos 0), x)) (sym (counted_if m r))),
            record {
              screen = record {
                disp = w.disp;
                reads = w.reads;
                writes = w.writes;
                key = w.key;
                lines = w.lines;
                xs = w.xs;
                ys = w.ys;
              };
              running =
                  resume-IsRunning timed q c locked v.turn
                    (let l = v.turn in rw counted (ground arith)) v.slot (ground arith);
              runs = rw e curr;
              slots = λ t. ap (λ (g : Memory). g t) slots ∙ kept t;
              counter = counted ∙ rw e (ap (λ (b : Bool). if b then (q + 1) % 3 else q) mark);
            },
          )
    ]

-- The most ticks until terminal `t` has run: where the counter stands still, the terminal that it names
-- runs and is suspended by the next tick, which counts.
abbrev pub most_ticks : Kernel → ℕ → ℕ
most_ticks k t = 2 * ((t + 3 - k.pit_counter) % 3) + 1

abbrev pub turns_left : Kernel → ℕ → ℕ
turns_left k t =
    most_ticks k t
    - (if (k.active_progs k.pit_counter == k.curr_pcb_ptr) && not (k.pit_counter == t)
        then 1
        else 0)

-- A tick that is not the last one brings the terminal's turn nearer.
pub nearer :
    (k k' : Kernel) (t : ℕ)
    → IsRunning k
    → Ticks k k'
    → t < 3
    → k.pit_counter ≢ t
    → k.active_progs k.pit_counter ≢ 0
    → turns_left k' t + 1 ≤ turns_left k t
nearer k k' t v w lt ne there = elim (Bool-cases (counts k)) [
  | inl e ↦
      let c : k'.pit_counter ≡ (k.pit_counter + 1) % 3 = (rw e at w.counter) in
      let l = v.turn in
      let less : most_ticks k' t + 2 ≤ most_ticks k t = rw c (omega arith) in ground arith
  | inr e ↦
      let c : k'.pit_counter ≡ k.pit_counter = (rw e at w.counter) in
      let none_there : (k.active_progs k.pit_counter == 0) ≡ false = ground arith in
      let runs : k'.term.curr_term ≡ k.pit_counter = (rw none_there at w.runs) in
      let idle : (k.active_progs k.pit_counter == k.curr_pcb_ptr) ≡ false = ground arith in
      let own : (k'.active_progs k.pit_counter == k'.curr_pcb_ptr) ≡ true =
        (==_iff (k'.active_progs k.pit_counter) k'.curr_pcb_ptr).1
          (subst (λ q. k'.active_progs q ≡ k'.curr_pcb_ptr) runs w.running.slot) in
      let other : (k.pit_counter == t) ≡ false = ground arith in
      rw (c, own, idle, other) (omega arith)
]

pub turns_left-positive : (k : Kernel) (t : ℕ) → IsRunning k → t < 3 → 1 ≤ turns_left k t
turns_left-positive k t v h = let l = v.turn in ground arith

pub turns_left-small : (k : Kernel) (t : ℕ) → turns_left k t ≤ 5
turns_left-small k t = ground arith
