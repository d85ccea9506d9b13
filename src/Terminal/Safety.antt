-- ===== src/Terminal/Safety.antt =====
-- What terminal_write touches: the state and the input lines of the running terminal.
use linux_operating_system.Prelude.{
  ℕ, zero, suc, ◌+◌, ◌%◌, ◌≤◌, ◌<◌, ◌≡◌, refl, sym, ap, ◌∙◌, subst, ◌≢◌, inl, inr, false, none,
  some, arith, ◌==◌, Bool-cases, pos, Memory, store,
}
use linux_operating_system.Terminal.{Term}
use linux_operating_system.Terminal.Putc.{terminal_putc}
use linux_operating_system.Terminal.Bitmap.{HasFlags}
use linux_operating_system.Terminal.Touches.{SameElsewhere}
use linux_operating_system.Terminal.Calls.{
  reset_lines, terminal_reset_buffer, write_chars, terminal_write,
}
use linux_operating_system.Terminal.Writing.{IsWriting, putc-Touches}

reset_lines_frame :
    (left t : ℕ) (b : Memory) (i : ℕ) → i + left ≤ 128 → SameElsewhere t b (reset_lines left t b i)
unfolding reset_lines
reset_lines_frame zero t b i h x q = refl
reset_lines_frame (suc left) t b i h x q =
    reset_lines_frame left t _ (i + 1) (omega arith) x q ∙ ground arith

-- The state during terminal_write, against the one at its start.
pub record During (t : ℕ) (s0 s : Term) : Type 0 where
  pub writing : IsWriting t s
  pub disp : s.disp_term ≡ s0.disp_term
  pub line : s.curr_idx t < 128
  pub others : (u : ℕ) → u ≢ t → s.curr_idx u ≡ s0.curr_idx u
  pub input : SameElsewhere t s0.input_buffer s.input_buffer

pub reset-During : (t : ℕ) (s0 s : Term) → During t s0 s → During t s0 (terminal_reset_buffer s)
unfolding terminal_reset_buffer
reset-During t s0 s v = record {
  writing = record {
    flags = record {
      disp = v.writing.flags.disp;
      curr = v.writing.flags.curr;
      key = v.writing.flags.key;
    };
    running = v.writing.running;
    writes = v.writing.writes;
    no_key = v.writing.no_key;
  };
  disp = v.disp;
  line = ground (arith, v.writing.running, v.line);
  others = λ u q. ground (arith, v.writing.running, v.others u q);
  input = λ x q.
      reset_lines_frame 128 s.curr_term s.input_buffer 0 (omega arith) x
        (ground (arith, v.writing.running))
      ∙ v.input x q;
}

pub putc-During :
    (t c : ℕ) (s0 s : Term)
    → During t s0 s
    → s.curr_idx t < 127
    → (s' : Term) × (terminal_putc c s ≡ some s')
      × During t s0 s'
      × (s'.curr_idx t ≤ s.curr_idx t + 1)
putc-During t c s0 s v h =
    let (s', run, w, k) = putc-Touches t c s v.writing (omega arith) in
    (
      s',
      run,
      record {
        writing = record {
          flags = record {
            disp = rw (w.disp, w.reads, w.writes) v.writing.flags.disp;
            curr = rw (w.curr, w.reads, w.writes) v.writing.flags.curr;
            key = ground arith;
          };
          running = w.curr ∙ v.writing.running;
          writes = ap (λ (f : Memory). f t) w.writes ∙ v.writing.writes;
          no_key = k;
        };
        disp = w.disp ∙ v.disp;
        line = omega (arith, w.index);
        others = λ u q. w.others u q ∙ v.others u q;
        input = λ x q. w.input x q ∙ v.input x q;
      },
      w.index,
    )

write_chars-During :
    (left p t : ℕ) (s0 s : Term)
    → During t s0 s
    → (s' : Term) × (write_chars left p s ≡ some s') × During t s0 s'
unfolding write_chars
write_chars-During zero p t s0 s v = (s, refl, v)
write_chars-During (suc left) p t s0 s v =
    let step = λ (r : Term) (d : During t s0 r). write_chars-During left (p + 1) t s0 r d in
    elim (Bool-cases (s.curr_idx s.curr_term % 128 == 127)) [
      | inl e ↦
          let u = reset-During t s0 s v in
          let h : (terminal_reset_buffer s).curr_idx t < 127 =
            unfold terminal_reset_buffer in ground (arith, v.writing.running) in
          rw (e, write_chars) (go step (terminal_reset_buffer s) u h)
      | inr e ↦
          let h : s.curr_idx t < 127 =
            below (s.curr_idx s.curr_term) e (ap s.curr_idx v.writing.running) in
          rw (e, write_chars) (go step s v h)
    ]
  where
    below : (n : ℕ) → (n % 128 == 127) ≡ false → n ≡ s.curr_idx t → s.curr_idx t < 127
    below n e q = let l = v.line in ground arith

    go :
        ((r : Term)
          → During t s0 r
          → (s' : Term) × (write_chars left (p + 1) r ≡ some s') × During t s0 s')
        → (r : Term) → During t s0 r
        → r.curr_idx t < 127
        → (s' : Term) × ((elim (terminal_putc (r.mem p) r) [
          | none ↦ none
          | some q ↦ write_chars left (p + 1) q
        ])
            ≡ some s')
          × During t s0 s'
    go step r d h =
        let (s1, run, d1, le) = putc-During t (r.mem p) s0 r d h in
        let (s2, run2, d2) = step s1 d1 in (s2, rw run run2, d2)

-- A terminal that is not yet waiting for a line or writing one.
pub record IsReady (t : ℕ) (s : Term) : Type 0 where
  pub running : s.curr_term ≡ t
  pub no_key : s.char_from_kb ≡ 0
  pub flags :
      HasFlags (record s { write_flag = store s.write_flag t 1; read_flag = store s.read_flag t 0 })
  pub line : s.curr_idx t < 128

-- The state in which the loop of terminal_write starts.
abbrev pub started : Term → Term
started s = record s {
  write_flag = store s.write_flag s.curr_term 1;
  read_flag = store s.read_flag s.curr_term 0;
}

pub begin : (t : ℕ) (s : Term) → IsReady t s → During t (started s) (started s)
begin t s w = record {
  writing = record {
    flags =
        subst
          (λ k.
            HasFlags
              (record s { write_flag = store s.write_flag k 1; read_flag = store s.read_flag k 0 }))
          (sym w.running) w.flags;
    running = w.running;
    writes = ground (arith, w.running);
    no_key = w.no_key;
  };
  disp = refl;
  line = w.line;
  others = λ u q. refl;
  input = λ x q. refl;
}

-- terminal_write by the running terminal `t`, when it is ready and the buffer is not NULL, returns the
-- number of bytes, whatever their values. Afterwards the line of `t` is empty and its write flag down,
-- and neither the index of another terminal nor a byte outside the two lines of `t` has changed.
pub terminal_write-safe :
    (buf nbytes t : ℕ) (s : Term)
    → buf ≢ 0
    → IsReady t s
    → (s' : Term) × (terminal_write buf nbytes s ≡ some (pos nbytes, s'))
      × (s'.curr_idx t ≡ 0)
      × (s'.write_flag t ≡ 0)
      × ((u : ℕ) → u ≢ t → s'.curr_idx u ≡ s.curr_idx u)
      × SameElsewhere t s.input_buffer s'.input_buffer
unfolding terminal_write
terminal_write-safe buf nbytes t s b w =
    let start = started s in
    let (s1, run, d) = write_chars-During nbytes buf t start start (begin t s w) in
    let e : (buf == 0) ≡ false = ground arith in
    let r = reset-During t start s1 d in
    let u = terminal_reset_buffer s1 in
    (
      record u { write_flag = store u.write_flag u.curr_term 0 },
      rw (e, run) refl,
      unfold terminal_reset_buffer in ground (arith, d.writing.running),
      unfold terminal_reset_buffer in ground (arith, d.writing.running),
      r.others,
      r.input,
    )
