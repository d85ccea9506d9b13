-- ===== src/Terminal/Typing.antt =====
-- A key pressed while a terminal reads edits the line.
use linux_operating_system.Prelude.{
  ℕ, ◌≡◌, refl, sym, ◌∙◌, subst, inl, inr, true, false, ◌&&◌, ◌||◌, some, List, [], ◌∷◌, arith,
  ◌==◌, Bool-cases,
}
use linux_operating_system.Terminal.{Term}
use linux_operating_system.Terminal.Chars.{backspace_char, all_char}
use linux_operating_system.Terminal.Putc.{put_with, terminal_putc}
use linux_operating_system.Terminal.Bitmap.{HasFlags, terminal_putc_routes}
use linux_operating_system.Terminal.Editing.{
  edit, fits, IsReading, show_char-IsReading, backspace-IsReading,
}

pub mark-IsReading :
    (t v : ℕ) (line : List ℕ) (s : Term)
    → IsReading t line s
    → IsReading t line (record s { char_from_kb = v })
mark-IsReading t v line s r = record {
  running = r.running;
  displayed = r.displayed;
  reads = r.reads;
  writes = r.writes;
  waits = r.waits;
  index = r.index;
  short = r.short;
  holds = r.holds;
  blank = r.blank;
}

nothing_left : (t : ℕ) (s : Term) → IsReading t [] s → backspace_char s ≡ s
unfolding backspace_char
nothing_left t s q =
    let z : ((s.read_flag s.disp_term == 0) || (s.curr_idx s.disp_term == 0)) ≡ true =
      rw q.displayed (ground (arith, q.index)) in
    rw z refl

-- The character in the screen of the displayed terminal, for a key that fits.
put_with-IsReading :
    (t c : ℕ) (line : List ℕ) (s : Term)
    → IsReading t line s
    → s.char_from_kb ≡ 1
    → fits line (c ∷ []) ≡ true
    → IsReading t (edit line c) (put_with c 1 s)
unfolding put_with fits edit all_char
put_with-IsReading t c line s r key h =
    let ends : ((c == b'\n') || (c == 13)) ≡ false = ground arith in
    let reads : (s.read_flag s.disp_term == 0) ≡ false = rw r.displayed (ground (arith, r.reads)) in
    elim (Bool-cases (c == 8)) [
      | inl e ↦
          let marked : (s.char_from_kb == 1) ≡ true = ground arith in
          rw (ends, e, marked, reads) (erased line e r)
      | inr e ↦
          rw (ends, e)
            (rw (appended line e) (show_char-IsReading t c line s r (ground arith) (ground arith)))
    ]
  where
    appended : (l : List ℕ) → (c == 8) ≡ false → edit l c ≡ c ∷ l
    appended [] e = rw e refl
    appended (d ∷ l) e = rw e refl

    erased :
        (l : List ℕ) → (c == 8) ≡ true → IsReading t l s → IsReading t (edit l c) (backspace_char s)
    erased [] e q = rw (e, nothing_left t s q) q
    erased (d ∷ l) e q = rw e (backspace-IsReading t d l s q)

pub reading_flags :
    (t : ℕ) (line : List ℕ) (s : Term)
    → IsReading t line s
    → HasFlags (record s { char_from_kb = 1 })
reading_flags t line s r = record {
  disp = rw r.displayed (omega (arith, r.reads, r.writes));
  curr = rw r.running (omega (arith, r.reads, r.writes));
  key = omega arith;
}

-- A key that fits, pressed while the terminal reads.
pub key-IsReading :
    (t c : ℕ) (line : List ℕ) (s : Term)
    → IsReading t line s
    → fits line (c ∷ []) ≡ true
    → (s' : Term) × (terminal_putc c (record s { char_from_kb = 1 }) ≡ some s')
      × IsReading t (edit line c) s'
key-IsReading t c line s r h =
    let k = record s { char_from_kb = 1 } in
    let marked = mark-IsReading t 1 line s r in
    let (s1, run, routes) = terminal_putc_routes c k (reading_flags t line s r) in
    let reads : ((s.read_flag s.curr_term == 0) && (s.write_flag s.curr_term == 0)) ≡ false =
      rw r.running (ground (arith, r.reads)) in
    let e : s1 ≡ put_with c 1 k = routes.0 (r.running ∙ sym r.displayed) ∙ rw reads refl in
    (
      record s1 { char_from_kb = 0 },
      run,
      mark-IsReading t 0 (edit line c) s1
          (subst (IsReading t (edit line c)) (sym e) (put_with-IsReading t c line k marked refl h)),
    )
