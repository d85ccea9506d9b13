-- ===== src/Terminal/Waiting.antt =====
-- terminal_read begins with an empty line and waits until Enter has been pressed.
use linux_operating_system.Prelude.{
  ℕ, zero, suc, ◌+◌, ◌≤◌, ◌<◌, ◌≡◌, refl, ◌∙◌, inl, inr, true, false, ◌&&◌, not, some, List, [],
  ◌∷◌, ◌++◌, arith, ◌==◌, Bool-cases, Memory,
}
use linux_operating_system.Terminal.{Term, input_at}
use linux_operating_system.Terminal.Putc.{terminal_putc}
use linux_operating_system.Terminal.Calls.{
  reset_lines, terminal_reset_buffer, read_begin, read_wait,
}
use linux_operating_system.Terminal.Editing.{edit, edit_all, fits, Holds, IsReading}
use linux_operating_system.Terminal.Typing.{key-IsReading}
use linux_operating_system.Terminal.Lines.{HasLine, enter-HasLine}

-- The wait

read_wait-done :
    (t : ℕ) (line keys : List ℕ) (s : Term) → HasLine t line s → read_wait keys s ≡ some s
unfolding read_wait
read_wait-done t line keys s q = go keys
  where
    over : (not (s.enter_flag s.curr_term == 0) && (s.disp_term == s.curr_term)) ≡ true
    over = rw (q.running, q.displayed) (ground (arith, q.entered))

    go : (keys : List ℕ) → read_wait keys s ≡ some s
    go [] = rw over refl
    go (c ∷ keys) = rw (over, read_wait) refl

read_wait-key :
    (t c : ℕ) (line keys : List ℕ) (s s' : Term)
    → IsReading t line s
    → terminal_putc c (record s { char_from_kb = 1 }) ≡ some s'
    → read_wait (c ∷ keys) s ≡ read_wait keys s'
unfolding read_wait
read_wait-key t c line keys s s' r run =
    let waits : (not (s.enter_flag s.curr_term == 0) && (s.disp_term == s.curr_term)) ≡ false =
      rw (r.running, r.displayed) (ground (arith, r.waits)) in
    rw (waits, read_wait, run) refl

-- Keys that fit, Enter, and whatever is typed behind it.
pub read_wait-HasLine :
    (t : ℕ) (keys rest line : List ℕ) (s : Term)
    → IsReading t line s
    → fits line keys ≡ true
    → (s' : Term) × (read_wait (keys ++ (b'\n' ∷ rest)) s ≡ some s')
      × HasLine t (edit_all line keys) s'
unfolding edit_all
read_wait-HasLine t [] rest line s r h =
    let (s1, run, q) = enter-HasLine t line s r in
    (s1, read_wait-key t b'\n' line rest s s1 r run ∙ read_wait-done t line rest s1 q, q)
read_wait-HasLine t (c ∷ keys) rest line s r h =
    let (first, others) = fits_cons c keys line h in
    let (s1, run, r1) = key-IsReading t c line s r first in
    let (s2, run2, q) = read_wait-HasLine t keys rest (edit line c) s1 r1 others in
    (s2, read_wait-key t c line (keys ++ (b'\n' ∷ rest)) s s1 r run ∙ run2, q)
  where
    fits_cons :
        (c : ℕ) (keys line : List ℕ)
        → fits line (c ∷ keys) ≡ true
        → (fits line (c ∷ []) ≡ true) × (fits (edit line c) keys ≡ true)
    fits_cons c keys line h = unfold fits in (ground arith, ground arith)

-- The start

reset_lines_done :
    (left t : ℕ) (b : Memory) (i j : ℕ)
    → i + left ≤ 128
    → j < i
    → reset_lines left t b i (input_at t 0 j) ≡ b (input_at t 0 j)
unfolding reset_lines
reset_lines_done zero t b i j h lt = refl
reset_lines_done (suc left) t b i j h lt =
    reset_lines_done left t _ (i + 1) j (omega arith) (omega arith) ∙ ground arith

reset_lines_lem :
    (left t : ℕ) (b : Memory) (i j : ℕ)
    → i + left ≤ 128
    → i ≤ j
    → j < i + left
    → reset_lines left t b i (input_at t 0 j) ≡ 0
unfolding reset_lines
reset_lines_lem zero t b i j h lo hi = absurd (omega arith)
reset_lines_lem (suc left) t b i j h lo hi = elim (Bool-cases (j == i)) [
  | inl e ↦
      let same : j ≡ i = ground arith in
      reset_lines_done left t _ (i + 1) j (omega arith) (omega arith) ∙ rw same (ground arith)
  | inr e ↦ reset_lines_lem left t _ (i + 1) j (omega arith) (ground arith) (omega arith)
]

pub read_begin-IsReading :
    (t : ℕ) (s : Term) → s.curr_term ≡ t → s.disp_term ≡ t → IsReading t [] (read_begin s)
unfolding read_begin terminal_reset_buffer Holds
read_begin-IsReading t s c d = record {
  running = c;
  displayed = d;
  reads = rw c (ground arith);
  writes = rw c (ground arith);
  waits = rw c (ground arith);
  index = rw c (ground arith);
  short = omega arith;
  holds = tt;
  blank = λ i lo hi.
      rw c (reset_lines_lem 128 t s.input_buffer 0 i (omega arith) (omega arith) (omega arith));
}
