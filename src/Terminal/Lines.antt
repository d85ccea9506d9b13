-- ===== src/Terminal/Lines.antt =====
-- Enter: the line that was typed becomes the entered line of the terminal.
use linux_operating_system.Prelude.{
  ℕ, zero, suc, ◌+◌, ◌≤◌, ◌<◌, ◌≡◌, refl, sym, ap, ◌∙◌, subst, inl, inr, true, false, ◌&&◌, some,
  List, [], ◌∷◌, arith, ltb, leb, ◌==◌, if◌then◌else◌, Bool-cases, length, Memory, store,
}
use linux_operating_system.Terminal.{Term, input_at, terminal_update_cursor}
use linux_operating_system.Terminal.Chars.{
  enter_line, enter_input, next_row, end_line, raise_enter, new_line_char,
}
use linux_operating_system.Terminal.Putc.{put_with, terminal_putc}
use linux_operating_system.Terminal.Bitmap.{terminal_putc_routes}
use linux_operating_system.Terminal.Touches.{Keeps, wrap_disp-Keeps}
use linux_operating_system.Terminal.Editing.{Holds, IsReading}
use linux_operating_system.Terminal.Typing.{reading_flags, mark-IsReading}

-- What the loop of new_line_char leaves behind the columns that are done.
enter_line_done :
    (left t idx : ℕ) (b : Memory) (i line j : ℕ)
    → i + left ≤ 128
    → j < i
    → line < 2
    → enter_line left t idx b i (input_at t line j) ≡ b (input_at t line j)
unfolding enter_line
enter_line_done zero t idx b i line j h lt l = refl
enter_line_done (suc left) t idx b i line j h lt l =
    enter_line_done left t idx _ (i + 1) line j (omega arith) (omega arith) l ∙ ground arith

-- And in the columns from `i` on.
enter_line_lem :
    (left t idx : ℕ) (b : Memory) (i j : ℕ)
    → i + left ≤ 128
    → i ≤ j
    → j < i + left
    → (enter_line left t idx b i (input_at t 0 j) ≡ 0)
      × (enter_line left t idx b i (input_at t 1 j) ≡ (if leb j idx then b (input_at t 0 j) else 0))
unfolding enter_line
enter_line_lem zero t idx b i j h lo hi = absurd (omega arith)
enter_line_lem (suc left) t idx b i j h lo hi = elim (Bool-cases (j == i)) [
  | inl e ↦
      let same : j ≡ i = ground arith in
      (
        enter_line_done left t idx _ (i + 1) 0 j (omega arith) (omega arith) (omega arith)
            ∙ ground arith,
        enter_line_done left t idx _ (i + 1) 1 j (omega arith) (omega arith) (omega arith)
            ∙ rw same (ground arith),
      )
  | inr e ↦
      let ih = enter_line_lem left t idx _ (i + 1) j (omega arith) (ground arith) (omega arith) in
      (ih.0, ih.1 ∙ ground arith)
]

-- Terminal `t`, which runs and is on the screen, has been given a line: the entered line is `line`,
-- with a line feed behind it and then NULs, and the current one is empty.
pub record HasLine (t : ℕ) (line : List ℕ) (s : Term) : Type 0 where
  pub running : s.curr_term ≡ t
  pub displayed : s.disp_term ≡ t
  pub entered : s.enter_flag t ≡ 1
  pub short : length line ≤ 127
  pub holds : Holds s.input_buffer (input_at t 1 0) (b'\n' ∷ line)
  pub after : (i : ℕ) → length line < i → i < 128 → s.input_buffer (input_at t 1 i) ≡ 0
  pub empty : (i : ℕ) → i < 128 → s.input_buffer (input_at t 0 i) ≡ 0

-- Both lines of memory hold the same line.
Holds-moved :
    (m m' : Memory) (a a' : ℕ) (line : List ℕ)
    → ((i : ℕ) → i < length line → m' (a' + i) ≡ m (a + i))
    → Holds m a line
    → Holds m' a' line
unfolding Holds
Holds-moved m m' a a' [] e h = tt
Holds-moved m m' a a' (c ∷ line) e (x, z, h) =
    (e (length line) (omega arith) ∙ x, z, Holds-moved m m' a a' line (λ i p. e i (omega arith)) h)

module _ (t : ℕ) (line : List ℕ) (s : Term) (r : IsReading t line s) where
  -- The cells of the two lines behind Enter.
  cells :
      (j : ℕ)
      → j < 128
      → ((enter_input t s).input_buffer (input_at t 0 j) ≡ 0)
        × ((enter_input t s).input_buffer (input_at t 1 j) ≡ (
            if j == length line
            then b'\n'
            else if ltb j (length line)
            then s.input_buffer (input_at t 0 j)
            else 0))
  unfolding enter_input
  cells j h =
      let e =
        enter_line_lem 128 t (s.curr_idx t)
          (store s.input_buffer (input_at t 0 (s.curr_idx t)) b'\n') 0 j (omega arith) (omega arith)
          h in
      (e.0, e.1 ∙ ground (arith, r.index))

  enter_input-Holds : Holds (enter_input t s).input_buffer (input_at t 1 0) (b'\n' ∷ line)
  unfolding Holds
  enter_input-Holds =
      let short = r.short in
      let e = (cells (length line) (omega arith)).1 in
      (
        ap (enter_input t s).input_buffer (omega arith) ∙ e ∙ ground arith,
        (λ z. absurd (omega arith)),
        Holds-moved s.input_buffer (enter_input t s).input_buffer (input_at t 0 0) (input_at t 1 0)
            line
            (λ i p.
              let there : input_at t 0 i ≡ input_at t 0 0 + i = omega arith in
              let other : (i == length line) ≡ false = ground arith in
              let before : ltb i (length line) ≡ true = ground arith in
              ap (enter_input t s).input_buffer (omega arith)
              ∙ (cells i (omega arith)).1
              ∙ rw (other, before) (ap s.input_buffer there))
            r.holds,
      )

  -- The state behind the end of the line, from one that keeps the input.
  entered-HasLine :
      (s' : Term)
      → Keeps (next_row t (enter_input t s)) s'
      → HasLine t line
          (raise_enter (terminal_update_cursor (record s' { curr_idx = store s'.curr_idx t 0 })))
  unfolding raise_enter terminal_update_cursor next_row
  entered-HasLine s' (k0, k1, k2, k3, k4, k5) =
      let disp : s'.disp_term ≡ t = unfold enter_input in k1 ∙ r.displayed in
      let reads : (s'.read_flag s'.disp_term == 0) ≡ false =
        unfold enter_input in rw (disp, k2) (ground (arith, r.reads)) in
      rw (reads, raise_enter)
        (record {
          running = unfold enter_input in k0 ∙ r.running;
          displayed = disp;
          entered = rw disp (ground arith);
          short = r.short;
          holds = rw k5 enter_input-Holds;
          after =
              λ i lo hi. ap (λ (f : Memory). f (input_at t 1 i)) k5 ∙ (cells i hi).1 ∙ ground arith;
          empty = λ i hi. ap (λ (f : Memory). f (input_at t 0 i)) k5 ∙ (cells i hi).0;
        })

enter-HasLine_disp :
    (line : List ℕ) (s : Term)
    → IsReading s.disp_term line s
    → HasLine s.disp_term line (new_line_char 1 s)
unfolding new_line_char end_line
enter-HasLine_disp line s r =
    let d = s.disp_term in
    entered-HasLine d line s r _ (wrap_disp-Keeps d (next_row d (enter_input d s)))

-- Enter, pressed while terminal `t` reads.
pub enter-HasLine :
    (t : ℕ) (line : List ℕ) (s : Term)
    → IsReading t line s
    → (s' : Term) × (terminal_putc b'\n' (record s { char_from_kb = 1 }) ≡ some s')
      × HasLine t line s'
unfolding put_with
enter-HasLine t line s r =
    let k = record s { char_from_kb = 1 } in
    let (s1, run, routes) = terminal_putc_routes b'\n' k (reading_flags t line s r) in
    let reads : ((s.read_flag s.curr_term == 0) && (s.write_flag s.curr_term == 0)) ≡ false =
      rw r.running (ground (arith, r.reads)) in
    let e : s1 ≡ new_line_char 1 k = routes.0 (r.running ∙ sym r.displayed) ∙ rw reads refl in
    let marked : IsReading k.disp_term line k =
      subst (λ u. IsReading u line k) (sym r.displayed) (mark-IsReading t 1 line s r) in
    let q : HasLine t line s1 = subst (HasLine t line) (sym e) (
      subst (λ u. HasLine u line (new_line_char 1 k)) r.displayed
        (enter-HasLine_disp line k marked)) in
    (
      record s1 { char_from_kb = 0 },
      run,
      record {
        running = q.running;
        displayed = q.displayed;
        entered = q.entered;
        short = q.short;
        holds = q.holds;
        after = q.after;
        empty = q.empty;
      },
    )
