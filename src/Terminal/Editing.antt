-- ===== src/Terminal/Editing.antt =====
-- The keys of a line: a character is appended, a backspace takes the last one away.
use linux_operating_system.Prelude.{
  ℕ, ◌+◌, ◌≤◌, ◌<◌, ◌≡◌, refl, sym, ap, ◌∙◌, subst, ◌≢◌, inl, inr, Bool, true, false, ◌&&◌, ◌||◌,
  not, List, [], ◌∷◌, arith, ltb, leb, ◌==◌, if◌then◌else◌, Bool-cases, length, Memory, store,
}
use linux_operating_system.Terminal.{
  Term, video, num_rows, input_at, terminal_scroll_down_disp, terminal_update_cursor,
}
use linux_operating_system.Terminal.Chars.{
  step_coords, wrap_row, append_input, draw, show_char, backspace_char,
}
use linux_operating_system.Terminal.Touches.{Keeps, wrap_disp-Keeps}

-- The line after one key; the last character comes first.
unfoldable pub edit : List ℕ → ℕ → List ℕ
edit [] c = if c == 8 then [] else c ∷ []
edit (d ∷ line) c = if c == 8 then line else c ∷ d ∷ line

unfoldable pub edit_all : List ℕ → List ℕ → List ℕ
unfolding edit
edit_all line [] = line
edit_all line (c ∷ keys) = edit_all (edit line c) keys

-- No key is NUL or ends the line, and the line never holds more than 127 characters.
unfoldable pub fits : List ℕ → List ℕ → Bool
unfolding edit
fits line [] = true
fits line (c ∷ keys) =
    let rest = fits (edit line c) keys in
    not (c == 0)
    && (not (c == 10) && (not (c == 13) && ((c == 8) || ltb (length line) 127)))
    && rest

-- The memory from `a` on holds the line, none of whose characters is NUL.
unfoldable pub Holds : Memory → ℕ → List ℕ → Type 0
Holds m a [] = Unit
Holds m a (c ∷ line) = (m (a + length line) ≡ c) × (c ≢ 0) × Holds m a line

-- While terminal `t`, which runs and is on the screen, reads a line.
pub record IsReading (t : ℕ) (line : List ℕ) (s : Term) : Type 0 where
  pub running : s.curr_term ≡ t
  pub displayed : s.disp_term ≡ t
  pub reads : s.read_flag t ≡ 1
  pub writes : s.write_flag t ≡ 0
  pub waits : s.enter_flag t ≡ 0
  pub index : s.curr_idx t ≡ length line
  pub short : length line ≤ 127
  pub holds : Holds s.input_buffer (input_at t 0 0) line
  pub blank : (i : ℕ) → length line ≤ i → i < 128 → s.input_buffer (input_at t 0 i) ≡ 0

-- A store behind the line does not change it.
Holds-store :
    (m : Memory) (a x v : ℕ) (line : List ℕ)
    → a + length line ≤ x
    → Holds m a line
    → Holds (store m x v) a line
unfolding Holds
Holds-store m a x v [] h q = q
Holds-store m a x v (c ∷ line) h (e, z, q) =
    (ground arith, z, Holds-store m a x v line (omega arith) q)

pub wrap_enter :
    (t : ℕ) (s : Term) → (wrap_row t terminal_scroll_down_disp s).enter_flag ≡ s.enter_flag
unfolding wrap_row terminal_scroll_down_disp
wrap_enter t s = elim (Bool-cases (leb num_rows (s.term_y t))) [
  | inl e ↦ rw e refl
  | inr e ↦ rw e refl
]

-- A key that is shown is appended.
append-IsReading :
    (t c : ℕ) (line : List ℕ) (s s' : Term)
    → Keeps s s'
    → s'.enter_flag ≡ s.enter_flag
    → IsReading t line s
    → c ≢ 0
    → length line < 127
    → IsReading t (c ∷ line) (append_input t c s')
unfolding append_input Holds
append-IsReading t c line s s' (k0, k1, k2, k3, k4, k5) k6 r q h =
    let at_end : s'.curr_idx t ≡ length line = ap (λ (f : Memory). f t) k4 ∙ r.index in
    let place : input_at t 0 (s'.curr_idx t) ≡ input_at t 0 0 + length line = omega arith in
    let buffer : Holds s'.input_buffer (input_at t 0 0) line = rw k5 r.holds in
    record {
      running = k0 ∙ r.running;
      displayed = k1 ∙ r.displayed;
      reads = ap (λ (f : Memory). f t) k2 ∙ r.reads;
      writes = ap (λ (f : Memory). f t) k3 ∙ r.writes;
      waits = ap (λ (f : Memory). f t) k6 ∙ r.waits;
      index = ground arith;
      short = omega arith;
      holds = (ground arith, q, Holds-store s'.input_buffer _ _ c line (omega arith) buffer);
      blank = λ i lo hi.
          let e = ap (λ (f : Memory). f (input_at t 0 i)) k5 in
          let b = r.blank i (omega arith) hi in ground arith;
    }

pub show_char-IsReading :
    (t c : ℕ) (line : List ℕ) (s : Term)
    → IsReading t line s
    → c ≢ 0
    → length line < 127
    → IsReading t (c ∷ line) (show_char c s)
unfolding show_char terminal_update_cursor
show_char-IsReading t c line s r q h =
    let d = s.disp_term in
    let stepped = step_coords d (draw (s.video_buffer d) d c (draw video d c s)) in
    let k = wrap_disp-Keeps d stepped in
    let w = wrap_enter d stepped in
    let here : IsReading d line s = subst (λ u. IsReading u line s) (sym r.displayed) r in
    subst (λ u. IsReading u (c ∷ line) (show_char c s)) r.displayed
      (append-IsReading d c line s
        (terminal_update_cursor (wrap_row d terminal_scroll_down_disp stepped))
        (unfold step_coords draw in k) (unfold step_coords draw in w) here q h)

pub backspace-IsReading :
    (t d : ℕ) (line : List ℕ) (s : Term)
    → IsReading t (d ∷ line) s
    → IsReading t line (backspace_char s)
unfolding backspace_char terminal_update_cursor Holds
backspace-IsReading t d line s r =
    let disp = r.displayed in
    let reads : (s.read_flag s.disp_term == 0) ≡ false = rw disp (ground (arith, r.reads)) in
    let some_left : (s.curr_idx s.disp_term == 0) ≡ false = rw disp (ground (arith, r.index)) in
    rw (reads, some_left, backspace_char)
      (record {
        running = r.running;
        displayed = r.displayed;
        reads = r.reads;
        writes = r.writes;
        waits = r.waits;
        index = rw disp (ground (arith, r.index));
        short = omega (arith, r.short);
        holds = rw disp (
            Holds-store s.input_buffer (input_at t 0 0) _ 0 line (omega (arith, r.index))
              (r.holds.2));
        blank = λ i lo hi. rw disp (ground (arith, r.index, r.blank i));
      })
