-- ===== src/Terminal/Touches.antt =====
-- What one character changes besides the screen: the input lines and the index of one terminal.
use linux_operating_system.Prelude.{
  ℕ, zero, suc, ◌+◌, ◌*◌, ◌≤◌, ◌<◌, ◌≡◌, refl, ap, ◌∙◌, ◌≢◌, ◌⊎◌, inl, inr, arith, leb, ◌==◌,
  Bool-cases, Memory, store,
}
use linux_operating_system.Terminal.{
  Term, video, num_rows, terminal_scroll_down_curr, terminal_scroll_down_disp,
  terminal_update_cursor,
}
use linux_operating_system.Terminal.Chars.{
  step_coords, wrap_row, append_input, draw, show_char, hide_char, enter_line, enter_input,
  next_row, end_line, raise_enter, new_line_char,
}

-- Outside the two lines of terminal `t` the input arrays agree.
abbrev pub SameElsewhere : ℕ → Memory → Memory → Type 0
SameElsewhere t a b = (x : ℕ) → (x < t * 256) ⊎ (t * 256 + 256 ≤ x) → b x ≡ a x

-- What a character does to the state besides the screen: the index of terminal `t` grows by one at
-- most, and only its input lines change.
pub record Touches (t : ℕ) (s s' : Term) : Type 0 where
  pub curr : s'.curr_term ≡ s.curr_term
  pub disp : s'.disp_term ≡ s.disp_term
  pub reads : s'.read_flag ≡ s.read_flag
  pub writes : s'.write_flag ≡ s.write_flag
  pub index : s'.curr_idx t ≤ s.curr_idx t + 1
  pub others : (u : ℕ) → u ≢ t → s'.curr_idx u ≡ s.curr_idx u
  pub input : SameElsewhere t s.input_buffer s'.input_buffer

-- Drawing, stepping and wrapping leave all of that alone.
abbrev pub Keeps : Term → Term → Type 0
Keeps s s' =
    (s'.curr_term ≡ s.curr_term)
    × (s'.disp_term ≡ s.disp_term)
    × (s'.read_flag ≡ s.read_flag)
    × (s'.write_flag ≡ s.write_flag)
    × (s'.curr_idx ≡ s.curr_idx)
    × (s'.input_buffer ≡ s.input_buffer)

pub wrap_disp-Keeps : (t : ℕ) (s : Term) → Keeps s (wrap_row t terminal_scroll_down_disp s)
unfolding wrap_row terminal_scroll_down_disp
wrap_disp-Keeps t s = elim (Bool-cases (leb num_rows (s.term_y t))) [
  | inl e ↦ rw e (refl, refl, refl, refl, refl, refl)
  | inr e ↦ rw e (refl, refl, refl, refl, refl, refl)
]

wrap_curr-Keeps : (t : ℕ) (s : Term) → Keeps s (wrap_row t terminal_scroll_down_curr s)
unfolding wrap_row terminal_scroll_down_curr
wrap_curr-Keeps t s = elim (Bool-cases (leb num_rows (s.term_y t))) [
  | inl e ↦ rw e (refl, refl, refl, refl, refl, refl)
  | inr e ↦ rw e (refl, refl, refl, refl, refl, refl)
]

append-Touches :
    (t c : ℕ) (s s' : Term) → Keeps s s' → s.curr_idx t < 128 → Touches t s (append_input t c s')
unfolding append_input
append-Touches t c s s' (k0, k1, k2, k3, k4, k5) h = record {
  curr = k0;
  disp = k1;
  reads = k2;
  writes = k3;
  index = let e = ap (λ (f : Memory). f t) k4 in ground arith;
  others = λ u q. let e = ap (λ (f : Memory). f u) k4 in ground arith;
  input = λ x q.
      let e = ap (λ (f : Memory). f t) k4 in let g = ap (λ (f : Memory). f x) k5 in ground arith;
}

pub show_char-Touches :
    (c : ℕ) (s : Term) → s.curr_idx s.disp_term < 128 → Touches s.disp_term s (show_char c s)
unfolding show_char terminal_update_cursor
show_char-Touches c s h =
    let d = s.disp_term in
    let stepped = step_coords d (draw (s.video_buffer d) d c (draw video d c s)) in
    let k = wrap_disp-Keeps d stepped in
    append-Touches d c s (terminal_update_cursor (wrap_row d terminal_scroll_down_disp stepped))
      (unfold step_coords draw in k) h

pub hide_char-Touches :
    (c : ℕ) (s : Term) → s.curr_idx s.curr_term < 128 → Touches s.curr_term s (hide_char c s)
unfolding hide_char
hide_char-Touches c s h =
    let t = s.curr_term in
    let stepped = step_coords t (draw (s.video_buffer t) t c s) in
    let k = wrap_curr-Keeps t stepped in
    append-Touches t c s (wrap_row t terminal_scroll_down_curr stepped)
      (unfold step_coords draw in k) h

-- The loop of new_line_char stays within the two lines.
enter_line_frame :
    (left t idx : ℕ) (b : Memory) (i : ℕ)
    → i + left ≤ 128
    → SameElsewhere t b (enter_line left t idx b i)
unfolding enter_line
enter_line_frame zero t idx b i h x q = refl
enter_line_frame (suc left) t idx b i h x q =
    enter_line_frame left t idx _ (i + 1) (omega arith) x q ∙ ground arith

enter_input_frame :
    (t : ℕ) (s : Term)
    → s.curr_idx t < 128
    → SameElsewhere t s.input_buffer (enter_input t s).input_buffer
unfolding enter_input
enter_input_frame t s h x q =
    enter_line_frame 128 t (s.curr_idx t) _ 0 (omega arith) x q ∙ ground arith

end-Touches :
    (t : ℕ) (s s' : Term)
    → Keeps (next_row t (enter_input t s)) s'
    → s.curr_idx t < 128
    → Touches t s (record s' { curr_idx = store s'.curr_idx t 0 })
unfolding next_row
end-Touches t s s' (k0, k1, k2, k3, k4, k5) h = record {
  curr = unfold enter_input in k0;
  disp = unfold enter_input in k1;
  reads = unfold enter_input in k2;
  writes = unfold enter_input in k3;
  index = ground arith;
  others = λ u q. let e = ap (λ (f : Memory). f u) k4 in unfold enter_input in ground arith;
  input = λ x q. ap (λ (f : Memory). f x) k5 ∙ enter_input_frame t s h x q;
}

raise-Touches : (t : ℕ) (s s' : Term) → Touches t s s' → Touches t s (raise_enter s')
unfolding raise_enter
raise-Touches t s s' v = elim (Bool-cases (s'.read_flag s'.disp_term == 0)) [
  | inl e ↦ rw (e, raise_enter) v
  | inr e ↦
      rw (e, raise_enter)
        (record {
          curr = v.curr;
          disp = v.disp;
          reads = v.reads;
          writes = v.writes;
          index = v.index;
          others = v.others;
          input = v.input;
        })
]

cursor-Touches : (t : ℕ) (s s' : Term) → Touches t s s' → Touches t s (terminal_update_cursor s')
unfolding terminal_update_cursor
cursor-Touches t s s' v = record {
  curr = v.curr;
  disp = v.disp;
  reads = v.reads;
  writes = v.writes;
  index = v.index;
  others = v.others;
  input = v.input;
}

pub new_line-Touches_disp :
    (s : Term) → s.curr_idx s.disp_term < 128 → Touches s.disp_term s (new_line_char 1 s)
unfolding new_line_char end_line
new_line-Touches_disp s h =
    let d = s.disp_term in
    raise-Touches d s _ (
      cursor-Touches d s _ (end-Touches d s _ (wrap_disp-Keeps d (next_row d (enter_input d s))) h))

pub new_line-Touches_curr :
    (s : Term) → s.curr_idx s.curr_term < 128 → Touches s.curr_term s (new_line_char 2 s)
unfolding new_line_char end_line
new_line-Touches_curr s h =
    end-Touches s.curr_term s _
      (wrap_curr-Keeps s.curr_term (next_row s.curr_term (enter_input s.curr_term s))) h
