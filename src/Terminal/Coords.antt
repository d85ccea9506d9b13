-- ===== src/Terminal/Coords.antt =====
-- The cursor of every terminal stays on the screen.
use linux_operating_system.Prelude.{ℕ, ◌≤◌, ◌<◌, ◌≡◌, ◌≢◌, ◌⊎◌, inl, inr, arith, ◌==◌, Bool-cases}
use linux_operating_system.Terminal.{
  Term, update_coords_back, update_coords_forward, terminal_scroll_down_curr,
  terminal_scroll_down_disp, terminal_update_cursor,
}
use linux_operating_system.Terminal.Chars.{
  step_coords, wrap_row, append_input, draw, show_char, hide_char, all_char, enter_input, next_row,
  end_line, raise_enter, new_line_char, backspace_char,
}

-- The coordinates of terminal `u` name a cell.
pub record OnScreen (u : ℕ) (s : Term) : Type 0 where
  pub column : s.term_x u < 80
  pub row : s.term_y u < 25

-- From a column of the screen, and not from its first cell, a step back and then a step forward
-- come back to the same coordinates.
pub forward-back :
    (x y : ℕ)
    → x < 80
    → (x ≢ 0) ⊎ (y ≢ 0)
    → let (x', y') = update_coords_back x y in update_coords_forward x' y' ≡ (x, y)
unfolding update_coords_back update_coords_forward
forward-back x y h z = ground arith

abbrev Loose : ℕ → Term → Type 0
Loose u s = (s.term_x u < 80) × (s.term_y u ≤ 25)

step_coords-Loose :
    (u t : ℕ) (s : Term)
    → OnScreen u s
    → Loose u (step_coords t s) × ((u ≢ t) → OnScreen u (step_coords t s))
unfolding step_coords update_coords_forward
step_coords-Loose u t s v = ground arith

wrap_disp-OnScreen :
    (u t : ℕ) (s : Term)
    → Loose u s
    → ((u ≢ t) → OnScreen u s)
    → OnScreen u (wrap_row t terminal_scroll_down_disp s)
unfolding wrap_row terminal_scroll_down_disp
wrap_disp-OnScreen u t s l o = elim (Bool-cases (u == t)) [
  | inl e ↦ ground arith
  | inr e ↦ let v = o (ground arith) in ground arith
]

wrap_curr-OnScreen :
    (u t : ℕ) (s : Term)
    → Loose u s
    → ((u ≢ t) → OnScreen u s)
    → OnScreen u (wrap_row t terminal_scroll_down_curr s)
unfolding wrap_row terminal_scroll_down_curr
wrap_curr-OnScreen u t s l o = elim (Bool-cases (u == t)) [
  | inl e ↦ ground arith
  | inr e ↦ let v = o (ground arith) in ground arith
]

-- Nothing but the steps and the wrapping touches coordinates.
show_char-OnScreen : (u c : ℕ) (s : Term) → OnScreen u s → OnScreen u (show_char c s)
unfolding show_char append_input terminal_update_cursor
show_char-OnScreen u c s v =
    let d = s.disp_term in
    let drawn = draw (s.video_buffer d) d c (draw (0xB8000) d c s) in
    let v0 : OnScreen u drawn = (unfold draw in record { column = v.column; row = v.row }) in
    let (l, o) = step_coords-Loose u d drawn v0 in
    let v1 = wrap_disp-OnScreen u d (step_coords d drawn) l o in
    record { column = v1.column; row = v1.row }

hide_char-OnScreen : (u c : ℕ) (s : Term) → OnScreen u s → OnScreen u (hide_char c s)
unfolding hide_char append_input
hide_char-OnScreen u c s v =
    let t = s.curr_term in
    let drawn = draw (s.video_buffer t) t c s in
    let v0 : OnScreen u drawn = (unfold draw in record { column = v.column; row = v.row }) in
    let (l, o) = step_coords-Loose u t drawn v0 in
    let v1 = wrap_curr-OnScreen u t (step_coords t drawn) l o in
    record { column = v1.column; row = v1.row }

pub all_char-OnScreen : (u c f : ℕ) (s : Term) → OnScreen u s → OnScreen u (all_char c f s)
unfolding all_char
all_char-OnScreen u c f s v = ground (arith, show_char-OnScreen u c s v, hide_char-OnScreen u c s v)

next_row-Loose :
    (u t : ℕ) (s : Term)
    → OnScreen u s
    → Loose u (next_row t (enter_input t s)) × ((u ≢ t) → OnScreen u (next_row t (enter_input t s)))
unfolding next_row enter_input
next_row-Loose u t s v = ground arith

pub new_line_char-OnScreen : (u f : ℕ) (s : Term) → OnScreen u s → OnScreen u (new_line_char f s)
unfolding new_line_char end_line raise_enter terminal_update_cursor
new_line_char-OnScreen u f s v =
    let (l1, o1) = next_row-Loose u s.disp_term s v in
    let (l2, o2) = next_row-Loose u s.curr_term s v in
    let v1 = wrap_disp-OnScreen u s.disp_term _ l1 o1 in
    let v2 = wrap_curr-OnScreen u s.curr_term _ l2 o2 in ground arith

pub backspace-OnScreen : (u : ℕ) (s : Term) → OnScreen u s → OnScreen u (backspace_char s)
unfolding backspace_char terminal_update_cursor update_coords_back
backspace-OnScreen u s v = ground arith
