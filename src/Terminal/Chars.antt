-- ===== src/Terminal/Chars.antt =====
-- What the terminal does with one character: a glyph, the end of a line, a backspace.
use linux_operating_system.Prelude.{
  ℕ, zero, suc, ◌+◌, ◌-◌, ◌||◌, leb, ◌==◌, if◌then◌else◌, Memory, store,
}
use linux_operating_system.Terminal.{
  Term, video, num_rows, line_buffer_size, input_at, update_coords_back, update_coords_forward,
  put_cell, terminal_scroll_down_curr, terminal_scroll_down_disp, terminal_update_cursor,
}

-- Moves the coordinates of terminal `t`.
unfoldable pub step_coords : ℕ → Term → Term
step_coords t s =
    let (x, y) = update_coords_forward (s.term_x t) (s.term_y t) in
    record s { term_x = store s.term_x t x; term_y = store s.term_y t y }

-- `if (term_Y[t] >= NUM_ROWS)`: the screen scrolls and the row stays the last one.
unfoldable pub wrap_row : ℕ → (Term → Term) → Term → Term
wrap_row t scroll_down s =
    let scrolled = scroll_down s in
    if leb num_rows (s.term_y t)
    then record scrolled { term_y = store scrolled.term_y t (num_rows - 1) }
    else s

-- `input_buffer[t][CURR_LINE][curr_idx[t]] = c; curr_idx[t]++;`
unfoldable pub append_input : ℕ → ℕ → Term → Term
append_input t c s = record s {
  input_buffer = store s.input_buffer (input_at t 0 (s.curr_idx t)) c;
  curr_idx = store s.curr_idx t (s.curr_idx t + 1);
}

-- Draws at the coordinates of terminal `t`, in the block at `base`.
unfoldable pub draw : ℕ → ℕ → ℕ → Term → Term
draw base t c s = record s { mem = put_cell base (s.term_x t) (s.term_y t) c s.mem }

-- `write_flag == 1`: the displayed terminal, in video memory and in its buffer.
unfoldable pub show_char : ℕ → Term → Term
show_char c s =
    let d = s.disp_term in
    let shown = draw (s.video_buffer d) d c (draw video d c s) in
    append_input d c
      (terminal_update_cursor (wrap_row d terminal_scroll_down_disp (step_coords d shown)))

-- `write_flag == 2`: the running terminal, in its buffer.
unfoldable pub hide_char : ℕ → Term → Term
hide_char c s =
    let t = s.curr_term in
    let hidden = draw (s.video_buffer t) t c s in
    append_input t c (wrap_row t terminal_scroll_down_curr (step_coords t hidden))

unfoldable pub all_char : ℕ → ℕ → Term → Term
all_char c write_flag s =
    if write_flag == 1 then show_char c s else if write_flag == 2 then hide_char c s else s

-- The loop of new_line_char: the entered line takes the current one up to its index and is NUL behind
-- it, and the current line is cleared. The first number counts the rounds left.
unfoldable pub enter_line : ℕ → ℕ → ℕ → Memory → ℕ → Memory
enter_line zero t idx buffer i = buffer
enter_line (suc left) t idx buffer i =
    enter_line left t idx
      (store (store buffer (input_at t 1 i) (if leb i idx then buffer (input_at t 0 i) else 0))
        (input_at t 0 i) 0)
      (i + 1)

-- What both cases of new_line_char do, with the scrolling of each.
unfoldable pub enter_input : ℕ → Term → Term
enter_input t s =
    let idx = s.curr_idx t in
    record s {
      input_buffer =
          enter_line line_buffer_size t idx (store s.input_buffer (input_at t 0 idx) b'\n') 0;
    }

unfoldable pub next_row : ℕ → Term → Term
next_row t s = record s { term_x = store s.term_x t 0; term_y = store s.term_y t (s.term_y t + 1) }

unfoldable pub end_line : ℕ → (Term → Term) → Term → Term
end_line t scroll_down s =
    let row = wrap_row t scroll_down (next_row t (enter_input t s)) in
    record row { curr_idx = store row.curr_idx t 0 }

-- `if (TERM_READ_FLAG[disp_term]) ENTER_FLAG[disp_term] = 1;`
unfoldable pub raise_enter : Term → Term
raise_enter s =
    if s.read_flag s.disp_term == 0
    then s
    else record s { enter_flag = store s.enter_flag s.disp_term 1 }

unfoldable pub new_line_char : ℕ → Term → Term
new_line_char write_flag s =
    if write_flag == 1
    then raise_enter (terminal_update_cursor (end_line s.disp_term terminal_scroll_down_disp s))
    else if write_flag == 2
    then end_line s.curr_term terminal_scroll_down_curr s
    else s

unfoldable pub backspace_char : Term → Term
backspace_char s =
    let d = s.disp_term in
    let (x, y) = update_coords_back (s.term_x d) (s.term_y d) in
    let idx = s.curr_idx d - 1 in
    if (s.read_flag d == 0) || (s.curr_idx d == 0)
    then s
    else terminal_update_cursor (record s {
      term_x = store s.term_x d x;
      term_y = store s.term_y d y;
      mem = put_cell (s.video_buffer d) x y b' ' (put_cell video x y b' ' s.mem);
      curr_idx = store s.curr_idx d idx;
      input_buffer = store s.input_buffer (input_at d 0 idx) 0;
    })
