-- ===== src/Terminal/Calls.antt =====
-- The terminal's operations: open, read, write and clear.
use linux_operating_system.Prelude.{
  ℕ, zero, suc, ◌+◌, ◌-◌, ◌*◌, ◌%◌, true, false, ◌&&◌, ◌||◌, not, Option, none, some, List, [], ◌∷◌,
  leb, ◌==◌, if◌then◌else◌, ◌>>=◌, ℤ, pos, minus_one, Memory, store,
}
use linux_operating_system.Terminal.{
  Term, video, num_cols, num_rows, attrib, line_buffer_size, input_at, terminal_update_cursor,
}
use linux_operating_system.Terminal.Putc.{terminal_putc}

-- Both lines of the current terminal are cleared; the loop counts in `curr_idx` itself.
unfoldable pub reset_lines : ℕ → ℕ → Memory → ℕ → Memory
reset_lines zero t buffer i = buffer
reset_lines (suc left) t buffer i =
    reset_lines left t (store (store buffer (input_at t 0 i) 0) (input_at t 1 i) 0) (i + 1)

unfoldable pub terminal_reset_buffer : Term → Term
unfolding reset_lines
terminal_reset_buffer s = record s {
  input_buffer = reset_lines line_buffer_size s.curr_term s.input_buffer 0;
  curr_idx = store s.curr_idx s.curr_term 0;
}

-- The blanks of clear() in lib.c, of terminal_clear and of clear_terminals.
unfoldable pub blank_cells : ℕ → ℕ → ℕ → Memory → Memory
blank_cells zero base i m = m
blank_cells (suc left) base i m =
    blank_cells left base (i + 1) (store (store m (base + i * 2) b' ') (base + i * 2 + 1) attrib)

unfoldable pub clear : Memory → Memory
clear m = blank_cells (num_rows * num_cols) video 0 m

unfoldable pub terminal_clear : Term → Term
unfolding clear
terminal_clear s =
    let r = terminal_reset_buffer s in
    let d = s.disp_term in
    let cleared = terminal_update_cursor (record r {
      mem = blank_cells (num_rows * num_cols) (r.video_buffer d) 0 (clear r.mem);
      term_x = store r.term_x d 0;
      term_y = store r.term_y d 0;
      term_x_start = store r.term_x_start d 0;
      term_y_start = store r.term_y_start d 0;
      term_x_end = store r.term_x_end d 0;
      term_y_end = store r.term_y_end d 0;
    }) in
    record cleared { enter_flag = store cleared.enter_flag d 0 }

-- `for (i = 0; i < NUM_TERMS; i++) a[i] = 0`
abbrev zeroed : (ℕ → ℕ) → ℕ → ℕ
zeroed a = store (store (store a 0 0) 1 0) 2 0

-- The command history, which nothing reads, is left out.
unfoldable pub terminal_open : Term → ℤ × Term
terminal_open s = (
  pos 0,
  terminal_clear (record s {
    curr_idx = zeroed s.curr_idx;
    term_x = zeroed s.term_x;
    term_y = zeroed s.term_y;
    term_x_start = zeroed s.term_x_start;
    term_y_start = zeroed s.term_y_start;
    term_x_end = zeroed s.term_x_end;
    term_y_end = zeroed s.term_y_end;
    read_flag = zeroed s.read_flag;
    write_flag = zeroed s.write_flag;
    enter_flag = zeroed s.enter_flag;
    char_from_kb = 0;
  }),
)

unfoldable pub terminal_close : Term → ℤ × Term
terminal_close s = (pos 0, terminal_clear s)

-- The state in which terminal_read waits.
unfoldable pub read_begin : Term → Term
read_begin s =
    let t = s.curr_term in
    terminal_reset_buffer (record s {
      read_flag = store s.read_flag t 1;
      write_flag = store s.write_flag t 0;
      enter_flag = store s.enter_flag t 0;
      term_x_start = store s.term_x_start t (s.term_x t);
      term_y_start = store s.term_y_start t (s.term_y t);
      term_x_end = store s.term_x_end t (s.term_x t);
      term_y_end = store s.term_y_end t (s.term_y t);
    })

-- The loop that fills the caller's buffer: at most `left` characters, at most a line, and up to a
-- column where both lines are NUL. The count and the memory.
unfoldable pub read_chars : ℕ → Term → ℕ → ℕ → ℕ × Memory
read_chars zero s buf i = (i, s.mem)
read_chars (suc left) s buf i =
    let d = s.disp_term in
    let c = s.input_buffer (input_at d 1 i) in
    let rest = read_chars left (record s { mem = store s.mem (buf + i) c }) buf (i + 1) in
    if ((c == 0) && (s.input_buffer (input_at d 0 i) == 0)) || leb line_buffer_size i
    then (i, s.mem)
    else rest

-- What terminal_read does when the wait ends.
unfoldable pub read_end : ℕ → ℕ → Term → ℤ × Term
read_end buf nbytes s =
    let (n, m) = read_chars nbytes s buf 0 in
    let r = terminal_reset_buffer (record s { mem = m }) in
    (
      pos (if leb line_buffer_size n then line_buffer_size else n),
      record r {
        enter_flag = store r.enter_flag r.disp_term 0;
        read_flag = store r.read_flag r.curr_term 0;
      },
    )

-- Keys pressed while terminal_read waits: each is a character that the keyboard's handler puts.
unfoldable pub read_wait : List ℕ → Term → Option Term
read_wait [] s =
    if not (s.enter_flag s.curr_term == 0) && (s.disp_term == s.curr_term) then some s else none
read_wait (c ∷ keys) s =
    elim (not (s.enter_flag s.curr_term == 0) && (s.disp_term == s.curr_term)) [
      | true ↦ some s
      | false ↦ elim (terminal_putc c (record s { char_from_kb = 1 })) [
        | none ↦ none
        | some s' ↦ read_wait keys s'
      ]
    ]

-- `nbytes` is not negative. `none` is a wait that the keys given do not end.
unfoldable pub terminal_read : ℕ → ℕ → List ℕ → Term → Option (ℤ × Term)
unfolding read_begin read_end
terminal_read buf nbytes keys s =
    if buf == 0
    then some (minus_one, s)
    else if nbytes == 0
    then some (pos 0, s)
    else (read_wait keys (read_begin s) >>= λ r. some (read_end buf nbytes r))

-- The loop of terminal_write over the `left` characters from `p` on.
unfoldable pub write_chars : ℕ → ℕ → Term → Option Term
write_chars zero p s = some s
write_chars (suc left) p s =
    let ready =
      if s.curr_idx s.curr_term % line_buffer_size == line_buffer_size - 1
      then terminal_reset_buffer s
      else s in
    elim (terminal_putc (ready.mem p) ready) [ none ↦ none | some s' ↦ write_chars left (p + 1) s' ]

-- `nbytes` is not negative.
unfoldable pub terminal_write : ℕ → ℕ → Term → Option (ℤ × Term)
terminal_write buf nbytes s =
    let t = s.curr_term in
    if buf == 0
    then some (minus_one, s)
    else (write_chars nbytes buf
          (record s { write_flag = store s.write_flag t 1; read_flag = store s.read_flag t 0 })
        >>= λ w.
            let r = terminal_reset_buffer w in
            some (pos nbytes, record r { write_flag = store r.write_flag r.curr_term 0 }))
