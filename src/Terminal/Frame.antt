-- ===== src/Terminal/Frame.antt =====
-- What no character changes: the running and the displayed terminal, the back buffers, and the flags of
-- reading and writing.
pub mod Runs
pub mod Index
use linux_operating_system.Prelude.{
  ℕ, zero, suc, ◌+◌, ◌-◌, ◌*◌, ◌/◌, ◌%◌, ◌^◌, ◌≤◌, ◌<◌, min, bit_and, bit_or, ◌≡◌, refl, sym, ap,
  ◌∙◌, fun_ext, subst, ◌≢◌, ◌↔◌, ◌⊎◌, inl, inr, Bool, true, false, ◌&&◌, ◌||◌, not, Option, none,
  some, List, [], ◌∷◌, ◌++◌, map, reverse, arith, ltb, leb, ◌==◌, if◌then◌else◌, ltb→lt, leb→le,
  ==_iff, Bool-cases, ◌>>=◌, bind_some, some_injective, Option-cases, if_branch, length, get_elem?,
  get_or, set, length-append, length-set, get_elem?-set_self, get_elem?-set_ne, ℤ, pos, negsuc,
  minus_one, sub_ℕ, Memory, store, load32, store32, bytes, codes, moved, filled, is_table,
  table_entry, table_witness, word, add32, sub32, to_int32,
}
use linux_operating_system.CLib.Printf.{
  Piece, nothing, char, buffer, string, convert, Mode, text, conversion,
}
use linux_operating_system.Terminal.{
  Term, num_rows, terminal_scroll_down_curr, terminal_scroll_down_disp, terminal_update_cursor,
}
use linux_operating_system.Terminal.Chars.{
  step_coords, wrap_row, append_input, draw, show_char, hide_char, all_char, enter_input, next_row,
  end_line, raise_enter, new_line_char, backspace_char,
}
use linux_operating_system.Terminal.Putc.{
  put_with, dispatch, bmap_val, bitmap_of, override, choose_flag, terminal_putc,
}
use linux_operating_system.Terminal.Calls.{
  terminal_reset_buffer, read_begin, read_wait, read_end, terminal_read, write_chars,
  terminal_write,
}
use linux_operating_system.Terminal.Print.{
  make_room, start_output, end_output, put_string, terminal_puts, put_chars, puts_buffer,
  print_piece, print_from, terminal_printf,
}

pub record KeepsFlags (s s' : Term) : Type 0 where
  pub curr : s'.curr_term ≡ s.curr_term
  pub disp : s'.disp_term ≡ s.disp_term
  pub buffers : s'.video_buffer ≡ s.video_buffer
  pub reads : s'.read_flag ≡ s.read_flag
  pub writes : s'.write_flag ≡ s.write_flag

KeepsFlags-trans : (s t u : Term) → KeepsFlags s t → KeepsFlags t u → KeepsFlags s u
KeepsFlags-trans s t u v w = record {
  curr = w.curr ∙ v.curr;
  disp = w.disp ∙ v.disp;
  buffers = w.buffers ∙ v.buffers;
  reads = w.reads ∙ v.reads;
  writes = w.writes ∙ v.writes;
}

KeepsFlags-refl : (s : Term) → KeepsFlags s s
KeepsFlags-refl s = record { curr = refl; disp = refl; buffers = refl; reads = refl; writes = refl }

if-KeepsFlags :
    (b : Bool) (s t u : Term) → KeepsFlags s t → KeepsFlags s u → KeepsFlags s (if b then t else u)
if-KeepsFlags true s t u v w = v
if-KeepsFlags false s t u v w = w

wrap-KeepsFlags :
    (t : ℕ) (scroll : Term → Term) (s : Term)
    → KeepsFlags s (scroll s)
    → KeepsFlags s (wrap_row t scroll s)
unfolding wrap_row
wrap-KeepsFlags t scroll s v =
    if-KeepsFlags (leb num_rows (s.term_y t)) s _ s
      (record {
        curr = v.curr;
        disp = v.disp;
        buffers = v.buffers;
        reads = v.reads;
        writes = v.writes;
      })
      (KeepsFlags-refl s)

disp-KeepsFlags : (s : Term) → KeepsFlags s (terminal_scroll_down_disp s)
unfolding terminal_scroll_down_disp
disp-KeepsFlags s = record { curr = refl; disp = refl; buffers = refl; reads = refl; writes = refl }

curr-KeepsFlags : (s : Term) → KeepsFlags s (terminal_scroll_down_curr s)
unfolding terminal_scroll_down_curr
curr-KeepsFlags s = record { curr = refl; disp = refl; buffers = refl; reads = refl; writes = refl }

show_char-KeepsFlags : (c : ℕ) (s : Term) → KeepsFlags s (show_char c s)
unfolding show_char terminal_update_cursor append_input
show_char-KeepsFlags c s =
    let d = s.disp_term in
    let v =
      wrap-KeepsFlags d terminal_scroll_down_disp
        (step_coords d (draw (s.video_buffer d) d c (draw 0xB8000 d c s))) (disp-KeepsFlags _) in
    record {
      curr = unfold step_coords draw in v.curr;
      disp = unfold step_coords draw in v.disp;
      buffers = unfold step_coords draw in v.buffers;
      reads = unfold step_coords draw in v.reads;
      writes = unfold step_coords draw in v.writes;
    }

hide_char-KeepsFlags : (c : ℕ) (s : Term) → KeepsFlags s (hide_char c s)
unfolding hide_char append_input
hide_char-KeepsFlags c s =
    let t = s.curr_term in
    let v =
      wrap-KeepsFlags t terminal_scroll_down_curr (step_coords t (draw (s.video_buffer t) t c s))
        (curr-KeepsFlags _) in
    record {
      curr = unfold step_coords draw in v.curr;
      disp = unfold step_coords draw in v.disp;
      buffers = unfold step_coords draw in v.buffers;
      reads = unfold step_coords draw in v.reads;
      writes = unfold step_coords draw in v.writes;
    }

end_line-KeepsFlags :
    (t : ℕ) (scroll : Term → Term) (s : Term)
    → ((u : Term) → KeepsFlags u (scroll u))
    → KeepsFlags s (end_line t scroll s)
unfolding end_line
end_line-KeepsFlags t scroll s h =
    let v = wrap-KeepsFlags t scroll (next_row t (enter_input t s)) (h _) in
    record {
      curr = unfold next_row enter_input in v.curr;
      disp = unfold next_row enter_input in v.disp;
      buffers = unfold next_row enter_input in v.buffers;
      reads = unfold next_row enter_input in v.reads;
      writes = unfold next_row enter_input in v.writes;
    }

raise_enter-KeepsFlags : (s : Term) → KeepsFlags s (raise_enter s)
unfolding raise_enter
raise_enter-KeepsFlags s =
    if-KeepsFlags (s.read_flag s.disp_term == 0) s s _ (KeepsFlags-refl s)
      (record { curr = refl; disp = refl; buffers = refl; reads = refl; writes = refl })

new_line_char-KeepsFlags : (w : ℕ) (s : Term) → KeepsFlags s (new_line_char w s)
unfolding new_line_char terminal_update_cursor
new_line_char-KeepsFlags w s =
    let ended = end_line-KeepsFlags s.disp_term terminal_scroll_down_disp s disp-KeepsFlags in
    let raised =
      raise_enter-KeepsFlags
        (terminal_update_cursor (end_line s.disp_term terminal_scroll_down_disp s)) in
    if-KeepsFlags (w == 1) s _ _
      (KeepsFlags-trans s
        (terminal_update_cursor (end_line s.disp_term terminal_scroll_down_disp s)) _
        (record {
          curr = ended.curr;
          disp = ended.disp;
          buffers = ended.buffers;
          reads = ended.reads;
          writes = ended.writes;
        })
        raised)
      (if-KeepsFlags (w == 2) s _ s
        (end_line-KeepsFlags s.curr_term terminal_scroll_down_curr s curr-KeepsFlags)
        (KeepsFlags-refl s))

backspace_char-KeepsFlags : (s : Term) → KeepsFlags s (backspace_char s)
unfolding backspace_char terminal_update_cursor
backspace_char-KeepsFlags s =
    if-KeepsFlags ((s.read_flag s.disp_term == 0) || (s.curr_idx s.disp_term == 0)) s s _
      (KeepsFlags-refl s)
      (record { curr = refl; disp = refl; buffers = refl; reads = refl; writes = refl })

all_char-KeepsFlags : (c w : ℕ) (s : Term) → KeepsFlags s (all_char c w s)
unfolding all_char
all_char-KeepsFlags c w s =
    if-KeepsFlags (w == 1) s _ _ (show_char-KeepsFlags c s)
      (if-KeepsFlags (w == 2) s _ s (hide_char-KeepsFlags c s) (KeepsFlags-refl s))

put_with-KeepsFlags : (c w : ℕ) (s : Term) → KeepsFlags s (put_with c w s)
unfolding put_with
put_with-KeepsFlags c w s =
    if-KeepsFlags ((c == b'\n') || (c == 13)) s _ _ (new_line_char-KeepsFlags w s) (
      if-KeepsFlags ((c == 8) && ((s.char_from_kb == 1) && not (s.read_flag s.disp_term == 0))) s _
        _ (backspace_char-KeepsFlags s) (all_char-KeepsFlags c w s))

dispatch-KeepsFlags : (c w : ℕ) (s : Term) → KeepsFlags s (dispatch c w s)
unfolding dispatch
dispatch-KeepsFlags c w s =
    if-KeepsFlags (s.curr_term == s.disp_term) s _ _
      (if-KeepsFlags ((s.read_flag s.curr_term == 0) && (s.write_flag s.curr_term == 0)) s s _
        (KeepsFlags-refl s) (put_with-KeepsFlags c 1 s))
      (if-KeepsFlags ((w == 1) || (w == 2)) s _ s (put_with-KeepsFlags c w s) (KeepsFlags-refl s))

pub terminal_putc-KeepsFlags : (c : ℕ) (s s' : Term) → terminal_putc c s ≡ some s' → KeepsFlags s s'
unfolding terminal_putc
terminal_putc-KeepsFlags c s s' run =
    let (b, digits, done) = bind_some {A = List ℕ} (bitmap_of (bmap_val s)) _ s' run in
    let v = dispatch-KeepsFlags c (override s (choose_flag b)) s in
    subst (KeepsFlags s) (some_injective _ s' done) (record {
      curr = v.curr;
      disp = v.disp;
      buffers = v.buffers;
      reads = v.reads;
      writes = v.writes;
    })

-- What whole runs keep, which put the flags up and down.
pub record KeepsPlace (s s' : Term) : Type 0 where
  pub curr : s'.curr_term ≡ s.curr_term
  pub disp : s'.disp_term ≡ s.disp_term
  pub buffers : s'.video_buffer ≡ s.video_buffer

pub KeepsPlace-trans : (s t u : Term) → KeepsPlace s t → KeepsPlace t u → KeepsPlace s u
KeepsPlace-trans s t u v w = record {
  curr = w.curr ∙ v.curr;
  disp = w.disp ∙ v.disp;
  buffers = w.buffers ∙ v.buffers;
}

pub KeepsPlace-refl : (s : Term) → KeepsPlace s s
KeepsPlace-refl s = record { curr = refl; disp = refl; buffers = refl }

pub if-KeepsPlace :
    (b : Bool) (s t u : Term) → KeepsPlace s t → KeepsPlace s u → KeepsPlace s (if b then t else u)
if-KeepsPlace true s t u v w = v
if-KeepsPlace false s t u v w = w

pub terminal_putc-KeepsPlace : (c : ℕ) (s s' : Term) → terminal_putc c s ≡ some s' → KeepsPlace s s'
terminal_putc-KeepsPlace c s s' run =
    let v = terminal_putc-KeepsFlags c s s' run in
    record { curr = v.curr; disp = v.disp; buffers = v.buffers }
