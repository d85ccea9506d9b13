-- ===== src/Terminal.antt =====
-- terminal.c: three terminals over one screen. Each has a back buffer of 25 rows of 80 cells of two
-- bytes, and the terminal on display (`disp_term`) is also drawn in video memory. The static arrays are
-- functions of the terminal's number; `input_buffer` is the flat array of the source, two lines of 128
-- bytes for each terminal, so that an index past a line lands in what follows it.
pub mod Chars
pub mod Putc
pub mod Calls
pub mod Print
pub mod Printing
pub mod Messages
pub mod Editing
pub mod Typing
pub mod Lines
pub mod Waiting
pub mod Reading
pub mod Scroll
pub mod Coords
pub mod Bitmap
pub mod Touches
pub mod Writing
pub mod Cursor
pub mod Safety
pub mod Frame
use linux_operating_system.Prelude.{
  ℕ, zero, suc, ◌+◌, ◌-◌, ◌*◌, ◌/◌, ◌%◌, ◌^◌, ◌≤◌, ◌<◌, min, bit_and, bit_or, ◌≡◌, refl, sym, ap,
  ◌∙◌, fun_ext, subst, ◌≢◌, ◌↔◌, ◌⊎◌, inl, inr, Bool, true, false, ◌&&◌, ◌||◌, not, Option, none,
  some, List, [], ◌∷◌, ◌++◌, map, reverse, arith, ltb, leb, ◌==◌, if◌then◌else◌, ltb→lt, leb→le,
  ==_iff, Bool-cases, ◌>>=◌, length, get_elem?, get_or, set, length-append, length-set,
  get_elem?-set_self, get_elem?-set_ne, ℤ, pos, negsuc, minus_one, sub_ℕ, Memory, store, load32,
  store32, bytes, codes, moved, filled, is_table, table_entry, table_witness, word, add32, sub32,
  to_int32,
}
use linux_operating_system.CLib.Blocks.{memcpy, memset_word}

pub record Term : Type 0 where
  pub mem : Memory
  pub video_buffer : ℕ → ℕ
  pub input_buffer : ℕ → ℕ
  pub curr_idx : ℕ → ℕ
  pub term_x : ℕ → ℕ
  pub term_y : ℕ → ℕ
  pub term_x_start : ℕ → ℕ
  pub term_y_start : ℕ → ℕ
  pub term_x_end : ℕ → ℕ
  pub term_y_end : ℕ → ℕ
  pub read_flag : ℕ → ℕ
  pub write_flag : ℕ → ℕ
  pub enter_flag : ℕ → ℕ
  pub char_from_kb : ℕ
  pub curr_term : ℕ
  pub disp_term : ℕ
  pub written : List (ℕ × ℕ)

abbrev pub video : ℕ
video = 0xB8000

abbrev pub num_cols : ℕ
num_cols = 80

abbrev pub num_rows : ℕ
num_rows = 25

abbrev pub attrib : ℕ
attrib = 7

abbrev pub line_buffer_size : ℕ
line_buffer_size = 128

-- `input_buffer[term][line][i]`; the current line is line 0, the entered one line 1.
abbrev pub input_at : ℕ → ℕ → ℕ → ℕ
input_at term line i = (term * 2 + line) * line_buffer_size + i

-- The macros on a pair of coordinates.
unfoldable pub update_coords_back : ℕ → ℕ → ℕ × ℕ
update_coords_back x y =
    if x == 0 then (num_cols - 1, (if ltb 0 y then y - 1 else 0)) else (x - 1, y)

unfoldable pub update_coords_forward : ℕ → ℕ → ℕ × ℕ
update_coords_forward x y = if leb num_cols (x + 1) then ((x + 1) % num_cols, y + 1) else (x + 1, y)

-- `*(base + ((NUM_COLS * y + x) << 1)) = c`, and the attribute behind it.
unfoldable pub put_cell : ℕ → ℕ → ℕ → ℕ → Memory → Memory
put_cell base x y c m =
    store (store m (base + (num_cols * y + x) * 2) c) (base + (num_cols * y + x) * 2 + 1) attrib

-- A row up: the copy runs forward over overlapping blocks; then a row of blanks at the bottom.
unfoldable pub scroll : ℕ → Memory → Memory
scroll base m = memset_word (base + 3840) 0x0720 num_cols (memcpy base (base + num_cols * 2) 3840 m)

unfoldable pub terminal_scroll_down_curr : Term → Term
terminal_scroll_down_curr s = record s { mem = scroll (s.video_buffer s.curr_term) s.mem }

unfoldable pub terminal_scroll_down_disp : Term → Term
terminal_scroll_down_disp s = record s {
  mem = scroll video (scroll (s.video_buffer s.disp_term) s.mem);
}

-- The cursor's position goes to the VGA controller, low byte and high byte.
unfoldable pub terminal_update_cursor : Term → Term
terminal_update_cursor s =
    let position = (s.term_y s.disp_term * num_cols + s.term_x s.disp_term) % 65536 in
    record s {
      written =
          (position / 256 % 256, 0x3D5)
          ∷ (0x0E, 0x3D4)
          ∷ (position % 256, 0x3D5)
          ∷ (0x0F, 0x3D4)
          ∷ s.written;
    }
