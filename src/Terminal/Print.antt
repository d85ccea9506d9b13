-- ===== src/Terminal/Print.antt =====
-- terminal.c: terminal_puts and terminal_printf, the string output built on terminal_putc. `none` is
-- a run that the fuel does not end, or one that goes past the format or the arguments.
use linux_operating_system.Prelude.{
  ℕ, zero, suc, ◌+◌, ◌-◌, ◌%◌, true, false, Option, none, some, List, [], ◌∷◌, ◌==◌, if◌then◌else◌,
  ◌>>=◌, length, store,
}
use linux_operating_system.CLib.Printf.{
  Piece, nothing, char, buffer, string, convert, Mode, text, conversion,
}
use linux_operating_system.Terminal.{Term, line_buffer_size}
use linux_operating_system.Terminal.Putc.{terminal_putc}
use linux_operating_system.Terminal.Calls.{terminal_reset_buffer}

-- Where the characters are counted from 0 in `index`, the line is emptied at each full one.
abbrev pub make_room : ℕ → Term → Term
make_room index t =
    if index % line_buffer_size == line_buffer_size - 1 then terminal_reset_buffer t else t

-- Output starts with the write flag up and the read flag down.
abbrev pub start_output : Term → Term
start_output t = record t {
  write_flag = store t.write_flag t.curr_term 1;
  read_flag = store t.read_flag t.curr_term 0;
}

-- It ends with an empty line and the flags as they were.
unfoldable pub end_output : ℕ → ℕ → Term → Term
end_output saved_write saved_read t =
    let r = terminal_reset_buffer t in
    record r {
      write_flag = store r.write_flag r.curr_term saved_write;
      read_flag = store r.read_flag r.curr_term saved_read;
    }

-- The loop of terminal_puts over the string at `a`, from index `index` on.
unfoldable pub put_string : ℕ → ℕ → ℕ → Term → Option (ℕ × Term)
put_string zero a index t = none
put_string (suc fuel) a index t = elim (t.mem (a + index) == 0) [
  | true ↦ some (index, t)
  | false ↦ elim (terminal_putc ((make_room index t).mem (a + index)) (make_room index t)) [
    | none ↦ none
    | some t' ↦ put_string fuel a (index + 1) t'
  ]
]

unfoldable pub terminal_puts : ℕ → ℕ → Term → Option (ℕ × Term)
unfolding put_string end_output
terminal_puts fuel a t = put_string fuel a 0 (start_output t) >>= λ r.
    some (r.0, end_output (t.write_flag t.curr_term) (t.read_flag t.curr_term) r.1)

-- terminal_puts of a conversion buffer, which holds the characters `s`.
unfoldable pub put_chars : List ℕ → ℕ → Term → Option Term
put_chars [] index t = some t
put_chars (c ∷ s) index t = elim (terminal_putc c (make_room index t)) [
  | none ↦ none
  | some t' ↦ put_chars s (index + 1) t'
]

unfoldable pub puts_buffer : List ℕ → Term → Option Term
unfolding put_chars end_output
puts_buffer s t = put_chars s 0 (start_output t) >>= λ w.
    some (end_output (t.write_flag t.curr_term) (t.read_flag t.curr_term) w)

unfoldable pub print_piece : ℕ → Piece → Term → Option Term
unfolding terminal_puts puts_buffer
print_piece fuel nothing t = some t
print_piece fuel (char c) t = terminal_putc c t
print_piece fuel (buffer s) t = puts_buffer s t
print_piece fuel (string a) t = terminal_puts fuel a t >>= λ r. some r.1

-- The loop of terminal_printf over the characters of the format that are left; `index` is
-- `buf - format`.
unfoldable pub print_from : ℕ → Mode → List ℕ → List ℕ → ℕ → Term → Option Term
unfolding print_piece convert
print_from fuel text [] args index t = some t
print_from fuel (conversion alternate) [] args index t = none
print_from fuel text (c ∷ format) args index t = elim (c == b'%') [
  | true ↦ print_from fuel (conversion false) format args (index + 1) (make_room index t)
  | false ↦ elim (terminal_putc c (make_room index t)) [
    | none ↦ none
    | some t' ↦ print_from fuel text format args (index + 1) t'
  ]
]
print_from fuel (conversion alternate) (c ∷ format) args index t = elim (c == b'#') [
  | true ↦ print_from fuel (conversion true) format args (index + 1) t
  | false ↦ elim (convert fuel alternate c args) [
    | none ↦ none
    | some r ↦ elim (print_piece fuel r.0 t) [
      | none ↦ none
      | some t' ↦ print_from fuel text format r.1 (index + 1) t'
    ]
  ]
]

unfoldable pub terminal_printf : ℕ → List ℕ → List ℕ → Term → Option (ℕ × Term)
unfolding print_from end_output
terminal_printf fuel format args t = print_from fuel text format args 0 (start_output t) >>= λ w.
    some (length format, end_output (t.write_flag t.curr_term) (t.read_flag t.curr_term) w)
