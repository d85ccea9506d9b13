-- ===== src/CLib/Console.antt =====
-- lib.c: the console that the kernel prints on before the terminals are there: putc, puts, printf and
-- test_interrupts. The cursor is never negative, so `screen_x` and `screen_y` are numbers; a string
-- read past its fuel is `none`.
pub mod Puts
pub mod Rendering
pub mod Plain
use linux_operating_system.Prelude.{
  ℕ, zero, suc, ◌+◌, ◌-◌, ◌*◌, ◌/◌, ◌%◌, ◌^◌, ◌≤◌, ◌<◌, min, bit_and, bit_or, ◌≡◌, refl, sym, ap,
  ◌∙◌, fun_ext, subst, ◌≢◌, ◌↔◌, ◌⊎◌, inl, inr, Bool, true, false, ◌&&◌, ◌||◌, not, Option, none,
  some, List, [], ◌∷◌, ◌++◌, map, reverse, arith, ltb, leb, ◌==◌, if◌then◌else◌, ltb→lt, leb→le,
  ==_iff, Bool-cases, ◌>>=◌, length, get_elem?, get_or, set, length-append, length-set,
  get_elem?-set_self, get_elem?-set_ne, ℤ, pos, negsuc, minus_one, sub_ℕ, Memory, store, load32,
  store32, bytes, codes, moved, filled, is_table, table_entry, table_witness, word, add32, sub32,
  to_int32,
}
use linux_operating_system.CLib.Printf.{
  Piece, nothing, char, buffer, string, convert, Mode, text, conversion,
}

pub record Console : Type 0 where
  pub mem : Memory
  pub screen_x : ℕ
  pub screen_y : ℕ

abbrev pub video_mem : ℕ
video_mem = 753664

-- A cell: the character, and the attribute behind it.
abbrev cell : ℕ → Console → Console
cell c s =
    let at_cursor = video_mem + (80 * s.screen_y + s.screen_x) * 2 in
    record s { mem = store (store s.mem at_cursor c) (at_cursor + 1) 7; screen_x = s.screen_x + 1 }

unfoldable pub putc : ℕ → Console → Console
putc c s =
    if (c == 10) || (c == 13)
    then record s { screen_y = s.screen_y + 1; screen_x = 0 }
    else (let x = s.screen_x % 80 in
        cell c (record s { screen_x = x; screen_y = (s.screen_y + x / 80) % 25 }))

-- The loop of puts, from index `index` on.
unfoldable pub puts_from : ℕ → ℕ → ℕ → Console → Option (ℕ × Console)
unfolding putc
puts_from zero a index s = none
puts_from (suc fuel) a index s = elim (s.mem (a + index) == 0) [
  | true ↦ some (index, s)
  | false ↦ puts_from fuel a (index + 1) (putc (s.mem (a + index)) s)
]

unfoldable pub puts : ℕ → ℕ → Console → Option (ℕ × Console)
unfolding puts_from
puts fuel a s = puts_from fuel a 0 s

-- puts of a conversion buffer, which holds the characters `cs`.
unfoldable pub put_text : List ℕ → Console → Console
unfolding putc
put_text [] s = s
put_text (c ∷ cs) s = put_text cs (putc c s)

unfoldable pub put_piece : ℕ → Piece → Console → Option Console
unfolding putc puts put_text
put_piece fuel nothing s = some s
put_piece fuel (char c) s = some (putc c s)
put_piece fuel (buffer cs) s = some (put_text cs s)
put_piece fuel (string a) s = puts fuel a s >>= λ r. some r.1

-- The loop of printf over the characters of the format that are left. A format that ends inside a
-- conversion is read past its end: `none`.
unfoldable pub printf_from : ℕ → Mode → List ℕ → List ℕ → Console → Option Console
unfolding putc put_piece convert
printf_from fuel text [] args s = some s
printf_from fuel (conversion alternate) [] args s = none
printf_from fuel text (c ∷ format) args s = elim (c == b'%') [
  | true ↦ printf_from fuel (conversion false) format args s
  | false ↦ printf_from fuel text format args (putc c s)
]
printf_from fuel (conversion alternate) (c ∷ format) args s = elim (c == b'#') [
  | true ↦ printf_from fuel (conversion true) format args s
  | false ↦ elim (convert fuel alternate c args) [
    | none ↦ none
    | some r ↦ elim (put_piece fuel r.0 s) [
      | none ↦ none
      | some s' ↦ printf_from fuel text format r.1 s'
    ]
  ]
]

-- The format is given by its characters, the arguments by their 32-bit patterns. The result is
-- `buf - format`.
unfoldable pub printf : ℕ → List ℕ → List ℕ → Console → Option (ℕ × Console)
unfolding printf_from
printf fuel format args s = printf_from fuel text format args s >>= λ s'. some (length format, s')

-- `video_mem[i << 1]++` for the `left` cells from `i` on.
unfoldable pub increment_cells : ℕ → ℕ → Memory → Memory
increment_cells zero i m = m
increment_cells (suc left) i m =
    increment_cells left (i + 1) (store m (video_mem + i * 2) ((m (video_mem + i * 2) + 1) % 256))

unfoldable pub test_interrupts : Memory → Memory
unfolding increment_cells
test_interrupts m = increment_cells 2000 0 m
