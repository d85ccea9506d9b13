-- ===== src/Terminal/Putc.antt =====
-- terminal_putc: which of the two screens a character goes to. The flags of both terminals and the
-- keyboard's make a number of five bits; itoa writes it in binary, and the zero-padded string is
-- compared with constants.
use linux_operating_system.Prelude.{
  ℕ, zero, suc, ◌+◌, ◌-◌, ◌*◌, Bool, true, false, ◌&&◌, ◌||◌, not, Option, none, some, List, [],
  ◌∷◌, ltb, ◌==◌, if◌then◌else◌, ◌>>=◌, Memory, codes,
}
use linux_operating_system.CLib.Strings.{itoa, strlen}
use linux_operating_system.Terminal.{Term}
use linux_operating_system.Terminal.Chars.{all_char, new_line_char, backspace_char}

-- The flags are ints that hold 0 or 1, so the shifted values do not overlap and `|` is `+`.
unfoldable pub bmap_val : Term → ℕ
bmap_val s =
    s.read_flag s.disp_term * 16
    + s.write_flag s.disp_term * 8
    + s.read_flag s.curr_term * 4
    + s.write_flag s.curr_term * 2
    + s.char_from_kb

-- The loop that pads the `l` digits of `bitmap_temp`, at address 0, to `bitmap`; `left` rounds.
unfoldable pub pad_bitmap : ℕ → ℕ → Memory → ℕ → List ℕ
pad_bitmap zero l temp i = []
pad_bitmap (suc left) l temp i =
    (if ltb i (5 - l) then b'0' else temp (i + l - 5)) ∷ pad_bitmap left l temp (i + 1)

-- `bitmap_temp` lives in a scratch memory of its own. `none` if it does not hold the digits.
unfoldable pub bitmap_of : ℕ → Option (List ℕ)
unfolding pad_bitmap
bitmap_of v = itoa 40 v 0 2 (λ _. 0) >>= λ temp.
    strlen 40 temp 0 >>= λ l. if ltb 5 l then none else some (pad_bitmap 5 l temp 0)

-- `strncmp(bitmap, constant, n) == 0`, on characters none of which is NUL.
unfoldable pub same_start : ℕ → List ℕ → List ℕ → Bool
same_start zero xs ys = true
same_start (suc n) (x ∷ xs) (y ∷ ys) = (x == y) && same_start n xs ys
same_start (suc n) xs ys = false

-- The ladder of comparisons.
unfoldable pub choose_flag : List ℕ → ℕ
choose_flag b =
    let is = λ (s : List ℕ). same_start 5 b s in
    if is (codes "10000")
      || (is (codes "01001")
          || (is (codes "01000")
              || (is (codes "00101")
                  || (is (codes "00100")
                      || (is (codes "00011")
                          || (is (codes "10100")
                              || (is (codes "01101")
                                  || (is (codes "01100") || is (codes "01011")))))))))
    then 0
    else if is (codes "10001")
    then 1
    else if is (codes "10101")
    then 1
    else if is (codes "10011")
    then 1
    else if is (codes "10010")
    then 2
    else if is (codes "01010") || same_start 4 b (codes "1010")
    then 2
    else if is (codes "00010") || same_start 2 b (codes "10")
    then 2
    else 0

-- The test that follows the ladder: two writers and no key.
unfoldable pub override : Term → ℕ → ℕ
override s flag =
    if not (s.disp_term == s.curr_term)
      && (not (s.write_flag s.disp_term == 0)
          && (not (s.write_flag s.curr_term == 0) && (s.char_from_kb == 0)))
    then 2
    else flag

-- The three-way test on the character, in a screen chosen by `write_flag`.
unfoldable pub put_with : ℕ → ℕ → Term → Term
put_with c write_flag s =
    if (c == b'\n') || (c == 13)
    then new_line_char write_flag s
    else if (c == 8) && ((s.char_from_kb == 1) && not (s.read_flag s.disp_term == 0))
    then backspace_char s
    else all_char c write_flag s

unfoldable pub dispatch : ℕ → ℕ → Term → Term
unfolding put_with
dispatch c write_flag s =
    if s.curr_term == s.disp_term
    then if (s.read_flag s.curr_term == 0) && (s.write_flag s.curr_term == 0)
      then s
      else put_with c 1 s
    else if (write_flag == 1) || (write_flag == 2)
    then put_with c write_flag s
    else s

unfoldable pub terminal_putc : ℕ → Term → Option Term
unfolding dispatch override
terminal_putc c s = bitmap_of (bmap_val s) >>= λ b.
    let done = dispatch c (override s (choose_flag b)) s in some (record done { char_from_kb = 0 })
