-- ===== src/Terminal/Printing.antt =====
-- The steps of terminal_printf: a character, a conversion, and what they leave on the line.
use linux_operating_system.Prelude.{
  ℕ, ◌+◌, ◌%◌, ◌≤◌, ◌<◌, ◌≡◌, refl, ap, ◌∙◌, ◌≢◌, Bool, true, false, some, List, [], ◌∷◌, arith,
  ◌==◌, length, store,
}
use linux_operating_system.CLib.Printf.{Piece, char, buffer, convert, text, conversion}
use linux_operating_system.Terminal.{Term}
use linux_operating_system.Terminal.Putc.{terminal_putc}
use linux_operating_system.Terminal.Calls.{terminal_reset_buffer}
use linux_operating_system.Terminal.Safety.{During, reset-During, putc-During}
use linux_operating_system.Terminal.Print.{
  start_output, end_output, put_chars, puts_buffer, print_piece, print_from,
}

-- During output by terminal `t` its line holds `n` characters at most.
pub record Within (t : ℕ) (s0 : Term) (n : ℕ) (s : Term) : Type 0 where
  pub during : During t s0 s
  pub index : s.curr_idx t ≤ n

module _ (t : ℕ) (s0 : Term) where
  -- The flags of output are put up or back.
  flags-During :
      (s : Term) (w r : ℕ)
      → During t s0 s
      → w ≡ 1
      → r ≡ 0
      → During t s0 (record s {
        write_flag = store s.write_flag s.curr_term w;
        read_flag = store s.read_flag s.curr_term r;
      })
  flags-During s w r d e q = record {
    writing = record {
      flags = record {
        disp = ground (arith, d.writing.flags.disp);
        curr = ground (arith, d.writing.flags.curr);
        key = d.writing.flags.key;
      };
      running = d.writing.running;
      writes = ground (arith, d.writing.running);
      no_key = d.writing.no_key;
    };
    disp = d.disp;
    line = d.line;
    others = d.others;
    input = d.input;
  }

  end-Within :
      (s : Term) (w r : ℕ) → During t s0 s → w ≡ 1 → r ≡ 0 → Within t s0 0 (end_output w r s)
  unfolding end_output
  end-Within s w r d e q = record {
    during = flags-During (terminal_reset_buffer s) w r (reset-During t s0 s d) e q;
    index = unfold terminal_reset_buffer in ground (arith, d.writing.running);
  }

  pub putc-Within :
      (c n : ℕ) (s : Term)
      → Within t s0 n s
      → n < 127
      → (s' : Term) × (terminal_putc c s ≡ some s') × Within t s0 (n + 1) s'
  putc-Within c n s v h =
      let le = v.index in
      let (s1, run, d1, le1) = putc-During t c s0 s v.during (omega arith) in
      (s1, run, record { during = d1; index = omega arith })

  put_chars-Within :
      (cs : List ℕ) (index n : ℕ) (s : Term)
      → Within t s0 n s
      → n + length cs ≤ 127
      → index + length cs ≤ 127
      → (s' : Term) × (put_chars cs index s ≡ some s') × Within t s0 (n + length cs) s'
  unfolding put_chars
  put_chars-Within [] index n s v h i =
      let le = v.index in (s, refl, record { during = v.during; index = omega arith })
  put_chars-Within (c ∷ cs) index n s v h i =
      let z : (index % 128 == 127) ≡ false = ground arith in
      let (s1, run, v1) = putc-Within c n s v (omega arith) in
      let (s2, run2, v2) =
        put_chars-Within cs (index + 1) (n + 1) s1 v1 (omega arith) (omega arith) in
      let le = v2.index in
      (
        s2,
        rw (z, put_chars, run, put_chars) run2,
        record { during = v2.during; index = omega arith },
      )

  -- A conversion's text, that fits on the line, is printed, and the line is empty after it.
  puts_buffer-Within :
      (cs : List ℕ) (n : ℕ) (s : Term)
      → Within t s0 n s
      → n + length cs ≤ 127
      → (s' : Term) × (puts_buffer cs s ≡ some s') × Within t s0 0 s'
  unfolding puts_buffer
  puts_buffer-Within cs n s v h =
      let d = v.during in
      let w : s.write_flag s.curr_term ≡ 1 = ap s.write_flag d.writing.running ∙ d.writing.writes in
      let r : s.read_flag s.curr_term ≡ 0 = let q = d.writing.flags.curr in omega arith in
      let begun : Within t s0 n (start_output s) = record {
        during = flags-During s 1 0 d refl refl;
        index = v.index;
      } in
      let (s1, run, v1) = put_chars-Within cs 0 n (start_output s) begun h (omega arith) in
      (
        end_output (s.write_flag s.curr_term) (s.read_flag s.curr_term) s1,
        rw run refl,
        end-Within s1 _ _ v1.during w r,
      )

-- A conversion that prints the piece `p`.
print_from-convert :
    (fuel : ℕ) (alternate : Bool) (c : ℕ) (format args args' : List ℕ) (index : ℕ) (p : Piece)
    (s s' : Term)
    → (c == b'#') ≡ false
    → convert fuel alternate c args ≡ some (p, args')
    → print_piece fuel p s ≡ some s'
    → print_from fuel (conversion alternate) (c ∷ format) args index s
      ≡ print_from fuel text format args' (index + 1) s'
unfolding print_from
print_from-convert fuel alternate c format args args' index p s s' z e r =
    rw (z, print_from, e, print_from, r) refl

print_from-start :
    (fuel : ℕ) (format args : List ℕ) (index : ℕ) (s : Term)
    → index < 127
    → print_from fuel text (b'%' ∷ format) args index s
      ≡ print_from fuel (conversion false) format args (index + 1) s
unfolding print_from
print_from-start fuel format args index s h =
    let z : (index % 128 == 127) ≡ false = ground arith in rw (z) refl

print_from-hash :
    (fuel : ℕ) (format args : List ℕ) (index : ℕ) (s : Term)
    → print_from fuel (conversion false) (b'#' ∷ format) args index s
      ≡ print_from fuel (conversion true) format args (index + 1) s
unfolding print_from
print_from-hash fuel format args index s = refl

pub print_from-literal :
    (fuel c : ℕ) (format args : List ℕ) (index : ℕ) (s s' : Term)
    → index < 127
    → c ≢ b'%'
    → terminal_putc c s ≡ some s'
    → print_from fuel text (c ∷ format) args index s
      ≡ print_from fuel text format args (index + 1) s'
unfolding print_from
print_from-literal fuel c format args index s s' h p run =
    let z : (index % 128 == 127) ≡ false = ground arith in
    let o : (c == b'%') ≡ false = ground arith in rw (o, print_from, z, run) refl

module _ (t : ℕ) (s0 : Term) (fuel : ℕ) where
  -- `%`, any `#` and the letter of a conversion that prints the text `cs`.
  pub print_from-buffer :
      (c : ℕ) (cs format args args' : List ℕ) (index n : ℕ) (s : Term)
      → (c == b'#') ≡ false
      → convert fuel false c args ≡ some (buffer cs, args')
      → Within t s0 n s
      → n + length cs ≤ 127
      → index + 2 ≤ 127
      → (s' : Term) × (print_from fuel text (b'%' ∷ c ∷ format) args index s
          ≡ print_from fuel text format args' (index + 2) s')
        × Within t s0 (n + length cs) s'
  print_from-buffer c cs format args args' index n s z e v h i =
      let (s1, run, v1) = puts_buffer-Within t s0 cs n s v h in
      let le = v1.index in
      (
        s1,
        print_from-start fuel (c ∷ format) args index s (omega arith)
            ∙ print_from-convert fuel false c format args args' (index + 1) (buffer cs) s s1 z e
                (unfold print_piece in run)
            ∙ ap (λ k. print_from fuel text format args' k s1) (omega arith),
        record { during = v1.during; index = omega arith },
      )

  pub print_from-padded :
      (c : ℕ) (cs format args args' : List ℕ) (index n : ℕ) (s : Term)
      → (c == b'#') ≡ false
      → convert fuel true c args ≡ some (buffer cs, args')
      → Within t s0 n s
      → n + length cs ≤ 127
      → index + 3 ≤ 127
      → (s' : Term) × (print_from fuel text (b'%' ∷ b'#' ∷ c ∷ format) args index s
          ≡ print_from fuel text format args' (index + 3) s')
        × Within t s0 (n + length cs) s'
  print_from-padded c cs format args args' index n s z e v h i =
      let (s1, run, v1) = puts_buffer-Within t s0 cs n s v h in
      let le = v1.index in
      (
        s1,
        print_from-start fuel (b'#' ∷ c ∷ format) args index s (omega arith)
            ∙ print_from-hash fuel (c ∷ format) args (index + 1) s
            ∙ print_from-convert fuel true c format args args' (index + 1 + 1) (buffer cs) s s1 z e
                (unfold print_piece in run)
            ∙ ap (λ k. print_from fuel text format args' k s1) (omega arith),
        record { during = v1.during; index = omega arith },
      )

  -- A conversion that prints one character.
  pub print_from-char :
      (c x : ℕ) (format args args' : List ℕ) (index n : ℕ) (s : Term)
      → (c == b'#') ≡ false
      → convert fuel false c args ≡ some (char x, args')
      → Within t s0 n s
      → n < 127
      → index + 2 ≤ 127
      → (s' : Term) × (print_from fuel text (b'%' ∷ c ∷ format) args index s
          ≡ print_from fuel text format args' (index + 2) s')
        × Within t s0 (n + 1) s'
  print_from-char c x format args args' index n s z e v h i =
      let (s1, run, v1) = putc-Within t s0 x n s v h in
      (
        s1,
        print_from-start fuel (c ∷ format) args index s (omega arith)
            ∙ print_from-convert fuel false c format args args' (index + 1) (char x) s s1 z e
                (unfold print_piece in run)
            ∙ ap (λ k. print_from fuel text format args' k s1) (omega arith),
        v1,
      )
