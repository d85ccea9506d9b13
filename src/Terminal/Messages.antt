-- ===== src/Terminal/Messages.antt =====
-- terminal_printf by the running terminal: that it returns, and what it does to the input lines.
use linux_operating_system.Prelude.{
  ℕ, ◌+◌, ◌%◌, ◌≤◌, ◌<◌, ◌≡◌, refl, ◌∙◌, ◌≢◌, some, List, [], ◌∷◌, ◌++◌, arith, length,
  length-append, Memory,
}
use linux_operating_system.CLib.Printf.{convert, text}
use linux_operating_system.CLib.Console.Rendering.{
  Directive, literal, percent, hex, hex_padded, unsigned, signed, character, c_string, format_of,
  args_of, text_of, IsPrintable, flat, ArePrintable, converted,
}
use linux_operating_system.Terminal.{Term}
use linux_operating_system.Terminal.Touches.{SameElsewhere}
use linux_operating_system.Terminal.Calls.{terminal_reset_buffer}
use linux_operating_system.Terminal.Safety.{During, reset-During, IsReady, begin}
use linux_operating_system.Terminal.Printing.{
  Within, putc-Within, print_from-literal, print_from-buffer, print_from-padded, print_from-char,
}
use linux_operating_system.Terminal.Print.{start_output, end_output, print_from, terminal_printf}

-- No string is printed.
unfoldable pub HasNoString : Directive → Type 0
HasNoString (literal c) = Unit
HasNoString percent = Unit
HasNoString (hex v) = Unit
HasNoString (hex_padded v) = Unit
HasNoString (unsigned v) = Unit
HasNoString (signed v) = Unit
HasNoString (character v) = Unit
HasNoString (c_string a n) = ⊥

unfoldable pub HaveNoString : List Directive → Type 0
unfolding HasNoString
HaveNoString [] = Unit
HaveNoString (d ∷ ds) = HasNoString d × HaveNoString ds

module _ (t : ℕ) (s0 : Term) (fuel : ℕ) (m : Memory) (enough : 34 < fuel) where
  print_from-directive :
      (d : Directive) (format args : List ℕ) (index n : ℕ) (s : Term)
      → IsPrintable fuel m d
      → HasNoString d
      → Within t s0 n s
      → n + length (text_of m d) ≤ 127
      → index + length (format_of d) ≤ 127
      → (s' : Term) × (print_from fuel text (format_of d ++ format) (args_of d ++ args) index s
          ≡ print_from fuel text format args (index + length (format_of d)) s')
        × Within t s0 (n + length (text_of m d)) s'
  unfolding format_of args_of text_of IsPrintable HasNoString
  print_from-directive (literal c) format args index n s p q v h i =
      let (s1, run, v1) = putc-Within t s0 c n s v (omega arith) in
      (s1, print_from-literal fuel c format args index s s1 (omega arith) p run, v1)
  print_from-directive percent format args index n s p q v h i =
      print_from-char t s0 fuel b'%' b'%' format args args index n s refl (unfold convert in refl) v
        (omega arith) (omega arith)
  print_from-directive (hex x) format args index n s p q v h i =
      print_from-buffer t s0 fuel b'x' _ format (x ∷ args) args index n s refl
        ((converted fuel x args p enough).0) v h i
  print_from-directive (hex_padded x) format args index n s p q v h i =
      print_from-padded t s0 fuel b'x' _ format (x ∷ args) args index n s refl
        ((converted fuel x args p enough).1) v h i
  print_from-directive (unsigned x) format args index n s p q v h i =
      print_from-buffer t s0 fuel b'u' _ format (x ∷ args) args index n s refl
        ((converted fuel x args p enough).2) v h i
  print_from-directive (signed x) format args index n s p q v h i =
      print_from-buffer t s0 fuel b'd' _ format (x ∷ args) args index n s refl
        ((converted fuel x args p enough).3) v h i
  print_from-directive (character x) format args index n s p q v h i =
      print_from-char t s0 fuel b'c' (x % 256) format (x ∷ args) args index n s refl
        (unfold convert in refl) v (omega arith) (omega arith)
  print_from-directive (c_string a k) format args index n s p q v h i = elim q [ ]

  print_from-flat :
      (ds : List Directive) (index n : ℕ) (s : Term)
      → ArePrintable fuel m ds
      → HaveNoString ds
      → Within t s0 n s
      → n + length (flat (text_of m) ds) ≤ 127
      → index + length (flat format_of ds) ≤ 127
      → (s' : Term) × (print_from fuel text (flat format_of ds) (flat args_of ds) index s ≡ some s')
        × During t s0 s'
  unfolding flat ArePrintable HaveNoString
  print_from-flat [] index n s p q v h i = (s, unfold print_from in refl, v.during)
  print_from-flat (d ∷ ds) index n s (p, ps) (q, qs) v h i =
      let cut = length-append (text_of m d) (flat (text_of m) ds) in
      let cut' = length-append (format_of d) (flat format_of ds) in
      let (s1, run, v1) =
        print_from-directive d (flat format_of ds) (flat args_of ds) index n s p q v (omega arith)
          (omega arith) in
      let (s2, run2, d2) =
        print_from-flat ds (index + length (format_of d)) (n + length (text_of m d)) s1 ps qs v1
          (omega arith) (omega arith) in
      (s2, run ∙ run2, d2)

end-IsReady : (t w r : ℕ) (s0 s : Term) → During t s0 s → IsReady t (end_output w r s)
unfolding end_output
end-IsReady t w r s0 s v =
    let d = reset-During t s0 s v in
    record {
      running = d.writing.running;
      no_key = d.writing.no_key;
      flags = record {
        disp = ground (arith, d.writing.flags.disp, d.writing.running, d.writing.writes);
        curr = ground (arith, d.writing.flags.curr, d.writing.running, d.writing.writes);
        key = d.writing.flags.key;
      };
      line = d.line;
    }

-- terminal_printf by the running terminal `t`, when it is ready, on directives that are printable
-- and no strings, when their texts fit on the line behind what is on it and the format is shorter than
-- a line, returns the length of the format on more than 34 units of fuel. Afterwards the terminal is
-- ready, its line is empty and its flags are as before, and neither the index of another terminal nor a
-- byte outside the two lines of `t` has changed.
pub terminal_printf-safe :
    (fuel t : ℕ) (ds : List Directive) (s : Term)
    → 34 < fuel
    → IsReady t s
    → ArePrintable fuel s.mem ds
    → HaveNoString ds
    → s.curr_idx t + length (flat (text_of s.mem) ds) ≤ 127
    → length (flat format_of ds) ≤ 127
    → (s' : Term) × (terminal_printf fuel (flat format_of ds) (flat args_of ds) s
        ≡ some (length (flat format_of ds), s'))
      × IsReady t s'
      × (s'.curr_idx t ≡ 0)
      × (s'.write_flag t ≡ s.write_flag t)
      × (s'.read_flag t ≡ s.read_flag t)
      × ((u : ℕ) → u ≢ t → s'.curr_idx u ≡ s.curr_idx u)
      × SameElsewhere t s.input_buffer s'.input_buffer
unfolding terminal_printf end_output
terminal_printf-safe fuel t ds s enough w p q h i =
    let v : Within t (start_output s) (s.curr_idx t) (start_output s) = record {
      during = begin t s w;
      index = omega arith;
    } in
    let (s1, run, d) =
      print_from-flat t (start_output s) fuel s.mem enough ds 0 (s.curr_idx t) (start_output s) p q
        v h (omega arith) in
    let r = reset-During t (start_output s) s1 d in
    (
      end_output (s.write_flag s.curr_term) (s.read_flag s.curr_term) s1,
      rw run refl,
      end-IsReady t _ _ (start_output s) s1 d,
      unfold terminal_reset_buffer in ground (arith, d.writing.running),
      unfold terminal_reset_buffer in ground (arith, d.writing.running, w.running),
      unfold terminal_reset_buffer in ground (arith, d.writing.running, w.running),
      r.others,
      r.input,
    )
