-- ===== src/CLib/Console/Rendering.antt =====
-- What printf puts on the console: the text that its format and its arguments stand for.
use linux_operating_system.Prelude.{
  ℕ, ◌+◌, ◌-◌, ◌%◌, ◌≤◌, ◌<◌, ◌≡◌, refl, sym, ap, ◌∙◌, ◌≢◌, ◌⊎◌, inl, inr, Bool, true, false, some,
  List, [], ◌∷◌, ◌++◌, arith, leb, ◌==◌, if◌then◌else◌, length, Memory, bytes, codes, word,
}
use linux_operating_system.CLib.Strings.Laws.{IsCString}
use linux_operating_system.CLib.Printf.{Piece, string, convert, text, conversion, buffer, char}
use linux_operating_system.CLib.Printf.Text.{numeral, number_text-numeral}
use linux_operating_system.CLib.Printf.Signed.{zeros, padded_text-numeral, signed_text-numeral}
use linux_operating_system.CLib.Console.Puts.{
  SameOff, put_text_frame, put_text-append, bytes_off, IsCString_off, puts-IsCString,
}
use linux_operating_system.CLib.Console.{
  Console, video_mem, put_text, put_piece, printf_from, printf,
}

-- One item of a format, with its argument. A string argument is an address and a length.
pub data Directive : Type 0 where
  literal : ℕ → Directive
  percent : Directive
  hex : ℕ → Directive
  hex_padded : ℕ → Directive
  unsigned : ℕ → Directive
  signed : ℕ → Directive
  character : ℕ → Directive
  c_string : ℕ → ℕ → Directive

unfoldable pub format_of : Directive → List ℕ
format_of (literal c) = c ∷ []
format_of percent = codes "%%"
format_of (hex v) = codes "%x"
format_of (hex_padded v) = codes "%#x"
format_of (unsigned v) = codes "%u"
format_of (signed v) = codes "%d"
format_of (character v) = codes "%c"
format_of (c_string a n) = codes "%s"

unfoldable pub args_of : Directive → List ℕ
args_of (literal c) = []
args_of percent = []
args_of (hex v) = v ∷ []
args_of (hex_padded v) = v ∷ []
args_of (unsigned v) = v ∷ []
args_of (signed v) = v ∷ []
args_of (character v) = v ∷ []
args_of (c_string a n) = a ∷ []

unfoldable pub text_of : Memory → Directive → List ℕ
unfolding numeral zeros
text_of m (literal c) = c ∷ []
text_of m percent = b'%' ∷ []
text_of m (hex v) = numeral 33 16 v
text_of m (hex_padded v) = zeros (8 - length (numeral 33 16 v)) ++ numeral 33 16 v
text_of m (unsigned v) = numeral 33 10 v
text_of m (signed v) = if leb 2147483648 v then b'-' ∷ numeral 33 10 (word - v) else numeral 33 10 v
text_of m (character v) = (v % 256) ∷ []
text_of m (c_string a n) = bytes m a n

-- A literal is no '%', an argument has 32 bits, and a string is NUL-terminated, off the screen and
-- shorter than the fuel.
unfoldable pub IsPrintable : ℕ → Memory → Directive → Type 0
IsPrintable fuel m (literal c) = c ≢ b'%'
IsPrintable fuel m percent = Unit
IsPrintable fuel m (hex v) = v < word
IsPrintable fuel m (hex_padded v) = v < word
IsPrintable fuel m (unsigned v) = v < word
IsPrintable fuel m (signed v) = v < word
IsPrintable fuel m (character v) = v < word
IsPrintable fuel m (c_string a n) =
    IsCString m a n × (n < fuel) × ((a + n < video_mem) ⊎ (video_mem + 4000 ≤ a))

-- What the conversions of a 32-bit argument print.
pub converted :
    (fuel v : ℕ) (args : List ℕ)
    → v < word
    → 34 < fuel
    → (convert fuel false b'x' (v ∷ args) ≡ some (buffer (numeral 33 16 v), args))
      × (convert fuel true b'x' (v ∷ args)
          ≡ some (buffer (zeros (8 - length (numeral 33 16 v)) ++ numeral 33 16 v), args))
      × (convert fuel false b'u' (v ∷ args) ≡ some (buffer (numeral 33 10 v), args))
      × (convert fuel false b'd' (v ∷ args)
          ≡ some (
            buffer (if leb 2147483648 v then b'-' ∷ numeral 33 10 (word - v) else numeral 33 10 v),
            args,
          ))
unfolding convert
converted fuel v args p h = (
  rw (number_text-numeral fuel 16 v (omega arith) (omega arith) p (omega arith)) refl,
  rw ((padded_text-numeral fuel v p (omega arith)).0) refl,
  rw (number_text-numeral fuel 10 v (omega arith) (omega arith) p (omega arith)) refl,
  elim (signed_text-numeral fuel v p (omega arith)) [
    | inl q ↦ let z : leb 2147483648 v ≡ false = ground (arith, q.0) in rw (q.1, z) refl
    | inr q ↦ let z : leb 2147483648 v ≡ true = ground (arith, q.0) in rw (q.1, z) refl
  ],
)

-- printf goes through one conversion.
printf_from-convert :
    (fuel : ℕ) (alternate : Bool) (c : ℕ) (format args args' : List ℕ) (p : Piece) (s s' : Console)
    → (c == b'#') ≡ false
    → convert fuel alternate c args ≡ some (p, args')
    → put_piece fuel p s ≡ some s'
    → printf_from fuel (conversion alternate) (c ∷ format) args s
      ≡ printf_from fuel text format args' s'
unfolding printf_from
printf_from-convert fuel alternate c format args args' p s s' z e r =
    rw (z, printf_from, e, printf_from, r) refl

-- printf goes through one directive.
printf_from-directive :
    (fuel : ℕ) (d : Directive) (format args : List ℕ) (m : Memory) (s : Console)
    → 34 < fuel
    → SameOff m s.mem
    → IsPrintable fuel m d
    → printf_from fuel text (format_of d ++ format) (args_of d ++ args) s
      ≡ printf_from fuel text format args (put_text (text_of m d) s)
unfolding printf_from format_of args_of text_of IsPrintable put_text put_piece
printf_from-directive fuel (literal c) format args m s h f p =
    let z : (c == b'%') ≡ false = ground arith in rw (z, printf_from) refl
printf_from-directive fuel percent format args m s h f p =
    printf_from-convert fuel false b'%' format args args (char b'%') s _ refl
      (unfold convert in refl) refl
printf_from-directive fuel (hex v) format args m s h f p =
    printf_from-convert fuel false b'x' format (v ∷ args) args _ s _ refl
      ((converted fuel v args p h).0) refl
printf_from-directive fuel (hex_padded v) format args m s h f p =
    printf_from-convert fuel true b'x' format (v ∷ args) args _ s _ refl
      ((converted fuel v args p h).1) refl
printf_from-directive fuel (unsigned v) format args m s h f p =
    printf_from-convert fuel false b'u' format (v ∷ args) args _ s _ refl
      ((converted fuel v args p h).2) refl
printf_from-directive fuel (signed v) format args m s h f p =
    printf_from-convert fuel false b'd' format (v ∷ args) args _ s _ refl
      ((converted fuel v args p h).3) refl
printf_from-directive fuel (character v) format args m s h f p =
    printf_from-convert fuel false b'c' format (v ∷ args) args (char (v % 256)) s _ refl
      (unfold convert in refl) refl
printf_from-directive fuel (c_string a n) format args m s h f (d, le, o) =
    let e : put_piece fuel (string a) s ≡ some (put_text (bytes m a n) s) =
      rw
        (
          puts-IsCString fuel n a s le o (IsCString_off n a m s.mem f o d),
          bytes_off n a m s.mem f (omega arith),
        )
        refl in
    printf_from-convert fuel false b's' format (a ∷ args) args (string a) s _ refl
      (unfold convert in refl) e

unfoldable pub flat : (Directive → List ℕ) → List Directive → List ℕ
flat f [] = []
flat f (d ∷ ds) = f d ++ flat f ds

unfoldable pub ArePrintable : ℕ → Memory → List Directive → Type 0
unfolding IsPrintable
ArePrintable fuel m [] = Unit
ArePrintable fuel m (d ∷ ds) = IsPrintable fuel m d × ArePrintable fuel m ds

printf_from-flat :
    (fuel : ℕ) (ds : List Directive) (m : Memory) (s : Console)
    → 34 < fuel
    → SameOff m s.mem
    → ArePrintable fuel m ds
    → printf_from fuel text (flat format_of ds) (flat args_of ds) s
      ≡ some (put_text (flat (text_of m) ds) s)
unfolding flat ArePrintable
printf_from-flat fuel [] m s h f p = unfold printf_from put_text in refl
printf_from-flat fuel (d ∷ ds) m s h f (p, q) =
    printf_from-directive fuel d (flat format_of ds) (flat args_of ds) m s h f p
    ∙ printf_from-flat fuel ds m (put_text (text_of m d) s) h
        (λ x o. put_text_frame (text_of m d) s x o ∙ f x o) q
    ∙ ap some (sym (put_text-append (text_of m d) (flat (text_of m) ds) s))

-- printf on a format put together from directives, with their arguments: when the literals are no '%',
-- the arguments have 32 bits, the strings are NUL-terminated, off the screen and shorter than the
-- fuel, and the fuel is above 34, it returns the length of the format, and it has put the characters
-- of the directives' texts, one after the other, on the console: the numerals in base 16 and 10, with
-- the zeros of `%#x` and the sign of `%d`, the low byte of a `%c`, and the bytes of a `%s`. No byte
-- outside the 4000 of the screen has changed.
pub printf-flat :
    (fuel : ℕ) (ds : List Directive) (s : Console)
    → 34 < fuel
    → ArePrintable fuel s.mem ds
    → (printf fuel (flat format_of ds) (flat args_of ds) s
        ≡ some (length (flat format_of ds), put_text (flat (text_of s.mem) ds) s))
      × SameOff s.mem (put_text (flat (text_of s.mem) ds) s).mem
unfolding printf
printf-flat fuel ds s h p = (
  rw (printf_from-flat fuel ds s.mem s h (λ x _. refl) p) refl,
  put_text_frame (flat (text_of s.mem) ds) s,
)
