-- ===== src/CLib/Printf.antt =====
-- lib.c and terminal.c: the conversions that printf and terminal_printf share. A conversion buffer is a
-- local array; it is a memory of its own, and what is printed of it is the list of its characters.
-- `none` is a run that the fuel does not end, or one that goes past the format or the arguments.
pub mod Text
pub mod Signed
use linux_operating_system.Prelude.{
  ℕ, zero, suc, ◌+◌, ◌-◌, ◌*◌, ◌/◌, ◌%◌, ◌^◌, ◌≤◌, ◌<◌, min, bit_and, bit_or, ◌≡◌, refl, sym, ap,
  ◌∙◌, fun_ext, subst, ◌≢◌, ◌↔◌, ◌⊎◌, inl, inr, Bool, true, false, ◌&&◌, ◌||◌, not, Option, none,
  some, List, [], ◌∷◌, ◌++◌, map, reverse, arith, ltb, leb, ◌==◌, if◌then◌else◌, ltb→lt, leb→le,
  ==_iff, Bool-cases, ◌>>=◌, length, get_elem?, get_or, set, length-append, length-set,
  get_elem?-set_self, get_elem?-set_ne, ℤ, pos, negsuc, minus_one, sub_ℕ, Memory, store, load32,
  store32, bytes, codes, moved, filled, is_table, table_entry, table_witness, word, add32, sub32,
  to_int32,
}
use linux_operating_system.CLib.Strings.{itoa, strlen}

-- The characters of the string at `a`.
unfoldable pub text_at : ℕ → Memory → ℕ → Option (List ℕ)
text_at fuel m a = strlen fuel m a >>= λ n. some (bytes m a n)

abbrev pub blank : Memory
blank _ = 0

-- `%x` and `%u`: itoa into the buffer.
unfoldable pub number_text : ℕ → ℕ → ℕ → Option (List ℕ)
unfolding text_at
number_text fuel v radix = itoa fuel v 0 radix blank >>= λ m. text_at fuel m 0

-- `while (i < 8) { conv_buf[i] = '0'; i++; }`
unfoldable pub pad_zeros : ℕ → ℕ → Memory → Memory
pad_zeros zero i m = m
pad_zeros (suc left) i m = pad_zeros left (i + 1) (store m i b'0')

-- `%#x`: the digits from index 8 on, with zeros before them from the index that is their number.
unfoldable pub padded_text : ℕ → ℕ → Option (List ℕ)
unfolding text_at
padded_text fuel v = itoa fuel v 8 16 blank >>= λ m. strlen fuel m 8 >>= λ starting_index.
    text_at fuel (pad_zeros (8 - starting_index) starting_index m) starting_index

-- `%d`, of the bit pattern `v`.
unfoldable pub signed_text : ℕ → ℕ → Option (List ℕ)
unfolding text_at number_text
signed_text fuel v =
    if leb 2147483648 v
    then (itoa fuel (word - v) 1 10 (store blank 0 b'-') >>= λ m. text_at fuel m 0)
    else number_text fuel v 10

-- What a conversion prints: a character, a conversion buffer, or the string at an address.
pub data Piece : Type 0 where
  nothing : Piece
  char : ℕ → Piece
  buffer : List ℕ → Piece
  string : ℕ → Piece

-- `*esp`, with `esp++` behind it.
abbrev pub with_arg : (ℕ → Option Piece) → List ℕ → Option (Piece × List ℕ)
with_arg f [] = none
with_arg f (v ∷ args) = f v >>= λ p. some (p, args)

-- The inner switch, on a conversion's letter other than '#'.
unfoldable pub convert : ℕ → Bool → ℕ → List ℕ → Option (Piece × List ℕ)
unfolding number_text padded_text signed_text
convert fuel alternate c args =
    if c == b'%'
    then some (char b'%', args)
    else if c == b'x'
    then with_arg
        (λ v. (if alternate then padded_text fuel v else number_text fuel v 16) >>= λ t.
          some (buffer t))
        args
    else if c == b'u'
    then with_arg (λ v. number_text fuel v 10 >>= λ t. some (buffer t)) args
    else if c == b'd'
    then with_arg (λ v. signed_text fuel v >>= λ t. some (buffer t)) args
    else if c == b'c'
    then with_arg (λ v. some (char (v % 256))) args
    else if c == b's'
    then with_arg (λ v. some (string v)) args
    else some (nothing, args)

-- Where the outer loop stands: at ordinary text, or behind a '%', with `alternate`.
pub data Mode : Type 0 where
  text : Mode
  conversion : Bool → Mode
