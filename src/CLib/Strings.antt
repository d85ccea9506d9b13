-- ===== src/CLib/Strings.antt =====
-- The string routines of lib.c. A loop that runs to a NUL takes fuel, and `none` is a run that the
-- fuel does not cover; the counted loops recur on the rounds left.
pub mod Laws
pub mod Compare
pub mod Reverse
pub mod Digits
pub mod Numerals
use linux_operating_system.Prelude.{
  ℕ, zero, suc, ◌+◌, ◌-◌, ◌*◌, ◌/◌, ◌%◌, ◌^◌, ◌≤◌, ◌<◌, min, bit_and, bit_or, ◌≡◌, refl, sym, ap,
  ◌∙◌, fun_ext, subst, ◌≢◌, ◌↔◌, ◌⊎◌, inl, inr, Bool, true, false, ◌&&◌, ◌||◌, not, Option, none,
  some, List, [], ◌∷◌, ◌++◌, map, reverse, arith, ltb, leb, ◌==◌, if◌then◌else◌, ltb→lt, leb→le,
  ==_iff, Bool-cases, ◌>>=◌, length, get_elem?, get_or, set, length-append, length-set,
  get_elem?-set_self, get_elem?-set_ne, ℤ, pos, negsuc, minus_one, sub_ℕ, Memory, store, load32,
  store32, bytes, codes, moved, filled, is_table, table_entry, table_witness, word, add32, sub32,
  to_int32,
}

unfoldable pub strlen_from : ℕ → Memory → ℕ → ℕ → Option ℕ
strlen_from zero m s len = none
strlen_from (suc fuel) m s len = elim (m (s + len) == 0) [
  | true ↦ some len
  | false ↦ strlen_from fuel m s (len + 1)
]

unfoldable pub strlen : ℕ → Memory → ℕ → Option ℕ
unfolding strlen_from
strlen fuel m s = strlen_from fuel m s 0

-- `int8_t` is a signed char: the difference of the two signed values.
unfoldable pub char_diff : ℕ → ℕ → ℤ
char_diff a b = sub_ℕ ((a + 128) % 256) ((b + 128) % 256)

-- The first argument counts the rounds left, `i` those made.
unfoldable pub strncmp_from : ℕ → Memory → ℕ → ℕ → ℕ → ℤ
strncmp_from zero m s1 s2 i = pos 0
strncmp_from (suc left) m s1 s2 i = elim (not (m (s1 + i) == m (s2 + i)) || (m (s1 + i) == 0)) [
  | true ↦ char_diff (m (s1 + i)) (m (s2 + i))
  | false ↦ strncmp_from left m s1 s2 (i + 1)
]

unfoldable pub strncmp : Memory → ℕ → ℕ → ℕ → ℤ
strncmp m s1 s2 n = strncmp_from n m s1 s2 0

unfoldable pub strcpy_from : ℕ → ℕ → ℕ → ℕ → Memory → Option Memory
strcpy_from zero d s i m = none
strcpy_from (suc fuel) d s i m = elim (m (s + i) == 0) [
  | true ↦ some (store m (d + i) 0)
  | false ↦ strcpy_from fuel d s (i + 1) (store m (d + i) (m (s + i)))
]

unfoldable pub strcpy : ℕ → ℕ → ℕ → Memory → Option Memory
strcpy fuel d s m = strcpy_from fuel d s 0 m

-- The second loop of strncpy.
unfoldable pub strncpy_pad : ℕ → ℕ → ℕ → Memory → Memory
strncpy_pad zero d i m = m
strncpy_pad (suc left) d i m = strncpy_pad left d (i + 1) (store m (d + i) 0)

unfoldable pub strncpy_from : ℕ → ℕ → ℕ → ℕ → Memory → Memory
strncpy_from zero d s i m = m
strncpy_from (suc left) d s i m = elim (m (s + i) == 0) [
  | true ↦ strncpy_pad (suc left) d i m
  | false ↦ strncpy_from left d s (i + 1) (store m (d + i) (m (s + i)))
]

unfoldable pub strncpy : ℕ → ℕ → ℕ → Memory → Memory
strncpy d s n m = strncpy_from n d s 0 m

-- The loop of strrev on `stop` = end + 1, so that the empty string's end of -1 is `stop` = 0.
unfoldable pub strrev_from : ℕ → ℕ → ℕ → Memory → Memory
strrev_from zero s beg m = m
strrev_from (suc end) s beg m = elim (ltb beg end) [
  | true ↦
      strrev_from end s (beg + 1) (store (store m (s + end) (m (s + beg))) (s + beg) (m (s + end)))
  | false ↦ m
]

unfoldable pub strrev : ℕ → ℕ → Memory → Option Memory
unfolding strlen strrev_from
strrev fuel s m = strlen fuel m s >>= λ len. some (strrev_from len s 0 m)

-- `static int8_t lookup[]`, its NUL included.
abbrev pub lookup : List ℕ
lookup = codes "0123456789ABCDEFGHIJKLMNOPQRSTUVWXYZ" ++ (0 ∷ [])

-- The digits, least significant first, from address `p` on; the end of them and the memory. `none` is
-- also a read past `lookup`.
unfoldable pub itoa_loop : ℕ → ℕ → ℕ → ℕ → Memory → Option (ℕ × Memory)
itoa_loop zero newval radix p m = none
itoa_loop (suc fuel) newval radix p m = elim (newval == 0) [
  | true ↦ some (p, m)
  | false ↦ elim (get_elem? lookup (newval % radix)) [
    | none ↦ none
    | some c ↦ itoa_loop fuel (newval / radix) radix (p + 1) (store m p c)
  ]
]

-- A radix of 0 is a divide error.
unfoldable pub itoa : ℕ → ℕ → ℕ → ℕ → Memory → Option Memory
unfolding itoa_loop strrev
itoa fuel value buf radix m = elim (value == 0) [
  | true ↦ some (store (store m buf b'0') (buf + 1) 0)
  | false ↦ elim (radix == 0) [
    | true ↦ none
    | false ↦ itoa_loop fuel value radix buf m >>= λ r. strrev fuel buf (store r.1 r.0 0)
  ]
]
