-- ===== src/CLib/Blocks.antt =====
-- memcpy, memmove and the memset family of lib.c. Each assembly loop is one recursion over the
-- counter register (ecx, edx); the registers edi and esi are the addresses `d` and `s`.
pub mod Copy
pub mod Fill
use linux_operating_system.Prelude.{
  ℕ, zero, suc, ◌+◌, ◌-◌, ◌*◌, ◌/◌, ◌%◌, ◌^◌, ◌≤◌, ◌<◌, min, bit_and, bit_or, ◌≡◌, refl, sym, ap,
  ◌∙◌, fun_ext, subst, ◌≢◌, ◌↔◌, ◌⊎◌, inl, inr, Bool, true, false, ◌&&◌, ◌||◌, not, Option, none,
  some, List, [], ◌∷◌, ◌++◌, map, reverse, arith, ltb, leb, ◌==◌, if◌then◌else◌, ltb→lt, leb→le,
  ==_iff, Bool-cases, ◌>>=◌, length, get_elem?, get_or, set, length-append, length-set,
  get_elem?-set_self, get_elem?-set_ne, ℤ, pos, negsuc, minus_one, sub_ℕ, Memory, store, load32,
  store32, bytes, codes, moved, filled, is_table, table_entry, table_witness, word, add32, sub32,
  to_int32,
}

-- `rep movsb` with the direction flag clear, and the byte loops of memcpy.
unfoldable pub movsb : ℕ → ℕ → ℕ → Memory → Memory
movsb zero d s m = m
movsb (suc n) d s m = movsb n (d + 1) (s + 1) (store m d (m s))

-- A four-byte store: all four bytes are read before any is written.
abbrev store_word : Memory → ℕ → ℕ → ℕ → ℕ → ℕ → Memory
store_word m d a b c e = store (store (store (store m d a) (d + 1) b) (d + 2) c) (d + 3) e

-- `rep movsl`
unfoldable pub movsl : ℕ → ℕ → ℕ → Memory → Memory
movsl zero d s m = m
movsl (suc n) d s m =
    movsl n (d + 4) (s + 4) (store_word m d (m s) (m (s + 1)) (m (s + 2)) (m (s + 3)))

-- `.memcpy_aligned`: ecx >> 2 dwords, then ecx & 3 bytes.
unfoldable pub memcpy_aligned : ℕ → ℕ → ℕ → Memory → Memory
memcpy_aligned n d s m = movsb (n % 4) (d + 4 * (n / 4)) (s + 4 * (n / 4)) (movsl (n / 4) d s m)

-- `.memcpy_top`: bytes until edi is a multiple of four or ecx is zero.
unfoldable pub memcpy_top : ℕ → ℕ → ℕ → Memory → Memory
memcpy_top zero d s m = m
memcpy_top (suc n) d s m = elim (d % 4 == 0) [
  | true ↦ memcpy_aligned (suc n) d s m
  | false ↦ memcpy_top n (d + 1) (s + 1) (store m d (m s))
]

unfoldable pub memcpy : ℕ → ℕ → ℕ → Memory → Memory
memcpy d s n m = memcpy_top n d s m

-- `rep movsb` with the direction flag set, from the last byte down.
unfoldable pub movsb_down : ℕ → ℕ → ℕ → Memory → Memory
movsb_down zero d s m = m
movsb_down (suc n) d s m = movsb_down n d s (store m (d + n) (m (s + n)))

-- `jae` goes forward where the source does not lie below the destination.
unfoldable pub memmove : ℕ → ℕ → ℕ → Memory → Memory
memmove d s n m = if leb d s then movsb n d s m else movsb_down n d s m

-- The byte loops of memset.
unfoldable pub stosb : ℕ → ℕ → ℕ → Memory → Memory
stosb zero d c m = m
stosb (suc n) d c m = stosb n (d + 1) c (store m d c)

-- `rep stosl` of a dword given by its four bytes, lowest first.
unfoldable pub stosl : ℕ → ℕ → ℕ → ℕ → ℕ → ℕ → Memory → Memory
stosl zero d a b c e m = m
stosl (suc n) d a b c e m = stosl n (d + 4) a b c e (store_word m d a b c e)

unfoldable pub memset_top : ℕ → ℕ → ℕ → Memory → Memory
memset_top zero d c m = m
memset_top (suc n) d c m = elim (d % 4 == 0) [
  | true ↦ stosb (suc n % 4) (d + 4 * (suc n / 4)) c (stosl (suc n / 4) d c c c c m)
  | false ↦ memset_top n (d + 1) c (store m d c)
]

-- `c &= 0xFF`, and eax holds the byte four times.
unfoldable pub memset : ℕ → ℕ → ℕ → Memory → Memory
memset d c n m = memset_top n d (c % 256) m

-- `rep stosw`: ax, its low byte first.
unfoldable pub memset_word : ℕ → ℕ → ℕ → Memory → Memory
memset_word d c zero m = m
memset_word d c (suc n) m =
    memset_word (d + 2) c n (store (store m d (c % 256)) (d + 1) (c / 256 % 256))

unfoldable pub memset_dword : ℕ → ℕ → ℕ → Memory → Memory
memset_dword d c n m = stosl n d (c % 256) (c / 256 % 256) (c / 65536 % 256) (c / 16777216 % 256) m
