-- ===== src/CLib/Blocks/Fill.antt =====
-- What the memset family leaves in memory.
use linux_operating_system.Prelude.{
  ℕ, zero, suc, ◌+◌, ◌-◌, ◌*◌, ◌/◌, ◌%◌, ◌≡◌, ap, ◌∙◌, fun_ext, inl, inr, ◌&&◌, arith, ltb, leb,
  ◌==◌, if◌then◌else◌, Bool-cases, Memory, store, filled,
}
use linux_operating_system.CLib.Blocks.{stosb, stosl, memset_top, memset, memset_word}

stosb_lem : (n d c : ℕ) (m : Memory) → stosb n d c m ≡ filled d c n m
unfolding stosb
stosb_lem zero d c m = fun_ext λ x. ground arith
stosb_lem (suc n) d c m = stosb_lem n (d + 1) c _ ∙ fun_ext λ x. ground arith

stosl_lem : (n d c : ℕ) (m : Memory) → stosl n d c c c c m ≡ filled d c (4 * n) m
unfolding stosl
stosl_lem zero d c m = fun_ext λ x. ground arith
stosl_lem (suc n) d c m = stosl_lem n (d + 4) c _ ∙ fun_ext λ x. ground arith

filled-filled :
    (d c k n : ℕ) (m : Memory) → filled (d + k) c n (filled d c k m) ≡ filled d c (k + n) m
filled-filled d c k n m = fun_ext λ x. ground arith

memset_top_lem : (n d c : ℕ) (m : Memory) → memset_top n d c m ≡ filled d c n m
unfolding memset_top
memset_top_lem zero d c m = fun_ext λ x. ground arith
memset_top_lem (suc n) d c m = elim (Bool-cases (d % 4 == 0)) [
  | inl e ↦
      rw
        (
          e,
          memset_top,
          stosl_lem (suc n / 4) d c m,
          stosb_lem (suc n % 4) (d + 4 * (suc n / 4)) c,
          filled-filled d c (4 * (suc n / 4)) (suc n % 4) m,
        )
        (ap (λ k. filled d c k m) (omega arith))
  | inr e ↦
      rw (e, memset_top) (memset_top_lem n (d + 1) c (store m d c) ∙ fun_ext λ x. ground arith)
]

-- memset fills exactly the block of `n` bytes at `d` with the low byte of `c`, however `d` is aligned.
pub memset-filled : (d c n : ℕ) (m : Memory) → memset d c n m ≡ filled d (c % 256) n m
unfolding memset
memset-filled d c n m = memset_top_lem n d (c % 256) m

-- memset_word writes `n` little-endian words: the low byte at even offsets, the high byte at odd ones.
pub memset_word_lem :
    (n d c : ℕ) (m : Memory) (x : ℕ)
    → memset_word d c n m x ≡ (
        if leb d x && ltb x (d + 2 * n)
        then if (x - d) % 2 == 0 then c % 256 else c / 256 % 256
        else m x)
unfolding memset_word
memset_word_lem zero d c m x = ground arith
memset_word_lem (suc n) d c m x = memset_word_lem n (d + 2) c _ x ∙ ground arith
