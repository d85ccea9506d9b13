-- ===== src/CLib/Blocks/Copy.antt =====
-- What memcpy and memmove leave in memory.
use linux_operating_system.Prelude.{
  ℕ, zero, suc, ◌+◌, ◌*◌, ◌/◌, ◌%◌, ◌≤◌, ◌≡◌, ap, ◌∙◌, fun_ext, ◌⊎◌, inl, inr, arith, leb, ◌==◌,
  leb→le, Bool-cases, Memory, store, moved,
}
use linux_operating_system.CLib.Blocks.{
  movsb, movsl, memcpy_aligned, memcpy_top, memcpy, movsb_down, memmove,
}

-- Forward copying meets no byte that it has already overwritten.
abbrev pub Forward : ℕ → ℕ → ℕ → Type 0
Forward d s n = (d ≤ s) ⊎ (s + n ≤ d)

pub movsb_lem : (n d s : ℕ) (m : Memory) → Forward d s n → movsb n d s m ≡ moved d s n m
unfolding movsb
movsb_lem zero d s m h = fun_ext λ x. ground arith
movsb_lem (suc n) d s m h = movsb_lem n (d + 1) (s + 1) _ (omega arith) ∙ fun_ext λ x. ground arith

movsl_lem : (n d s : ℕ) (m : Memory) → Forward d s (4 * n) → movsl n d s m ≡ moved d s (4 * n) m
unfolding movsl
movsl_lem zero d s m h = fun_ext λ x. ground arith
movsl_lem (suc n) d s m h = movsl_lem n (d + 4) (s + 4) _ (omega arith) ∙ fun_ext λ x. ground arith

moved-moved :
    (d s k n : ℕ) (m : Memory)
    → Forward d s (k + n)
    → moved (d + k) (s + k) n (moved d s k m) ≡ moved d s (k + n) m
moved-moved d s k n m h = fun_ext λ x. ground arith

memcpy_aligned_lem :
    (n d s : ℕ) (m : Memory) → Forward d s n → memcpy_aligned n d s m ≡ moved d s n m
unfolding memcpy_aligned
memcpy_aligned_lem n d s m h =
    rw
      (
        movsl_lem (n / 4) d s m (omega arith),
        movsb_lem (n % 4) (d + 4 * (n / 4)) (s + 4 * (n / 4)) (moved d s (4 * (n / 4)) m)
            (omega arith),
        moved-moved d s (4 * (n / 4)) (n % 4) m (omega arith),
      )
      (ap (λ k. moved d s k m) (omega arith))

memcpy_top_lem : (n d s : ℕ) (m : Memory) → Forward d s n → memcpy_top n d s m ≡ moved d s n m
unfolding memcpy_top
memcpy_top_lem zero d s m h = fun_ext λ x. ground arith
memcpy_top_lem (suc n) d s m h = elim (Bool-cases (d % 4 == 0)) [
  | inl e ↦ rw (e, memcpy_top) (memcpy_aligned_lem (suc n) d s m h)
  | inr e ↦
      rw (e, memcpy_top)
        (memcpy_top_lem n (d + 1) (s + 1) (store m d (m s)) (omega arith)
          ∙ fun_ext λ x. ground arith)
]

-- Where forward copying meets no byte that it has already overwritten, memcpy moves exactly the block of
-- `n` bytes, however it is aligned.
pub memcpy-moved : (d s n : ℕ) (m : Memory) → Forward d s n → memcpy d s n m ≡ moved d s n m
unfolding memcpy
memcpy-moved d s n m h = memcpy_top_lem n d s m h

movsb_down_lem : (n d s : ℕ) (m : Memory) → s ≤ d → movsb_down n d s m ≡ moved d s n m
unfolding movsb_down
movsb_down_lem zero d s m h = fun_ext λ x. ground arith
movsb_down_lem (suc n) d s m h = movsb_down_lem n d s _ h ∙ fun_ext λ x. ground arith

-- memmove moves exactly the block of `n` bytes, overlapping or not.
pub memmove-moved : (d s n : ℕ) (m : Memory) → memmove d s n m ≡ moved d s n m
unfolding memmove
memmove-moved d s n m = elim (Bool-cases (leb d s)) [
  | inl e ↦ rw e (movsb_lem n d s m (inl (leb→le d s e)))
  | inr e ↦ rw e (movsb_down_lem n d s m (ground arith))
]
