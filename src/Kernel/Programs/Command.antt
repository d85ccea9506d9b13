-- ===== src/Kernel/Programs/Command.antt =====
-- The loops of get_args_fname.
use linux_operating_system.Prelude.{
  ℕ, zero, suc, ◌+◌, ◌≤◌, ◌<◌, ◌≡◌, refl, ap, ◌∙◌, fun_ext, ◌≢◌, ◌⊎◌, Bool, true, false, some,
  arith, ◌==◌, Memory, store, moved,
}
use linux_operating_system.Kernel.Programs.{skip_spaces, copy_until}

one_later : (i n : ℕ) → i + 1 + n ≡ i + suc n
one_later i n = omega arith

pub skip_spaces_lem :
    (fuel n : ℕ) (m : Memory) (command i : ℕ)
    → n < fuel
    → ((x : ℕ) → x < n → m (command + (i + x)) ≡ 32)
    → m (command + (i + n)) ≢ 32
    → skip_spaces fuel m command i ≡ some (i + n)
unfolding skip_spaces
skip_spaces_lem zero n m command i h sp end = absurd (omega arith)
skip_spaces_lem (suc fuel) zero m command i h sp end =
    let e : (m (command + i) == 32) ≡ false = ground arith in rw e (ap some (omega arith))
skip_spaces_lem (suc fuel) (suc n) m command i h sp end =
    let z = sp 0 (omega arith) in
    let e : (m (command + i) == 32) ≡ true = ground arith in
    let r =
      skip_spaces_lem fuel n m command (i + 1) (omega arith)
        (λ x lt. let s = sp (x + 1) (omega arith) in ground arith) (λ q. end (ground arith)) in
    rw (e, r) (ap some (one_later i n))

-- Two blocks of memory that do not meet.
abbrev pub Apart : ℕ → ℕ → ℕ → ℕ → Type 0
Apart a n b l = (a + n ≤ b) ⊎ (b + l ≤ a)

triple :
    {i i' j j' : ℕ}
    → {a a' : Memory} → i ≡ i'
    → j ≡ j'
    → a ≡ a'
    → ◌≡◌ {A = ℕ × ℕ × Memory} (i, j, a) (i', j', a')
triple p q r = rw (p, q, r) refl

later_char :
    (command out i j n x v : ℕ) (m : Memory)
    → Apart (command + i) (n + 1) (out + j) n
    → x < n
    → store m (out + j) v (command + (i + 1 + x)) ≡ m (command + (i + (x + 1)))
later_char command out i j n x v m apart lt = ground arith

copy_until_lem :
    (stop : ℕ → Bool) (left n command out i j : ℕ) (m : Memory)
    → n < left
    → Apart (command + i) (n + 1) (out + j) n
    → ((x : ℕ) → x < n → stop (m (command + (i + x))) ≡ false)
    → stop (m (command + (i + n))) ≡ true
    → copy_until stop left command out i j m ≡ (i + n, j + n, moved (out + j) (command + i) n m)
unfolding copy_until
copy_until_lem stop zero n command out i j m h apart go end = absurd (omega arith)
copy_until_lem stop (suc left) zero command out i j m h apart go end =
    let e : stop (m (command + i)) ≡ true = ap (λ k. stop (m (command + k))) (omega arith) ∙ end in
    rw e (triple (omega arith) (omega arith) (fun_ext λ x. ground arith))
copy_until_lem stop (suc left) (suc n) command out i j m h apart go end =
    let e : stop (m (command + i)) ≡ false =
      ap (λ k. stop (m (command + k))) (omega arith) ∙ go 0 (omega arith) in
    let v = m (command + i) in
    let r =
      copy_until_lem stop left n command out (i + 1) (j + 1) (store m (out + j) v) (omega arith)
        (omega arith)
        (λ x lt.
          ap stop (later_char command out i j (suc n) x v m apart (omega arith))
          ∙ go (x + 1) (omega arith))
        (ap stop (later_char command out i j (suc n) n v m apart (omega arith))
          ∙ ap (λ k. stop (m (command + (i + k)))) (omega arith)
          ∙ end) in
    rw (e, r) (triple (omega arith) (omega arith) (fun_ext λ x. ground arith))

pub skip_first :
    (fuel n : ℕ) (m : Memory) (command : ℕ)
    → n < fuel
    → ((x : ℕ) → x < n → m (command + x) ≡ 32)
    → m (command + n) ≢ 32
    → skip_spaces fuel m command 0 ≡ some n
skip_first fuel n m command h sp end =
    skip_spaces_lem fuel n m command 0 h (λ x lt. ap (λ k. m (command + k)) (omega arith) ∙ sp x lt)
      (λ q. end (ap (λ k. m (command + k)) (omega arith) ∙ q))
    ∙ ap some (omega arith)

pub copy_first :
    (stop : ℕ → Bool) (left n command out i : ℕ) (m : Memory)
    → n < left
    → Apart (command + i) (n + 1) out n
    → ((x : ℕ) → x < n → stop (m (command + (i + x))) ≡ false)
    → stop (m (command + (i + n))) ≡ true
    → copy_until stop left command out i 0 m ≡ (i + n, n, moved out (command + i) n m)
copy_first stop left n command out i m h apart go end =
    copy_until_lem stop left n command out i 0 m h (omega arith) go end
    ∙ triple refl (omega arith) (ap (λ k. moved k (command + i) n m) (omega arith))
