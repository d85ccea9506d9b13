-- ===== src/CLib/Strings/Compare.antt =====
-- strncmp as a decision: zero exactly for strings that agree as far as it reads.
use linux_operating_system.Prelude.{
  ℕ, zero, suc, ◌+◌, ◌≤◌, ◌<◌, ◌≡◌, refl, ◌≢◌, ◌↔◌, inl, inr, ◌||◌, not, arith, ◌==◌, Bool-cases,
  pos, Memory,
}
use linux_operating_system.CLib.Strings.{char_diff, strncmp_from, strncmp}

char_diff-eq-zero : (a b : ℕ) → a < 256 → b < 256 → char_diff a b ≡ pos 0 → a ≡ b
unfolding char_diff
char_diff-eq-zero a b p q e = ground arith

-- Every byte of memory is below 256.
abbrev pub IsBytes : Memory → Type 0
IsBytes m = (x : ℕ) → m x < 256

-- The strings agree on the offsets from `i` on, `n` of them, that no NUL of the first one precedes.
abbrev Agree : Memory → ℕ → ℕ → ℕ → ℕ → Type 0
Agree m s1 s2 i n =
    (j : ℕ)
    → i ≤ j
    → j < i + n
    → ((l : ℕ) → i ≤ l → l < j → m (s1 + l) ≢ 0)
    → m (s1 + j) ≡ m (s2 + j)

strncmp_from_sound :
    (n : ℕ) (m : Memory) (s1 s2 i : ℕ)
    → IsBytes m
    → strncmp_from n m s1 s2 i ≡ pos 0
    → Agree m s1 s2 i n
unfolding strncmp_from
strncmp_from_sound zero m s1 s2 i b e j p q h = absurd (omega arith)
strncmp_from_sound (suc n) m s1 s2 i b e j p q h =
    elim (Bool-cases (not (m (s1 + i) == m (s2 + i)) || (m (s1 + i) == 0))) [
      | inl z ↦
          let d = char_diff-eq-zero _ _ (b (s1 + i)) (b (s2 + i)) (rw (z, strncmp_from) at e) in
          ground (arith, h i)
      | inr z ↦
          let e' : strncmp_from n m s1 s2 (i + 1) ≡ pos 0 = (rw (z, strncmp_from) at e) in
          let ih = strncmp_from_sound n m s1 s2 (i + 1) b e' j in
          elim (Bool-cases (i == j)) [
            | inl w ↦ ground arith
            | inr w ↦ ih (ground arith) (omega arith) (λ l p' q'. h l (omega arith) q')
          ]
    ]

strncmp_from_complete :
    (n : ℕ) (m : Memory) (s1 s2 i : ℕ) → Agree m s1 s2 i n → strncmp_from n m s1 s2 i ≡ pos 0
unfolding strncmp_from char_diff
strncmp_from_complete zero m s1 s2 i a = refl
strncmp_from_complete (suc n) m s1 s2 i a =
    let here = a i (omega arith) (omega arith) (λ l p q. absurd (omega arith)) in
    elim (Bool-cases (m (s1 + i) == 0)) [
      | inl z ↦ ground arith
      | inr z ↦
          let ih = strncmp_from_complete n m s1 s2 (i + 1) (λ j p q h.
            a j (omega arith) (omega arith) (λ l p' q'. elim (Bool-cases (i == l)) [
              | inl w ↦ ground arith
              | inr w ↦ h l (ground arith) q'
            ])) in
          ground arith
    ]

-- In a memory of bytes, strncmp returns zero exactly when the strings agree on each of the first
-- `n` offsets that no NUL of the first string precedes.
pub strncmp_iff :
    (m : Memory) (s1 s2 n : ℕ)
    → IsBytes m
    → (strncmp m s1 s2 n ≡ pos 0)
      ↔ ((j : ℕ) → j < n → ((l : ℕ) → l < j → m (s1 + l) ≢ 0) → m (s1 + j) ≡ m (s2 + j))
unfolding strncmp
strncmp_iff m s1 s2 n b = (
  (λ e j q h. strncmp_from_sound n m s1 s2 0 b e j (omega arith) (omega arith) (λ l _ q'. h l q')),
  (λ a.
      strncmp_from_complete n m s1 s2 0
        (λ j _ q h. a j (omega arith) (λ l q'. h l (omega arith) q'))),
)
