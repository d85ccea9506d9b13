-- ===== src/CLib/Strings/Laws.antt =====
-- NUL-terminated strings in memory: strlen, strcpy and strncpy.
use linux_operating_system.Prelude.{
  ℕ, zero, suc, ◌+◌, ◌-◌, ◌≤◌, ◌<◌, min, ◌≡◌, ap, ◌∙◌, fun_ext, subst, ◌≢◌, ◌⊎◌, inl, inr, some,
  arith, ◌==◌, Bool-cases, Memory, moved, filled,
}
use linux_operating_system.CLib.Strings.{
  strlen_from, strlen, strcpy_from, strcpy, strncpy_pad, strncpy_from, strncpy,
}

-- `k` bytes that are not NUL, and then a NUL.
pub record IsCString (m : Memory) (s k : ℕ) : Type 0 where
  pub body : (i : ℕ) → i < k → m (s + i) ≢ 0
  pub end : m (s + k) ≡ 0

-- strlen

strlen_from_lem :
    (fuel : ℕ) (m : Memory) (s len k : ℕ)
    → ((i : ℕ) → len ≤ i → i < len + k → m (s + i) ≢ 0)
    → m (s + (len + k)) ≡ 0
    → k < fuel
    → strlen_from fuel m s len ≡ some (len + k)
unfolding strlen_from
strlen_from_lem zero m s len k h e lt = absurd (omega arith)
strlen_from_lem (suc fuel) m s len zero h e lt = ground arith
strlen_from_lem (suc fuel) m s len (suc k) h e lt = ground (
  arith,
  h len,
  strlen_from_lem fuel m s (len + 1) k (λ i p q. h i (omega arith) (omega arith))
      (subst (λ j. m (s + j) ≡ 0) (omega arith) e) (omega arith),
)

-- On a string ended by NUL, fuel above the length is enough for strlen to return the length.
pub strlen-IsCString :
    (fuel : ℕ) {m : Memory} {s k : ℕ} → IsCString m s k → k < fuel → strlen fuel m s ≡ some k
unfolding strlen
strlen-IsCString fuel {m} {s} {k} h lt =
    strlen_from_lem fuel m s 0 k (λ i _ q. h.body i (omega arith))
      (subst (λ j. m (s + j) ≡ 0) (omega arith) h.end) lt
    ∙ ap some (omega arith)

strlen_from_sound :
    (fuel : ℕ) (m : Memory) (s len k : ℕ)
    → strlen_from fuel m s len ≡ some k
    → (len ≤ k) × ((i : ℕ) → len ≤ i → i < k → m (s + i) ≢ 0) × (m (s + k) ≡ 0)
unfolding strlen_from
strlen_from_sound zero m s len k e = cc
strlen_from_sound (suc fuel) m s len k e = elim (Bool-cases (m (s + len) == 0)) [
  | inl z ↦
      let e' : some len ≡ some k = (rw (z, strlen_from) at e) in
      (ground arith, (λ i p q. absurd (ground arith)), ground arith)
  | inr z ↦
      let e' : strlen_from fuel m s (len + 1) ≡ some k = (rw (z, strlen_from) at e) in
      let r = strlen_from_sound fuel m s (len + 1) k e' in
      (ground arith, (λ i p q. ground (arith, r.1 i)), r.2)
]

pub IsCString-strlen :
    (fuel : ℕ) {m : Memory} {s k : ℕ} → strlen fuel m s ≡ some k → IsCString m s k
unfolding strlen
IsCString-strlen fuel {m} {s} {k} e =
    let r = strlen_from_sound fuel m s 0 k e in
    record { body = λ i q. r.1 i (omega arith) q; end = r.2 }

-- strcpy

strcpy_from_lem :
    (fuel d s i k : ℕ) (m : Memory)
    → ((j : ℕ) → i ≤ j → j < i + k → m (s + j) ≢ 0)
    → m (s + (i + k)) ≡ 0
    → (d ≤ s) ⊎ (s + (i + k) < d + i)
    → k < fuel
    → strcpy_from fuel d s i m ≡ some (moved (d + i) (s + i) (suc k) m)
unfolding strcpy_from
strcpy_from_lem zero d s i k m h e f lt = absurd (omega arith)
strcpy_from_lem (suc fuel) d s i zero m h e f lt = elim (Bool-cases (m (s + i) == 0)) [
  | inl z ↦ rw (z, strcpy_from) (ap some (fun_ext λ x. ground arith))
  | inr z ↦ absurd (ground arith)
]
strcpy_from_lem (suc fuel) d s i (suc k) m h e f lt = elim (Bool-cases (m (s + i) == 0)) [
  | inl z ↦ absurd (ground (arith, h i))
  | inr z ↦
      rw (z, strcpy_from)
        (strcpy_from_lem fuel d s (i + 1) k _ (λ j p q. ground (arith, h j)) (ground arith)
            (omega arith) (omega arith)
          ∙ ap some (fun_ext λ x. ground arith))
]

-- With fuel above the length, and unless it would overwrite the part of the source still to be
-- read, strcpy moves the string and its NUL, and changes nothing else.
pub strcpy-IsCString :
    (fuel d : ℕ) {s k : ℕ} {m : Memory}
    → IsCString m s k
    → (d ≤ s) ⊎ (s + k < d)
    → k < fuel
    → strcpy fuel d s m ≡ some (moved d s (suc k) m)
unfolding strcpy
strcpy-IsCString fuel d {s} {k} {m} h f lt =
    strcpy_from_lem fuel d s 0 k m (λ i _ q. h.body i (omega arith))
      (subst (λ j. m (s + j) ≡ 0) (omega arith) h.end) (omega arith) lt
    ∙ ap some (fun_ext λ x. ground arith)

-- strncpy

strncpy_pad_lem : (n d i : ℕ) (m : Memory) → strncpy_pad n d i m ≡ filled (d + i) 0 n m
unfolding strncpy_pad
strncpy_pad_lem zero d i m = fun_ext λ x. ground arith
strncpy_pad_lem (suc n) d i m = strncpy_pad_lem n d (i + 1) _ ∙ fun_ext λ x. ground arith

strncpy_from_lem :
    (n d s i k : ℕ) (m : Memory)
    → ((j : ℕ) → i ≤ j → j < i + k → m (s + j) ≢ 0)
    → (k < n → m (s + (i + k)) ≡ 0)
    → k ≤ n
    → (d ≤ s) ⊎ (s + (i + k) < d + i)
    → strncpy_from n d s i m ≡ filled (d + (i + k)) 0 (n - k) (moved (d + i) (s + i) k m)
unfolding strncpy_from
strncpy_from_lem zero d s i k m h e le f = fun_ext λ x. ground arith
strncpy_from_lem (suc n) d s i zero m h e le f = elim (Bool-cases (m (s + i) == 0)) [
  | inl z ↦ rw (z, strncpy_from) (strncpy_pad_lem (suc n) d i m ∙ fun_ext λ x. ground arith)
  | inr z ↦ absurd (ground (arith, e (omega arith)))
]
strncpy_from_lem (suc n) d s i (suc k) m h e le f = elim (Bool-cases (m (s + i) == 0)) [
  | inl z ↦ absurd (ground (arith, h i))
  | inr z ↦
      rw (z, strncpy_from)
        (strncpy_from_lem n d s (i + 1) k _ (λ j p q. ground (arith, h j))
            (λ p. ground (arith, e (omega arith))) (omega arith) (omega arith)
          ∙ fun_ext λ x. ground arith)
]

-- Unless it would overwrite the part of the source still to be read, strncpy writes exactly `n`
-- bytes: the string's first ones, up to `n` or its end, and then NULs.
pub strncpy-IsCString :
    (d n : ℕ) {s k : ℕ} {m : Memory}
    → IsCString m s k
    → (d ≤ s) ⊎ (s + k < d)
    → strncpy d s n m ≡ filled (d + min k n) 0 (n - k) (moved d s (min k n) m)
unfolding strncpy
strncpy-IsCString d n {s} {k} {m} h f =
    strncpy_from_lem n d s 0 (min k n) m (λ i _ q. h.body i (omega arith))
      (λ p.
        let e : min k n ≡ k = omega arith in
        rw (e) (subst (λ j. m (s + j) ≡ 0) (omega arith) h.end))
      (omega arith) (omega arith)
    ∙ fun_ext λ x. ground arith
