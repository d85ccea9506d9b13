-- ===== src/CLib/Strings/Numerals.antt =====
-- itoa writes the numeral of its argument.
use linux_operating_system.Prelude.{
  ℕ, zero, suc, ◌+◌, ◌-◌, ◌^◌, ◌≤◌, ◌<◌, ◌≡◌, refl, sym, ap, ◌∙◌, subst, ◌≢◌, ◌⊎◌, inl, inr, false,
  some, arith, ◌==◌, Bool-cases, Memory, store,
}
use linux_operating_system.CLib.Strings.{itoa}
use linux_operating_system.CLib.Strings.Laws.{IsCString}
use linux_operating_system.CLib.Strings.Reverse.{mirrored, strrev-IsCString}
use linux_operating_system.CLib.Strings.Digits.{
  digit_value, digit_char, IsDigit, spelled, spelled_back, Digits, itoa_loop_lem,
}

-- The digit block turned round spells the value.
spelled-mirrored :
    (radix : ℕ) (m : Memory) (s n k : ℕ)
    → k ≤ n
    → spelled radix (mirrored s n m) s k ≡ spelled_back radix m (s + (n - k)) k
unfolding spelled spelled_back
spelled-mirrored radix m s n zero h = refl
spelled-mirrored radix m s n (suc k) h =
    let ih = spelled-mirrored radix m s n k (omega arith) in
    let shift : s + (n - suc k) + 1 ≡ s + (n - k) = omega arith in
    let last : mirrored s n m (s + k) ≡ m (s + (n - suc k)) = ground arith in rw (ih, last, shift)

-- A string of digits of a base that spells `v`, with no leading zero.
pub record IsNumeral (radix v : ℕ) (m : Memory) (s n : ℕ) : Type 0 where
  pub string : IsCString m s n
  pub proper : (i : ℕ) → i < n → IsDigit radix (m (s + i))
  pub value : spelled radix m s n ≡ v
  pub nonempty : 0 < n
  pub canonical : 1 < n → digit_value (m s) ≢ 0

spelled_back-store :
    (radix : ℕ) (m : Memory) (s n e : ℕ)
    → s + n ≤ e
    → spelled_back radix (store m e 0) s n ≡ spelled_back radix m s n
unfolding spelled_back
spelled_back-store radix m s zero e h = refl
spelled_back-store radix m s (suc n) e h =
    let ih = spelled_back-store radix m (s + 1) n e (omega arith) in
    let here : store m e 0 s ≡ m s = ground arith in rw (ih, here)

-- The digits that the loop leaves, closed by a NUL and turned round.
module _ (radix v s n : ℕ) (m m' : Memory) (pos_v : v ≢ 0) (d : Digits radix v s n m m') where
  digits_IsCString : IsCString (store m' (s + n) 0) s n
  digits_IsCString = record { body = λ i h. ground (arith, d.shape i h); end = ground arith }

  turned : Memory
  turned = mirrored s n (store m' (s + n) 0)

  turned-at : (i : ℕ) → i < n → turned (s + i) ≡ m' (s + (n - 1 - i))
  unfolding turned
  turned-at i h = let e : s + (s + n) - 1 - (s + i) ≡ s + (n - 1 - i) = omega arith in ground arith

  turned-IsCString : IsCString turned s n
  unfolding turned
  turned-IsCString = record {
    body = λ i h. ground (arith, turned-at i h, d.shape (n - 1 - i) (omega arith));
    end = ground arith;
  }

  turned-IsNumeral : IsNumeral radix v turned s n
  unfolding turned
  turned-IsNumeral =
      let pos_n : 0 < n = ground (arith, d.count.1) in
      let e : turned s ≡ m' (s + (n - 1)) =
        ap turned (omega arith) ∙ turned-at 0 pos_n ∙ ap m' (omega arith) in
      record {
        string = turned-IsCString;
        proper =
            λ i h. subst (IsDigit radix) (sym (turned-at i h)) (d.proper (n - 1 - i) (omega arith));
        value =
            spelled-mirrored radix (store m' (s + n) 0) s n n (omega arith)
            ∙ ap (λ a. spelled_back radix (store m' (s + n) 0) a n) (omega arith)
            ∙ spelled_back-store radix m' s n (s + n) (omega arith)
            ∙ d.value;
        nonempty = pos_n;
        canonical = λ h. rw e (d.top pos_v);
      }

  turned_frame : (x : ℕ) → (x < s) ⊎ (s + n < x) → turned x ≡ m x
  unfolding turned
  turned_frame x h = ground (arith, d.frame x (omega arith))

-- For every base from 2 to 36 and every value below 2 ^ k, itoa returns on k + 2 units of fuel.
-- The buffer then holds the numeral of the value, of at most k + 1 digits, and no other byte has
-- changed.
pub itoa-IsNumeral :
    (fuel value buf radix k : ℕ) (m : Memory)
    → 2 ≤ radix
    → radix ≤ 36
    → value < 2 ^ k
    → k + 1 < fuel
    → (n : ℕ) × (m' : Memory) × (itoa fuel value buf radix m ≡ some m')
      × IsNumeral radix value m' buf n
      × ((x : ℕ) → (x < buf) ⊎ (buf + n < x) → m' x ≡ m x)
      × (n ≤ k + 1)
unfolding itoa spelled digit_value digit_char turned
itoa-IsNumeral fuel value buf radix k m r1 r2 b lt = elim (Bool-cases (value == 0)) [
  | inl z ↦ (
    1,
    store (store m buf b'0') (buf + 1) 0,
    rw (z, itoa),
    record {
      string = record { body = λ i h. ground arith; end = ground arith };
      proper = λ i h. record { below = ground arith; char = ground arith };
      value = ground arith;
      nonempty = omega arith;
      canonical = λ h. absurd (omega arith);
    },
    (λ x h. ground arith),
    omega arith,
  )
  | inr z ↦
      let (n, m', run, d, le) = itoa_loop_lem fuel value radix buf k m r1 r2 b (omega arith) in
      let r : (radix == 0) ≡ false = ground arith in
      (
        n,
        turned radix value buf n m m' (ground arith) d,
        rw (z, itoa, r, itoa, run)
            (strrev-IsCString fuel (digits_IsCString radix value buf n m m' (ground arith) d)
              (omega arith)),
        turned-IsNumeral radix value buf n m m' (ground arith) d,
        turned_frame radix value buf n m m' (ground arith) d,
        omega arith,
      )
]
