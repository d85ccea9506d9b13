-- ===== src/CLib/Printf/Text.antt =====
-- The conversions write numerals: what `%x`, `%#x`, `%u` and `%d` print of a 32-bit argument.
use linux_operating_system.Prelude.{
  ℕ, zero, suc, ◌+◌, ◌*◌, ◌/◌, ◌%◌, ◌^◌, ◌≤◌, ◌<◌, ◌≡◌, sym, ap, ◌∙◌, ◌≢◌, true, false, some, List,
  [], ◌∷◌, ◌++◌, arith, ltb, if◌then◌else◌, Memory, bytes, word,
}
use linux_operating_system.CLib.Strings.Laws.{strlen-IsCString}
use linux_operating_system.CLib.Strings.Digits.{
  digit_value, digit_char, IsDigit, spelled, div_halves,
}
use linux_operating_system.CLib.Strings.Numerals.{IsNumeral, itoa-IsNumeral}
use linux_operating_system.CLib.Printf.{text_at, blank, number_text}

-- The digits of a number in a base, most significant first; `k` binary digits are enough for it.
unfoldable pub numeral : ℕ → ℕ → ℕ → List ℕ
numeral zero radix v = []
numeral (suc k) radix v =
    let rest = numeral k radix (v / radix) in
    if ltb v radix then digit_char v ∷ [] else rest ++ (digit_char (v % radix) ∷ [])

pub bytes-last : (m : Memory) (a n : ℕ) → bytes m a (suc n) ≡ bytes m a n ++ (m (a + n) ∷ [])
bytes-last m a zero = ap (λ k. m k ∷ []) (omega arith)
bytes-last m a (suc n) =
    ap (λ xs. m a ∷ xs)
      (bytes-last m (a + 1) n ∙ ap (λ k. bytes m (a + 1) n ++ (m k ∷ [])) (omega arith))

spelled_pos :
    (radix : ℕ) (m : Memory) (a n : ℕ)
    → 2 ≤ radix
    → digit_value (m a) ≢ 0
    → 0 < spelled radix m a (suc n)
unfolding spelled
spelled_pos radix m a zero h q = let e : m (a + 0) ≡ m a = ap m (omega arith) in rw e (ground arith)
spelled_pos radix m a (suc n) h q = let p = spelled_pos radix m a n h q in grind arith

div_mod_unique : (q r d v : ℕ) → d < r → q * r + d ≡ v → (v / r ≡ q) × (v % r ≡ d)
div_mod_unique q r d v h e = grind arith

at_least : (q r d v : ℕ) → 0 < q → q * r + d ≡ v → r ≤ v
at_least q r d v h e = grind arith

-- There is one numeral of a number.
bytes-numeral :
    (n k radix v : ℕ) (m : Memory) (a : ℕ)
    → 2 ≤ radix
    → v < 2 ^ k
    → ((i : ℕ) → i < suc n → IsDigit radix (m (a + i)))
    → spelled radix m a (suc n) ≡ v
    → (1 < suc n → digit_value (m a) ≢ 0)
    → bytes m a (suc n) ≡ numeral (suc k) radix v
unfolding spelled numeral
bytes-numeral zero k radix v m a r lt proper value top =
    let here : m (a + 0) ≡ m a = ap m (omega arith) in
    let d = rw here at (proper 0 (omega arith)) in
    let at_a : 0 * radix + digit_value (m a) ≡ v = (rw here at value) in
    let same : digit_value (m a) ≡ v = omega arith in
    let small : ltb v radix ≡ true = let b = d.below in ground arith in
    rw small (ap (λ c. c ∷ []) (sym d.char ∙ ap digit_char same))
bytes-numeral (suc n) zero radix v m a r lt proper value top =
    let p = spelled_pos radix m a (suc n) r (top (omega arith)) in absurd (omega arith)
bytes-numeral (suc n) (suc k) radix v m a r lt proper value top =
    let p = spelled_pos radix m a n r (top (omega arith)) in
    let d = proper (suc n) (omega arith) in
    let b = d.below in
    let big : ltb v radix ≡ false =
      let h = at_least (spelled radix m a (suc n)) radix _ v p value in ground arith in
    let parts = div_mod_unique (spelled radix m a (suc n)) radix _ v b value in
    let front : spelled radix m a (suc n) ≡ v / radix = sym parts.0 in
    let last : digit_value (m (a + suc n)) ≡ v % radix = sym parts.1 in
    let ih =
      bytes-numeral n k radix (v / radix) m a r (div_halves v radix k r lt)
        (λ i h. proper i (omega arith)) front (λ h. top (omega arith)) in
    rw big (
      bytes-last m a (suc n)
      ∙ ap (λ xs. xs ++ (m (a + suc n) ∷ [])) ih
      ∙ ap (λ c. numeral (suc k) radix (v / radix) ++ (c ∷ [])) (sym d.char ∙ ap digit_char last))

pub bytes-IsNumeral :
    (k radix v : ℕ) (m : Memory) (a n : ℕ)
    → 2 ≤ radix
    → v < 2 ^ k
    → IsNumeral radix v m a n
    → bytes m a n ≡ numeral (suc k) radix v
bytes-IsNumeral k radix v m a zero r lt d = let p = d.nonempty in absurd (omega arith)
bytes-IsNumeral k radix v m a (suc n) r lt d =
    bytes-numeral n k radix v m a r lt d.proper d.value d.canonical

-- What the string of a numeral is read as.
pub text_at-IsNumeral :
    (fuel k radix v : ℕ) (m : Memory) (a n : ℕ)
    → 2 ≤ radix
    → v < 2 ^ k
    → IsNumeral radix v m a n
    → n < fuel
    → text_at fuel m a ≡ some (numeral (suc k) radix v)
unfolding text_at
text_at-IsNumeral fuel k radix v m a n r lt d h =
    rw (strlen-IsCString fuel d.string h) (ap some (bytes-IsNumeral k radix v m a n r lt d))

-- `%x` and `%u` print the numeral of every 32-bit argument, in base 16 and 10.
pub number_text-numeral :
    (fuel radix v : ℕ)
    → 2 ≤ radix
    → radix ≤ 36
    → v < word
    → 33 < fuel
    → number_text fuel v radix ≡ some (numeral 33 radix v)
unfolding number_text
number_text-numeral fuel radix v r1 r2 lt h =
    let (n, m, run, d, frame, size) =
      itoa-IsNumeral fuel v 0 radix 32 blank r1 r2 lt (omega arith) in
    rw run (text_at-IsNumeral fuel 32 radix v m 0 n r1 lt d (omega arith))
