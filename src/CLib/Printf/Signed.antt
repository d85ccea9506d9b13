-- ===== src/CLib/Printf/Signed.antt =====
-- What `%#x` and `%d` print: the zeros before a numeral, and the sign.
use linux_operating_system.Prelude.{
  ℕ, zero, suc, ◌+◌, ◌-◌, ◌*◌, ◌/◌, ◌%◌, ◌^◌, ◌≤◌, ◌<◌, ◌≡◌, refl, sym, ap, ◌∙◌, fun_ext, subst,
  ◌⊎◌, inl, inr, true, some, List, [], ◌∷◌, ◌++◌, arith, ltb, leb, Bool-cases, length,
  length-append, Memory, store, bytes, filled, word,
}
use native.Mathlib.Nat.{pow-suc, pow-zero}
use linux_operating_system.CLib.Strings.{itoa}
use linux_operating_system.CLib.Strings.Laws.{IsCString, strlen-IsCString}
use linux_operating_system.CLib.Strings.Digits.{digit_char}
use linux_operating_system.CLib.Strings.Numerals.{itoa-IsNumeral}
use linux_operating_system.CLib.Printf.{text_at, blank, pad_zeros, padded_text, signed_text}
use linux_operating_system.CLib.Printf.Text.{numeral, bytes-IsNumeral, number_text-numeral}

unfoldable pub zeros : ℕ → List ℕ
zeros zero = []
zeros (suc n) = b'0' ∷ zeros n

pub length-zeros : (n : ℕ) → length (zeros n) ≡ n
unfolding zeros
length-zeros zero = refl
length-zeros (suc n) = ap suc (length-zeros n)

length-bytes : (m : Memory) (a n : ℕ) → length (bytes m a n) ≡ n
length-bytes m a zero = refl
length-bytes m a (suc n) = ap suc (length-bytes m (a + 1) n)

pub length-numeral :
    (k j radix v : ℕ) → 2 ≤ radix → v < radix ^ suc j → length (numeral k radix v) ≤ suc j
unfolding numeral
length-numeral zero j radix v r h = omega arith
length-numeral (suc k) zero radix v r h =
    let small : ltb v radix ≡ true =
      (let e : radix ^ 1 ≡ radix =
          pow-suc radix 0 ∙ ap (λ k. k * radix) (pow-zero radix) ∙ omega arith in
        ground arith) in
    rw small (omega arith)
length-numeral (suc k) (suc j) radix v r h = elim (Bool-cases (ltb v radix)) [
  | inl z ↦ rw z (omega arith)
  | inr z ↦
      let ih = length-numeral k j radix (v / radix) r (grind (arith, pow-suc radix (suc j))) in
      rw (z, length-append (numeral k radix (v / radix)) (digit_char (v % radix) ∷ []))
        (omega arith)
]

pad_zeros-filled : (left i : ℕ) (m : Memory) → pad_zeros left i m ≡ filled i b'0' left m
unfolding pad_zeros
pad_zeros-filled zero i m = fun_ext λ x. ground arith
pad_zeros-filled (suc left) i m = pad_zeros-filled left (i + 1) _ ∙ fun_ext λ x. ground arith

bytes-split :
    (t k a : ℕ) (m : Memory) → k ≤ t → bytes m a t ≡ bytes m a k ++ bytes m (a + k) (t - k)
bytes-split zero zero a m h = refl
bytes-split zero (suc k) a m h = absurd (omega arith)
bytes-split (suc t) zero a m h =
    let start : a ≡ a + 0 = omega arith in
    let count : suc t ≡ suc t - 0 = omega arith in
    ap (λ b. bytes m b (suc t)) start ∙ ap (λ n. bytes m (a + 0) n) count
bytes-split (suc t) (suc k) a m h =
    ap (λ xs. m a ∷ xs)
      (bytes-split t k (a + 1) m (omega arith)
        ∙ ap (λ b. bytes m (a + 1) k ++ bytes m b (t - k)) (omega arith)
        ∙ ap (λ n. bytes m (a + 1) k ++ bytes m (a + suc k) n) (omega arith))

pub bytes_ext :
    (n a a' : ℕ) (m m' : Memory)
    → ((i : ℕ) → i < n → m (a + i) ≡ m' (a' + i))
    → bytes m a n ≡ bytes m' a' n
bytes_ext zero a a' m m' h = refl
bytes_ext (suc n) a a' m m' h =
    ap (λ x. x ∷ bytes m (a + 1) n) (ap m (omega arith) ∙ h 0 (omega arith) ∙ ap m' (omega arith))
    ∙ ap (λ xs. m' a' ∷ xs)
        (bytes_ext n (a + 1) (a' + 1) m m'
          (λ i p. ap m (omega arith) ∙ h (suc i) (omega arith) ∙ ap m' (omega arith)))

bytes-zeros : (n a : ℕ) (m : Memory) → ((i : ℕ) → i < n → m (a + i) ≡ b'0') → bytes m a n ≡ zeros n
unfolding zeros
bytes-zeros zero a m h = refl
bytes-zeros (suc n) a m h =
    ap (λ x. x ∷ bytes m (a + 1) n) (ap m (omega arith) ∙ h 0 (omega arith))
    ∙ ap (λ xs. b'0' ∷ xs)
        (bytes-zeros n (a + 1) m λ i p. ap m (omega arith) ∙ h (suc i) (omega arith))

-- The run of `%#x` on a numeral of at most eight digits.
padded_run :
    (fuel v n : ℕ) (m : Memory)
    → itoa fuel v 8 16 blank ≡ some m
    → IsCString m 8 n
    → n ≤ 8
    → 8 < fuel
    → padded_text fuel v ≡ some (zeros (8 - n) ++ bytes m 8 n)
unfolding padded_text text_at
padded_run fuel v n m run d le h =
    let padded : IsCString (filled n b'0' (8 - n) m) n 8 = record {
      body = λ i p. ground (arith, d.body (n + i - 8));
      end = ground (arith, d.end);
    } in
    rw
      (
        run,
        strlen-IsCString fuel d (omega arith),
        pad_zeros-filled (8 - n) n m,
        strlen-IsCString fuel padded (omega arith),
      )
      (ap some (
        bytes-split 8 (8 - n) n _ (omega arith)
        ∙ ap (λ xs. xs ++ bytes (filled n b'0' (8 - n) m) (n + (8 - n)) (8 - (8 - n)))
            (bytes-zeros (8 - n) n _ λ i p. ground arith)
        ∙ ap (λ xs. zeros (8 - n) ++ xs)
            (ap (λ k. bytes (filled n b'0' (8 - n) m) (n + (8 - n)) k) (omega arith)
              ∙ ap (λ a. bytes (filled n b'0' (8 - n) m) a n) (omega arith)
              ∙ bytes_ext n 8 8 _ m λ i p. ground arith)))

-- `%#x` prints exactly eight digits of every 32-bit argument: zeros, and then its numeral in base
-- 16.
pub padded_text-numeral :
    (fuel v : ℕ)
    → v < word
    → 33 < fuel
    → (padded_text fuel v ≡ some (zeros (8 - length (numeral 33 16 v)) ++ numeral 33 16 v))
      × (length (numeral 33 16 v) ≤ 8)
padded_text-numeral fuel v lt h =
    let (n, m, run, d, frame, size) =
      itoa-IsNumeral fuel v 8 16 32 blank (omega arith) (omega arith) lt (omega arith) in
    let spell = bytes-IsNumeral 32 16 v m 8 n (omega arith) lt d in
    let n_length : n ≡ length (numeral 33 16 v) = sym (length-bytes m 8 n) ∙ ap length spell in
    let le = length-numeral 33 7 16 v (omega arith) lt in
    (
      padded_run fuel v n m run d.string (omega arith) (omega arith)
          ∙ ap (λ k. some (zeros (8 - k) ++ bytes m 8 n)) n_length
          ∙ ap (λ xs. some (zeros (8 - length (numeral 33 16 v)) ++ xs)) spell,
      le,
    )

-- The run of `%d` on a negative argument.
negative_run :
    (fuel v n : ℕ) (m : Memory)
    → 2147483648 ≤ v
    → itoa fuel (word - v) 1 10 (store blank 0 b'-') ≡ some m
    → IsCString m 1 n
    → m 0 ≡ b'-'
    → suc n < fuel
    → signed_text fuel v ≡ some (b'-' ∷ bytes m 1 n)
unfolding signed_text text_at
negative_run fuel v n m le run d minus h =
    let z : leb 2147483648 v ≡ true = ground arith in
    let whole : IsCString m 0 (suc n) = record {
      body = λ i p. ground (arith, d.body (i - 1));
      end = subst (λ a. m a ≡ 0) (omega arith) d.end;
    } in
    rw (z, run, strlen-IsCString fuel whole h) (ap (λ c. some (c ∷ bytes m 1 n)) minus)

-- `%d` prints the numeral in base 10 of every 32-bit argument below 2 ^ 31, and of the others a
-- minus sign and the numeral of their distance to 2 ^ 32.
pub signed_text-numeral :
    (fuel v : ℕ)
    → v < word
    → 34 < fuel
    → ((v < 2147483648) × (signed_text fuel v ≡ some (numeral 33 10 v)))
      ⊎ ((2147483648 ≤ v) × (signed_text fuel v ≡ some (b'-' ∷ numeral 33 10 (word - v))))
unfolding signed_text
signed_text-numeral fuel v lt h = elim (Bool-cases (leb 2147483648 v)) [
  | inl z ↦
      let (n, m, run, d, frame, size) =
        itoa-IsNumeral fuel (word - v) 1 10 32 (store blank 0 b'-') (omega arith) (omega arith)
          (ground arith) (omega arith) in
      inr (
        ground arith,
        negative_run fuel v n m (ground arith) run d.string (frame 0 (omega arith)) (omega arith)
            ∙ ap (λ xs. some (b'-' ∷ xs))
                (bytes-IsNumeral 32 10 (word - v) m 1 n (omega arith) (ground arith) d),
      )
  | inr z ↦ inl (
    ground arith,
    rw z (number_text-numeral fuel 10 v (omega arith) (omega arith) lt (omega arith)),
  )
]
