-- ===== src/CLib/Strings/Digits.antt =====
-- The digits that the loop of itoa leaves, least significant first.
use linux_operating_system.Prelude.{
  ℕ, zero, suc, ◌+◌, ◌-◌, ◌*◌, ◌/◌, ◌%◌, ◌^◌, ◌≤◌, ◌<◌, ◌≡◌, refl, sym, ap, ◌∙◌, subst, ◌≢◌, ◌↔◌,
  ◌⊎◌, inl, inr, true, false, ◌&&◌, Option, none, some, arith, ltb, ◌==◌, if◌then◌else◌, Bool-cases,
  get_elem?, Memory, store, is_table, table_entry,
}
use native.Mathlib.Nat.{pow-suc}
use linux_operating_system.CLib.Strings.{lookup, itoa_loop}

-- The value of a digit character, 0 to 9 and then A to Z.
unfoldable pub digit_value : ℕ → ℕ
digit_value c = if ltb c 58 then c - 48 else c - 55

-- The character of a digit.
unfoldable pub digit_char : ℕ → ℕ
digit_char d = if ltb d 10 then d + 48 else d + 55

-- `c` is a digit of a base.
pub record IsDigit (radix c : ℕ) : Type 0 where
  pub below : digit_value c < radix
  pub char : digit_char (digit_value c) ≡ c

-- The number that the `n` digits at `a` spell in a base, most significant digit first.
unfoldable pub spelled : ℕ → Memory → ℕ → ℕ → ℕ
spelled radix m a zero = 0
spelled radix m a (suc n) = spelled radix m a n * radix + digit_value (m (a + n))

-- Least significant digit first.
unfoldable pub spelled_back : ℕ → Memory → ℕ → ℕ → ℕ
spelled_back radix m a zero = 0
spelled_back radix m a (suc n) = spelled_back radix m (a + 1) n * radix + digit_value (m a)

lookup_table :
    is_table 36 (λ i. elim (get_elem? lookup i) [
      | none ↦ false
      | some c ↦ (digit_value c == i) && ltb 47 c && ltb c 91 && (digit_char i == c)
    ])
    ≡ true
unfolding is_table digit_value digit_char
lookup_table = refl

pub digit_of :
    (i : ℕ)
    → i < 36
    → (c : ℕ) × (get_elem? lookup i ≡ some c)
      × (digit_value c ≡ i)
      × (47 < c)
      × (c < 91)
      × (digit_char i ≡ c)
digit_of i h = go (get_elem? lookup i) (table_entry 36 _ i lookup_table h)
  where
    go :
        (o : Option ℕ)
        → (elim o [
          | none ↦ false
          | some c ↦ (digit_value c == i) && ltb 47 c && ltb c 91 && (digit_char i == c)
        ])
          ≡ true
        → (c : ℕ) × (o ≡ some c) × (digit_value c ≡ i) × (47 < c) × (c < 91) × (digit_char i ≡ c)
    go none e = absurd (ground arith)
    go (some c) e = (c, refl, ground arith, ground arith, ground arith, ground arith)

pub div_halves : (v radix k : ℕ) → 2 ≤ radix → v < 2 ^ suc k → v / radix < 2 ^ k
div_halves v radix k h lt = grind (arith, pow-suc 2 k)

-- The value is made up of the last digit and the others.
div_mod_value : (v radix : ℕ) → v / radix * radix + v % radix ≡ v
div_mod_value v radix = grind arith

-- What the digit loop leaves from `p` on.
pub record Digits (radix v p n : ℕ) (m m' : Memory) : Type 0 where
  pub value : spelled_back radix m' p n ≡ v
  pub shape : (i : ℕ) → i < n → (47 < m' (p + i)) × (m' (p + i) < 91)
  pub proper : (i : ℕ) → i < n → IsDigit radix (m' (p + i))
  pub frame : (x : ℕ) → (x < p) ⊎ (p + n ≤ x) → m' x ≡ m x
  pub top : v ≢ 0 → digit_value (m' (p + (n - 1))) ≢ 0
  pub count : (v ≡ 0) ↔ (n ≡ 0)

Digits-done : (radix v p : ℕ) (m : Memory) → v ≡ 0 → Digits radix v p 0 m m
unfolding spelled_back
Digits-done radix v p m z = record {
  value = sym z;
  shape = λ i h. absurd (omega arith);
  proper = λ i h. absurd (omega arith);
  frame = λ x _. refl;
  top = λ h. absurd (h z);
  count = ((λ _. refl), (λ _. z));
}

module _ (radix v p n c : ℕ) (m m' : Memory) (r1 : 2 ≤ radix) (pos_v : v ≢ 0)
    (e : digit_value c ≡ v % radix) (g : IsDigit radix c) (lo : 47 < c) (hi : c < 91)
    (d : Digits radix (v / radix) (p + 1) n (store m p c) m') where
  first : m' p ≡ c
  first = d.frame p (omega arith) ∙ ground arith

  step_shape : (i : ℕ) → i < suc n → (47 < m' (p + i)) × (m' (p + i) < 91)
  step_shape zero h = ground (arith, first)
  step_shape (suc i) h = ground (arith, d.shape i (omega arith))

  step_proper : (i : ℕ) → i < suc n → IsDigit radix (m' (p + i))
  step_proper zero h = subst (IsDigit radix) (sym first ∙ ap m' (omega arith)) g
  step_proper (suc i) h = subst (IsDigit radix) (ap m' (omega arith)) (d.proper i (omega arith))

  step_top : (k : ℕ) → n ≡ k → digit_value (m' (p + k)) ≢ 0
  step_top zero z = ground (arith, first, d.count.1 z, div_mod_value v radix)
  step_top (suc k) z = ground (arith, d.top, d.count.1)

  Digits-step : Digits radix v p (suc n) m m'
  unfolding spelled_back
  Digits-step = record {
    value = rw (d.value, first, e) (div_mod_value v radix);
    shape = step_shape;
    proper = step_proper;
    frame = λ x h. d.frame x (omega arith) ∙ ground arith;
    top = λ _. subst (λ k. digit_value (m' (p + k)) ≢ 0) (omega arith) (step_top n refl);
    count = ((λ z. absurd (pos_v z)), (λ z. absurd (omega arith)));
  }

pub itoa_loop_lem :
    (fuel v radix p k : ℕ) (m : Memory)
    → 2 ≤ radix
    → radix ≤ 36
    → v < 2 ^ k
    → k < fuel
    → (n : ℕ) × (m' : Memory) × (itoa_loop fuel v radix p m ≡ some (p + n, m'))
      × Digits radix v p n m m'
      × (n ≤ k)
unfolding itoa_loop
itoa_loop_lem zero v radix p k m r1 r2 b lt = absurd (omega arith)
itoa_loop_lem (suc fuel) v radix p zero m r1 r2 b lt =
    (0, m, ground arith, Digits-done radix v p m (omega arith), omega arith)
itoa_loop_lem (suc fuel) v radix p (suc k) m r1 r2 b lt = elim (Bool-cases (v == 0)) [
  | inl z ↦ (0, m, ground arith, Digits-done radix v p m (ground arith), omega arith)
  | inr z ↦
      let (c, found, e, lo, hi, ch) = digit_of (v % radix) (grind arith) in
      let g : IsDigit radix c = record { below = rw e (grind arith); char = rw e ch } in
      let (n, m', run, d, le) =
        itoa_loop_lem fuel (v / radix) radix (p + 1) k (store m p c) r1 r2
          (div_halves v radix k r1 b) (omega arith) in
      (
        suc n,
        m',
        rw (z, itoa_loop, found, itoa_loop, run) (ap (λ q. some (q, m')) (omega arith)),
        Digits-step radix v p n c m m' r1 (ground arith) e g lo hi d,
        omega arith,
      )
]
