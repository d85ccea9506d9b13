-- ===== src/FileSys/Names.antt =====
-- read_dentry_by_name finds the first entry of that name.
use linux_operating_system.Prelude.{
  ℕ, zero, suc, ◌+◌, ◌≤◌, ◌<◌, ◌≡◌, refl, ◌∙◌, subst, ◌↔◌, ◌⊎◌, inl, inr, Bool, true, false, Option,
  none, some, arith, ltb, ◌==◌, Bool-cases, ℤ, pos, negsuc, minus_one, Memory, moved,
}
use linux_operating_system.CLib.Strings.{strncmp}
use linux_operating_system.CLib.Strings.Laws.{IsCString, strlen-IsCString}
use linux_operating_system.CLib.Strings.Compare.{IsBytes, strncmp_iff}
use linux_operating_system.FileSys.{
  Fs, dentry_at, is_zero, names_match, find_dentry, copy_dentry, read_dentry_by_name,
}

-- Entry `j` has the name that the `len` bytes at `fname` spell.
pub record HasName (fs : Fs) (m : Memory) (fname len j : ℕ) : Type 0 where
  pub string : IsCString m (dentry_at fs j) len
  pub same : (i : ℕ) → i < len → m (dentry_at fs j + i) ≡ m (fname + i)

is_zero_iff : (z : ℤ) → (is_zero z ≡ true) ↔ (z ≡ pos 0)
is_zero_iff (pos n) = ground arith
is_zero_iff (negsuc n) = ground arith

IsCString-unique : (m : Memory) (s k l : ℕ) → IsCString m s k → IsCString m s l → k ≤ l
IsCString-unique m s k l h g = elim (Bool-cases (ltb l k)) [
  | inl e ↦ absurd (h.body l (ground arith) g.end)
  | inr e ↦ ground arith
]

module _ (fuel : ℕ) (fs : Fs) (m : Memory) (fname len : ℕ) (byt : IsBytes m)
    (name : IsCString m fname len) where
  -- The tests of the loop compare whole names, though each reads only the shorter one's length.
  names_match_same :
      (j l : ℕ)
      → IsCString m (dentry_at fs j) l
      → len ≤ l
      → (strncmp m (dentry_at fs j) fname l ≡ pos 0) ↔ HasName fs m fname len j
  names_match_same j l h le =
      let d = dentry_at fs j in
      let iff = strncmp_iff m d fname l byt in
      (
        (λ e.
            let agree : (i : ℕ) → i < l → m (d + i) ≡ m (fname + i) =
              λ i p. iff.0 e i p (λ k q. h.body k (omega arith)) in
            let whole : l ≤ len = elim (Bool-cases (ltb len l)) [
              | inl q ↦ absurd (h.body len (ground arith) (agree len (ground arith) ∙ name.end))
              | inr q ↦ ground arith
            ] in
            let eq : l ≡ len = omega arith in
            record { string = subst (IsCString m d) eq h; same = λ i p. agree i (omega arith) }),
        (λ n.
            let whole = IsCString-unique m d l len h n.string in
            iff.1 (λ i p _. n.same i (omega arith))),
      )

  names_match_iff :
      (j l : ℕ)
      → IsCString m (dentry_at fs j) l
      → l < fuel
      → (b : Bool) × (names_match fuel m fname len (dentry_at fs j) ≡ some b)
        × ((b ≡ true) ↔ HasName fs m fname len j)
  unfolding names_match
  names_match_iff j l h lt = elim (Bool-cases (ltb l len)) [
    | inl e ↦ (
      false,
      rw (strlen-IsCString fuel h lt, e) (ground arith),
      (
        (λ q. cc),
        (λ n. absurd (ground (arith, IsCString-unique m (dentry_at fs j) len l n.string h))),
      ),
    )
    | inr e ↦ (
      is_zero (strncmp m (dentry_at fs j) fname l),
      rw (strlen-IsCString fuel h lt, e),
      let same = names_match_same j l h (ground arith) in
          let z = is_zero_iff (strncmp m (dentry_at fs j) fname l) in
          ((λ q. same.0 (z.0 q)), (λ n. z.1 (same.1 n))),
    )
  ]

  -- What the loop finds among the entries from `i` on, `left` of them.
  abbrev Finds : ℕ → ℕ → Option ℕ → Type 0
  Finds i left none = (j : ℕ) → i ≤ j → j < i + left → ¬ HasName fs m fname len j
  Finds i left (some k) =
      (i ≤ k)
      × (k < i + left)
      × HasName fs m fname len k
      × ((j : ℕ) → i ≤ j → j < k → ¬ HasName fs m fname len j)

  -- Every entry's name ends within the fuel.
  abbrev pub Terminated : Type 0
  Terminated = (j : ℕ) → j < fs.dentries → (l : ℕ) × IsCString m (dentry_at fs j) l × (l < fuel)

  Finds-later :
      (i left : ℕ) (r : Option ℕ)
      → ¬ HasName fs m fname len i
      → Finds (i + 1) left r
      → Finds i (suc left) r
  Finds-later i left none no_name f = λ j p q. elim (Bool-cases (i == j)) [
    | inl e ↦ subst (λ k. ¬ HasName fs m fname len k) (ground arith) no_name
    | inr e ↦ f j (ground arith) (omega arith)
  ]
  Finds-later i left (some k) no_name (p, q, h, f) = (
    omega arith,
    omega arith,
    h,
    (λ j p' q'. elim (Bool-cases (i == j)) [
      | inl e ↦ subst (λ k. ¬ HasName fs m fname len k) (ground arith) no_name
      | inr e ↦ f j (ground arith) q'
    ]),
  )

  find_dentry-Finds :
      (left i : ℕ)
      → Terminated
      → i + left ≤ fs.dentries
      → (r : Option ℕ) × (find_dentry fuel fs m fname len left i ≡ some r) × Finds i left r
  unfolding find_dentry
  find_dentry-Finds zero i t h = (none, refl, (λ j p q. absurd (omega arith)))
  find_dentry-Finds (suc left) i t h =
      let (l, s, lt) = t i (omega arith) in
      let (b, e, iff) = names_match_iff i l s lt in
      elim (Bool-cases b) [
        | inl hit ↦ (
          some i,
          rw (e, find_dentry, hit, find_dentry),
          (omega arith, omega arith, iff.0 hit, (λ j p q. absurd (omega arith))),
        )
        | inr miss ↦
            let (r, run, f) = find_dentry-Finds left (i + 1) t (omega arith) in
            (
              r,
              rw (e, find_dentry, miss, find_dentry) run,
              Finds-later i left r (λ n. ground (arith, iff.1 n)) f,
            )
      ]

  -- With a memory of bytes, and with `fname` and the entries' names ended by NUL within the fuel,
  -- read_dentry_by_name returns. Either it copies the 64 bytes of the first entry whose name is
  -- `fname` and returns 0, or no entry has that name and it returns -1 with memory unchanged.
  pub read_dentry_by_name-first :
      (dentry : ℕ)
      → Terminated
      → len < fuel
      → ((k : ℕ) × (k < fs.dentries)
          × HasName fs m fname len k
          × ((j : ℕ) → j < k → ¬ HasName fs m fname len j)
          × (read_dentry_by_name fuel fs fname dentry m
              ≡ some (pos 0, moved dentry (dentry_at fs k) 64 m)))
        ⊎ (((j : ℕ) → j < fs.dentries → ¬ HasName fs m fname len j)
            × (read_dentry_by_name fuel fs fname dentry m ≡ some (minus_one, m)))
  unfolding read_dentry_by_name
  read_dentry_by_name-first dentry t lt =
      let l = strlen-IsCString fuel name lt in
      let (r, run, f) = find_dentry-Finds fs.dentries 0 t (omega arith) in rw (l, run) (outcome r f)
    where
      outcome :
          (r : Option ℕ)
          → Finds 0 fs.dentries r
          → ((k : ℕ) × (k < fs.dentries)
              × HasName fs m fname len k
              × ((j : ℕ) → j < k → ¬ HasName fs m fname len j)
              × (some (copy_dentry fs dentry m r)
                  ≡ some (pos 0, moved dentry (dentry_at fs k) 64 m)))
            ⊎ (((j : ℕ) → j < fs.dentries → ¬ HasName fs m fname len j)
                × (some (copy_dentry fs dentry m r) ≡ some (minus_one, m)))
      outcome none f = inr ((λ j p. f j (omega arith) (omega arith)), refl)
      outcome (some k) (p, q, h, f) = inl (k, omega arith, h, (λ j p'. f j (omega arith) p'), refl)
