-- ===== src/Kernel/Files/Counting.antt =====
-- How many descriptors are open.
use linux_operating_system.Prelude.{
  ℕ, zero, suc, ◌+◌, ◌≤◌, ◌<◌, ◌≡◌, refl, sym, ap, ◌∙◌, fun_ext, subst, inl, inr, true, false, some,
  arith, ◌==◌, if◌then◌else◌, Bool-cases,
}
use linux_operating_system.Kernel.{Fd, put}
use linux_operating_system.Kernel.Files.{is_null, find_free}

-- How many of the `left` descriptors from `i` on are open.
unfoldable pub count_open : ℕ → ℕ → (ℕ → Fd) → ℕ
count_open zero i fds = 0
count_open (suc left) i fds =
    let rest = count_open left (i + 1) fds in if is_null (fds i).fops_ptr then rest else suc rest

pub find_free_lem :
    (left i : ℕ) (fds : ℕ → Fd)
    → count_open left i fds < left
    → (j : ℕ) × (find_free left i fds ≡ some j)
      × (i ≤ j)
      × (j < i + left)
      × (is_null (fds j).fops_ptr ≡ true)
      × ((x : ℕ) → i ≤ x → x < j → is_null (fds x).fops_ptr ≡ false)
unfolding find_free count_open
find_free_lem zero i fds h = absurd (omega arith)
find_free_lem (suc left) i fds h = elim (Bool-cases (is_null (fds i).fops_ptr)) [
  | inl e ↦ (i, rw e refl, omega arith, omega arith, e, λ x p q. absurd (omega arith))
  | inr e ↦
      let (j, run, lo, hi, free, taken) = find_free_lem left (i + 1) fds (ground arith) in
      (
        j,
        rw e run,
        omega arith,
        omega arith,
        free,
        λ x p q. elim (Bool-cases (x == i)) [
          | inl eq ↦ let s : x ≡ i = ground arith in rw s e
          | inr ne ↦ taken x (ground arith) q
        ],
      )
]

count_outside :
    (left i j : ℕ) (fds : ℕ → Fd) (f : Fd)
    → j < i
    → count_open left i (put fds j f) ≡ count_open left i fds
unfolding count_open
count_outside zero i j fds f h = refl
count_outside (suc left) i j fds f h =
    let r = count_outside left (i + 1) j fds f (omega arith) in
    let e : (i == j) ≡ false = ground arith in rw (e, r) refl

pub count_fill :
    (left i j : ℕ) (fds : ℕ → Fd) (f : Fd)
    → i ≤ j
    → j < i + left
    → is_null (fds j).fops_ptr ≡ true
    → is_null f.fops_ptr ≡ false
    → count_open left i (put fds j f) ≡ 1 + count_open left i fds
unfolding count_open
count_fill zero i j fds f p q free full = absurd (omega arith)
count_fill (suc left) i j fds f p q free full = elim (Bool-cases (i == j)) [
  | inl e ↦
      let s : j ≡ i = ground arith in
      let r = count_outside left (i + 1) j fds f (omega arith) in
      let g : is_null (fds i).fops_ptr ≡ true =
        subst (λ k. is_null (fds k).fops_ptr ≡ true) s free in
      rw (e, full, r, g) (omega arith)
  | inr e ↦
      let r = count_fill left (i + 1) j fds f (ground arith) (omega arith) free full in
      elim (Bool-cases (is_null (fds i).fops_ptr)) [
        | inl g ↦ rw (e, r, g) (omega arith)
        | inr g ↦ rw (e, r, g) (omega arith)
      ]
]

put_back : (j x : ℕ) (fds : ℕ → Fd) (f : Fd) → put (put fds j f) j (fds j) x ≡ fds x
put_back j x fds f = elim (Bool-cases (x == j)) [
  | inl e ↦ let s : x ≡ j = ground arith in rw e (ap fds (sym s))
  | inr e ↦ rw e refl
]

pub count_clear :
    (left i j : ℕ) (fds : ℕ → Fd) (f : Fd)
    → i ≤ j
    → j < i + left
    → is_null (fds j).fops_ptr ≡ false
    → is_null f.fops_ptr ≡ true
    → count_open left i fds ≡ 1 + count_open left i (put fds j f)
count_clear left i j fds f lo hi full free =
    let same : (j == j) ≡ true = ground arith in
    sym (ap (count_open left i) (fun_ext (λ x. put_back j x fds f)))
    ∙ count_fill left i j (put fds j f) (fds j) lo hi (rw same free) full

pub count_bound : (left i : ℕ) (fds : ℕ → Fd) → count_open left i fds ≤ left
unfolding count_open
count_bound zero i fds = omega arith
count_bound (suc left) i fds = let r = count_bound left (i + 1) fds in ground arith
