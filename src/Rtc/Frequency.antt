-- ===== src/Rtc/Frequency.antt =====
-- Which frequencies rtc_write takes, and what its error returns leave behind.
use linux_operating_system.Prelude.{
  ℕ, ◌+◌, ◌*◌, ◌/◌, ◌^◌, ◌≤◌, ◌<◌, ◌≡◌, refl, ◌≢◌, ◌↔◌, ◌⊎◌, inl, inr, true, false, ◌&&◌, ◌||◌, not,
  arith, ltb, ◌==◌, ==_iff, Bool-cases, pos, minus_one, Memory, load32, is_table, table_entry,
  table_witness,
}
use linux_operating_system.Rtc.{Rtc, bad_freq, rtc_write}

freq_table : is_table 1025 (λ f. bad_freq f || ((1024 / f * f == 1024) && ltb 1 f)) ≡ true
unfolding is_table bad_freq
freq_table = refl

pub good_freq-divides : (f : ℕ) → bad_freq f ≡ false → (1024 / f * f ≡ 1024) × (1 < f) × (f ≤ 1024)
good_freq-divides f e =
    let le : f ≤ 1024 = (unfold bad_freq in ground arith) in
    let row = table_entry 1025 _ f freq_table (omega arith) in (ground arith, ground arith, le)

-- rtc_write takes every power of two from 2 to 1024.
power_table : is_table 10 (λ k. not (bad_freq (2 ^ (k + 1)))) ≡ true
unfolding is_table bad_freq
power_table = refl

pub power_good : (k : ℕ) → k < 10 → bad_freq (2 ^ (k + 1)) ≡ false
power_good k h = let row = table_entry 10 _ k power_table h in ground arith

only_table :
    is_table 1025 (λ f. bad_freq f || not (is_table 10 (λ k. not (f == 2 ^ (k + 1))))) ≡ true
unfolding is_table bad_freq
only_table = refl

-- The test of rtc_write takes exactly the powers of two from 2 to 1024.
pub bad_freq_iff : (f : ℕ) → (bad_freq f ≡ false) ↔ ((k : ℕ) × (k < 10) × (f ≡ 2 ^ (k + 1)))
bad_freq_iff f = (
  (λ e.
      let le : f < 1025 = (unfold bad_freq in ground arith) in
      let row = table_entry 1025 _ f only_table le in
      let (k, lt, q) = table_witness 10 (λ k. f == 2 ^ (k + 1)) (ground arith) in
      (k, lt, (==_iff _ _).0 q)),
  (λ (k, lt, e). rw e (power_good k lt)),
)

-- rtc_write succeeds exactly on a non-null buffer of four bytes that hold a power of two from 2 to
-- 1024. It then divides the 1024 Hz clock without remainder, from a fresh count. Any other call returns
-- -1 and changes nothing but the interrupt flag, which it leaves off.
pub rtc_write_outcome :
    (t buf nbytes : ℕ) (m : Memory) (r : Rtc)
    → let f = load32 m buf in
      let (z, r') = rtc_write t buf nbytes m r in
      ((z ≡ pos 4)
        × (buf ≢ 0)
        × (nbytes ≡ 4)
        × ((k : ℕ) × (k < 10) × (f ≡ 2 ^ (k + 1)))
        × (r'.rtc_freq t * f ≡ 1024)
        × (r'.rtc_counter t ≡ 0)
        × (r'.interrupts ≡ r.interrupts))
      ⊎ ((z ≡ minus_one)
          × ((buf ≡ 0) ⊎ ((nbytes ≢ 4) ⊎ ¬ ((k : ℕ) × (k < 10) × (f ≡ 2 ^ (k + 1)))))
          × (r' ≡ record r { interrupts = false }))
unfolding rtc_write
rtc_write_outcome t buf nbytes m r = elim (Bool-cases ((buf == 0) || not (nbytes == 4))) [
  | inl e ↦ rw e (inr (refl, ground arith, refl))
  | inr e ↦ elim (Bool-cases (bad_freq (load32 m buf))) [
    | inl b ↦
        rw (e, b)
          (inr (refl, inr (inr (λ w. ground (arith, (bad_freq_iff (load32 m buf)).1 w))), refl))
    | inr b ↦
        let d = good_freq-divides (load32 m buf) b in
        rw (e, b)
          (inl (
            refl,
            ground arith,
            ground arith,
            (bad_freq_iff (load32 m buf)).0 b,
            ground arith,
            ground arith,
            refl,
          ))
  ]
]
