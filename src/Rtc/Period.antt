-- ===== src/Rtc/Period.antt =====
-- The clock that a terminal sees: its flag is raised once every `rtc_freq` interrupts.
use linux_operating_system.Prelude.{
  ℕ, ◌+◌, ◌%◌, ◌≤◌, ◌<◌, ◌≡◌, refl, sym, ap, ◌∙◌, ◌⊎◌, inl, inr, true, ◌&&◌, none, some, List, [],
  ◌∷◌, arith, ltb, leb, ◌==◌, if◌then◌else◌, ltb→lt, leb→le, Bool-cases, length, pos, store, add32,
}
use native.Mathlib.Nat.{mod-eq_of_lt, mod-add-mod, mod_self, add-zero}
use linux_operating_system.Rtc.{Rtc, count_tick, count_ticks, rtc_irq_handler, rtc_wait, rtc_read}

-- The divisor of terminal `t` is one that the driver sets, and its count stays below it.
pub record IsRunning (t : ℕ) (r : Rtc) : Type 0 where
  pub positive : 0 < r.rtc_freq t
  pub bounded : r.rtc_freq t ≤ 1024
  pub below : r.rtc_counter t < r.rtc_freq t

-- One round of the handler's loop, seen from terminal `t`.
count_tick_lem :
    (i t : ℕ) (r : Rtc)
    → let r' = count_tick i r in
      let c = add32 (r.rtc_counter t) 1 % r.rtc_freq t in
      (r'.rtc_freq t ≡ r.rtc_freq t)
      × (r'.rtc_counter t ≡ (if t == i then c else r.rtc_counter t))
      × (r'.rtc_int t ≡ (if (t == i) && (c == 0) then 1 else r.rtc_int t))
unfolding count_tick
count_tick_lem i t r = (refl, ground arith, ground arith)

abbrev Ticked : ℕ → Rtc → Rtc → Type 0
Ticked t r r' =
    let c = add32 (r.rtc_counter t) 1 % r.rtc_freq t in
    (r'.rtc_freq t ≡ r.rtc_freq t)
    × (r'.rtc_counter t ≡ c)
    × (r'.rtc_int t ≡ (if c == 0 then 1 else r.rtc_int t))

count_ticks_lem : (t : ℕ) (r : Rtc) → t < 3 → Ticked t r (count_ticks r)
unfolding count_ticks
count_ticks_lem t r h =
    let r0 = count_tick 0 r in
    let r1 = count_tick 1 r0 in
    let e0 = count_tick_lem 0 t r in
    let e1 = count_tick_lem 1 t r0 in let e2 = count_tick_lem 2 t r1 in ground arith

-- What one interrupt does to terminal `t`: a count modulo the divisor, and the flag at zero.
irq-Ticked : (t a b : ℕ) (r : Rtc) → t < 3 → Ticked t r (rtc_irq_handler a b r)
unfolding rtc_irq_handler
irq-Ticked t a b r h = count_ticks_lem t (record r { pic = _ }) h

-- Interrupts, one after the other, with the values of their port reads.
pub interrupts_of : List (ℕ × ℕ) → Rtc → Rtc
interrupts_of [] r = r
interrupts_of ((a, b) ∷ ticks) r = interrupts_of ticks (rtc_irq_handler a b r)

-- Once raised, the flag stays raised: only the reader lowers it.
flag_stays :
    (t : ℕ) (ticks : List (ℕ × ℕ)) (r : Rtc)
    → t < 3
    → r.rtc_int t ≡ 1
    → (interrupts_of ticks r).rtc_int t ≡ 1
unfolding interrupts_of
flag_stays t [] r h e = e
flag_stays t ((a, b) ∷ ticks) r h e =
    flag_stays t ticks (rtc_irq_handler a b r) h (ground (arith, irq-Ticked t a b r h))

next_count : (c p : ℕ) → c < p → p ≤ 1024 → add32 c 1 % p ≡ (if ltb (c + 1) p then c + 1 else 0)
next_count c p h le =
    let w : add32 c 1 ≡ c + 1 = omega arith in
    rw w (elim (Bool-cases (ltb (c + 1) p)) [
      | inl e ↦ rw e (mod-eq_of_lt (ltb→lt _ _ e))
      | inr e ↦ let q : c + 1 ≡ p = ground arith in rw e (rw q (mod_self p))
    ])

-- Interrupts keep a terminal's clock running at its divisor.
irq-IsRunning : (t a b : ℕ) (r : Rtc) → t < 3 → IsRunning t r → IsRunning t (rtc_irq_handler a b r)
irq-IsRunning t a b r h v =
    ground
      (arith, irq-Ticked t a b r h, next_count (r.rtc_counter t) (r.rtc_freq t) v.below v.bounded)

-- On a running clock, after `n` interrupts the count of a terminal has gone on by `n` modulo the divisor.
pub counter_after :
    (t : ℕ) (ticks : List (ℕ × ℕ)) (r : Rtc)
    → t < 3
    → IsRunning t r
    → (interrupts_of ticks r).rtc_counter t ≡ (r.rtc_counter t + length ticks) % r.rtc_freq t
unfolding interrupts_of
counter_after t [] r h v =
    sym (ap (λ c. c % r.rtc_freq t) (add-zero (r.rtc_counter t)) ∙ mod-eq_of_lt v.below)
counter_after t ((a, b) ∷ ticks) r h v =
    let e = irq-Ticked t a b r h in
    let w : add32 (r.rtc_counter t) 1 ≡ r.rtc_counter t + 1 = ground (arith, v.below, v.bounded) in
    let ih = counter_after t ticks (rtc_irq_handler a b r) h (irq-IsRunning t a b r h v) in
    ih ∙ rw (e.0, e.1, w, mod-add-mod) (ap (λ n. n % r.rtc_freq t) (omega arith))

-- For one of the three terminals, on a running clock, the flag, lowered at first, is raised
-- exactly when the count has gone round.
pub flag_after :
    (t : ℕ) (ticks : List (ℕ × ℕ)) (r : Rtc)
    → t < 3
    → IsRunning t r
    → r.rtc_int t ≡ 0
    → (interrupts_of ticks r).rtc_int t
      ≡ (if ltb (r.rtc_counter t + length ticks) (r.rtc_freq t) then 0 else 1)
unfolding interrupts_of
flag_after t [] r h v z = ground (arith, v.below)
flag_after t ((a, b) ∷ ticks) r h v z =
    let e = irq-Ticked t a b r h in
    let v' = irq-IsRunning t a b r h v in
    let n = next_count (r.rtc_counter t) (r.rtc_freq t) v.below v.bounded in
    elim (Bool-cases (ltb (r.rtc_counter t + 1) (r.rtc_freq t))) [
      | inl more ↦
          let z' : (rtc_irq_handler a b r).rtc_int t ≡ 0 = ground arith in
          let ih = flag_after t ticks (rtc_irq_handler a b r) h v' z' in ground arith
      | inr round ↦
          let s = flag_stays t ticks (rtc_irq_handler a b r) h (ground arith) in ground arith
    ]

raised : (t : ℕ) (ticks : List (ℕ × ℕ)) (r : Rtc) → r.rtc_int t ≡ 1 → rtc_wait t ticks r ≡ some r
unfolding rtc_wait
raised t [] r e = ground arith
raised t ((a, b) ∷ ticks) r e = ground arith

starved :
    (t : ℕ) (ticks : List (ℕ × ℕ)) (r : Rtc)
    → t < 3
    → IsRunning t r
    → r.rtc_int t ≡ 0
    → r.rtc_counter t + length ticks < r.rtc_freq t
    → rtc_wait t ticks r ≡ none
unfolding rtc_wait
starved t [] r h v z lt = ground arith
starved t ((a, b) ∷ ticks) r h v z lt =
    let q : (r.rtc_int t == 0) ≡ true = ground arith in
    let e = irq-Ticked t a b r h in
    let n = next_count (r.rtc_counter t) (r.rtc_freq t) v.below v.bounded in
    rw (q, rtc_wait)
      (starved t ticks (rtc_irq_handler a b r) h (irq-IsRunning t a b r h v) (ground arith)
        (ground arith))

-- The wait goes on through exactly the interrupts before the count goes round.
wait_lem :
    (t : ℕ) (ticks : List (ℕ × ℕ)) (r : Rtc)
    → t < 3
    → IsRunning t r
    → r.rtc_int t ≡ 0
    → r.rtc_freq t ≤ r.rtc_counter t + length ticks
    → (s : Rtc) × (rtc_wait t ticks r ≡ some s)
      × (s.rtc_counter t ≡ 0)
      × IsRunning t s
      × (s.rtc_freq t ≡ r.rtc_freq t)
unfolding rtc_wait
wait_lem t [] r h v z le = absurd (omega (arith, v.below))
wait_lem t ((a, b) ∷ ticks) r h v z le =
    let q : (r.rtc_int t == 0) ≡ true = ground arith in
    let e = irq-Ticked t a b r h in
    let v' = irq-IsRunning t a b r h v in
    let n = next_count (r.rtc_counter t) (r.rtc_freq t) v.below v.bounded in
    elim (Bool-cases (ltb (r.rtc_counter t + 1) (r.rtc_freq t))) [
      | inl more ↦
          let (s, run, c, v'', f) =
            wait_lem t ticks (rtc_irq_handler a b r) h v' (ground arith) (ground arith) in
          (s, rw (q, rtc_wait) run, c, v'', f ∙ e.0)
      | inr round ↦ (
        rtc_irq_handler a b r,
        rw (q, rtc_wait) (raised t ticks (rtc_irq_handler a b r) (ground arith)),
        ground arith,
        v',
        e.0,
      )
    ]

-- For one of the three terminals, on a running clock, rtc_read returns 0 once the count has gone
-- round, with the flag lowered and the count at zero, and it does not return before that.
pub rtc_read_waits :
    (t : ℕ) (ticks : List (ℕ × ℕ)) (r : Rtc)
    → t < 3
    → IsRunning t r
    → ((r.rtc_freq t ≤ r.rtc_counter t + length ticks)
        × ((s : Rtc) × (rtc_read t ticks r ≡ some (pos 0, s))
            × (s.rtc_int t ≡ 0)
            × (s.rtc_counter t ≡ 0)
            × (s.rtc_freq t ≡ r.rtc_freq t)))
      ⊎ ((r.rtc_counter t + length ticks < r.rtc_freq t) × (rtc_read t ticks r ≡ none))
unfolding rtc_read
rtc_read_waits t ticks r h v =
    let r0 = record r { rtc_int = store r.rtc_int t 0 } in
    let v0 : IsRunning t r0 = record {
      positive = v.positive;
      bounded = v.bounded;
      below = v.below;
    } in
    let z0 : r0.rtc_int t ≡ 0 = ground arith in
    elim (Bool-cases (leb (r.rtc_freq t) (r.rtc_counter t + length ticks))) [
      | inl e ↦
          let (s, run, c, _, f) = wait_lem t ticks r0 h v0 z0 (leb→le _ _ e) in
          inl
            (leb→le _ _ e, (record s { rtc_int = store s.rtc_int t 0 }, rw run, ground arith, c, f))
      | inr e ↦ inr (ground arith, rw (starved t ticks r0 h v0 z0 (ground arith)))
    ]
