-- ===== src/Kernel/Live/Fairness.antt =====
-- Every terminal gets its turn, whatever keys and clock interrupts come between the ticks of the timer.
use linux_operating_system.Prelude.{
  ℕ, zero, suc, ◌+◌, ◌≤◌, ◌<◌, ◌≡◌, refl, ap, ◌∙◌, inl, inr, false, some, List, [], ◌∷◌, ◌++◌,
  arith, ◌==◌, ==_iff, Bool-cases, ℤ, pos,
}
use linux_operating_system.Rtc.{rtc_irq_handler}
use linux_operating_system.Kernel.{Kernel, returns, Frame}
use linux_operating_system.Kernel.Schedule.Turns.{
  pit_handler-Ticks, nearer, turns_left, turns_left-positive, turns_left-small,
}
use linux_operating_system.Kernel.Keyboard.{Keys}
use linux_operating_system.Kernel.Live.{
  IsLive, Interrupt, timer, scan, pulse, handle, handle_all, timers, is_timer, scans,
}
use linux_operating_system.Kernel.Live.Runs.{ticked-IsLive, pulse-IsLive}
use linux_operating_system.Kernel.Live.Pressing.{get_c_keyboard-IsLive}

-- The first interrupts of a run, after which terminal `t` runs.
pub record Turn (fuel : ℕ) (f : Frame) (is : List Interrupt) (keys : Keys) (k : Kernel) (t most : ℕ)
    : Type 0 where
  pub before : List Interrupt
  pub after : List Interrupt
  pub split : before ++ after ≡ is
  pub few : timers before ≤ most
  pub keys_then : Keys
  pub then_kernel : Kernel
  pub run : handle_all fuel f before keys k ≡ some (keys_then, then_kernel)
  pub live : IsLive (scans after) keys_then then_kernel
  pub runs : then_kernel.term.curr_term ≡ t

-- An interrupt before such a run.
later-Turn :
    (fuel : ℕ) (f : Frame) (i : Interrupt) (is : List Interrupt) (keys keys1 : Keys) (k k1 : Kernel)
    (n : ℤ) (t most most' : ℕ)
    → handle fuel f i keys k ≡ some (keys1, (returns n, k1))
    → Turn fuel f is keys1 k1 t most
    → is_timer i + most ≡ most'
    → Turn fuel f (i ∷ is) keys k t most'
unfolding handle_all timers
later-Turn fuel f i is keys keys1 k k1 n t most most' run v e = record {
  before = i ∷ v.before;
  after = v.after;
  split = ap (λ x. i ∷ x) v.split;
  few = let h = v.few in omega arith;
  keys_then = v.keys_then;
  then_kernel = v.then_kernel;
  run = rw run v.run;
  live = v.live;
  runs = v.runs;
}

timers-Turn :
    (is : List Interrupt) (d fuel : ℕ) (f : Frame) (keys : Keys) (k : Kernel) (t : ℕ)
    → IsLive (scans is) keys k
    → t < 3
    → turns_left k t ≤ d
    → d ≤ timers is
    → Turn fuel f is keys k t d
unfolding timers scans
timers-Turn [] d fuel f keys k t v ht e h =
    absurd (let q = turns_left-positive k t v.running ht in omega arith)
timers-Turn (timer ∷ rest) zero fuel f keys k t v ht e h =
    absurd (let q = turns_left-positive k t v.running ht in omega arith)
timers-Turn (timer ∷ rest) (suc d) fuel f keys k t v ht e h =
    let (k1, run, w) = pit_handler-Ticks fuel f k v.running in
    let live = ticked-IsLive (scans rest) keys k k1 w v in
    let slot = v.programs k.pit_counter v.running.turn in
    elim (Bool-cases (k.pit_counter == t)) [
      | inl now ↦
          let there : (k.active_progs k.pit_counter == 0) ≡ false = ground arith in
          record {
            before = timer ∷ [];
            after = rest;
            split = refl;
            few = omega arith;
            keys_then = keys;
            then_kernel = k1;
            run = unfold handle handle_all in rw run refl;
            live = live;
            runs = (rw there at w.runs) ∙ (==_iff k.pit_counter t).0 now;
          }
      | inr later ↦
          let near = nearer k k1 t v.running w ht (ground arith) slot in
          later-Turn fuel f timer rest keys keys k k1 (pos 0) t d _ (unfold handle in rw run refl)
            (timers-Turn rest d fuel f keys k1 t live ht (omega arith) (omega arith)) (omega arith)
    ]
timers-Turn (scan c ∷ rest) d fuel f keys k t v ht e h =
    let (n, keys1, k1, run, w, slots, same, ptr) =
      get_c_keyboard-IsLive (scans rest) fuel f c keys k v in
    let later = timers-Turn rest d fuel f keys1 k1 t w ht (rw (same, slots, ptr) e) (omega arith) in
    later-Turn fuel f (scan c) rest keys keys1 k k1 n t d _ (unfold handle in run) later
      (omega arith)
timers-Turn (pulse a b ∷ rest) d fuel f keys k t v ht e h =
    let k1 = record k { rtc = rtc_irq_handler a b k.rtc } in
    let later =
      timers-Turn rest d fuel f keys k1 t (pulse-IsLive (scans rest) a b keys k v) ht e
        (omega arith) in
    later-Turn fuel f (pulse a b) rest keys keys k k1 (pos 0) t d _ (unfold handle in refl) later
      (omega arith)

-- While each of the three terminals has a program and all is as handle_all-IsLive wants it: in a run of
-- interrupts with five ticks of the timer among them, every terminal runs at some point, after five
-- ticks at most, whatever keys are pressed and whatever clock interrupts come in between.
pub handle_all-fair :
    (fuel : ℕ) (f : Frame) (is : List Interrupt) (keys : Keys) (k : Kernel) (t : ℕ)
    → IsLive (scans is) keys k
    → t < 3
    → 5 ≤ timers is
    → Turn fuel f is keys k t 5
handle_all-fair fuel f is keys k t v ht h =
    timers-Turn is 5 fuel f keys k t v ht (turns_left-small k t) h
