-- ===== src/Kernel/Forest/Interrupts.antt =====
-- What the handlers of the timer, the keyboard, the clock and the exceptions do to the processes.
use linux_operating_system.Prelude.{
  ℕ, ◌%◌, ◌<◌, ◌≡◌, refl, sym, ap, ◌∙◌, subst, ◌≢◌, inl, inr, Bool, true, false, ◌&&◌, ◌||◌, not,
  Option, some, arith, leb, ◌==◌, ==_iff, Bool-cases, ◌>>=◌, bind_some, some_injective, if_branch,
  pos, minus_one, add32,
}
use linux_operating_system.Pic.{send_eoi}
use linux_operating_system.Kernel.{Kernel, current, num_terms, Outcome, returns, enters, Frame}
use linux_operating_system.Kernel.Schedule.{
  with_pic, do_switch, unlock, schedule, switch_vidmem, switch_vidmap, switch_terminals, next_turn,
  stays, pit_handler,
}
use linux_operating_system.Kernel.Forest.{IsForest, top, depth_le, top_ne_null}
use linux_operating_system.Kernel.Forest.Stacks.{Stacks, Turns, Shows}
use linux_operating_system.Kernel.Forest.Same.{
  view, SameBlock-refl, SameForest, SameForest-refl, SameForest-trans, SameForest-IsForest,
  SameTree-view,
}
use linux_operating_system.Kernel.Forest.Ending.{Leads}
use linux_operating_system.Kernel.Forest.Turning.{do_switch-Switches}

-- The fields that the invariant reads.
pub copied-IsForest :
    (k k' : Kernel)
    → IsForest k
    → SameForest k (record k' { pit_counter = k.pit_counter })
    → k'.pit_counter < 3
    → IsForest k'
copied-IsForest k k' v s turn =
    let w = SameForest-IsForest k (record k' { pit_counter = k.pit_counter }) s v in
    record {
      tree = record {
        running = w.tree.running;
        turn = turn;
        total = w.tree.total;
        few = w.tree.few;
        blocks = w.tree.blocks;
      };
      slots = w.slots;
      block = w.block;
      page = w.page;
      stack = w.stack;
    }

-- The lock, the counter of the turns and the drivers do not matter.
pub relocked : (k : Kernel) (n : ℕ) → SameForest k (record k { switch_lock = n })
relocked k n = record {
  tree = record {
    curr = refl;
    turn = refl;
    total = refl;
    next = refl;
    blocks = λ a. SameBlock-refl (k.pcbs a);
  };
  slots = refl;
  block = refl;
  pages = refl;
  stack = refl;
}

-- From a kernel whose processes are the same.
pub same-Leads :
    (Q : Stacks → Outcome → Stacks → Type 0) (k l m : Kernel) (o : Outcome)
    → SameForest k l
    → Leads (Q (view l)) o m
    → Leads (Q (view k)) o m
same-Leads Q k l m o s w = subst (λ (x : Stacks). Leads (Q x) o m) (SameTree-view k l s.tree) w

pub ends_with :
    (Q : Outcome → Stacks → Type 0) (x y : Outcome × Kernel)
    → ◌≡◌ {A = Option (Outcome × Kernel)} (some x) (some y)
    → Leads Q (x.0) (x.1)
    → Leads Q (y.0) (y.1)
ends_with Q x y e w =
    subst (λ (r : Outcome × Kernel). Leads Q (r.0) (r.1))
      (some_injective {A = Outcome × Kernel} x y e) w

unlock-Leads :
    (Q : Outcome → Stacks → Type 0) (o : Outcome) (l : Kernel)
    → Leads Q o l
    → Leads Q ((unlock (o, l)).0) ((unlock (o, l)).1)
unfolding unlock
unlock-Leads Q (returns n) l (v, q) =
    (SameForest-IsForest l (record l { switch_lock = 0 }) (relocked l 0) v, q)
unlock-Leads Q (enters entry stack) l w = w

unlocked_run :
    (Q : Outcome → Stacks → Type 0) (k' : Kernel) (x : Option (Outcome × Kernel)) (o : Outcome)
    → ((p : Outcome) (l : Kernel) → x ≡ some (p, l) → Leads Q p l)
    → ◌>>=◌ {B = Outcome × Kernel} x (λ r. some (unlock r)) ≡ some (o, k')
    → Leads Q o k'
unlocked_run Q k' x o h run =
    let ((p, l), ran, done) = bind_some {A = Outcome × Kernel} x _ (o, k') run in
    ends_with Q (unlock (p, l)) (o, k') done (unlock-Leads Q p l (h p l ran))

-- A slot is NULL where its terminal has no process.
slot_null :
    (k : Kernel) (t : ℕ) → IsForest k → t < 3 → (k.active_progs t == 0) ≡ (k.next_p_id t == 0)
slot_null k t v h = elim (Bool-cases (k.next_p_id t == 0)) [
  | inl e ↦
      let z : k.next_p_id t ≡ 0 = (==_iff (k.next_p_id t) 0).0 e in
      (==_iff (k.active_progs t) 0).1 (v.slots t h ∙ ap (top t) z) ∙ sym e
  | inr e ↦
      let few = let a = depth_le k v.tree t h in let b = v.tree.few in a in
      let ne : k.active_progs t ≢ 0 = λ z.
        top_ne_null t (k.next_p_id t) h (let b = v.tree.few in omega arith)
          (λ q. (let c = (==_iff (k.next_p_id t) 0).1 q in cc)) (sym (v.slots t h) ∙ z) in
      ground arith
]

schedule-Leads :
    (fuel : ℕ) (f : Frame) (dest : ℕ) (k k' : Kernel) (o : Outcome)
    → IsForest k
    → dest < 3
    → schedule fuel f dest k ≡ some (o, k')
    → Leads (Turns (k.switch_lock == 0) dest (view k)) o k'
unfolding schedule
schedule-Leads fuel f dest k k' o v h run =
    let Q = Turns (k.switch_lock == 0) dest (view k) in
    let null = slot_null k dest v h in
    elim (if_branch (stays dest k) _ _ (some (o, k')) run) [
      | inl (e, done) ↦
          let z : ((k.switch_lock == 0) && not (k.next_p_id dest == 0)) ≡ false = ground arith in
          ends_with Q (returns (pos 0), k) (o, k') done (v, (refl, rw z refl))
      | inr (e, run1) ↦
          let z : ((k.switch_lock == 0) && not (k.next_p_id dest == 0)) ≡ true = ground arith in
          let locked = record k { switch_lock = 1 } in
          let timed = record f { in_timer = true } in
          unlocked_run Q k' (do_switch fuel timed dest locked) o
            (λ p l ran.
              (let (w, q) =
                  do_switch-Switches timed dest locked
                    (SameForest-IsForest k locked (relocked k 1) v) h fuel l p ran in
                (
                  w,
                  elim q [
                    | inl (_, e0, e1) ↦ (e0, rw z e1)
                    | inr (none_there, _, _, _) ↦
                        absurd (let c = (==_iff (k.next_p_id dest) 0).1 none_there in ground arith)
                  ],
                )))
            run1
    ]

pub switch_terminals-Leads :
    (fuel : ℕ) (f : Frame) (dest : ℕ) (k k' : Kernel) (o : Outcome)
    → IsForest k
    → switch_terminals fuel f dest k ≡ some (o, k')
    → Leads (Shows dest (view k)) o k'
unfolding switch_terminals switch_vidmem switch_vidmap
switch_terminals-Leads fuel f dest k k' o v run =
    let Q = Shows dest (view k) in
    let shown = switch_vidmap dest (switch_vidmem dest (record k { switch_lock = 1 })) in
    let d = record shown { term = record shown.term { disp_term = dest } } in
    let to_d : SameForest k d = record {
      tree = record {
        curr = refl;
        turn = refl;
        total = refl;
        next = refl;
        blocks = λ a. SameBlock-refl (k.pcbs a);
      };
      slots = refl;
      block = refl;
      pages = refl;
      stack = refl;
    } in
    elim (if_branch ((k.term.disp_term == dest) || leb num_terms dest) _ _ (some (o, k')) run) [
      | inl (_, done) ↦
          ends_with Q (returns minus_one, k) (o, k') done (v, inl (minus_one, refl, refl))
      | inr (valid, run1) ↦ elim (if_branch (not (k.switch_lock == 0)) _ _ (some (o, k')) run1) [
        | inl (_, done) ↦ ends_with Q (returns (pos 0), k) (o, k') done (v, inl (pos 0, refl, refl))
        | inr (_, run2) ↦ elim (if_branch (d.active_progs dest == 0) _ _ (some (o, k')) run2) [
          | inl (empty, run3) ↦
              let untimed = record f { in_timer = false } in
              let small : dest < 3 = ground arith in
              let null = slot_null k dest v small in
              unlocked_run Q k' (do_switch fuel untimed dest d) o
                (λ p l ran.
                  (let (w, q) =
                      do_switch-Switches untimed dest d (SameForest-IsForest k d to_d v) small fuel
                        l p ran in
                    (
                      w,
                      elim q [
                        | inl (there, _, _) ↦
                            absurd (there ((==_iff (k.next_p_id dest) 0).0 (sym null ∙ empty)))
                        | inr (z, entered, few, e1) ↦ inr (small, z, entered, few, e1)
                      ],
                    )))
                run3
          | inr (_, done) ↦
              let e = record d { switch_lock = 0 } in
              ends_with Q (returns (pos 0), e) (o, k') done
                (
                  SameForest-IsForest k e (SameForest-trans k d e to_d (relocked d 0)) v,
                  inl (pos 0, refl, refl),
                )
        ]
      ]
    ]

next_turn-Leads :
    (Q : Outcome → Stacks → Type 0) (b : Bool) (o : Outcome) (l : Kernel)
    → Leads Q o l
    → Leads Q ((next_turn b (o, l)).0) ((next_turn b (o, l)).1)
unfolding next_turn
next_turn-Leads Q b (returns n) l (v, q) = elim (Bool-cases (b || (current l).saved_by_timer)) [
  | inl e ↦ rw e (
    copied-IsForest l (record l { pit_counter = add32 l.pit_counter 1 % 3 }) v (SameForest-refl l)
        (ground arith),
    q,
  )
  | inr e ↦ rw e (v, q)
]
next_turn-Leads Q b (enters entry stack) l w = w

-- A tick of the timer.
pub pit_handler-Leads :
    (fuel : ℕ) (f : Frame) (k k' : Kernel) (o : Outcome)
    → IsForest k
    → pit_handler fuel f k ≡ some (o, k')
    → Leads (Turns (k.switch_lock == 0) k.pit_counter (view k)) o k'
unfolding pit_handler
pit_handler-Leads fuel f k k' o v run =
    let Q = Turns (k.switch_lock == 0) k.pit_counter (view k) in
    let l = with_pic k (send_eoi 0 k.rtc.pic) in
    let same : SameForest k l = record {
      tree = record {
        curr = refl;
        turn = refl;
        total = refl;
        next = refl;
        blocks = λ a. SameBlock-refl (k.pcbs a);
      };
      slots = refl;
      block = refl;
      pages = refl;
      stack = refl;
    } in
    let ((p, m), ran, done) =
      bind_some {A = Outcome × Kernel} (schedule fuel f k.pit_counter l) _ (o, k') run in
    let w =
      schedule-Leads fuel f k.pit_counter l m p (SameForest-IsForest k l same v) v.tree.turn ran in
    ends_with Q (next_turn (stays k.pit_counter l) (p, m)) (o, k') done
      (next_turn-Leads Q (stays k.pit_counter l) p m w)
