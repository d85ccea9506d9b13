-- ===== src/Kernel/Live/Pressing.antt =====
-- The keyboard's handler comes back from every scan code.
use linux_operating_system.Prelude.{
  ℕ, suc, ◌-◌, ◌≤◌, ◌<◌, ◌≡◌, refl, ◌∙◌, ◌≢◌, inl, inr, true, false, ◌&&◌, ◌||◌, not, some, arith,
  leb, ◌==◌, if◌then◌else◌, Bool-cases, ℤ, pos, minus_one,
}
use linux_operating_system.Pic.{send_eoi}
use linux_operating_system.Terminal.{Term}
use linux_operating_system.Terminal.Frame.Index.{NextIndex}
use linux_operating_system.Kernel.{Kernel, returns, Frame}
use linux_operating_system.Kernel.Schedule.{
  with_pic, switch_terminals, switch_vidmem, switch_vidmap,
}
use linux_operating_system.Kernel.Schedule.Turns.{IsRunning}
use linux_operating_system.Kernel.Keyboard.{Keys, track_keys, is_character, respond, get_c_keyboard}
use linux_operating_system.Kernel.Live.{IsCalm, IsLive}
use linux_operating_system.Kernel.Live.Typing.{respond-Typed}

track_keys-fn : (c : ℕ) (s : Keys) → s.fn_flag ≤ 3 → (track_keys c s).fn_flag ≤ 3
unfolding track_keys
track_keys-fn c s h = ground arith

-- The running program is the same where the terminal that runs is.
term-IsRunning :
    (k : Kernel) (t : Term)
    → t.curr_term ≡ k.term.curr_term
    → IsRunning k
    → IsRunning (record k { term = t })
term-IsRunning k t e v = record {
  in_range = rw e v.in_range;
  turn = v.turn;
  unlocked = v.unlocked;
  block = v.block;
  slot = rw e v.slot;
  page = rw e v.page;
  stack = v.stack;
}

-- A kernel between the character of a key and the change of the display.
record IsSteady (k : Kernel) : Type 0 where
  running : IsRunning k
  programs : (t : ℕ) → t < 3 → k.active_progs t ≢ 0
  calm : IsCalm k.term
  no_key : k.term.char_from_kb ≡ 0

-- Another terminal on display, or not.
switch-IsSteady :
    (fuel : ℕ) (f : Frame) (dest : ℕ) (k : Kernel)
    → IsSteady k
    → (n : ℤ) × (k' : Kernel) × (switch_terminals fuel f dest k ≡ some (returns n, k'))
      × IsSteady k'
      × (k'.term.curr_idx ≡ k.term.curr_idx)
      × (k'.active_progs ≡ k.active_progs)
      × (k'.pit_counter ≡ k.pit_counter)
      × (k'.curr_pcb_ptr ≡ k.curr_pcb_ptr)
unfolding switch_terminals switch_vidmem switch_vidmap
switch-IsSteady fuel f dest k v = elim (Bool-cases ((k.term.disp_term == dest) || leb 3 dest)) [
  | inl e ↦ (minus_one, k, rw e refl, v, refl, refl, refl, refl)
  | inr e ↦
      let free : (k.switch_lock == 0) ≡ true = ground (arith, v.running.unlocked) in
      let small : dest < 3 = ground arith in
      let there : (k.active_progs dest == 0) ≡ false =
        let p = v.programs dest small in ground arith in
      let d = switch_vidmap dest (switch_vidmem dest (record k { switch_lock = 1 })) in
      (
        pos 0,
        record d { term = record d.term { disp_term = dest }; switch_lock = 0 },
        rw (e, free, there) refl,
        record {
          running = record {
            in_range = v.running.in_range;
            turn = v.running.turn;
            unlocked = refl;
            block = v.running.block;
            slot = v.running.slot;
            page = v.running.page;
            stack = v.running.stack;
          };
          programs = v.programs;
          calm = record {
            running = v.calm.running;
            shown = small;
            flags = v.calm.flags;
            cursors =
                λ t ht. let w = v.calm.cursors t ht in record { column = w.column; row = w.row };
          };
          no_key = v.no_key;
        },
        refl,
        refl,
        refl,
        refl,
      )
]

IsCalm-key : (s : Term) (n : ℕ) → IsCalm s → IsCalm (record s { char_from_kb = n })
IsCalm-key s n v = record {
  running = v.running;
  shown = v.shown;
  flags = v.flags;
  cursors = λ t ht. let w = v.cursors t ht in record { column = w.column; row = w.row };
}

-- The character of a key, if it has one, and the mark of the keyboard cleared.
typed-IsSteady :
    (c : ℕ) (s : Keys) (k : Kernel)
    → IsSteady k
    → (r : Kernel) × ((if is_character c
          then respond c s (
              with_pic
                (record k { term = record k.term { char_from_kb = 1 } })
                (send_eoi 1 k.rtc.pic))
          else some (
              with_pic
                (record k { term = record k.term { char_from_kb = 1 } })
                (send_eoi 1 k.rtc.pic)))
        ≡ some r)
      × IsSteady (record r { term = record r.term { char_from_kb = 0 } })
      × NextIndex k.term r.term
      × (r.active_progs ≡ k.active_progs)
      × (r.pit_counter ≡ k.pit_counter)
      × (r.curr_pcb_ptr ≡ k.curr_pcb_ptr)
typed-IsSteady c s k v =
    let begun =
      with_pic (record k { term = record k.term { char_from_kb = 1 } }) (send_eoi 1 k.rtc.pic) in
    let calm1 = IsCalm-key k.term 1 v.calm in
    let (t, run, w) = respond-Typed c s begun calm1 (omega arith) in
    elim (Bool-cases (is_character c)) [
      | inl e ↦ (
        record begun { term = t },
        rw e run,
        record {
          running =
              let u = term-IsRunning k (record t { char_from_kb = 0 }) w.curr v.running in
              record {
                in_range = u.in_range;
                turn = u.turn;
                unlocked = u.unlocked;
                block = u.block;
                slot = u.slot;
                page = u.page;
                stack = u.stack;
              };
          programs = v.programs;
          calm = IsCalm-key t 0 w.calm;
          no_key = refl;
        },
        w.index,
        refl,
        refl,
        refl,
      )
      | inr e ↦ (
        begun,
        rw e refl,
        record {
          running = record {
            in_range = v.running.in_range;
            turn = v.running.turn;
            unlocked = v.running.unlocked;
            block = v.running.block;
            slot = v.running.slot;
            page = v.running.page;
            stack = v.running.stack;
          };
          programs = v.programs;
          calm = IsCalm-key k.term 0 v.calm;
          no_key = refl;
        },
        (λ t. omega arith),
        refl,
        refl,
        refl,
      )
    ]

pub get_c_keyboard-IsLive :
    (left fuel : ℕ) (f : Frame) (c : ℕ) (keys : Keys) (k : Kernel)
    → IsLive (suc left) keys k
    → (n : ℤ) × (keys' : Keys) × (k' : Kernel) × (get_c_keyboard fuel f c keys k
        ≡ some (keys', (returns n, k')))
      × IsLive left keys' k'
      × (k'.active_progs ≡ k.active_progs)
      × (k'.pit_counter ≡ k.pit_counter)
      × (k'.curr_pcb_ptr ≡ k.curr_pcb_ptr)
unfolding get_c_keyboard
get_c_keyboard-IsLive left fuel f c keys k v =
    let s = track_keys c keys in
    let steady : IsSteady k = record {
      running = v.running;
      programs = v.programs;
      calm = v.calm;
      no_key = v.no_key;
    } in
    let (r, typed, w, index, slots, turn, ptr) = typed-IsSteady c s k steady in
    let done = record r { term = record r.term { char_from_kb = 0 } } in
    let live = λ (l : Kernel) (x : IsSteady l) (i : l.term.curr_idx ≡ r.term.curr_idx).
      (let y : IsLive left s l = record {
        running = x.running;
        programs = x.programs;
        calm = x.calm;
        room = λ t ht. (let a = v.room t ht in let b = index t in rw i (omega arith));
        no_key = x.no_key;
        function_key = track_keys-fn c keys v.function_key;
      } in
        y) in
    elim (Bool-cases (not (s.fn_flag == 0) && not (s.alt_flag == 0))) [
      | inl e ↦
          let (n, l, switched, x, idx, same, turn2, ptr2) =
            switch-IsSteady fuel f (s.fn_flag - 1) done w in
          (
            n,
            s,
            l,
            rw (typed, e, switched) refl,
            live l x idx,
            same ∙ slots,
            turn2 ∙ turn,
            ptr2 ∙ ptr,
          )
      | inr e ↦ (pos 0, s, done, rw (typed, e) refl, live done w refl, slots, turn, ptr)
    ]
