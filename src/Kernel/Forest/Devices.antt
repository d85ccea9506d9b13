-- ===== src/Kernel/Forest/Devices.antt =====
-- What the keyboard's handler, the clock's and those of the exceptions do to the processes.
use linux_operating_system.Prelude.{
  ℕ, ◌-◌, ◌≡◌, refl, sym, ◌∙◌, subst, ◌≢◌, inl, inr, false, ◌&&◌, ◌||◌, not, some, List, [], ◌∷◌,
  ◌==◌, if◌then◌else◌, Bool-cases, bind_some, some_injective, if_branch, get_elem?, pos, store,
  codes,
}
use linux_operating_system.Pic.{send_eoi}
use linux_operating_system.Terminal.{Term, terminal_update_cursor}
use linux_operating_system.Terminal.Calls.{terminal_clear, terminal_reset_buffer}
use linux_operating_system.Terminal.Putc.{terminal_putc}
use linux_operating_system.Terminal.Frame.{KeepsPlace, terminal_putc-KeepsPlace}
use linux_operating_system.Kernel.{Kernel, tell, say, Outcome, returns, Frame}
use linux_operating_system.Kernel.Schedule.{with_pic, switch_terminals}
use linux_operating_system.Kernel.Keyboard.{
  Keys, track_keys, is_character, scan_to_ascii, type_char, respond, get_c_keyboard,
}
use linux_operating_system.Kernel.Exceptions.{squash_user_prog}
use linux_operating_system.Kernel.Exceptions.Handlers.{Fault, report, messages, exception}
use linux_operating_system.Kernel.Forest.{IsForest}
use linux_operating_system.Kernel.Forest.Same.{
  view, SameTree-view, SameBlock-refl, SameForest, SameForest-refl, SameForest-trans,
  SameForest-IsForest, term-SameForest, say-SameForest, tell-SameForest,
}
use linux_operating_system.Kernel.Forest.Ending.{Leads}
use linux_operating_system.Kernel.Forest.Stacks.{Shows, Ends}
use linux_operating_system.Kernel.Forest.Halting.{halt_func-Ends}
use linux_operating_system.Kernel.Forest.Interrupts.{same-Leads, switch_terminals-Leads}

type_char-SameForest : (c : ℕ) (k k' : Kernel) → type_char c k ≡ some k' → SameForest k k'
unfolding type_char
type_char-SameForest c k k' run = elim (if_branch (c == 0) (some k) _ (some k') run) [
  | inl (_, done) ↦ subst (SameForest k) (some_injective k k' done) (SameForest-refl k)
  | inr (_, run1) ↦
      let (t, q, done) = bind_some {A = Term} (terminal_putc c k.term) _ k' run1 in
      subst (SameForest k) (some_injective _ k' done)
        (term-SameForest k t (terminal_putc-KeepsPlace c k.term t q))
]

terminal_clear-KeepsPlace : (s : Term) → KeepsPlace s (terminal_clear s)
unfolding terminal_clear terminal_update_cursor terminal_reset_buffer
terminal_clear-KeepsPlace s = record { curr = refl; disp = refl; buffers = refl }

respond-SameForest : (c : ℕ) (s : Keys) (k k' : Kernel) → respond c s k ≡ some k' → SameForest k k'
unfolding respond
respond-SameForest c s k k' run = elim (if_branch (not (s.ctrl_flag == 0)) _ _ (some k') run) [
  | inl (_, done) ↦
      subst (SameForest k) (some_injective _ k' done)
        (elim (Bool-cases (scan_to_ascii false c == b'l')) [
          | inl b ↦
              rw b (term-SameForest k (terminal_clear k.term) (terminal_clear-KeepsPlace k.term))
          | inr b ↦ rw b (SameForest-refl k)
        ])
  | inr (_, run1) ↦
      elim (if_branch (not (s.l_shift_flag == 0) || not (s.r_shift_flag == 0)) _ _ (some k') run1) [
        | inl (_, q) ↦ type_char-SameForest _ k k' q
        | inr (_, q) ↦ type_char-SameForest _ k k' q
      ]
]

-- A scan code from the keyboard.
pub get_c_keyboard-Leads :
    (fuel : ℕ) (f : Frame) (c : ℕ) (keys keys' : Keys) (k k' : Kernel) (o : Outcome)
    → IsForest k
    → get_c_keyboard fuel f c keys k ≡ some (keys', (o, k'))
    → Leads (Shows (keys'.fn_flag - 1) (view k)) o k'
unfolding get_c_keyboard
get_c_keyboard-Leads fuel f c keys keys' k k' o v run =
    let begun =
      with_pic (record k { term = record k.term { char_from_kb = 1 } }) (send_eoi 1 k.rtc.pic) in
    let s = track_keys c keys in
    let to_begun : SameForest k begun = record {
      tree = record {
        curr = refl;
        turn = refl;
        total = refl;
        next = refl;
        blocks = λ a. SameBlock-refl (k.pcbs a);
      };
      slots = refl;
      block = refl;
      pages = refl;
      stack = refl;
    } in
    let (r, ran, run1) =
      bind_some {A = Kernel} (if is_character c then respond c s begun else some begun) _
        (keys', (o, k')) run in
    let to_r : SameForest begun r = elim (if_branch (is_character c) _ _ (some r) ran) [
      | inl (_, q) ↦ respond-SameForest c s begun r q
      | inr (_, q) ↦ subst (SameForest begun) (some_injective begun r q) (SameForest-refl begun)
    ] in
    let done = record r { term = record r.term { char_from_kb = 0 } } in
    let to_done : SameForest k done =
      SameForest-trans k r done (SameForest-trans k begun r to_begun to_r)
        (term-SameForest r done.term (record { curr = refl; disp = refl; buffers = refl })) in
    let w = SameForest-IsForest k done to_done v in
    elim (if_branch (not (s.fn_flag == 0) && not (s.alt_flag == 0)) _ _ (some (keys', (o, k')))
      run1) [
        | inl (_, run2) ↦
            let ((p, l), switched, last) =
              bind_some {A = Outcome × Kernel} (switch_terminals fuel f (s.fn_flag - 1) done) _
                (keys', (o, k')) run2 in
            let e =
              some_injective {A = Keys × (Outcome × Kernel)} (s, (p, l)) (keys', (o, k')) last in
            subst
              (λ (y : Keys × (Outcome × Kernel)).
                Leads (Shows ((y.0).fn_flag - 1) (view k)) (y.1.0) (y.1.1))
              e
              (same-Leads (Shows (s.fn_flag - 1)) k done l p to_done
                (switch_terminals-Leads fuel f (s.fn_flag - 1) done l p w switched))
        | inr (_, last) ↦
            let e =
              some_injective {A = Keys × (Outcome × Kernel)} (s, (returns (pos 0), done))
                (keys', (o, k')) last in
            subst
              (λ (y : Keys × (Outcome × Kernel)).
                Leads (Shows ((y.0).fn_flag - 1) (view k)) (y.1.0) (y.1.1))
              e (w, inl (pos 0, refl, SameTree-view k done to_done.tree))
      ]

report-SameForest : (x : Fault) (k k' : Kernel) → report x k ≡ some k' → SameForest k k'
unfolding report
report-SameForest x k k' run =
    let (k1, q1, r1) =
      bind_some {A = Kernel} (tell (codes "Address:%#x\n") (x.page_fault_addr ∷ []) k) _ k' run in
    let (k2, q2, r2) =
      bind_some {A = Kernel} (tell (codes "Error code:%#x\n") (x.error_code ∷ []) k1) _ k' r1 in
    let (k3, q3, r3) = bind_some {A = Kernel} (tell (codes "EIP:%#x\n") (x.eip ∷ []) k2) _ k' r2 in
    let (k4, q4, r4) = bind_some {A = Kernel} (tell (codes "CS:%#x\n") (x.cs ∷ []) k3) _ k' r3 in
    SameForest-trans k k1 k'
      (tell-SameForest (codes "Address:%#x\n") (x.page_fault_addr ∷ []) k k1 q1)
      (SameForest-trans k1 k2 k'
        (tell-SameForest (codes "Error code:%#x\n") (x.error_code ∷ []) k1 k2 q2)
        (SameForest-trans k2 k3 k' (tell-SameForest (codes "EIP:%#x\n") (x.eip ∷ []) k2 k3 q3) (
          SameForest-trans k3 k4 k' (tell-SameForest (codes "CS:%#x\n") (x.cs ∷ []) k3 k4 q4)
            (tell-SameForest (codes "EFLAGS:%#x\n") (x.eflags ∷ []) k4 k' r4))))

-- An exception in the program that runs.
pub exception-Leads :
    (n : ℕ) (x : Fault) (rounds fuel : ℕ) (f : Frame) (k k' : Kernel) (o : Outcome)
    → IsForest k
    → k.curr_pcb_ptr ≢ 0
    → exception n x rounds fuel f k ≡ some (o, k')
    → Leads (Ends (view k)) o k'
unfolding exception squash_user_prog
exception-Leads n x rounds fuel f k k' o v runs run =
    let (message, q0, r0) = bind_some {A = List ℕ} (get_elem? messages n) _ (o, k') run in
    let (printed, q1, r1) = bind_some {A = Kernel} (say message k) _ (o, k') r0 in
    let (reported, q2, r2) =
      bind_some {A = Kernel} (if n == 14 then report x printed else some printed) _ (o, k') r1 in
    let same : SameForest printed reported = elim (if_branch (n == 14) _ _ (some reported) q2) [
      | inl (_, q) ↦ report-SameForest x printed reported q
      | inr (_, q) ↦
          subst (SameForest printed) (some_injective printed reported q) (SameForest-refl printed)
    ] in
    let marked = record reported {
      halt_retval = store reported.halt_retval reported.term.curr_term 256;
    } in
    let to_reported =
      SameForest-trans k printed reported (say-SameForest message k printed q1) same in
    let to_marked = SameForest-trans k reported marked to_reported (record {
      tree = record {
        curr = refl;
        turn = refl;
        total = refl;
        next = refl;
        blocks = λ a. SameBlock-refl (reported.pcbs a);
      };
      slots = refl;
      block = refl;
      pages = refl;
      stack = refl;
    }) in
    same-Leads Ends k marked k' o to_marked (
      halt_func-Ends rounds fuel f marked k' o (SameForest-IsForest k marked to_marked v)
        (λ z. runs (sym to_marked.block ∙ z)) r2)
