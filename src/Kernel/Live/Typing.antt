-- ===== src/Kernel/Live/Typing.antt =====
-- What a key puts on a terminal leaves the terminals calm.
use linux_operating_system.Prelude.{
  ℕ, ◌≤◌, ◌≡◌, refl, sym, ◌∙◌, subst, inl, inr, true, false, ◌||◌, not, some, arith, ◌==◌,
  if◌then◌else◌, Bool-cases, some_injective,
}
use linux_operating_system.Terminal.{Term, terminal_update_cursor}
use linux_operating_system.Terminal.Bitmap.{HasFlags}
use linux_operating_system.Terminal.Calls.{terminal_clear, terminal_reset_buffer}
use linux_operating_system.Terminal.Coords.{OnScreen}
use linux_operating_system.Terminal.Cursor.{terminal_putc-OnScreen}
use linux_operating_system.Terminal.Frame.{terminal_putc-KeepsFlags}
use linux_operating_system.Terminal.Frame.Index.{NextIndex, terminal_putc-index}
use linux_operating_system.Terminal.Putc.{terminal_putc}
use linux_operating_system.Kernel.{Kernel}
use linux_operating_system.Kernel.Keyboard.{Keys, scan_to_ascii, type_char, respond}
use linux_operating_system.Kernel.Live.{IsCalm}

-- A state that a key leads to.
pub record Typed (s s' : Term) : Type 0 where
  pub calm : IsCalm s'
  pub curr : s'.curr_term ≡ s.curr_term
  pub disp : s'.disp_term ≡ s.disp_term
  pub index : NextIndex s s'

putc-Typed :
    (c : ℕ) (s : Term)
    → IsCalm s
    → s.char_from_kb ≤ 1
    → (s' : Term) × (terminal_putc c s ≡ some s') × Typed s s'
putc-Typed c s v key =
    let h : HasFlags s = record {
      disp = v.flags s.disp_term v.shown;
      curr = v.flags s.curr_term v.running;
      key = key;
    } in
    let (s', run, _) = terminal_putc-OnScreen s.curr_term c s h (v.cursors s.curr_term v.running) in
    let w = terminal_putc-KeepsFlags c s s' run in
    (
      s',
      run,
      record {
        calm = record {
          running = rw w.curr v.running;
          shown = rw w.disp v.shown;
          flags = λ t ht. rw (w.reads, w.writes) (v.flags t ht);
          cursors = λ t ht.
              let (s2, run2, on) = terminal_putc-OnScreen t c s h (v.cursors t ht) in
              subst (OnScreen t) (some_injective s2 s' (sym run2 ∙ run)) on;
        };
        curr = w.curr;
        disp = w.disp;
        index = terminal_putc-index c s s' run;
      },
    )

same-Typed : (s : Term) → IsCalm s → Typed s s
same-Typed s v = record { calm = v; curr = refl; disp = refl; index = λ t. omega arith }

type_char-Typed :
    (c : ℕ) (k : Kernel)
    → IsCalm k.term
    → k.term.char_from_kb ≤ 1
    → (t : Term) × (type_char c k ≡ some (record k { term = t })) × Typed k.term t
unfolding type_char
type_char-Typed c k v key = elim (Bool-cases (c == 0)) [
  | inl e ↦ (k.term, rw e refl, same-Typed k.term v)
  | inr e ↦ let (t, run, w) = putc-Typed c k.term v key in (t, rw (e, run) refl, w)
]

clear-Typed : (s : Term) → IsCalm s → Typed s (terminal_clear s)
unfolding terminal_clear terminal_update_cursor terminal_reset_buffer
clear-Typed s v = record {
  calm = record {
    running = v.running;
    shown = v.shown;
    flags = v.flags;
    cursors = λ t ht.
        let w = v.cursors t ht in
        record { column = let a = w.column in ground arith; row = let a = w.row in ground arith };
  };
  curr = refl;
  disp = refl;
  index = λ t. ground arith;
}

pub respond-Typed :
    (c : ℕ) (s : Keys) (k : Kernel)
    → IsCalm k.term
    → k.term.char_from_kb ≤ 1
    → (t : Term) × (respond c s k ≡ some (record k { term = t })) × Typed k.term t
unfolding respond
respond-Typed c s k v key = elim (Bool-cases (s.ctrl_flag == 0)) [
  | inr e ↦ elim (Bool-cases (scan_to_ascii false c == b'l')) [
    | inl g ↦ (terminal_clear k.term, rw (e, g) refl, clear-Typed k.term v)
    | inr g ↦ (k.term, rw (e, g) refl, same-Typed k.term v)
  ]
  | inl e ↦ elim (Bool-cases (not (s.l_shift_flag == 0) || not (s.r_shift_flag == 0))) [
    | inl g ↦
        let (t, run, w) =
          type_char-Typed
            (if not (s.caps_flag == 0) then scan_to_ascii false c else scan_to_ascii true c) k v
            key in
        (t, rw (e, g) run, w)
    | inr g ↦
        let (t, run, w) =
          type_char-Typed
            (if not (s.caps_flag == 0) then scan_to_ascii true c else scan_to_ascii false c) k v
            key in
        (t, rw (e, g) run, w)
  ]
]
