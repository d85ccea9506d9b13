-- ===== src/Terminal/Writing.antt =====
-- What terminal_putc touches while terminal_write runs.
use linux_operating_system.Prelude.{
  ℕ, ◌<◌, ◌≡◌, refl, sym, ◌∙◌, subst, ◌≢◌, inl, inr, false, ◌&&◌, ◌||◌, not, some, arith, ◌==◌,
  if◌then◌else◌, Bool-cases,
}
use linux_operating_system.Terminal.{Term}
use linux_operating_system.Terminal.Chars.{all_char}
use linux_operating_system.Terminal.Putc.{put_with, terminal_putc}
use linux_operating_system.Terminal.Bitmap.{HasFlags, terminal_putc_routes}
use linux_operating_system.Terminal.Touches.{
  Touches, show_char-Touches, hide_char-Touches, new_line-Touches_disp, new_line-Touches_curr,
}

-- A character that is not the keyboard's, put on the displayed terminal or on the running one.
put-Touches_disp :
    (c : ℕ) (s : Term)
    → s.char_from_kb ≡ 0
    → s.curr_idx s.disp_term < 128
    → Touches s.disp_term s (put_with c 1 s)
unfolding put_with all_char
put-Touches_disp c s k h = elim (Bool-cases ((c == b'\n') || (c == 13))) [
  | inl e ↦ rw e (new_line-Touches_disp s h)
  | inr e ↦
      let q : ((c == 8) && ((s.char_from_kb == 1) && not (s.read_flag s.disp_term == 0))) ≡ false =
        ground arith in
      rw (e, q) (show_char-Touches c s h)
]

put-Touches_curr :
    (c : ℕ) (s : Term)
    → s.char_from_kb ≡ 0
    → s.curr_idx s.curr_term < 128
    → Touches s.curr_term s (put_with c 2 s)
unfolding put_with all_char
put-Touches_curr c s k h = elim (Bool-cases ((c == b'\n') || (c == 13))) [
  | inl e ↦ rw e (new_line-Touches_curr s h)
  | inr e ↦
      let q : ((c == 8) && ((s.char_from_kb == 1) && not (s.read_flag s.disp_term == 0))) ≡ false =
        ground arith in
      rw (e, q) (hide_char-Touches c s h)
]

-- Terminal `t` writes: it runs, and no key is being handled.
pub record IsWriting (t : ℕ) (s : Term) : Type 0 where
  pub flags : HasFlags s
  pub running : s.curr_term ≡ t
  pub writes : s.write_flag t ≡ 1
  pub no_key : s.char_from_kb ≡ 0

clear-Touches :
    (t : ℕ) (s s' : Term) → Touches t s s' → Touches t s (record s' { char_from_kb = 0 })
clear-Touches t s s' v = record {
  curr = v.curr;
  disp = v.disp;
  reads = v.reads;
  writes = v.writes;
  index = v.index;
  others = v.others;
  input = v.input;
}

pub putc-Touches :
    (t c : ℕ) (s : Term)
    → IsWriting t s
    → s.curr_idx t < 128
    → (s' : Term) × (terminal_putc c s ≡ some s') × Touches t s s' × (s'.char_from_kb ≡ 0)
putc-Touches t c s w h =
    let (s1, run, r) = terminal_putc_routes c s w.flags in
    let active : (s.write_flag s.curr_term == 0) ≡ false =
      (rw w.running (ground (arith, w.writes))) in
    let keyless : (s.char_from_kb == 1) ≡ false = ground (arith, w.no_key) in
    (record s1 { char_from_kb = 0 }, run, clear-Touches t s s1 (touched s1 active keyless r), refl)
  where
    touched :
        (s1 : Term)
        → (s.write_flag s.curr_term == 0) ≡ false
        → (s.char_from_kb == 1) ≡ false
        → ((s.curr_term ≡ s.disp_term
              → s1 ≡ (
                  if (s.read_flag s.curr_term == 0) && (s.write_flag s.curr_term == 0)
                  then s
                  else put_with c 1 s))
            × (s.curr_term ≢ s.disp_term
                → s1 ≡ (
                    if s.char_from_kb == 1
                    then if s.read_flag s.disp_term == 0 then s else put_with c 1 s
                    else if s.write_flag s.curr_term == 0
                    then s
                    else put_with c 2 s)))
        → Touches t s s1
    touched s1 active keyless (here, away) = elim (Bool-cases (s.curr_term == s.disp_term)) [
      | inl e ↦
          let q : s.curr_term ≡ s.disp_term = ground arith in
          let z : ((s.read_flag s.curr_term == 0) && (s.write_flag s.curr_term == 0)) ≡ false =
            ground arith in
          let g = (rw z at (here q)) in
          let d : s.disp_term ≡ t = sym q ∙ w.running in
          subst (λ k. Touches t s k) (sym g)
            (subst (λ k. Touches k s (put_with c 1 s)) d
              (put-Touches_disp c s w.no_key (subst (λ k. s.curr_idx k < 128) (sym d) h)))
      | inr e ↦
          let g = (rw (keyless, active) at (away (ground arith))) in
          subst (λ k. Touches t s k) (sym g)
            (subst (λ k. Touches k s (put_with c 2 s)) w.running
              (put-Touches_curr c s w.no_key (subst (λ k. s.curr_idx k < 128) (sym w.running) h)))
    ]
