-- ===== src/Terminal/Cursor.antt =====
-- The cursor stays on the screen whatever terminal_putc is given.
use linux_operating_system.Prelude.{
  ℕ, ◌≡◌, sym, subst, inl, inr, Bool, true, false, ◌&&◌, ◌||◌, not, some, arith, ◌==◌,
  if◌then◌else◌, Bool-cases,
}
use linux_operating_system.Terminal.{Term}
use linux_operating_system.Terminal.Putc.{put_with, terminal_putc}
use linux_operating_system.Terminal.Bitmap.{HasFlags, terminal_putc_routes}
use linux_operating_system.Terminal.Coords.{
  OnScreen, all_char-OnScreen, new_line_char-OnScreen, backspace-OnScreen,
}

put_with-OnScreen : (u c f : ℕ) (s : Term) → OnScreen u s → OnScreen u (put_with c f s)
unfolding put_with
put_with-OnScreen u c f s v = elim (Bool-cases ((c == b'\n') || (c == 13))) [
  | inl e ↦ rw e (new_line_char-OnScreen u f s v)
  | inr e ↦
      elim (Bool-cases
        ((c == 8) && ((s.char_from_kb == 1) && not (s.read_flag s.disp_term == 0)))) [
          | inl g ↦ rw (e, g) (backspace-OnScreen u s v)
          | inr g ↦ rw (e, g) (all_char-OnScreen u c f s v)
        ]
]

if-OnScreen :
    (u : ℕ) (b : Bool) (s s' : Term)
    → OnScreen u s
    → OnScreen u s'
    → OnScreen u (if b then s else s')
if-OnScreen u true s s' v w = v
if-OnScreen u false s s' v w = w

-- With sensible flags terminal_putc returns on every character, and leaves the coordinates of every
-- terminal `u` that names a cell naming a cell.
pub terminal_putc-OnScreen :
    (u c : ℕ) (s : Term)
    → HasFlags s
    → OnScreen u s
    → (s' : Term) × (terminal_putc c s ≡ some s') × OnScreen u s'
terminal_putc-OnScreen u c s h v =
    let (s1, run, (here, away)) = terminal_putc_routes c s h in
    let p1 = put_with-OnScreen u c 1 s v in
    let p2 = put_with-OnScreen u c 2 s v in
    let w : OnScreen u s1 = elim (Bool-cases (s.curr_term == s.disp_term)) [
      | inl e ↦ subst (OnScreen u) (sym (here (ground arith))) (if-OnScreen u _ s _ v p1)
      | inr e ↦
          subst (OnScreen u) (sym (away (ground arith)))
            (if-OnScreen u _ _ _ (if-OnScreen u _ s _ v p1) (if-OnScreen u _ s _ v p2))
    ] in
    (record s1 { char_from_kb = 0 }, run, record { column = w.column; row = w.row })
