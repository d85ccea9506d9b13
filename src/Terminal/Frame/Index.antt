-- ===== src/Terminal/Frame/Index.antt =====
-- A character moves the index of an input line on by one place at most.
use linux_operating_system.Prelude.{
  ℕ, ◌+◌, ◌≤◌, ◌≡◌, refl, ◌∙◌, subst, inl, inr, Bool, true, false, ◌&&◌, ◌||◌, not, some, List,
  arith, leb, ◌==◌, if◌then◌else◌, Bool-cases, bind_some, some_injective,
}
use linux_operating_system.Terminal.{
  Term, num_rows, terminal_scroll_down_curr, terminal_scroll_down_disp, terminal_update_cursor,
}
use linux_operating_system.Terminal.Chars.{
  step_coords, wrap_row, append_input, draw, show_char, hide_char, all_char, enter_input, next_row,
  end_line, raise_enter, new_line_char, backspace_char,
}
use linux_operating_system.Terminal.Putc.{
  put_with, dispatch, bmap_val, bitmap_of, override, choose_flag, terminal_putc,
}

abbrev pub NextIndex : Term → Term → Type 0
NextIndex s s' = (t : ℕ) → s'.curr_idx t ≤ s.curr_idx t + 1

same-NextIndex : (s : Term) → NextIndex s s
same-NextIndex s t = omega arith

if-NextIndex :
    (b : Bool) (s t u : Term) → NextIndex s t → NextIndex s u → NextIndex s (if b then t else u)
if-NextIndex true s t u v w = v
if-NextIndex false s t u v w = w

wrap-index :
    (t : ℕ) (scroll : Term → Term) (s : Term)
    → (scroll s).curr_idx ≡ s.curr_idx
    → (wrap_row t scroll s).curr_idx ≡ s.curr_idx
unfolding wrap_row
wrap-index t scroll s e = elim (Bool-cases (leb num_rows (s.term_y t))) [
  | inl q ↦ rw q e
  | inr q ↦ rw q refl
]

disp-index : (s : Term) → (terminal_scroll_down_disp s).curr_idx ≡ s.curr_idx
unfolding terminal_scroll_down_disp
disp-index s = refl

curr-index : (s : Term) → (terminal_scroll_down_curr s).curr_idx ≡ s.curr_idx
unfolding terminal_scroll_down_curr
curr-index s = refl

append-index : (d c : ℕ) (s u : Term) → u.curr_idx ≡ s.curr_idx → NextIndex s (append_input d c u)
unfolding append_input
append-index d c s u e t = rw e (ground arith)

show_char-index : (c : ℕ) (s : Term) → NextIndex s (show_char c s)
unfolding show_char terminal_update_cursor
show_char-index c s =
    let d = s.disp_term in
    let u = step_coords d (draw (s.video_buffer d) d c (draw 0xB8000 d c s)) in
    let w = wrap_row d terminal_scroll_down_disp u in
    append-index d c s (terminal_update_cursor w)
      (wrap-index d terminal_scroll_down_disp u (disp-index u) ∙ unfold step_coords draw in refl)

hide_char-index : (c : ℕ) (s : Term) → NextIndex s (hide_char c s)
unfolding hide_char
hide_char-index c s =
    let d = s.curr_term in
    let u = step_coords d (draw (s.video_buffer d) d c s) in
    append-index d c s (wrap_row d terminal_scroll_down_curr u)
      (wrap-index d terminal_scroll_down_curr u (curr-index u) ∙ unfold step_coords draw in refl)

end_line-index :
    (d : ℕ) (scroll : Term → Term) (s : Term)
    → ((u : Term) → (scroll u).curr_idx ≡ u.curr_idx)
    → NextIndex s (end_line d scroll s)
unfolding end_line
end_line-index d scroll s h t =
    let u = next_row d (enter_input d s) in
    let e : (wrap_row d scroll u).curr_idx ≡ s.curr_idx =
      wrap-index d scroll u (h u) ∙ unfold next_row enter_input in refl in
    rw e (ground arith)

raise_enter-index : (s u : Term) → NextIndex s u → NextIndex s (raise_enter u)
unfolding raise_enter
raise_enter-index s u v = if-NextIndex (u.read_flag u.disp_term == 0) s u _ v v

new_line_char-index : (w : ℕ) (s : Term) → NextIndex s (new_line_char w s)
unfolding new_line_char terminal_update_cursor
new_line_char-index w s =
    let ended = end_line s.disp_term terminal_scroll_down_disp s in
    if-NextIndex (w == 1) s _ _
      (raise_enter-index s (terminal_update_cursor ended)
        (end_line-index s.disp_term terminal_scroll_down_disp s disp-index))
      (if-NextIndex (w == 2) s _ s
        (end_line-index s.curr_term terminal_scroll_down_curr s curr-index) (same-NextIndex s))

backspace_char-index : (s : Term) → NextIndex s (backspace_char s)
unfolding backspace_char terminal_update_cursor
backspace_char-index s =
    if-NextIndex ((s.read_flag s.disp_term == 0) || (s.curr_idx s.disp_term == 0)) s s _
      (same-NextIndex s) (λ t. ground arith)

put_with-index : (c w : ℕ) (s : Term) → NextIndex s (put_with c w s)
unfolding put_with all_char
put_with-index c w s = if-NextIndex ((c == b'\n') || (c == 13)) s _ _ (new_line_char-index w s) (
    if-NextIndex ((c == 8) && ((s.char_from_kb == 1) && not (s.read_flag s.disp_term == 0))) s _ _
      (backspace_char-index s)
      (if-NextIndex (w == 1) s _ _ (show_char-index c s)
        (if-NextIndex (w == 2) s _ s (hide_char-index c s) (same-NextIndex s))))

dispatch-index : (c w : ℕ) (s : Term) → NextIndex s (dispatch c w s)
unfolding dispatch
dispatch-index c w s =
    if-NextIndex (s.curr_term == s.disp_term) s _ _
      (if-NextIndex ((s.read_flag s.curr_term == 0) && (s.write_flag s.curr_term == 0)) s s _
        (same-NextIndex s) (put_with-index c 1 s))
      (if-NextIndex ((w == 1) || (w == 2)) s _ s (put_with-index c w s) (same-NextIndex s))

pub terminal_putc-index : (c : ℕ) (s s' : Term) → terminal_putc c s ≡ some s' → NextIndex s s'
unfolding terminal_putc
terminal_putc-index c s s' run t =
    let (b, digits, done) = bind_some {A = List ℕ} (bitmap_of (bmap_val s)) _ s' run in
    let v = dispatch-index c (override s (choose_flag b)) s t in
    subst (λ (u : Term). u.curr_idx t ≤ s.curr_idx t + 1) (some_injective _ s' done) v
