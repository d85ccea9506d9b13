-- ===== src/Terminal/Bitmap.antt =====
-- Where terminal_putc sends a character.
use linux_operating_system.Prelude.{
  ℕ, zero, suc, ◌+◌, ◌*◌, ◌/◌, ◌%◌, ◌^◌, ◌≤◌, ◌<◌, ◌≡◌, refl, ◌∙◌, ◌≢◌, true, ◌&&◌, ◌||◌, Option,
  none, some, List, arith, ◌==◌, if◌then◌else◌, is_table, table_entry,
}
use linux_operating_system.CLib.Strings.{itoa, strlen}
use linux_operating_system.Terminal.{Term}
use linux_operating_system.Terminal.Putc.{
  bmap_val, bitmap_of, pad_bitmap, same_start, choose_flag, override, put_with, dispatch,
  terminal_putc,
}

-- The number of the flag that a bitmap gives, 3 where there is none.
flag_from : Option (List ℕ) → ℕ
flag_from none = 3
flag_from (some b) = choose_flag b

flag_of : ℕ → ℕ
unfolding flag_from
flag_of v = flag_from (bitmap_of v)

-- A key is shown where the displayed terminal reads; other output where the running terminal writes.
abbrev pub route : ℕ → ℕ → ℕ → ℕ
route rd wc kb = if kb == 1 then rd else wc * 2

abbrev bit : ℕ → ℕ → ℕ
bit v i = v / 2 ^ i % 2

route_table :
    is_table 32 (λ v.
      (bit v 4 * bit v 3 == 1)
      || ((bit v 2 * bit v 1 == 1) || (flag_of v == route (bit v 4) (bit v 1) (bit v 0))))
    ≡ true
unfolding is_table flag_of bitmap_of choose_flag same_start pad_bitmap itoa strlen
route_table = refl

-- No terminal reads and writes at once, and the flags are 0 or 1.
pub record HasFlags (s : Term) : Type 0 where
  pub disp : s.read_flag s.disp_term + s.write_flag s.disp_term ≤ 1
  pub curr : s.read_flag s.curr_term + s.write_flag s.curr_term ≤ 1
  pub key : s.char_from_kb ≤ 1

flag_found :
    (o : Option (List ℕ))
    → flag_from o ≢ 3
    → (b : List ℕ) × (o ≡ some b) × (choose_flag b ≡ flag_from o)
unfolding flag_from
flag_found none h = absurd (h refl)
flag_found (some b) h = (b, refl, refl)

not_both : (a b : ℕ) → a + b ≤ 1 → a * b ≡ 0
not_both zero b h = grind arith
not_both (suc a) b h = let e : b ≡ 0 = omega arith in rw e (grind arith)

abbrev route_in : Term → ℕ
route_in s = route (s.read_flag s.disp_term) (s.write_flag s.curr_term) s.char_from_kb

flag_route : (s : Term) → HasFlags s → flag_of (bmap_val s) ≡ route_in s
unfolding bmap_val
flag_route s h =
    let v = bmap_val s in
    let lt : v < 32 = omega (arith, h.disp, h.curr, h.key) in
    let row = table_entry 32 _ v route_table lt in
    let b4 : bit v 4 ≡ s.read_flag s.disp_term = omega (arith, h.disp, h.curr, h.key) in
    let b3 : bit v 3 ≡ s.write_flag s.disp_term = omega (arith, h.disp, h.curr, h.key) in
    let b2 : bit v 2 ≡ s.read_flag s.curr_term = omega (arith, h.disp, h.curr, h.key) in
    let b1 : bit v 1 ≡ s.write_flag s.curr_term = omega (arith, h.disp, h.curr, h.key) in
    let b0 : bit v 0 ≡ s.char_from_kb = omega (arith, h.disp, h.curr, h.key) in
    let x1 : bit v 4 * bit v 3 ≡ 0 = rw (b4, b3) (not_both _ _ h.disp) in
    let x2 : bit v 2 * bit v 1 ≡ 0 = rw (b2, b1) (not_both _ _ h.curr) in ground arith

bitmap_route :
    (s : Term)
    → HasFlags s
    → (b : List ℕ) × (bitmap_of (bmap_val s) ≡ some b) × (choose_flag b ≡ route_in s)
bitmap_route s h =
    let e = flag_route s h in
    let (b, found, f) =
      flag_found (bitmap_of (bmap_val s)) (unfold flag_of in ground (arith, e, h.disp, h.curr)) in
    (b, found, f ∙ unfold flag_of in e)

-- With sensible flags terminal_putc returns. On the running terminal's own screen a character is put
-- if the terminal reads or writes. If another terminal is displayed, a key goes to the screen exactly if
-- that terminal reads, and other output to the running terminal's buffer exactly if that one writes.
-- Nothing else changes but the keyboard mark, which is cleared.
pub terminal_putc_routes :
    (c : ℕ) (s : Term)
    → HasFlags s
    → (s' : Term) × (terminal_putc c s ≡ some (record s' { char_from_kb = 0 }))
      × ((s.curr_term ≡ s.disp_term
            → s' ≡ (
                if (s.read_flag s.curr_term == 0) && (s.write_flag s.curr_term == 0)
                then s
                else put_with c 1 s))
          × (s.curr_term ≢ s.disp_term
              → s' ≡ (
                  if s.char_from_kb == 1
                  then if s.read_flag s.disp_term == 0 then s else put_with c 1 s
                  else if s.write_flag s.curr_term == 0
                  then s
                  else put_with c 2 s)))
unfolding terminal_putc dispatch
terminal_putc_routes c s h =
    let (b, found, e) = bitmap_route s h in
    (
      dispatch c (override s (choose_flag b)) s,
      rw found,
      ((λ q. ground arith), (λ q. unfold override in ground (arith, h.disp, h.curr, h.key))),
    )
