-- ===== src/Kernel/Schedule/Screen.antt =====
-- What is on the screen when ALT and a function key change the terminal on display.
use linux_operating_system.Prelude.{
  ℕ, ◌+◌, ◌*◌, ◌<◌, bit_or, ◌≡◌, refl, sym, ap, ◌∙◌, ◌≢◌, inl, inr, true, false, ◌||◌, some, arith,
  leb, ◌==◌, pos, Memory, moved,
}
use linux_operating_system.CLib.Blocks.{memcpy}
use linux_operating_system.CLib.Blocks.Copy.{memcpy-moved}
use linux_operating_system.Terminal.{video}
use linux_operating_system.Kernel.{Kernel, returns, Frame}
use linux_operating_system.Kernel.Schedule.{switch_terminals, switch_vidmem, switch_vidmap}

-- The back buffers that init_paging sets up: a page each, behind video memory.
pub record HasBuffers (k : Kernel) : Type 0 where
  pub at : (j : ℕ) → j < 3 → k.term.video_buffer j ≡ 0xB9000 + 4096 * j

abbrev pub screen_size : ℕ
screen_size = 4000

-- The change of the display from the terminal of `k` to `dest`.
pub record Shows (dest : ℕ) (k k' : Kernel) : Type 0 where
  pub disp : k'.term.disp_term ≡ dest
  pub curr : k'.term.curr_term ≡ k.term.curr_term
  pub buffers : k'.term.video_buffer ≡ k.term.video_buffer
  pub slots : k'.active_progs ≡ k.active_progs
  pub unlocked : k'.switch_lock ≡ 0
  pub screen :
      (x : ℕ)
      → x < screen_size
      → k'.term.mem (video + x) ≡ k.term.mem (k.term.video_buffer dest + x)
  pub saved :
      (x : ℕ)
      → x < screen_size
      → k'.term.mem (k.term.video_buffer k.term.disp_term + x) ≡ k.term.mem (video + x)
  pub user_view : k'.video_table dest ≡ bit_or video 7
  pub user_saved : k'.video_table k.term.disp_term ≡ bit_or (k.term.video_buffer k.term.disp_term) 7

-- With the back buffers where init_paging puts them, switch_terminals to another terminal that
-- has a program, with the lock free, returns 0. The screen then holds what the back buffer of
-- that terminal held, and the back buffer of the one shown before holds what the screen held; the
-- user's views follow, and the running terminal stays the same.
pub switch_terminals-Shows :
    (fuel : ℕ) (f : Frame) (dest : ℕ) (k : Kernel)
    → HasBuffers k
    → k.term.disp_term < 3
    → dest < 3
    → dest ≢ k.term.disp_term
    → k.switch_lock ≡ 0
    → k.active_progs dest ≢ 0
    → (k' : Kernel) × (switch_terminals fuel f dest k ≡ some (returns (pos 0), k'))
      × Shows dest k k'
unfolding switch_terminals switch_vidmem switch_vidmap
switch_terminals-Shows fuel f dest k v old new ne free active =
    let a : ((k.term.disp_term == dest) || leb 3 dest) ≡ false = ground arith in
    let b : (k.switch_lock == 0) ≡ true = ground (arith, free) in
    let c : (k.active_progs dest == 0) ≡ false = ground arith in
    let from = v.at k.term.disp_term old in
    let to = v.at dest new in
    let bd = k.term.video_buffer k.term.disp_term in
    let bn = k.term.video_buffer dest in
    let copied = memcpy-moved bd video 4000 k.term.mem (inr (omega (arith, from))) in
    let shown =
      memcpy-moved video bn 4000 (memcpy bd video 4000 k.term.mem) (inl (omega (arith, to))) in
    let d = switch_vidmap dest (switch_vidmem dest (record k { switch_lock = 1 })) in
    (
      record d { term = record d.term { disp_term = dest }; switch_lock = 0 },
      rw (a, b, c) refl,
      record {
        disp = refl;
        curr = refl;
        buffers = refl;
        slots = refl;
        unlocked = refl;
        screen = λ x lt.
            ap (λ (g : Memory). g (video + x)) (shown ∙ ap (moved video bn 4000) copied)
            ∙ ground arith;
        saved = λ x lt.
            ap (λ (g : Memory). g (bd + x)) (shown ∙ ap (moved video bn 4000) copied)
            ∙ ground arith;
        user_view = ground arith;
        user_saved = ground arith;
      },
    )

-- Between two terminals that have programs, with the lock free and the back buffers where
-- init_paging puts them, changing the display and changing it back restores the screen.
pub switch_terminals-back :
    (fuel : ℕ) (f : Frame) (dest : ℕ) (k : Kernel)
    → HasBuffers k
    → k.term.disp_term < 3
    → dest < 3
    → dest ≢ k.term.disp_term
    → k.switch_lock ≡ 0
    → k.active_progs dest ≢ 0
    → k.active_progs k.term.disp_term ≢ 0
    → (k1 : Kernel) × (k2 : Kernel) × (switch_terminals fuel f dest k ≡ some (returns (pos 0), k1))
      × (switch_terminals fuel f k.term.disp_term k1 ≡ some (returns (pos 0), k2))
      × (k2.term.disp_term ≡ k.term.disp_term)
      × ((x : ℕ) → x < screen_size → k2.term.mem (video + x) ≡ k.term.mem (video + x))
switch_terminals-back fuel f dest k v old new ne free here there =
    let (k1, run1, s1) = switch_terminals-Shows fuel f dest k v old new ne free here in
    let v1 : HasBuffers k1 = record {
      at = λ j l. ap (λ (g : Memory). g j) s1.buffers ∙ v.at j l;
    } in
    let (k2, run2, s2) =
      switch_terminals-Shows fuel f k.term.disp_term k1 v1 (rw s1.disp new) old
        (λ e. ne (sym s1.disp ∙ sym e)) s1.unlocked (rw s1.slots there) in
    (k1, k2, run1, run2, s2.disp, λ x l. s2.screen x l ∙ (rw s1.buffers (s1.saved x l)))
