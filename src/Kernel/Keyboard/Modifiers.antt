-- ===== src/Kernel/Keyboard/Modifiers.antt =====
-- What the modifier flags say after any run of scan codes.
use linux_operating_system.Prelude.{
  ℕ, ◌+◌, ◌%◌, ◌≤◌, ◌≡◌, refl, ap, ◌∙◌, ◌&&◌, List, [], ◌∷◌, arith, leb, ◌==◌, if◌then◌else◌, codes,
}
use linux_operating_system.Kernel.Keyboard.{Keys, track_keys}

-- The handler's flags after the scan codes of a run.
pub track_all : List ℕ → Keys → Keys
track_all [] s = s
track_all (c ∷ codes) s = track_all codes (track_keys c s)

-- Whether a key is held: the last of its press and release codes in the run, and if there is none, what
-- was before.
pub held : ℕ → ℕ → ℕ → List ℕ → ℕ
held press release before [] = before
held press release before (c ∷ codes) =
    held press release (if c == press then 1 else if c == release then 0 else before) codes

-- How often a code comes.
pub times : ℕ → List ℕ → ℕ
times c [] = 0
times c (x ∷ codes) = (if x == c then 1 else 0) + times c codes

-- The function key pressed last and not followed by the release of one.
pub function_of : ℕ → List ℕ → ℕ
function_of before [] = before
function_of before (c ∷ codes) =
    function_of
      (if c == 0x3B
        then 1
        else if c == 0x3C
        then 2
        else if c == 0x3D
        then 3
        else if leb 0xBB c && leb c 0xBD
        then 0
        else before)
      codes

pub record Tracks (codes : List ℕ) (s s' : Keys) : Type 0 where
  pub ctrl : s'.ctrl_flag ≡ held 0x1D 0x9D s.ctrl_flag codes
  pub left_shift : s'.l_shift_flag ≡ held 0x2A 0xAA s.l_shift_flag codes
  pub right_shift : s'.r_shift_flag ≡ held 0x36 0xB6 s.r_shift_flag codes
  pub alt : s'.alt_flag ≡ held 0x38 0xB8 s.alt_flag codes
  pub caps : s'.caps_flag ≡ (s.caps_flag + times 0x3A codes) % 2
  pub fn : s'.fn_flag ≡ function_of s.fn_flag codes

track_one-ctrl :
    (c : ℕ) (s : Keys)
    → (track_keys c s).ctrl_flag ≡ (if c == 0x1D then 1 else if c == 0x9D then 0 else s.ctrl_flag)
unfolding track_keys
track_one-ctrl c s = ground arith

track_one-left :
    (c : ℕ) (s : Keys)
    → (track_keys c s).l_shift_flag
      ≡ (if c == 0x2A then 1 else if c == 0xAA then 0 else s.l_shift_flag)
unfolding track_keys
track_one-left c s = ground arith

track_one-right :
    (c : ℕ) (s : Keys)
    → (track_keys c s).r_shift_flag
      ≡ (if c == 0x36 then 1 else if c == 0xB6 then 0 else s.r_shift_flag)
unfolding track_keys
track_one-right c s = ground arith

track_one-alt :
    (c : ℕ) (s : Keys)
    → (track_keys c s).alt_flag ≡ (if c == 0x38 then 1 else if c == 0xB8 then 0 else s.alt_flag)
unfolding track_keys
track_one-alt c s = ground arith

track_one-caps :
    (c : ℕ) (s : Keys)
    → s.caps_flag ≤ 1
    → (track_keys c s).caps_flag ≡ (s.caps_flag + (if c == 0x3A then 1 else 0)) % 2
unfolding track_keys
track_one-caps c s h = ground arith

track_one-fn :
    (c : ℕ) (s : Keys)
    → (track_keys c s).fn_flag ≡ (
        if c == 0x3B
        then 1
        else if c == 0x3C
        then 2
        else if c == 0x3D
        then 3
        else if leb 0xBB c && leb c 0xBD
        then 0
        else s.fn_flag)
unfolding track_keys
track_one-fn c s = ground arith

-- After any run of scan codes, from a CAPS LOCK flag of 0 or 1: the flags of CTRL, the two shifts and ALT
-- say whether the last of the key's press and release codes was its press, or what they said before if
-- there was none; CAPS LOCK has changed with each press; and the function key is the one pressed last,
-- unless one of the three was released after it.
pub track_all-Tracks :
    (codes : List ℕ) (s : Keys) → s.caps_flag ≤ 1 → Tracks codes s (track_all codes s)
unfolding track_all held times function_of
track_all-Tracks [] s h = record {
  ctrl = refl;
  left_shift = refl;
  right_shift = refl;
  alt = refl;
  caps = omega arith;
  fn = refl;
}
track_all-Tracks (c ∷ codes) s h =
    let one = track_one-caps c s h in
    let w = track_all-Tracks codes (track_keys c s) (omega arith) in
    record {
      ctrl = w.ctrl ∙ ap (λ b. held 0x1D 0x9D b codes) (track_one-ctrl c s);
      left_shift = w.left_shift ∙ ap (λ b. held 0x2A 0xAA b codes) (track_one-left c s);
      right_shift = w.right_shift ∙ ap (λ b. held 0x36 0xB6 b codes) (track_one-right c s);
      alt = w.alt ∙ ap (λ b. held 0x38 0xB8 b codes) (track_one-alt c s);
      caps = w.caps ∙ ap (λ b. (b + times 0x3A codes) % 2) one ∙ omega arith;
      fn = w.fn ∙ ap (λ b. function_of b codes) (track_one-fn c s);
    }
