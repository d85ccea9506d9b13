-- ===== src/Kernel/Keyboard/Letters.antt =====
-- What a letter key types, and which modifier keys are held after a run of scan codes.
use linux_operating_system.Prelude.{
  ℕ, ◌-◌, ◌<◌, ◌≡◌, refl, inl, inr, Bool, true, false, ◌&&◌, ◌||◌, not, Option, none, some, arith,
  leb, ◌==◌, if◌then◌else◌, Bool-cases, ◌>>=◌, pos, is_table, table_entry,
}
use linux_operating_system.Pic.{send_eoi}
use linux_operating_system.Terminal.Putc.{terminal_putc}
use linux_operating_system.Kernel.{Kernel, returns, Frame}
use linux_operating_system.Kernel.Schedule.{with_pic}
use linux_operating_system.Kernel.Keyboard.{
  Keys, scan_to_ascii, track_keys, is_character, type_char, respond, get_c_keyboard,
}

abbrev is_letter : ℕ → Bool
is_letter l = leb 97 l && leb l 122

-- The keys that track_keys reacts to.
abbrev is_modifier : ℕ → Bool
is_modifier c = (c == 0x1D) || ((c == 0x2A) || ((c == 0x36) || ((c == 0x38) || leb 0x3A c)))

letter_table :
    is_table 58 (λ c.
      not (is_letter (scan_to_ascii false c))
      || (is_character c
          && (not (is_modifier c) && (scan_to_ascii true c == scan_to_ascii false c - 32))))
    ≡ true
unfolding is_table scan_to_ascii is_character
letter_table = refl

-- The letter key `c` under these flags: the upper case when exactly one of shift and CAPS LOCK is on.
abbrev pub shown : Keys → ℕ → ℕ
shown s l =
    let shift = not (s.l_shift_flag == 0) || not (s.r_shift_flag == 0) in
    let caps = not (s.caps_flag == 0) in
    if (shift && not caps) || (not shift && caps) then l - 32 else l

letter_fact :
    (c : ℕ)
    → c < 58
    → is_letter (scan_to_ascii false c) ≡ true
    → (is_character c ≡ true)
      × (is_modifier c ≡ false)
      × (scan_to_ascii true c ≡ scan_to_ascii false c - 32)
letter_fact c h l = let t = table_entry 58 _ c letter_table h in ground arith

track_letter : (c : ℕ) (s : Keys) → c < 58 → is_modifier c ≡ false → track_keys c s ≡ s
unfolding track_keys
track_letter c s h e = ground arith

bind_some {ℓ κ μ} :
    {A : Type ℓ}
    → {B : Type κ} → {C : Type μ} → (o : Option A) (g : A → B) (h : B → C)
    → ((o >>= λ x. some (g x)) >>= λ y. some (h y)) ≡ (o >>= λ x. some (h (g x)))
bind_some none g h = refl
bind_some (some x) g h = refl

respond-letter :
    (c : ℕ) (s : Keys) (k : Kernel)
    → s.ctrl_flag ≡ 0
    → scan_to_ascii true c ≡ scan_to_ascii false c - 32
    → respond c s k ≡ type_char (shown s (scan_to_ascii false c)) k
unfolding respond
respond-letter c s k ctrl up =
    rw ctrl (elim (Bool-cases (not (s.l_shift_flag == 0) || not (s.r_shift_flag == 0))) [
      | inl e ↦ elim (Bool-cases (s.caps_flag == 0)) [
        | inl g ↦ rw (e, g, up) refl
        | inr g ↦ rw (e, g) refl
      ]
      | inr e ↦ elim (Bool-cases (s.caps_flag == 0)) [
        | inl g ↦ rw (e, g) refl
        | inr g ↦ rw (e, g, up) refl
      ]
    ])

-- The key of a letter, with CTRL up and no function key down, is put on the terminal as the
-- keyboard's character: in upper case when exactly one of shift and CAPS LOCK is on. The flags stay as
-- they are, and the interrupt is acknowledged.
pub get_c_keyboard-letter :
    (fuel : ℕ) (f : Frame) (c : ℕ) (s : Keys) (k : Kernel)
    → c < 58
    → is_letter (scan_to_ascii false c) ≡ true
    → s.ctrl_flag ≡ 0
    → s.fn_flag ≡ 0
    → get_c_keyboard fuel f c s k ≡ (
        terminal_putc (shown s (scan_to_ascii false c)) (record k.term { char_from_kb = 1 })
        >>= λ t. some (
          s,
          (
            returns (pos 0),
            record (with_pic k (send_eoi 1 k.rtc.pic)) { term = record t { char_from_kb = 0 } },
          ),
        ))
unfolding get_c_keyboard type_char
get_c_keyboard-letter fuel f c s k h l ctrl fn =
    let (chr, plain, up) = letter_fact c h l in
    let key = record (with_pic k (send_eoi 1 k.rtc.pic)) {
      term = record k.term { char_from_kb = 1 };
    } in
    let no_fn : (s.fn_flag == 0) ≡ true = ground (arith, fn) in
    let some_char : (shown s (scan_to_ascii false c) == 0) ≡ false = ground arith in
    rw (track_letter c s h plain, chr, respond-letter c s key ctrl up, some_char, no_fn)
      (bind_some (terminal_putc (shown s (scan_to_ascii false c)) key.term)
        (λ u. record key { term = u })
        (λ r. (s, (returns (pos 0), record r { term = record r.term { char_from_kb = 0 } }))))
