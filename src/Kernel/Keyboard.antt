-- ===== src/Kernel/Keyboard.antt =====
-- PS_2.c: the keyboard's handler, one scan code at a time. The flags are those of the source.
pub mod Letters
pub mod Modifiers
use linux_operating_system.Prelude.{
  ℕ, zero, suc, ◌+◌, ◌-◌, ◌*◌, ◌/◌, ◌%◌, ◌^◌, ◌≤◌, ◌<◌, min, bit_and, bit_or, ◌≡◌, refl, sym, ap,
  ◌∙◌, fun_ext, subst, ◌≢◌, ◌↔◌, ◌⊎◌, inl, inr, Bool, true, false, ◌&&◌, ◌||◌, not, Option, none,
  some, List, [], ◌∷◌, ◌++◌, map, reverse, arith, ltb, leb, ◌==◌, if◌then◌else◌, ltb→lt, leb→le,
  ==_iff, Bool-cases, ◌>>=◌, length, get_elem?, get_or, set, length-append, length-set,
  get_elem?-set_self, get_elem?-set_ne, ℤ, pos, negsuc, minus_one, sub_ℕ, Memory, store, load32,
  store32, bytes, codes, moved, filled, is_table, table_entry, table_witness, word, add32, sub32,
  to_int32,
}
use linux_operating_system.Pic.{enable_irq, send_eoi}
use linux_operating_system.Terminal.Calls.{clear, terminal_clear}
use linux_operating_system.Terminal.Putc.{terminal_putc}
use linux_operating_system.Kernel.{Kernel, with_mem, Outcome, returns, enters, Frame}
use linux_operating_system.Kernel.Schedule.{with_pic, switch_terminals}

pub record Keys : Type 0 where
  pub ctrl_flag : ℕ
  pub l_shift_flag : ℕ
  pub r_shift_flag : ℕ
  pub caps_flag : ℕ
  pub alt_flag : ℕ
  pub fn_flag : ℕ

-- `scan_to_ascii`: the rows for lower and for upper case.
abbrev pub lower_row : List ℕ
lower_row =
    (0 ∷ 0 ∷ codes "1234567890-=")
    ++ ((8 ∷ 0 ∷ codes "qwertyuiop[]\n")
        ++ ((0 ∷ codes "asdfghjkl;'`") ++ ((0 ∷ codes "\\zxcvbnm,./") ++ (0 ∷ 0 ∷ 0 ∷ codes " "))))

abbrev pub upper_row : List ℕ
upper_row =
    (0 ∷ 0 ∷ codes "!@#$%^&*()_+")
    ++ ((8 ∷ 0 ∷ codes "QWERTYUIOP{}\n")
        ++ ((0 ∷ codes "ASDFGHJKL:\"~") ++ ((0 ∷ codes "|ZXCVBNM<>?") ++ (0 ∷ 0 ∷ 0 ∷ codes " "))))

unfoldable pub scan_to_ascii : Bool → ℕ → ℕ
scan_to_ascii upper c = get_or (if upper then upper_row else lower_row) c 0

unfoldable pub init_keyboard : Kernel → Kernel
init_keyboard k = let c = with_mem k (clear k.term.mem) in with_pic c (enable_irq 1 c.rtc.pic)

-- The ladder on the scan code. The arrow keys call functions whose bodies are commented out.
unfoldable pub track_keys : ℕ → Keys → Keys
track_keys c s =
    if c == 0x1D
    then record s { ctrl_flag = 1 }
    else if c == 0x9D
    then record s { ctrl_flag = 0 }
    else if c == 0x2A
    then record s { l_shift_flag = 1 }
    else if c == 0xAA
    then record s { l_shift_flag = 0 }
    else if c == 0x36
    then record s { r_shift_flag = 1 }
    else if c == 0xB6
    then record s { r_shift_flag = 0 }
    else if c == 0x3A
    then record s { caps_flag = if s.caps_flag == 0 then 1 else 0 }
    else if (c == 0x4B) || (c == 0x4D)
    then s
    else if c == 0x38
    then record s { alt_flag = 1 }
    else if c == 0xB8
    then record s { alt_flag = 0 }
    else if c == 0x3B
    then record s { fn_flag = 1 }
    else if c == 0x3C
    then record s { fn_flag = 2 }
    else if c == 0x3D
    then record s { fn_flag = 3 }
    else if (c == 0xBB) || ((c == 0xBC) || (c == 0xBD))
    then record s { fn_flag = 0 }
    else s

-- The keys that answer with a character.
unfoldable pub is_character : ℕ → Bool
is_character c =
    ltb 0 c
    && (ltb c 0x3A
        && (not (c == 0x3A)
            && (not (c == 0x1D)
                && (not (c == 0x2A)
                    && (not (c == 0x36)
                        && (not (c == 0x4B)
                            && (not (c == 0x4D)
                                && (not (c == 0x38)
                                    && (not (c == 0x3B)
                                        && (not (c == 0x3C) && not (c == 0x3D)))))))))))

-- `if (display_char != 0) terminal_putc(display_char)`
unfoldable pub type_char : ℕ → Kernel → Option Kernel
type_char c k =
    if c == 0 then some k else (terminal_putc c k.term >>= λ t. some (record k { term = t }))

-- The response to a character key.
unfoldable pub respond : ℕ → Keys → Kernel → Option Kernel
unfolding scan_to_ascii type_char
respond c s k =
    if not (s.ctrl_flag == 0)
    then some
        (if scan_to_ascii false c == b'l' then record k { term = terminal_clear k.term } else k)
    else if not (s.l_shift_flag == 0) || not (s.r_shift_flag == 0)
    then type_char (if not (s.caps_flag == 0) then scan_to_ascii false c else scan_to_ascii true c)
        k
    else type_char (if not (s.caps_flag == 0) then scan_to_ascii true c else scan_to_ascii false c)
        k

-- `c` is the byte that the controller's port gives.
unfoldable pub get_c_keyboard : ℕ → Frame → ℕ → Keys → Kernel → Option (Keys × (Outcome × Kernel))
unfolding track_keys is_character respond
get_c_keyboard fuel f c keys k =
    let begun =
      with_pic (record k { term = record k.term { char_from_kb = 1 } }) (send_eoi 1 k.rtc.pic) in
    let s = track_keys c keys in
    (if is_character c then respond c s begun else some begun) >>= λ r.
    let done = record r { term = record r.term { char_from_kb = 0 } } in
    if not (s.fn_flag == 0) && not (s.alt_flag == 0)
    then (switch_terminals fuel f (s.fn_flag - 1) done >>= λ o. some (s, o))
    else some (s, (returns (pos 0), done))
