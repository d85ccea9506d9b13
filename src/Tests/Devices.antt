-- ===== src/Tests/Devices.antt =====
-- The controllers, the clock, the terminals and the keyboard of the machine.
use linux_operating_system.Prelude.{
  ℕ, suc, ◌+◌, ◌*◌, ◌^◌, ◌≤◌, ◌<◌, ◌≡◌, refl, ap, ◌≢◌, ◌⊎◌, true, false, ◌&&◌, none, some, List, [],
  ◌∷◌, ◌++◌, reverse, arith, leb, ◌==◌, if◌then◌else◌, ◌>>=◌, length, pos, minus_one, Memory, store,
  load32, store32, bytes,
}
use linux_operating_system.Pic.{enable_irq, send_eoi}
use linux_operating_system.Pic.Masks.{masked, IsValid, masked-enable_irq}
use linux_operating_system.Rtc.{Rtc, rtc_write, rtc_read}
use linux_operating_system.Rtc.Frequency.{rtc_write_outcome}
use linux_operating_system.Rtc.Period.{IsRunning, rtc_read_waits}
use linux_operating_system.Terminal.{Term}
use linux_operating_system.Terminal.Putc.{put_with, terminal_putc}
use linux_operating_system.Terminal.Calls.{terminal_write, terminal_read}
use linux_operating_system.Terminal.Bitmap.{HasFlags, terminal_putc_routes}
use linux_operating_system.Terminal.Coords.{OnScreen}
use linux_operating_system.Terminal.Cursor.{terminal_putc-OnScreen}
use linux_operating_system.Terminal.Touches.{SameElsewhere}
use linux_operating_system.Terminal.Editing.{edit, edit_all, fits}
use linux_operating_system.Terminal.Reading.{terminal_read-typed}
use linux_operating_system.Terminal.Safety.{IsReady, terminal_write-safe}
use linux_operating_system.Kernel.{returns}
use linux_operating_system.Kernel.Schedule.{with_pic}
use linux_operating_system.Kernel.Keyboard.{Keys, scan_to_ascii, get_c_keyboard}
use linux_operating_system.Kernel.Keyboard.Letters.{shown, get_c_keyboard-letter}
use linux_operating_system.Tests.Machine.{line_at, pic, clock, terminal, kernel, frame}

pic-IsValid : IsValid pic
pic-IsValid = record { master_byte = omega arith; slave_byte = omega arith }

masked-enable_irq_example :
    IsValid (enable_irq 8 pic)
    × (masked (enable_irq 8 pic) 8 ≡ (if 8 == 8 then 0 else masked pic 8))
masked-enable_irq_example = masked-enable_irq pic 8 8 pic-IsValid (omega arith) (omega arith)

abbrev buf_at : ℕ
buf_at = 500

abbrev four : ℕ
four = 4

-- Memory that holds the frequency 32 at that address.
abbrev request : Memory
request = store32 (λ _. 0) buf_at 32

rtc_write_outcome_example :
    let f = load32 request buf_at in
    let (z, r') = rtc_write 1 buf_at four request clock in
    ((z ≡ pos 4)
      × (buf_at ≢ 0)
      × (four ≡ 4)
      × ((k : ℕ) × (k < 10) × (f ≡ 2 ^ (k + 1)))
      × (r'.rtc_freq 1 * f ≡ 1024)
      × (r'.rtc_counter 1 ≡ 0)
      × (r'.interrupts ≡ clock.interrupts))
    ⊎ ((z ≡ minus_one)
        × ((buf_at ≡ 0) ⊎ ((four ≢ 4) ⊎ ¬ ((k : ℕ) × (k < 10) × (f ≡ 2 ^ (k + 1)))))
        × (r' ≡ record clock { interrupts = false }))
rtc_write_outcome_example = rtc_write_outcome 1 buf_at four request clock

clock-IsRunning : IsRunning 2 clock
clock-IsRunning = record { positive = omega arith; bounded = omega arith; below = omega arith }

abbrev five : List (ℕ × ℕ)
five = (0, 0) ∷ (0, 0) ∷ (0, 0) ∷ (0, 0) ∷ (0, 0) ∷ []

rtc_read_waits_example :
    ((clock.rtc_freq 2 ≤ clock.rtc_counter 2 + length five)
      × ((s : Rtc) × (rtc_read 2 five clock ≡ some (pos 0, s))
          × (s.rtc_int 2 ≡ 0)
          × (s.rtc_counter 2 ≡ 0)
          × (s.rtc_freq 2 ≡ clock.rtc_freq 2)))
    ⊎ ((clock.rtc_counter 2 + length five < clock.rtc_freq 2) × (rtc_read 2 five clock ≡ none))
rtc_read_waits_example = rtc_read_waits 2 five clock (omega arith) clock-IsRunning

-- Terminal 0 writes while terminal 1 is displayed and reads.
abbrev busy : Term
busy = record terminal { write_flag = store (λ _. 0) 0 1; read_flag = store (λ _. 0) 1 1 }

busy-HasFlags : HasFlags busy
busy-HasFlags = record { disp = omega arith; curr = omega arith; key = omega arith }

terminal_putc_routes_example :
    (s' : Term) × (terminal_putc 65 busy ≡ some (record s' { char_from_kb = 0 }))
    × ((busy.curr_term ≡ busy.disp_term
          → s' ≡ (
              if (busy.read_flag busy.curr_term == 0) && (busy.write_flag busy.curr_term == 0)
              then busy
              else put_with 65 1 busy))
        × (busy.curr_term ≢ busy.disp_term
            → s' ≡ (
                if busy.char_from_kb == 1
                then if busy.read_flag busy.disp_term == 0 then busy else put_with 65 1 busy
                else if busy.write_flag busy.curr_term == 0
                then busy
                else put_with 65 2 busy)))
terminal_putc_routes_example = terminal_putc_routes 65 busy busy-HasFlags

corner : OnScreen 0 busy
corner = record { column = omega arith; row = omega arith }

terminal_putc-OnScreen_example : (s' : Term) × (terminal_putc 10 busy ≡ some s') × OnScreen 0 s'
terminal_putc-OnScreen_example = terminal_putc-OnScreen 0 10 busy busy-HasFlags corner

terminal-IsReady : IsReady 0 terminal
terminal-IsReady = record {
  running = refl;
  no_key = refl;
  flags = record { disp = omega arith; curr = omega arith; key = omega arith };
  line = omega arith;
}

terminal_write-safe_example :
    (s' : Term) × (terminal_write line_at 11 terminal ≡ some (pos 11, s'))
    × (s'.curr_idx 0 ≡ 0)
    × (s'.write_flag 0 ≡ 0)
    × ((u : ℕ) → u ≢ 0 → s'.curr_idx u ≡ terminal.curr_idx u)
    × SameElsewhere 0 terminal.input_buffer s'.input_buffer
terminal_write-safe_example =
    terminal_write-safe line_at 11 0 terminal (λ e. absurd (omega arith)) terminal-IsReady

-- The keyboard with the left shift key down.
abbrev shifted : Keys
shifted = record {
  ctrl_flag = 0;
  l_shift_flag = 1;
  r_shift_flag = 0;
  caps_flag = 0;
  alt_flag = 0;
  fn_flag = 0;
}

key_a : leb 97 (scan_to_ascii false 30) && leb (scan_to_ascii false 30) 122 ≡ true
unfolding scan_to_ascii
key_a = refl

get_c_keyboard-letter_example : get_c_keyboard 9 frame 30 shifted kernel ≡ (
    terminal_putc (shown shifted (scan_to_ascii false 30)) (record terminal { char_from_kb = 1 })
    >>= λ t. some (
      shifted,
      (
        returns (pos 0),
        record (with_pic kernel (send_eoi 1 pic)) { term = record t { char_from_kb = 0 } },
      ),
    ))
get_c_keyboard-letter_example =
    get_c_keyboard-letter 9 frame 30 shifted kernel (omega arith) key_a refl refl

-- Terminal 0 on the screen, where "lx", a backspace, "s" and Enter are typed.
abbrev on_screen : Term
on_screen = record terminal { disp_term = 0 }

abbrev keys_typed : List ℕ
keys_typed = b'l' ∷ b'x' ∷ 8 ∷ b's' ∷ []

keys_fit : fits [] keys_typed ≡ true
unfolding fits edit
keys_fit = refl

line_typed : edit_all [] keys_typed ≡ b's' ∷ b'l' ∷ []
unfolding edit_all edit
line_typed = refl

terminal_read-typed_example :
    (s' : Term) × (terminal_read 5000 128 (keys_typed ++ (b'\n' ∷ b'q' ∷ [])) on_screen
      ≡ some (pos (suc (length (edit_all [] keys_typed))), s'))
    × (bytes s'.mem 5000 (suc (length (edit_all [] keys_typed)))
        ≡ reverse (edit_all [] keys_typed) ++ (b'\n' ∷ []))
    × (s'.curr_idx 0 ≡ 0)
    × (s'.enter_flag 0 ≡ 0)
    × (s'.read_flag 0 ≡ 0)
terminal_read-typed_example =
    terminal_read-typed 5000 128 0 keys_typed (b'q' ∷ []) on_screen (λ e. absurd (omega arith)) refl
      refl keys_fit (omega (arith, ap length line_typed))
