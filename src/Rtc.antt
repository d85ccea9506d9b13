-- ===== src/Rtc.antt =====
-- rtc_driver.c: the real-time clock runs at 1024 Hz, and each terminal sees a clock of its own that
-- divides it. The static arrays are functions of the terminal's number; `interrupts` is the processor's
-- interrupt flag. A value that the hardware returns for a port read is an argument.
pub mod Frequency
pub mod Period
use linux_operating_system.Prelude.{
  ℕ, zero, suc, ◌+◌, ◌-◌, ◌*◌, ◌/◌, ◌%◌, ◌^◌, ◌≤◌, ◌<◌, min, bit_and, bit_or, ◌≡◌, refl, sym, ap,
  ◌∙◌, fun_ext, subst, ◌≢◌, ◌↔◌, ◌⊎◌, inl, inr, Bool, true, false, ◌&&◌, ◌||◌, not, Option, none,
  some, List, [], ◌∷◌, ◌++◌, map, reverse, arith, ltb, leb, ◌==◌, if◌then◌else◌, ltb→lt, leb→le,
  ==_iff, Bool-cases, ◌>>=◌, length, get_elem?, get_or, set, length-append, length-set,
  get_elem?-set_self, get_elem?-set_ne, ℤ, pos, negsuc, minus_one, sub_ℕ, Memory, store, load32,
  store32, bytes, codes, moved, filled, is_table, table_entry, table_witness, word, add32, sub32,
  to_int32,
}
use linux_operating_system.Pic.{Pic, outb, enable_irq, disable_irq, send_eoi}

pub record Rtc : Type 0 where
  pub pic : Pic
  pub rtc_int : ℕ → ℕ
  pub rtc_freq : ℕ → ℕ
  pub rtc_counter : ℕ → ℕ
  pub interrupts : Bool

abbrev pub default_freq : ℕ
default_freq = 512

-- The static initialisers.
unfoldable pub initial : Pic → Rtc
initial pic = record {
  pic = pic;
  rtc_int = λ _. 0;
  rtc_freq = λ _. default_freq;
  rtc_counter = λ _. 0;
  interrupts = false;
}

abbrev pub index_port : ℕ
index_port = 0x70

abbrev pub data_port : ℕ
data_port = 0x71

-- Port reads, in order: register B, what is read for register A, the index port.
unfoldable pub rtc_init : ℕ → ℕ → ℕ → Rtc → Rtc
rtc_init prev_b prev_a index r = record r {
  pic = enable_irq 8 (
      outb (bit_and index 0xFFFFFF7F) index_port (
        outb (bit_or (bit_and prev_a 0xF0) (bit_and 6 0x0F)) data_port (
          outb (bit_or 0x0A 0x80) index_port (
            outb (bit_or prev_b 0x40) data_port
              (outb (bit_or 0x0B 0x80) index_port (outb (bit_or 0x0B 0x80) index_port r.pic))))));
}

-- One round of the handler's loop, for terminal `i`.
unfoldable pub count_tick : ℕ → Rtc → Rtc
count_tick i r =
    let count = add32 (r.rtc_counter i) 1 % r.rtc_freq i in
    record r {
      rtc_counter = store r.rtc_counter i count;
      rtc_int = if count == 0 then store r.rtc_int i 1 else r.rtc_int;
    }

-- `for (i = 0; i < NUM_TERMS; i++)` of the handler.
unfoldable pub count_ticks : Rtc → Rtc
count_ticks r = count_tick 2 (count_tick 1 (count_tick 0 r))

-- The reads are of the index port, before and after the loop.
unfoldable pub rtc_irq_handler : ℕ → ℕ → Rtc → Rtc
rtc_irq_handler index1 index2 r =
    let before = send_eoi 8 (outb (bit_or index1 0x80) index_port (disable_irq 8 r.pic)) in
    let counted = count_ticks (record r { pic = before }) in
    record counted {
      pic = enable_irq 8 (
          outb (bit_and index2 0xFFFFFF7F) index_port
            (outb (bit_or 0x0C 0x80) index_port counted.pic));
    }

unfoldable pub rtc_open : ℕ → Rtc → ℤ × Rtc
rtc_open prev r = (
  pos 0,
  record r {
    pic =
        outb (bit_or (bit_and prev 0xF0) (bit_and 6 0x0F)) data_port
          (outb (bit_or 0x0A 0x80) index_port (outb (bit_or 0x0A 0x80) index_port r.pic));
  },
)

-- The test of rtc_write on a frequency: outside 2 to 1024, or more than one bit set.
unfoldable pub bad_freq : ℕ → Bool
bad_freq f = ltb f 2 || (ltb 1024 f || not (bit_and f (sub32 f 1) == 0))

-- `flags` is the interrupt flag that cli_and_save saved: both error returns come before it is restored.
unfoldable pub rtc_write : ℕ → ℕ → ℕ → Memory → Rtc → ℤ × Rtc
unfolding bad_freq
rtc_write curr_term buf nbytes m r =
    let flags = r.interrupts in
    let off = record r { interrupts = false } in
    let new_freq = load32 m buf in
    if (buf == 0) || not (nbytes == 4)
    then (minus_one, off)
    else if bad_freq new_freq
    then (minus_one, off)
    else (
      pos 4,
      record off {
        rtc_freq = store r.rtc_freq curr_term (1024 / new_freq);
        rtc_counter = store r.rtc_counter curr_term 0;
        interrupts = flags;
      },
    )

-- The wait of rtc_read. Each round is one interrupt of the clock, with the values of its port reads.
unfoldable pub rtc_wait : ℕ → List (ℕ × ℕ) → Rtc → Option Rtc
rtc_wait curr_term [] r = if r.rtc_int curr_term == 0 then none else some r
rtc_wait curr_term ((a, b) ∷ ticks) r = elim (r.rtc_int curr_term == 0) [
  | true ↦ rtc_wait curr_term ticks (rtc_irq_handler a b r)
  | false ↦ some r
]

-- `none` is a wait that the interrupts given do not end. The empty terminal_printf between acts on the
-- terminal's state alone.
unfoldable pub rtc_read : ℕ → List (ℕ × ℕ) → Rtc → Option (ℤ × Rtc)
rtc_read curr_term ticks r =
    rtc_wait curr_term ticks (record r { rtc_int = store r.rtc_int curr_term 0 }) >>= λ s.
    some (pos 0, record s { rtc_int = store s.rtc_int curr_term 0 })

unfoldable pub rtc_close : Rtc → ℤ × Rtc
rtc_close r = (pos 0, r)

unfoldable pub rtc_default_rate : ℕ → Rtc → Rtc
rtc_default_rate curr_term r = record r {
  rtc_freq = store r.rtc_freq curr_term default_freq;
  rtc_counter = store r.rtc_counter curr_term 0;
}
