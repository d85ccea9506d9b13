-- ===== src/Kernel/Boot/Ready.antt =====
-- The state in which entry executes the first shell.
use linux_operating_system.Prelude.{ℕ, ◌+◌, ◌-◌, ◌<◌, ◌≡◌, refl, ap, ◌∙◌, true, arith, word}
use linux_operating_system.Pic.{i8259_init, enable_irq, clear_bit}
use linux_operating_system.Rtc.{rtc_init}
use linux_operating_system.Terminal.{terminal_update_cursor}
use linux_operating_system.Kernel.Schedule.{
  with_pic, pit_init, set_pit_freq, init_terminals, clear_terminals,
}
use linux_operating_system.Kernel.Paging.Frame.{init_paging-SamePaged}
use linux_operating_system.Terminal.Calls.{terminal_open, terminal_clear, terminal_reset_buffer}
use linux_operating_system.Kernel.{Kernel}
use linux_operating_system.Kernel.Paging.{init_paging}
use linux_operating_system.Kernel.Paging.Tables.{init_paging-HasBuffers}
use linux_operating_system.Kernel.Keyboard.{init_keyboard}
use linux_operating_system.Kernel.Forest.{IsForest, init_terminals-IsForest}
use linux_operating_system.Kernel.Schedule.Screen.{HasBuffers}
use linux_operating_system.Kernel.Descriptors.Gates.{IsFilled, HasAddresses, fill_idt-IsFilled}
use linux_operating_system.Kernel.Descriptors.Segments.{IsSegment, entry-IsSegment}
use linux_operating_system.Kernel.Boot.Start.{
  Machine, Setup, load_descriptors, init_devices, initialise,
}

-- Three terminals without a program, each with its buffer and none of them reading or writing, the
-- first one on the screen and running; the timer, the keyboard, the second controller and the clock let
-- through by the controllers, and no other line; the descriptors in place.
pub record IsReadyToRun (u : Setup) (b : Machine) : Type 0 where
  pub buffers : HasBuffers b.kernel
  pub no_program : (t : ℕ) → t < 3 → b.kernel.active_progs t ≡ 0
  pub no_process : (t : ℕ) → t < 3 → b.kernel.next_p_id t ≡ 0
  pub total : b.kernel.total_progs ≡ 0
  pub unlocked : b.kernel.switch_lock ≡ 0
  pub turn : b.kernel.pit_counter ≡ 0
  pub running : b.kernel.term.curr_term ≡ 0
  pub displayed : b.kernel.term.disp_term ≡ 0
  pub lines : (t : ℕ) → t < 3 → b.kernel.term.curr_idx t ≡ 0
  pub reads : (t : ℕ) → t < 3 → b.kernel.term.read_flag t ≡ 0
  pub writes : (t : ℕ) → t < 3 → b.kernel.term.write_flag t ≡ 0
  pub no_key : b.kernel.term.char_from_kb ≡ 0
  pub master : b.kernel.rtc.pic.master_mask ≡ 0xFF - (1 + 2 + 4)
  pub slave : b.kernel.rtc.pic.slave_mask ≡ 0xFF - 1
  pub interrupts : b.kernel.rtc.interrupts ≡ true
  pub stack : b.kernel.tss_esp0 ≡ 0x800000
  pub ldt : IsSegment 0x82 u.ldt u.ldt_size b.ldt_desc
  pub tss : IsSegment 0x89 u.tss u.tss_size b.tss_desc

module _ (u : Setup) (addr : ℕ) (k : Kernel) where
  -- The kernel before init_paging.
  unpaged : Kernel
  unpaged =
      let k1 = init_keyboard (pit_init (with_pic k (i8259_init k.rtc.pic))) in
      let k2 = record k1 { rtc = rtc_init u.prev_b u.prev_a u.index k1.rtc } in
      record k2 { term = (terminal_open k2.term).1 }

  paged : Kernel
  unfolding unpaged
  paged = init_paging u.page_table_at u.video_table_at unpaged

  after : Kernel
  unfolding init_terminals init_devices
  after = init_terminals (init_devices u addr k)

  after_kept :
      HasBuffers after
      × (after.rtc.pic ≡ unpaged.rtc.pic)
      × (after.rtc.interrupts ≡ true)
      × (after.pit_counter ≡ unpaged.pit_counter)
      × (after.tss_esp0 ≡ unpaged.tss_esp0)
      × (after.term.curr_idx ≡ unpaged.term.curr_idx)
      × (after.term.read_flag ≡ unpaged.term.read_flag)
      × (after.term.write_flag ≡ unpaged.term.write_flag)
      × (after.term.char_from_kb ≡ unpaged.term.char_from_kb)
  unfolding after paged unpaged init_terminals clear_terminals init_devices
  after_kept =
      let same = (init_paging-SamePaged u.page_table_at u.video_table_at unpaged).rest in
      let b = (init_paging-HasBuffers u.page_table_at u.video_table_at unpaged).0 in
      (
        record { at = b.at },
        ap (λ (x : Kernel). x.rtc.pic) same,
        refl,
        ap (λ (x : Kernel). x.pit_counter) same,
        ap (λ (x : Kernel). x.tss_esp0) same,
        ap (λ (x : Kernel). x.term.curr_idx) same,
        ap (λ (x : Kernel). x.term.read_flag) same,
        ap (λ (x : Kernel). x.term.write_flag) same,
        ap (λ (x : Kernel). x.term.char_from_kb) same,
      )

  unpaged_kept :
      (unpaged.rtc.pic.master_mask ≡ 0xFF - (1 + 2 + 4))
      × (unpaged.rtc.pic.slave_mask ≡ 0xFF - 1)
      × (unpaged.pit_counter ≡ 0)
      × (unpaged.tss_esp0 ≡ k.tss_esp0)
      × (unpaged.term.char_from_kb ≡ 0)
  unfolding unpaged i8259_init enable_irq clear_bit rtc_init init_keyboard pit_init set_pit_freq
      terminal_open terminal_clear terminal_reset_buffer terminal_update_cursor
  unpaged_kept = (refl, refl, refl, refl, refl)

  unpaged_terms :
      (t : ℕ)
      → t < 3
      → (unpaged.term.curr_idx t ≡ 0)
        × (unpaged.term.read_flag t ≡ 0)
        × (unpaged.term.write_flag t ≡ 0)
  unfolding unpaged terminal_open terminal_clear terminal_reset_buffer terminal_update_cursor
  unpaged_terms t h = (ground arith, ground arith, ground arith)

  after_empty :
      (after.curr_pcb_ptr ≡ 0)
      × (after.total_progs ≡ 0)
      × (after.switch_lock ≡ 0)
      × (after.term.curr_term ≡ 0)
      × (after.term.disp_term ≡ 0)
      × ((t : ℕ) → t < 3 → (after.active_progs t ≡ 0) × (after.next_p_id t ≡ 0))
  unfolding after init_terminals clear_terminals
  after_empty = (refl, refl, refl, refl, refl, (λ t h. (ground arith, ground arith)))

-- What entry has set up when it executes the first shell, from any state, when the handlers and the
-- tables have 32-bit addresses and the tables' limits are below 2 ^ 20: there are three terminals without
-- a program or a process, each with its buffer, an empty line and its flags of reading and writing down;
-- no key is being handled; the first terminal is running and on the screen; the controllers let the timer, the keyboard, the second controller and the
-- clock through and no other line; interrupts are on; and the gates and the segment descriptors are those
-- of the handlers and the tables.
pub initialise-IsReadyToRun :
    (u : Setup) (addr : ℕ) (b : Machine)
    → HasAddresses u.handlers
    → u.ldt < word
    → u.tss < word
    → u.ldt_size < 1048576
    → u.tss_size < 1048576
    → IsReadyToRun u (initialise u addr b) × IsFilled u.handlers b.idt (initialise u addr b).idt
unfolding initialise after load_descriptors
initialise-IsReadyToRun u addr b h l1 t1 l2 t2 =
    let k = (load_descriptors u b).kernel in
    let (buffers, pic, on, counter, stack, idx, reads, writes, key) = after_kept u addr k in
    let (m, s, zero_counter, stack0, key0) = unpaged_kept u addr k in
    let (c, total, lock, curr, disp, slots) = after_empty u addr k in
    let term = unpaged_terms u addr k in
    (
      record {
        buffers = buffers;
        no_program = λ t p. (slots t p).0;
        no_process = λ t p. (slots t p).1;
        total = total;
        unlocked = lock;
        turn = counter ∙ zero_counter;
        running = curr;
        displayed = disp;
        lines = λ t p. ap (λ (x : ℕ → ℕ). x t) idx ∙ (term t p).0;
        reads = λ t p. ap (λ (x : ℕ → ℕ). x t) reads ∙ (term t p).1;
        writes = λ t p. ap (λ (x : ℕ → ℕ). x t) writes ∙ (term t p).2;
        no_key = key ∙ key0;
        master = ap (λ x. x.master_mask) pic ∙ m;
        slave = ap (λ x. x.slave_mask) pic ∙ s;
        interrupts = on;
        stack = stack ∙ stack0;
        ldt = (entry-IsSegment u.temp_ldt u.ldt u.ldt_size l1 l2).0;
        tss = (entry-IsSegment u.temp_tss u.tss u.tss_size t1 t2).1;
      },
      fill_idt-IsFilled u.handlers u.temp_gate u.temp_gate_sys b.idt h,
    )

-- Before the first shell is executed no terminal has a process.
pub initialise-IsForest :
    (u : Setup) (addr : ℕ) (b : Machine) → IsForest (initialise u addr b).kernel
unfolding initialise after
initialise-IsForest u addr b =
    let k = (load_descriptors u b).kernel in
    let (buffers, pic, on, counter, stack, idx, reads, writes, key) = after_kept u addr k in
    let (m, s, zero_counter, stack0, key0) = unpaged_kept u addr k in
    init_terminals-IsForest (init_devices u addr k) (
      let e : (after u addr k).pit_counter ≡ 0 = counter ∙ zero_counter in
      unfold init_terminals clear_terminals in omega arith)
