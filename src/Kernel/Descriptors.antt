-- ===== src/Kernel/Descriptors.antt =====
-- x86_desc.h and kernel.c: segment descriptors, and the gates that fill_idt puts into the interrupt
-- descriptor table. A mask of low bits is a remainder, a shift to the right a quotient. The bits of a
-- structure that were not set are those of the argument `temp`.
pub mod Gates
pub mod Segments
use linux_operating_system.Prelude.{
  ℕ, zero, suc, ◌+◌, ◌-◌, ◌*◌, ◌/◌, ◌%◌, ◌^◌, ◌≤◌, ◌<◌, min, bit_and, bit_or, ◌≡◌, refl, sym, ap,
  ◌∙◌, fun_ext, subst, ◌≢◌, ◌↔◌, ◌⊎◌, inl, inr, Bool, true, false, ◌&&◌, ◌||◌, not, Option, none,
  some, List, [], ◌∷◌, ◌++◌, map, reverse, arith, ltb, leb, ◌==◌, if◌then◌else◌, ltb→lt, leb→le,
  ==_iff, Bool-cases, ◌>>=◌, length, get_elem?, get_or, set, length-append, length-set,
  get_elem?-set_self, get_elem?-set_ne, ℤ, pos, negsuc, minus_one, sub_ℕ, Memory, store, load32,
  store32, bytes, codes, moved, filled, is_table, table_entry, table_witness, word, add32, sub32,
  to_int32,
}

pub record IdtDesc : Type 0 where
  pub offset_15_00 : ℕ
  pub seg_selector : ℕ
  pub reserved4 : ℕ
  pub reserved3 : ℕ
  pub reserved2 : ℕ
  pub reserved1 : ℕ
  pub size : ℕ
  pub reserved0 : ℕ
  pub dpl : ℕ
  pub present : ℕ
  pub offset_31_16 : ℕ

-- SET_IDT_ENTRY
unfoldable pub set_idt_entry : IdtDesc → ℕ → IdtDesc
set_idt_entry str handler = record str {
  offset_31_16 = handler / 65536 % 65536;
  offset_15_00 = handler % 65536;
}

abbrev pub Idt : Type 0
Idt = ℕ → IdtDesc

-- `idt[i] = d`
abbrev put_gate : Idt → ℕ → IdtDesc → Idt
put_gate idt i d j = if j == i then d else idt j

abbrev pub kernel_cs : ℕ
kernel_cs = 16

abbrev pub pit_idt_entry : ℕ
pit_idt_entry = 32

abbrev pub kb_idt_entry : ℕ
kb_idt_entry = 33

abbrev pub rtc_idt_entry : ℕ
rtc_idt_entry = 40

abbrev pub syscall_entry : ℕ
syscall_entry = 128

-- The fields that both functions set first: an interrupt gate of 32 bits for the kernel.
abbrev pub interrupt_gate : IdtDesc → IdtDesc
interrupt_gate temp = record temp {
  seg_selector = kernel_cs;
  size = 1;
  dpl = 0;
  present = 1;
  reserved4 = 0;
  reserved3 = 0;
  reserved2 = 1;
  reserved1 = 1;
  reserved0 = 0;
}

-- The addresses of the handlers.
pub record Handlers : Type 0 where
  pub exception : ℕ → ℕ
  pub pit_handler : ℕ
  pub kb_handler : ℕ
  pub rtc_handler : ℕ
  pub syscall_handler : ℕ

-- The `left` gates from `i` on.
unfoldable pub exception_gates : ℕ → ℕ → Handlers → IdtDesc → Idt → Idt
unfolding set_idt_entry
exception_gates zero i h temp idt = idt
exception_gates (suc left) i h temp idt =
    let gate = set_idt_entry temp (h.exception i) in
    exception_gates left (i + 1) h gate (put_gate idt i gate)

unfoldable pub fill_idt_exceptions : Handlers → IdtDesc → Idt → Idt
unfolding exception_gates
fill_idt_exceptions h temp idt = exception_gates 20 0 h (interrupt_gate temp) idt

unfoldable pub fill_idt_interrupts_sys : Handlers → IdtDesc → Idt → Idt
unfolding set_idt_entry
fill_idt_interrupts_sys h temp idt =
    let pit = set_idt_entry (interrupt_gate temp) h.pit_handler in
    let kb = set_idt_entry pit h.kb_handler in
    let rtc = set_idt_entry kb h.rtc_handler in
    let trap = set_idt_entry (record rtc { dpl = 3; reserved3 = 1 }) h.syscall_handler in
    put_gate
      (put_gate (put_gate (put_gate idt pit_idt_entry pit) kb_idt_entry kb) rtc_idt_entry rtc)
      syscall_entry trap

-- The two functions each have an `idt_temp` of their own.
unfoldable pub fill_idt : Handlers → IdtDesc → IdtDesc → Idt → Idt
unfolding fill_idt_exceptions fill_idt_interrupts_sys
fill_idt h temp temp' idt = fill_idt_interrupts_sys h temp' (fill_idt_exceptions h temp idt)

pub record SegDesc : Type 0 where
  pub seg_lim_15_00 : ℕ
  pub base_15_00 : ℕ
  pub base_23_16 : ℕ
  pub seg_type : ℕ
  pub sys : ℕ
  pub dpl : ℕ
  pub present : ℕ
  pub seg_lim_19_16 : ℕ
  pub avail : ℕ
  pub reserved : ℕ
  pub opsize : ℕ
  pub granularity : ℕ
  pub base_31_24 : ℕ

-- SET_LDT_PARAMS and SET_TSS_PARAMS
unfoldable pub set_seg_params : SegDesc → ℕ → ℕ → SegDesc
set_seg_params str addr lim = record str {
  base_31_24 = addr / 16777216 % 256;
  base_23_16 = addr / 65536 % 256;
  base_15_00 = addr % 65536;
  seg_lim_19_16 = lim / 65536 % 16;
  seg_lim_15_00 = lim % 65536;
}

-- the_ldt_desc of entry.
unfoldable pub ldt_entry : SegDesc → ℕ → ℕ → SegDesc
unfolding set_seg_params
ldt_entry temp ldt ldt_size =
    set_seg_params
      (record temp {
        granularity = 0;
        opsize = 1;
        reserved = 0;
        avail = 0;
        present = 1;
        dpl = 0;
        sys = 0;
        seg_type = 2;
      })
      ldt ldt_size

-- the_tss_desc of entry; the limit set first is set again.
unfoldable pub tss_entry : SegDesc → ℕ → ℕ → SegDesc
unfolding set_seg_params
tss_entry temp tss tss_size =
    set_seg_params
      (record temp {
        granularity = 0;
        opsize = 0;
        reserved = 0;
        avail = 0;
        seg_lim_19_16 = 0;
        present = 1;
        dpl = 0;
        sys = 0;
        seg_type = 9;
        seg_lim_15_00 = 104;
      })
      tss tss_size
