-- ===== src/Kernel/Descriptors/Gates.antt =====
-- What the processor reads of the descriptors.
use linux_operating_system.Prelude.{
  ℕ, zero, suc, ◌+◌, ◌*◌, ◌/◌, ◌%◌, ◌≤◌, ◌<◌, ◌≡◌, refl, sym, ap, ◌∙◌, subst, ◌≢◌, ◌⊎◌, inl, inr,
  false, arith, ◌==◌, if◌then◌else◌, Bool-cases, word,
}
use linux_operating_system.Kernel.Descriptors.{
  IdtDesc, set_idt_entry, Idt, kernel_cs, interrupt_gate, Handlers, exception_gates,
  fill_idt_exceptions, fill_idt_interrupts_sys, fill_idt,
}

-- The two words of a gate, by the layout of its bit fields.
unfoldable pub gate_words : IdtDesc → ℕ × ℕ
gate_words d = (
  d.seg_selector * 65536 + d.offset_15_00,
  d.offset_31_16 * 65536
      + d.present * 32768
      + d.dpl * 8192
      + d.reserved0 * 4096
      + d.size * 2048
      + d.reserved1 * 1024
      + d.reserved2 * 512
      + d.reserved3 * 256
      + d.reserved4,
)

-- The gate is a 32-bit gate of the kernel's code segment to `handler`, with the type, privilege and
-- present bits `kind`.
abbrev pub IsGate : ℕ → ℕ → IdtDesc → Type 0
IsGate kind handler d =
    gate_words d ≡ (kernel_cs * 65536 + handler % 65536, handler / 65536 * 65536 + kind)

set_idt_entry-IsGate :
    (temp : IdtDesc) (handler : ℕ)
    → handler < word
    → IsGate 0x8E00 handler (set_idt_entry (interrupt_gate temp) handler)
unfolding gate_words set_idt_entry
set_idt_entry-IsGate temp handler h =
    ap (λ x. (kernel_cs * 65536 + handler % 65536, x)) (omega arith)

exception_gates-other :
    (left i : ℕ) (h : Handlers) (temp : IdtDesc) (idt : Idt) (n : ℕ)
    → (n < i) ⊎ (i + left ≤ n)
    → exception_gates left i h temp idt n ≡ idt n
unfolding exception_gates
exception_gates-other zero i h temp idt n o = refl
exception_gates-other (suc left) i h temp idt n o =
    exception_gates-other left (i + 1) h _ _ n (omega arith) ∙ ground arith

exception_gates-at :
    (left i : ℕ) (h : Handlers) (temp : IdtDesc) (idt : Idt) (n : ℕ)
    → i ≤ n
    → n < i + left
    → exception_gates left i h temp idt n ≡ set_idt_entry temp (h.exception n)
unfolding exception_gates set_idt_entry
exception_gates-at zero i h temp idt n lo hi = absurd (omega arith)
exception_gates-at (suc left) i h temp idt n lo hi = elim (Bool-cases (n == i)) [
  | inl e ↦
      let same : n ≡ i = ground arith in
      exception_gates-other left (i + 1) h (set_idt_entry temp (h.exception i))
        (λ j. if j == i then set_idt_entry temp (h.exception i) else idt j) n (omega arith)
      ∙ rw e (ap (λ j. set_idt_entry temp (h.exception j)) (sym same))
  | inr e ↦
      exception_gates-at left (i + 1) h (set_idt_entry temp (h.exception i)) _ n (ground arith)
        (omega arith)
]

fill_exceptions-at :
    (h : Handlers) (temp : IdtDesc) (idt : Idt) (n : ℕ)
    → n < 20
    → fill_idt_exceptions h temp idt n ≡ set_idt_entry (interrupt_gate temp) (h.exception n)
unfolding fill_idt_exceptions
fill_exceptions-at h temp idt n p =
    exception_gates-at 20 0 h (interrupt_gate temp) idt n (omega arith) (omega arith)

fill_exceptions-other :
    (h : Handlers) (temp : IdtDesc) (idt : Idt) (n : ℕ)
    → 20 ≤ n
    → fill_idt_exceptions h temp idt n ≡ idt n
unfolding fill_idt_exceptions
fill_exceptions-other h temp idt n p =
    exception_gates-other 20 0 h (interrupt_gate temp) idt n (omega arith)

fill_sys-other :
    (h : Handlers) (temp : IdtDesc) (idt : Idt) (n : ℕ)
    → n ≢ 0x20
    → n ≢ 0x21
    → n ≢ 0x28
    → n ≢ 0x80
    → fill_idt_interrupts_sys h temp idt n ≡ idt n
unfolding fill_idt_interrupts_sys
fill_sys-other h temp idt n q1 q2 q3 q4 =
    let e1 : (n == 0x20) ≡ false = ground arith in
    let e2 : (n == 0x21) ≡ false = ground arith in
    let e3 : (n == 0x28) ≡ false = ground arith in
    let e4 : (n == 0x80) ≡ false = ground arith in rw (e1, e2, e3, e4) refl

-- What fill_idt leaves in the table.
pub record IsFilled (h : Handlers) (idt idt' : Idt) : Type 0 where
  pub exceptions : (n : ℕ) → n < 20 → IsGate 0x8E00 (h.exception n) (idt' n)
  pub pit : IsGate 0x8E00 h.pit_handler (idt' 0x20)
  pub keyboard : IsGate 0x8E00 h.kb_handler (idt' 0x21)
  pub rtc : IsGate 0x8E00 h.rtc_handler (idt' 0x28)
  pub syscall : IsGate 0xEF00 h.syscall_handler (idt' 0x80)
  pub others : (n : ℕ) → 20 ≤ n → n ≢ 0x20 → n ≢ 0x21 → n ≢ 0x28 → n ≢ 0x80 → idt' n ≡ idt n

-- The handlers have 32-bit addresses.
pub record HasAddresses (h : Handlers) : Type 0 where
  pub exception : (n : ℕ) → h.exception n < word
  pub pit : h.pit_handler < word
  pub keyboard : h.kb_handler < word
  pub rtc : h.rtc_handler < word
  pub syscall : h.syscall_handler < word

-- fill_idt, when the handlers' addresses have 32 bits and whatever the structures on its stack held
-- before: the vectors 0 to 19 are present 32-bit interrupt gates of privilege 0 to the exceptions' handlers
-- in the order of their numbers; 0x20, 0x21 and 0x28 are such gates to the timer's, the keyboard's and the
-- clock's; 0x80 is a present trap gate of privilege 3 to the system calls'; and no other vector has
-- changed.
pub fill_idt-IsFilled :
    (h : Handlers) (temp temp' : IdtDesc) (idt : Idt)
    → HasAddresses h
    → IsFilled h idt (fill_idt h temp temp' idt)
unfolding fill_idt fill_idt_interrupts_sys set_idt_entry
fill_idt-IsFilled h temp temp' idt a =
    let pit = set_idt_entry-IsGate temp' h.pit_handler a.pit in
    let keyboard = set_idt_entry-IsGate temp' h.kb_handler a.keyboard in
    let rtc = set_idt_entry-IsGate temp' h.rtc_handler a.rtc in
    record {
      exceptions = λ n p.
          subst (IsGate 0x8E00 (h.exception n))
            (sym (
              fill_sys-other h temp' (fill_idt_exceptions h temp idt) n (omega arith) (omega arith)
                (omega arith) (omega arith)
              ∙ fill_exceptions-at h temp idt n p))
            (set_idt_entry-IsGate temp (h.exception n) (a.exception n));
      pit = pit;
      keyboard = keyboard;
      rtc = rtc;
      syscall =
          unfold gate_words in
          ap (λ x. (kernel_cs * 65536 + h.syscall_handler % 65536, x))
            (let s = a.syscall in omega arith);
      others = λ n lo q1 q2 q3 q4.
          fill_sys-other h temp' (fill_idt_exceptions h temp idt) n q1 q2 q3 q4
          ∙ fill_exceptions-other h temp idt n lo;
    }
