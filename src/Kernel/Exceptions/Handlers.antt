-- ===== src/Kernel/Exceptions/Handlers.antt =====
-- idt_handlers.c: the handlers of the 20 exceptions. Each prints what happened and squashes the program.
use linux_operating_system.Prelude.{
  ℕ, Option, some, List, [], ◌∷◌, ◌++◌, ◌==◌, if◌then◌else◌, ◌>>=◌, get_elem?, codes,
}
use linux_operating_system.Kernel.{Kernel, Outcome, Frame, say, tell}
use linux_operating_system.Kernel.Exceptions.{squash_user_prog}

-- What exception_14 reads: the register CR2 and the words above its saved frame pointer.
pub record Fault : Type 0 where
  pub page_fault_addr : ℕ
  pub error_code : ℕ
  pub eip : ℕ
  pub cs : ℕ
  pub eflags : ℕ

-- The first line that each handler prints, from exception_0 and from exception_10 on.
abbrev pub early_messages : List (List ℕ)
early_messages =
    codes "Divide Error Exception.\n"
    ∷ codes "Debug Exception.\n"
    ∷ codes "NMI Interrupt.\n"
    ∷ codes "Breakpoint Exception.\n"
    ∷ codes "Overflow Exception.\n"
    ∷ codes "BOUND Range Exceeded Exception.\n"
    ∷ codes "Invalid Opcode Exception.\n"
    ∷ codes "Device Not Available Exception.\n"
    ∷ codes "Double Fault Exception.\n"
    ∷ codes "Coprocessor Segment Overrun.\n"
    ∷ []

abbrev pub late_messages : List (List ℕ)
late_messages =
    codes "Invalid TSS Exception.\n"
    ∷ codes "Segment Not Present.\n"
    ∷ codes "Stack Fault Exception.\n"
    ∷ codes "General Protection Exception.\n"
    ∷ codes "Page Fault Exception.\n"
    ∷ codes "Reserved by Intel.\n"
    ∷ codes "x87 FPU Floating Point Error.\n"
    ∷ codes "Alignment Check Exception.\n"
    ∷ codes "Machine Check Exception.\n"
    ∷ codes "SIMD Floating Point Exception.\n"
    ∷ []

abbrev pub messages : List (List ℕ)
messages = early_messages ++ late_messages

-- The five lines that exception_14 prints after its first.
unfoldable pub report : Fault → Kernel → Option Kernel
unfolding tell
report x k = tell (codes "Address:%#x\n") (x.page_fault_addr ∷ []) k >>= λ k1.
    tell (codes "Error code:%#x\n") (x.error_code ∷ []) k1 >>= λ k2.
    tell (codes "EIP:%#x\n") (x.eip ∷ []) k2 >>= λ k3.
    tell (codes "CS:%#x\n") (x.cs ∷ []) k3 >>= λ k4. tell (codes "EFLAGS:%#x\n") (x.eflags ∷ []) k4

-- The handler exception_n; there is none from 20 on.
unfoldable pub exception : ℕ → Fault → ℕ → ℕ → Frame → Kernel → Option (Outcome × Kernel)
unfolding squash_user_prog say report
exception n x rounds fuel f k = get_elem? messages n >>= λ message. say message k >>= λ printed.
    (if n == 14 then report x printed else some printed) >>= λ reported.
    squash_user_prog rounds fuel f reported
