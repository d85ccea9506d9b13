-- ===== src/Kernel/Process/Layout.antt =====
-- Where the processes lie: their pages, their blocks and their kernel stacks.
use linux_operating_system.Prelude.{
  ℕ, ◌+◌, ◌*◌, ◌≤◌, ◌<◌, bit_or, ◌≡◌, refl, ◌≢◌, ◌⊎◌, true, arith, ◌==◌, is_table, table_entry,
}
use linux_operating_system.Kernel.Process.{pid_to_pcb_addr, pid_to_kstack_bottom, program_page}

page_table_checked : is_table 20 (λ n. bit_or (0x400000 * n) 0x87 == 0x400000 * n + 0x87) ≡ true
unfolding is_table
page_table_checked = refl

program_page_lem : (t p : ℕ) → t < 3 → p < 6 → program_page t p ≡ 0x400000 * (p + t * 6 + 2) + 0x87
unfolding program_page
program_page_lem t p h l =
    let e = table_entry 20 _ (p + t * 6 + 2) page_table_checked (omega arith) in ground arith

-- The room of process `p` of terminal `t`: a block and a kernel stack in 8 KB of the kernel's page, which
-- reaches from 4 MB to 8 MB, and a page of 4 MB above it.
pub record HasRoom (t p : ℕ) : Type 0 where
  pub stack : pid_to_kstack_bottom t p ≡ pid_to_pcb_addr t p + 8188
  pub low : 0x400000 ≤ pid_to_pcb_addr t p
  pub high : pid_to_pcb_addr t p + 8192 ≤ 0x800000
  pub page : 0x800000 ≤ program_page t p

-- Each process of up to six on each of the three terminals has room: its block and kernel stack in 8 KB
-- of the kernel's page, and a page above it. The rooms and the pages of two processes do not overlap.
pub processes-apart :
    (t p t' p' : ℕ)
    → t < 3
    → p < 6
    → t' < 3
    → p' < 6
    → (t ≢ t') ⊎ (p ≢ p')
    → HasRoom t p
      × ((pid_to_pcb_addr t p + 8192 ≤ pid_to_pcb_addr t' p')
          ⊎ (pid_to_pcb_addr t' p' + 8192 ≤ pid_to_pcb_addr t p))
      × ((program_page t p + 0x400000 ≤ program_page t' p')
          ⊎ (program_page t' p' + 0x400000 ≤ program_page t p))
unfolding pid_to_pcb_addr pid_to_kstack_bottom
processes-apart t p t' p' h l h' l' d =
    let a = program_page_lem t p h l in
    let b = program_page_lem t' p' h' l' in
    (
      record { stack = omega arith; low = omega arith; high = omega arith; page = omega arith },
      ground arith,
      ground arith,
    )
