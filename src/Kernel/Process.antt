-- ===== src/Kernel/Process.antt =====
-- file_desc.c: process control blocks, their descriptors, and the page that a program runs in.
pub mod Layout
use linux_operating_system.Prelude.{
  ℕ, zero, suc, ◌+◌, ◌-◌, ◌*◌, bit_or, ◌&&◌, not, Option, none, some, ◌==◌, if◌then◌else◌, ◌>>=◌,
  store, load32,
}
use linux_operating_system.Kernel.{
  stdin_fops, stdout_fops, Fd, Kernel, max_progs, put, with_mem, with_pcb, current,
}
use linux_operating_system.CLib.Strings.{strcpy}
use linux_operating_system.FileSys.{read_data}

-- The inode number -1 of a descriptor without one.
abbrev pub no_inode : ℕ
no_inode = 4294967295

abbrev closed_fd : Fd
closed_fd = record { fops_ptr = none; inode_num = no_inode; pos = 0; flags = 0 }

-- The loop of fd_A_init.
unfoldable pub clear_fds : ℕ → ℕ → (ℕ → Fd) → ℕ → Fd
clear_fds zero i fds = fds
clear_fds (suc left) i fds = clear_fds left (i + 1) (put fds i closed_fd)

unfoldable pub fd_A_init : (ℕ → Fd) → ℕ → Fd
unfolding clear_fds
fd_A_init fds = clear_fds 6 2 (
    put
      (put fds 0 (record { fops_ptr = some stdin_fops; inode_num = no_inode; pos = 0; flags = 0 }))
      1 (record { fops_ptr = some stdout_fops; inode_num = no_inode; pos = 0; flags = 0 }))

-- Blocks lie below 8 MB, 8 KB for each process of each terminal.
unfoldable pub pid_to_pcb_addr : ℕ → ℕ → ℕ
pid_to_pcb_addr curr_term p_id = 8388608 - 8192 * (p_id + curr_term * max_progs + 1)

unfoldable pub pid_to_kstack_bottom : ℕ → ℕ → ℕ
pid_to_kstack_bottom curr_term p_id = 8388608 - 8192 * (p_id + curr_term * max_progs) - 4

unfoldable pub ustack_bottom : ℕ
ustack_bottom = 0x8000000 + 0x400000 - 4

-- `MEM4MB * ((p_id + curr_term * MAX_PROGS) + 2) | PAGESIZE4MB_PROG`: the page directory's entry.
unfoldable pub program_page : ℕ → ℕ → ℕ
program_page curr_term p_id = bit_or (0x400000 * (p_id + curr_term * max_progs + 2)) 0x87

unfoldable pub swap_pages : ℕ → Kernel → Kernel
unfolding program_page
swap_pages p_id_new k = record k {
  page_directory = store k.page_directory 32 (program_page k.term.curr_term p_id_new);
}

unfoldable pub get_parent_pcb : Kernel → Kernel
get_parent_pcb k =
    let parent = (current k).parent in
    let s = swap_pages (current k).parent_p_id k in
    if parent == 0 then k else record s {
      curr_pcb_ptr = parent;
      active_progs = store s.active_progs s.term.curr_term parent;
    }

-- Where a block's arguments and its entry point stand in the packed structure.
abbrev pub args_offset : ℕ
args_offset = 144

abbrev pub prog_entry_offset : ℕ
prog_entry_offset = 292

-- The first half of pcb_init: the block's place in the tree of processes.
unfoldable pub link_pcb : ℕ → Kernel → Kernel
link_pcb pcb k =
    let t = k.term.curr_term in
    let n = k.next_p_id t in
    let parent = with_pcb k k.curr_pcb_ptr (record (current k) { child = pcb }) in
    if not (k.curr_pcb_ptr == 0) && not (n == 0)
    then with_pcb parent pcb (record (parent.pcbs pcb) {
      p_id = n;
      parent_p_id = n - 1;
      parent = k.curr_pcb_ptr;
      child = 0;
    })
    else with_pcb k pcb (record (k.pcbs pcb) { p_id = 0; parent_p_id = 0; parent = 0; child = 0 })

-- `file_entry` is the address of a directory entry.
unfoldable pub pcb_init : ℕ → ℕ → ℕ → ℕ → Kernel → Option Kernel
unfolding link_pcb fd_A_init
pcb_init fuel pcb str_args file_entry k =
    let l = link_pcb pcb k in
    strcpy fuel (pcb + args_offset) str_args l.term.mem >>= λ m.
    read_data fuel l.fs (load32 m (file_entry + 36)) 24 (pcb + prog_entry_offset) 4 m >>= λ r.
    let n = with_mem l (r.1) in
    some (
      with_pcb n pcb (record (n.pcbs pcb) {
        fd_A = fd_A_init (n.pcbs pcb).fd_A;
        term_num = k.term.curr_term;
        prog_entry = load32 (r.1) (pcb + prog_entry_offset);
        fd_total_open = 1;
      }))
