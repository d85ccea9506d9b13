-- ===== src/Tests/Forest.antt =====
-- A kernel starts, executes a shell, and its processes stay in order.
use linux_operating_system.Prelude.{
  ◌-◌, ◌≡◌, refl, sym, true, Option, leb, if◌then◌else◌, Memory, store,
}
use linux_operating_system.CLib.Strings.{strlen, strncmp, strncmp_from, strcpy, strcpy_from}
use linux_operating_system.FileSys.{
  read_dentry_by_name, find_dentry, names_match, dentry_at, read_data, inode_val, read_loop,
  first_block, clip_length, advance, next_block, one_block_at_most, get_file_size, copy_dentry,
  calculate_dentries_start, calculate_inode_start, data_start, init_fs, Fs,
}
use linux_operating_system.CLib.Blocks.{memcpy, memcpy_top, memcpy_aligned, movsb, movsl}
use linux_operating_system.Kernel.Process.{
  link_pcb, pcb_init, fd_A_init, clear_fds, ustack_bottom, pid_to_pcb_addr,
}
use linux_operating_system.Kernel.Programs.{
  get_args_fname, skip_spaces, copy_until, load_program, start_program, execute_func,
}
use linux_operating_system.Kernel.{Kernel, Outcome, enters, with_mem}
use linux_operating_system.Kernel.Boot.Start.{initialise, init_devices, load_descriptors}
use linux_operating_system.Kernel.Boot.Running.{initialise-Reach}
use linux_operating_system.Kernel.Schedule.{
  init_terminals, clear_terminals, clear_buffers, pit_init,
}
use linux_operating_system.Kernel.Keyboard.{init_keyboard}
use linux_operating_system.Kernel.Paging.{init_paging, init_entries, init_entry, init_buffer}
use linux_operating_system.Terminal.{terminal_update_cursor}
use linux_operating_system.Terminal.Calls.{
  terminal_open, terminal_clear, terminal_reset_buffer, blank_cells, clear,
}
use linux_operating_system.Kernel.Forest.{IsForest}
use linux_operating_system.Kernel.Forest.Reach.{
  Step, Effect, Step-Effect, here, next, execute, computes, closes, clock,
}
use linux_operating_system.Rtc.{rtc_irq_handler}
use linux_operating_system.Kernel.Files.{close_func}
use linux_operating_system.Tests.Machine.{kernel, frame, zeros}
use linux_operating_system.Tests.Startup.{setup, machine}
use linux_operating_system.Tests.Programs.{runnable, entered, entered_at, kernel_of}

-- The file system's image at 1 MB, which the record of the first module, at 300000, names.
abbrev loaded : Memory
loaded a =
    if leb 0x100000 a
    then store (store (store runnable 0 2) 4 1) 8 2 (a - 0x100000)
    else store (store (store zeros 180248 0xE0) 180249 0x93) 180250 4 a

booted : Kernel
booted =
    (initialise setup 0x2C000
      (record machine { kernel = with_mem kernel (store loaded 300002 16) })).kernel

disk_at : Fs
disk_at = record { bootaddr = 0x100000; dentries = 2; inodes = 1; blocks = 2 }

booted_fs : booted.fs ≡ disk_at
unfolding booted disk_at initialise init_devices init_terminals clear_terminals clear_buffers
    init_fs init_paging init_entries init_entry init_buffer terminal_open terminal_clear
    terminal_reset_buffer terminal_update_cursor blank_cells clear init_keyboard pit_init
    load_descriptors
booted_fs = refl

-- The state in which a command stands in memory.
commanded : Kernel
unfolding booted disk_at
commanded = record (with_mem booted loaded) { fs = disk_at }

commanded_eq : commanded ≡ with_mem booted loaded
unfolding commanded
commanded_eq i = record (with_mem booted loaded) { fs = sym booted_fs i }

shell : Option (Outcome × Kernel)
shell = execute_func 60 frame 1148776 commanded

shell_runs : entered_at 0 138412028 shell ≡ true
unfolding shell commanded booted disk_at initialise init_devices init_terminals clear_terminals
    clear_buffers init_paging init_entries init_entry init_buffer terminal_open terminal_clear
    terminal_reset_buffer terminal_update_cursor init_keyboard pit_init load_descriptors entered_at
    execute_func get_args_fname skip_spaces copy_until read_dentry_by_name strlen find_dentry
    names_match dentry_at strncmp strncmp_from read_data inode_val read_loop first_block clip_length
    memcpy memcpy_top memcpy_aligned movsb movsl data_start calculate_dentries_start
    calculate_inode_start advance next_block one_block_at_most get_file_size load_program
    start_program pcb_init link_pcb fd_A_init clear_fds strcpy strcpy_from pid_to_pcb_addr
    ustack_bottom copy_dentry
shell_runs = refl

after_shell : Kernel
unfolding shell commanded
after_shell = kernel_of commanded shell

-- The shell starts, the clock ticks, and the shell closes descriptor 2.
closed : Kernel
unfolding after_shell
closed = (close_func 2 (record after_shell { rtc = rtc_irq_handler 0x0B 0x8B after_shell.rtc })).1

initialise-Reach_example : IsForest closed
unfolding closed after_shell shell booted
initialise-Reach_example =
    initialise-Reach setup 0x2C000
      (record machine { kernel = with_mem kernel (store loaded 300002 16) }) closed
      (next
        (next
          (next (next here (computes loaded commanded_eq)) (
            execute 60 1148776 frame (enters 0 138412028)
              (entered 0 138412028 commanded shell shell_runs)))
          (clock 0x0B 0x8B refl))
        (closes 2 refl))

commanded-IsForest : IsForest commanded
unfolding booted
commanded-IsForest =
    initialise-Reach setup 0x2C000
      (record machine { kernel = with_mem kernel (store loaded 300002 16) }) commanded
      (next here (computes loaded commanded_eq))

-- The execute of the first shell.
launched : Step commanded after_shell
unfolding after_shell shell
launched =
    execute 60 1148776 frame (enters 0 138412028) (entered 0 138412028 commanded shell shell_runs)

Step-Effect_example : Effect commanded after_shell launched
Step-Effect_example = Step-Effect commanded after_shell commanded-IsForest launched
