-- ===== src/Tests/Processes.antt =====
-- Processes, descriptors, paging and the scheduler of the machine.
use linux_operating_system.Prelude.{
  ℕ, ◌+◌, ◌*◌, ◌≤◌, ◌<◌, ◌≡◌, refl, ◌⊎◌, inl, some, List, [], ◌∷◌, arith, pos, Memory, moved,
}
use linux_operating_system.CLib.Strings.{strlen, strncmp, strncmp_from}
use linux_operating_system.FileSys.{read_dentry_by_name, find_dentry, names_match, dentry_at}
use linux_operating_system.Terminal.{video}
use linux_operating_system.Kernel.{file_fops, Kernel, current, returns}
use linux_operating_system.Kernel.Process.{pid_to_pcb_addr, program_page}
use linux_operating_system.Kernel.Process.Layout.{HasRoom, processes-apart}
use linux_operating_system.Kernel.Files.{open_func, close_func}
use linux_operating_system.Kernel.Files.Counting.{count_open}
use linux_operating_system.Kernel.Files.Slots.{
  IsTable, Opens, Closes, open_func-Opens, close_func-Closes,
}
use linux_operating_system.Kernel.Paging.{init_paging}
use linux_operating_system.Kernel.Paging.Tables.{IsDirectory, init_paging-HasBuffers}
use linux_operating_system.Kernel.Schedule.{switch_terminals, pit_handler}
use linux_operating_system.Kernel.Schedule.Turns.{IsRunning, Ticks, pit_handler-Ticks}
use linux_operating_system.Kernel.Schedule.Screen.{
  HasBuffers, Shows, screen_size, switch_terminals-Shows, switch_terminals-back,
}
use linux_operating_system.Kernel.Keyboard.{Keys}
use linux_operating_system.Kernel.Keyboard.Modifiers.{Tracks, track_all, track_all-Tracks}
use linux_operating_system.Kernel.Live.{
  IsLive, Interrupt, timer, scan, pulse, handle_all, timers, scans,
}
use linux_operating_system.Kernel.Live.Runs.{handle_all-IsLive}
use linux_operating_system.Kernel.Live.Fairness.{Turn, handle_all-fair}
use linux_operating_system.Tests.Machine.{fname_at, image, kernel, frame}

kernel-IsTable : IsTable (current kernel)
unfolding count_open
kernel-IsTable = record { total = refl; input = refl; output = refl }

-- The memory with the entry "fish" at 400000.
abbrev found : Memory
found = moved 400000 128 64 image

fish_found : read_dentry_by_name 9 kernel.fs fname_at 400000 kernel.term.mem ≡ some (pos 0, found)
unfolding read_dentry_by_name strlen find_dentry names_match dentry_at strncmp strncmp_from
fish_found = refl

open_func-Opens_example :
    (fd : ℕ) × (k' : Kernel) × (open_func 9 0 fname_at 400000 kernel ≡ some (pos fd, k'))
    × Opens (current kernel) (current k') fd
open_func-Opens_example =
    open_func-Opens 9 0 fname_at 400000 kernel found kernel-IsTable (omega arith) fish_found
      (omega arith)

close_func-Closes_example :
    (k' : Kernel) × (close_func 2 kernel ≡ (pos 0, k')) × Closes (current kernel) (current k') 2
close_func-Closes_example =
    close_func-Closes 2 file_fops kernel kernel-IsTable (omega arith) (omega arith) refl
      (ground arith) (ground arith)

processes-apart_example :
    HasRoom 0 5
    × ((pid_to_pcb_addr 0 5 + 8192 ≤ pid_to_pcb_addr 1 0)
        ⊎ (pid_to_pcb_addr 1 0 + 8192 ≤ pid_to_pcb_addr 0 5))
    × ((program_page 0 5 + 0x400000 ≤ program_page 1 0)
        ⊎ (program_page 1 0 + 0x400000 ≤ program_page 0 5))
processes-apart_example =
    processes-apart 0 5 1 0 (omega arith) (omega arith) (omega arith) (omega arith)
      (inl (λ e. absurd (omega arith)))

init_paging-HasBuffers_example :
    HasBuffers (init_paging 0x401000 0x402000 kernel)
    × ((x : ℕ) → x < 1024 → (init_paging 0x401000 0x402000 kernel).page_table x ≡ x * 0x1000 + 3)
    × ((j : ℕ) → j < 3 → (init_paging 0x401000 0x402000 kernel).video_table j ≡ video + 7)
    × IsDirectory 0x401000 0x402000 (init_paging 0x401000 0x402000 kernel).page_directory
init_paging-HasBuffers_example = init_paging-HasBuffers 0x401000 0x402000 kernel

kernel-IsRunning : IsRunning kernel
unfolding program_page
kernel-IsRunning = record {
  in_range = omega arith;
  turn = omega arith;
  unlocked = refl;
  block = λ e. absurd (omega arith);
  slot = refl;
  page = refl;
  stack = refl;
}

pit_handler-Ticks_example :
    (k' : Kernel) × (pit_handler 9 frame kernel ≡ some (returns (pos 0), k')) × Ticks kernel k'
pit_handler-Ticks_example = pit_handler-Ticks 9 frame kernel kernel-IsRunning

kernel-HasBuffers : HasBuffers kernel
kernel-HasBuffers = record { at = λ j h. refl }

switch_terminals-Shows_example :
    (k' : Kernel) × (switch_terminals 9 frame 2 kernel ≡ some (returns (pos 0), k'))
    × Shows 2 kernel k'
switch_terminals-Shows_example =
    switch_terminals-Shows 9 frame 2 kernel kernel-HasBuffers (omega arith) (omega arith)
      (λ e. absurd (omega arith)) refl (λ e. absurd (omega arith))

switch_terminals-back_example :
    (k1 : Kernel) × (k2 : Kernel) × (switch_terminals 9 frame 2 kernel ≡ some (returns (pos 0), k1))
    × (switch_terminals 9 frame 1 k1 ≡ some (returns (pos 0), k2))
    × (k2.term.disp_term ≡ 1)
    × ((x : ℕ) → x < screen_size → k2.term.mem (video + x) ≡ image (video + x))
switch_terminals-back_example =
    switch_terminals-back 9 frame 2 kernel kernel-HasBuffers (omega arith) (omega arith)
      (λ e. absurd (omega arith)) refl (λ e. absurd (omega arith)) (λ e. absurd (omega arith))

quiet : Keys
quiet = record {
  ctrl_flag = 0;
  l_shift_flag = 0;
  r_shift_flag = 0;
  caps_flag = 0;
  alt_flag = 0;
  fn_flag = 0;
}

-- ALT and F3, ticks, a letter, and the clock.
busy : List Interrupt
busy =
    scan 0x38
    ∷ scan 0x3D
    ∷ timer
    ∷ scan 0x1E
    ∷ timer
    ∷ pulse 0x0B 0x8B
    ∷ scan 0xBD
    ∷ timer
    ∷ timer
    ∷ timer
    ∷ []

kernel-IsLive : IsLive (scans busy) quiet kernel
unfolding quiet busy scans
kernel-IsLive = record {
  running = kernel-IsRunning;
  programs = λ t h. let p : t * 0xC000 < 0x7FE000 = omega arith in λ e. absurd (omega arith);
  calm = record {
    running = omega arith;
    shown = omega arith;
    flags = λ t h. omega arith;
    cursors = λ t h. record { column = omega arith; row = omega arith };
  };
  room = λ t h. omega arith;
  no_key = refl;
  function_key = omega arith;
}

handle_all-IsLive_example :
    (keys' : Keys) × (k' : Kernel) × (handle_all 9 frame busy quiet kernel ≡ some (keys', k'))
    × IsLive 0 keys' k'
    × ((t : ℕ) → t < 3 → k'.active_progs t ≡ kernel.active_progs t)
handle_all-IsLive_example = handle_all-IsLive 9 frame busy quiet kernel kernel-IsLive

handle_all-fair_example : Turn 9 frame busy quiet kernel 0 5
unfolding busy timers
handle_all-fair_example =
    handle_all-fair 9 frame busy quiet kernel 0 kernel-IsLive (omega arith) (omega arith)

track_all-Tracks_example :
    Tracks (0x2A ∷ 0x3A ∷ 0x1E ∷ 0xAA ∷ []) quiet (track_all (0x2A ∷ 0x3A ∷ 0x1E ∷ 0xAA ∷ []) quiet)
unfolding quiet
track_all-Tracks_example = track_all-Tracks (0x2A ∷ 0x3A ∷ 0x1E ∷ 0xAA ∷ []) quiet (omega arith)
