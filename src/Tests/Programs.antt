-- ===== src/Tests/Programs.antt =====
-- A program is executed and halts, and the modules of the boot loader are listed.
use linux_operating_system.Prelude.{
  ℕ, ◌+◌, ◌*◌, ◌≡◌, refl, ap, ◌∙◌, subst, inl, Bool, true, false, ◌&&◌, Option, none, some, arith,
  ◌==◌, pos, Memory, store,
}
use linux_operating_system.CLib.Strings.{strlen, strncmp, strncmp_from, strcpy, strcpy_from}
use linux_operating_system.FileSys.{
  read_dentry_by_name, find_dentry, names_match, dentry_at, read_data, inode_val, read_loop,
  first_block, clip_length, advance, next_block, one_block_at_most, get_file_size, copy_dentry,
  calculate_dentries_start, calculate_inode_start, data_start,
}
use linux_operating_system.CLib.Blocks.{memcpy, memcpy_top, memcpy_aligned, movsb, movsl}
use linux_operating_system.CLib.Console.{Console}
use linux_operating_system.Kernel.Boot.Lines.{Prints}
use linux_operating_system.Kernel.Boot.{print_modules}
use linux_operating_system.Kernel.Boot.Modules.{IsModule, modules_text, print_modules-ends}
use linux_operating_system.Kernel.Process.{
  link_pcb, pcb_init, fd_A_init, clear_fds, ustack_bottom, pid_to_pcb_addr, program_page,
}
use linux_operating_system.Kernel.Programs.{
  halt_func, get_args_fname, skip_spaces, copy_until, load_program, start_program, execute_func,
}
use linux_operating_system.Kernel.{returns, Kernel, Outcome, enters}
use linux_operating_system.Kernel.Programs.Inverse.{IsRestored, execute_func-halt, IsAlone}
use linux_operating_system.Tests.Machine.{image, terminal, kernel, frame}

-- The file "fish" is 40 bytes long and begins with 0x7F; the command "fish" stands at 100200.
abbrev pub runnable : Memory
runnable =
    store
      (store
        (store (store (store (store (store image 4096 40) 4097 0) 8192 0x7F) 100200 b'f') 100201
          b'i')
        100202 b's')
      100203 b'h'

abbrev pub caller : Kernel
caller = record kernel { term = record terminal { mem = runnable } }

abbrev pub launch : Option (Outcome × Kernel)
launch = execute_func 60 frame 100200 caller

caller-IsAlone : IsAlone caller
unfolding pid_to_pcb_addr program_page
caller-IsAlone = record {
  exists = λ e. absurd (omega arith);
  others = λ e. absurd (omega arith);
  room = omega arith;
  few = omega arith;
  slot = refl;
  place = refl;
  terminal = omega arith;
  page = refl;
  stack = refl;
  childless = refl;
}

-- A run that ends by entering a program.
unfoldable pub entered_at : ℕ → ℕ → Option (Outcome × Kernel) → Bool
entered_at entry stack none = false
entered_at entry stack (some (returns n, k)) = false
entered_at entry stack (some (enters a b, k)) = (a == entry) && (b == stack)

unfoldable pub kernel_of : Kernel → Option (Outcome × Kernel) → Kernel
kernel_of k none = k
kernel_of k (some r) = r.1

pub entered :
    (entry stack : ℕ) (k : Kernel) (o : Option (Outcome × Kernel))
    → entered_at entry stack o ≡ true
    → o ≡ some (enters entry stack, kernel_of k o)
unfolding entered_at kernel_of
entered entry stack k none e = absurd (ground arith)
entered entry stack k (some (returns n, k')) e = absurd (ground arith)
entered entry stack k (some (enters a b, k')) e =
    let same_entry : a ≡ entry = ground arith in
    let same_stack : b ≡ stack = ground arith in
    ap (λ n. some (enters n b, k')) same_entry ∙ ap (λ n. some (enters entry n, k')) same_stack

pub caller_launches : entered_at 0 138412028 launch ≡ true
unfolding entered_at execute_func get_args_fname skip_spaces copy_until read_dentry_by_name strlen
    find_dentry names_match dentry_at strncmp strncmp_from read_data inode_val read_loop first_block
    clip_length memcpy memcpy_top memcpy_aligned movsb movsl data_start calculate_dentries_start
    calculate_inode_start advance next_block one_block_at_most get_file_size load_program
    start_program pcb_init link_pcb fd_A_init clear_fds strcpy strcpy_from pid_to_pcb_addr
    ustack_bottom copy_dentry
caller_launches = refl

execute_func-halt_example :
    (k2 : Kernel) × (halt_func 1 9 frame (kernel_of caller launch) ≡ some (returns (pos 0), k2))
    × IsRestored caller k2
execute_func-halt_example =
    execute_func-halt 60 100200 1 9 0 138412028 frame frame caller (kernel_of caller launch)
      caller-IsAlone (entered 0 138412028 caller launch caller_launches) (omega arith)

-- One module, at 8192, by the record at 300000.
abbrev loaded_memory : Memory
loaded_memory = store (store (λ _. 0) 180020 1) 300001 32

abbrev first_screen : Console
first_screen = record { mem = loaded_memory; screen_x = 0; screen_y = 0 }

first-IsModule : IsModule loaded_memory 300000
first-IsModule = record { entry = omega arith; start = inl (omega arith) }

print_modules-ends_example :
    Prints (modules_text loaded_memory 0 300000 1) (print_modules 40 2 180000 0 300000) first_screen
print_modules-ends_example =
    print_modules-ends 40 2 180000 0 300000 1 first_screen (omega arith) (omega arith) refl
      (record {
        bytes = λ x o. ground arith;
        count = omega arith;
        modules = λ i p.
            let here : 300000 ≡ 300000 + 16 * i = omega arith in
            subst (IsModule loaded_memory) here first-IsModule;
      })
