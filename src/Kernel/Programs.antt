-- ===== src/Kernel/Programs.antt =====
-- syscalls.c: starting and ending programs, and the calls of a running one. Memory is indexed by virtual
-- address; what a page holds while it is not mapped is not followed. `none` is a run that does not end on
-- the fuel given.
pub mod Command
pub mod Starting
pub mod Inverse
pub mod Parsing
use linux_operating_system.Prelude.{
  ℕ, zero, suc, ◌+◌, ◌-◌, ◌*◌, ◌/◌, ◌%◌, ◌^◌, ◌≤◌, ◌<◌, min, bit_and, bit_or, ◌≡◌, refl, sym, ap,
  ◌∙◌, fun_ext, subst, ◌≢◌, ◌↔◌, ◌⊎◌, inl, inr, Bool, true, false, ◌&&◌, ◌||◌, not, Option, none,
  some, List, [], ◌∷◌, ◌++◌, map, reverse, arith, ltb, leb, ◌==◌, if◌then◌else◌, ltb→lt, leb→le,
  ==_iff, Bool-cases, ◌>>=◌, length, get_elem?, get_or, set, length-append, length-set,
  get_elem?-set_self, get_elem?-set_ne, ℤ, pos, negsuc, minus_one, sub_ℕ, Memory, store, load32,
  store32, bytes, codes, moved, filled, is_table, table_entry, table_witness, word, add32, sub32,
  to_int32,
}
use linux_operating_system.Kernel.{
  Kernel, max_progs, put, with_mem, current, say, Outcome, returns, enters, Frame,
}
use linux_operating_system.Kernel.Process.{
  pid_to_pcb_addr, pid_to_kstack_bottom, ustack_bottom, program_page, get_parent_pcb, args_offset,
  pcb_init,
}
use linux_operating_system.Kernel.Files.{is_minus_one}
use linux_operating_system.CLib.Strings.{strcpy}
use linux_operating_system.FileSys.{read_data, read_dentry_by_name, get_file_size}
use linux_operating_system.Rtc.{rtc_default_rate}
use linux_operating_system.Terminal.Putc.{same_start}

-- `for (; command[i] == ' '; i++)`
unfoldable pub skip_spaces : ℕ → Memory → ℕ → ℕ → Option ℕ
skip_spaces zero m command i = none
skip_spaces (suc fuel) m command i =
    let rest = skip_spaces fuel m command (i + 1) in
    if m (command + i) == b' ' then rest else some i

abbrev pub ends_line : ℕ → Bool
ends_line c = (c == 0) || ((c == b'\n') || (c == 13))

abbrev pub ends_word : ℕ → Bool
ends_word c = (c == b' ') || ends_line c

-- The two copying loops: up to a character that `stop` tells, and `left` characters at most. Both
-- indexes and the memory.
unfoldable pub copy_until : (ℕ → Bool) → ℕ → ℕ → ℕ → ℕ → ℕ → Memory → ℕ × ℕ × Memory
copy_until stop zero command out i j m = (i, j, m)
copy_until stop (suc left) command out i j m =
    let c = m (command + i) in
    let rest = copy_until stop left command out (i + 1) (j + 1) (store m (out + j) c) in
    if stop c then (i, j, m) else rest

unfoldable pub get_args_fname : ℕ → ℕ → ℕ → ℕ → Memory → Option Memory
get_args_fname fuel command file_name args m = skip_spaces fuel m command 0 >>= λ i.
    let (i1, j1, m1) = copy_until ends_word 32 command file_name i 0 m in
    let m2 = if ltb j1 32 then store m1 (file_name + j1) 0 else m1 in
    skip_spaces fuel m2 command i1 >>= λ i2.
    let (i3, j3, m3) = copy_until ends_line 128 command args i2 0 m2 in
    some (store m3 (args + j3) 0)

-- The test for an executable, as the source has it.
unfoldable pub not_executable : ℕ → Memory → Bool
not_executable a m =
    not (m a == 0x7F)
    && (not (m (a + 1) == b'E') && (not (m (a + 2) == b'L') && not (m (a + 3) == b'F')))

-- execute_func from pcb_init on: the new block becomes the current one. push_stack_iret saves the stack
-- pointers and enters the program.
unfoldable pub start_program : Frame → ℕ → Kernel → Outcome × Kernel
start_program f pcb k =
    let t = k.term.curr_term in
    let n = k.next_p_id t in
    let m = k.term.mem in
    let bottom = pid_to_kstack_bottom t n in
    let p = record (k.pcbs pcb) {
      shell_flag = if same_start 5 (bytes m f.file_name 5) (codes "shell") then 1 else 0;
      esp0 = bottom;
      esp = f.sp;
      ebp = f.bp;
    } in
    (
      enters p.prog_entry ustack_bottom,
      record k {
        pcbs = put k.pcbs pcb p;
        curr_pcb_ptr = pcb;
        next_p_id = store k.next_p_id t (n + 1);
        active_progs = store k.active_progs t pcb;
        total_progs = add32 k.total_progs 1;
        tss_esp0 = bottom;
        halt_retval = store k.halt_retval t 0;
      },
    )

-- execute_func from the program's page on. `f.file_entry` holds the directory entry.
unfoldable pub load_program : ℕ → Frame → Kernel → Option (Outcome × Kernel)
unfolding start_program
load_program fuel f k =
    let t = k.term.curr_term in
    let n = k.next_p_id t in
    let m = k.term.mem in
    let paged = record k { page_directory = store k.page_directory 32 (program_page t n) } in
    read_data fuel k.fs (load32 m (f.file_entry + 36)) 0 (0x8000000 + 0x48000)
      (get_file_size k.fs m f.file_entry) m
    >>= λ r. pcb_init fuel (pid_to_pcb_addr t n) f.args f.file_entry (with_mem paged (r.1)) >>= λ s.
        some (start_program f (pid_to_pcb_addr t n) s)

abbrev pub refuse : List ℕ → Kernel → Option (Outcome × Kernel)
refuse text k = say text k >>= λ s. some (returns minus_one, s)

unfoldable pub execute_func : ℕ → Frame → ℕ → Kernel → Option (Outcome × Kernel)
unfolding get_args_fname not_executable load_program
execute_func fuel f command k = get_args_fname fuel command f.file_name f.args k.term.mem >>= λ m.
    if leb max_progs k.total_progs
    then refuse (codes "Cannot Execute more programs.\n") (with_mem k m)
    else (read_dentry_by_name fuel k.fs f.file_name f.file_entry m >>= λ r.
        let a = with_mem k (r.1) in
        if is_minus_one (r.0)
        then refuse (codes "File Not Found\n") a
        else if not (load32 (r.1) (f.file_entry + 32) == 2)
        then refuse (codes "Not a valid File\n") a
        else (read_data fuel k.fs (load32 (r.1) (f.file_entry + 36)) 0 f.exec_check 4 (r.1) >>= λ d.
            if not_executable f.exec_check (d.1)
            then refuse (codes "Not an executable\n") (with_mem k (d.1))
            else load_program fuel f (with_mem k (d.1))))

-- What execute_func does when the program has ended, and its result.
unfoldable pub finish_execute : Kernel → ℕ × Kernel
finish_execute k =
    let t = k.term.curr_term in
    (k.halt_retval t, record k { halt_retval = store k.halt_retval t 0 })

-- The `while` of halt_func; execute_func comes back to it only when it fails.
unfoldable pub restart_shell : ℕ → ℕ → Frame → Kernel → Option (Outcome × Kernel)
restart_shell zero fuel f k = none
restart_shell (suc rounds) fuel f k =
    if (current k).parent == 0
    then (say (codes "\nRestart the shell.\n") k >>= λ s. execute_func fuel f f.shell s >>= λ r.
        elim (r.0) [ returns n ↦ restart_shell rounds fuel f (r.1) | enters entry stack ↦ some r ])
    else some (returns (pos 0), k)

-- halt_func after the `while`: the parent's block is the current one, and its execute_func goes on.
unfoldable pub leave_program : Kernel → Kernel
leave_program k =
    let g = get_parent_pcb k in
    let r = record g { rtc = rtc_default_rate g.term.curr_term g.rtc } in
    let p = current r in
    record r { pcbs = put r.pcbs r.curr_pcb_ptr (record p { child = 0 }); tss_esp0 = p.esp0 }

-- `rounds` bounds how often the shell is started in vain. A result is one for the parent.
unfoldable pub halt_func : ℕ → ℕ → Frame → Kernel → Option (Outcome × Kernel)
unfolding leave_program
halt_func rounds fuel f k =
    let t = k.term.curr_term in
    let counted = record k {
      total_progs = sub32 k.total_progs 1;
      next_p_id = store k.next_p_id t (sub32 (k.next_p_id t) 1);
    } in
    restart_shell rounds fuel f counted >>= λ r.
    some (elim (r.0) [ returns n ↦ (returns n, leave_program (r.1)) | enters entry stack ↦ r ])

unfoldable pub getargs_func : ℕ → ℕ → Kernel → Option (ℤ × Kernel)
getargs_func fuel buf k =
    if buf == 0
    then some (minus_one, k)
    else (strcpy fuel buf (k.curr_pcb_ptr + args_offset) k.term.mem >>= λ m.
        some (pos 0, with_mem k m))

unfoldable pub vidmap_func : ℕ → Kernel → ℤ × Kernel
vidmap_func screen_start k =
    let t = k.term.curr_term in
    let shared = record k { video_table = store k.video_table t (bit_or (k.video_table t) 4) } in
    if ltb (0x8000000 + 0x400000) screen_start || ltb screen_start 0x8000000
    then (minus_one, k)
    else (
      pos 0,
      with_mem shared (store32 k.term.mem screen_start (0x8000000 + 0x400000 + t * 4096)),
    )
