-- ===== src/Kernel/Files.antt =====
-- syscalls.c: the calls on file descriptors, and the functions of file_sys.c that their tables name.
-- `none` is a run that does not end on the fuel and the events given, or that reads a variable or calls
-- through a pointer that was never set.
pub mod Counting
pub mod Slots
pub mod Pieces
pub mod Draining
use linux_operating_system.Prelude.{
  ℕ, zero, suc, ◌+◌, ◌-◌, ◌*◌, ◌/◌, ◌%◌, ◌^◌, ◌≤◌, ◌<◌, min, bit_and, bit_or, ◌≡◌, refl, sym, ap,
  ◌∙◌, fun_ext, subst, ◌≢◌, ◌↔◌, ◌⊎◌, inl, inr, Bool, true, false, ◌&&◌, ◌||◌, not, Option, none,
  some, List, [], ◌∷◌, ◌++◌, map, reverse, arith, ltb, leb, ◌==◌, if◌then◌else◌, ltb→lt, leb→le,
  ==_iff, Bool-cases, ◌>>=◌, bind_some, some_injective, Option-cases, if_branch, length, get_elem?,
  get_or, set, length-append, length-set, get_elem?-set_self, get_elem?-set_ne, ℤ, pos, negsuc,
  minus_one, sub_ℕ, Memory, store, load32, store32, bytes, codes, moved, filled, is_table,
  table_entry, table_witness, word, add32, sub32, to_int32,
}
use linux_operating_system.Kernel.{
  Fops, stdin_fops, stdout_fops, rtc_fops, dir_fops, file_fops, Fd, Kernel, max_fd, with_mem,
  with_pcb, with_fd, current, say, Events,
}
use linux_operating_system.CLib.Strings.{strcpy, strlen}
use linux_operating_system.FileSys.{read_data, read_dentry_by_name, read_dentry_by_index}
use linux_operating_system.Rtc.{rtc_open, rtc_read, rtc_write, rtc_close}
use linux_operating_system.Terminal.Calls.{terminal_read, terminal_write}

abbrev pub invalid_func : ℤ
invalid_func = minus_one

abbrev pub file_open : ℤ
file_open = pos 0

abbrev pub file_close : ℤ
file_close = pos 0

abbrev pub file_write : ℤ
file_write = minus_one

abbrev pub with_pos : Kernel → ℕ → ℕ → Kernel
with_pos k fd p = with_fd k fd (record ((current k).fd_A fd) { pos = p })

-- `n <= 0`.
abbrev pub not_positive : ℤ → Bool
not_positive (pos n) = n == 0
not_positive (negsuc n) = true

abbrev pub magnitude : ℤ → ℕ
magnitude (pos n) = n
magnitude (negsuc n) = 0

abbrev pub is_minus_one : ℤ → Bool
is_minus_one (pos n) = false
is_minus_one (negsuc n) = n == 0

-- The entry is read to where the pointer happens to point.
unfoldable pub read_dir : ℕ → Events → ℕ → ℕ → Kernel → Option (ℤ × Kernel)
read_dir fuel e fd buf k =
    let file_num = ((current k).fd_A fd).pos in
    let (r, m) = read_dentry_by_index k.fs file_num e.stray k.term.mem in
    let moved_on = with_pos (with_mem k m) fd (add32 file_num 1) in
    if is_minus_one r
    then some (pos 0, k)
    else (strcpy fuel buf e.stray m >>= λ m'.
        strlen fuel m' buf >>= λ l. some (pos l, with_mem moved_on m'))

-- `if (length_read <= 0) return length_read; pos += length_read`.
abbrev pub after_read : ℕ → Kernel → ℤ × Memory → ℤ × Kernel
after_read fd k (r, m) =
    let c = with_mem k m in
    (
      r,
      (if not_positive r then c else with_pos c fd (add32 ((current k).fd_A fd).pos (magnitude r))),
    )

unfoldable pub read_data_file : ℕ → ℕ → ℕ → ℕ → Kernel → Option (ℤ × Kernel)
read_data_file fuel fd buf length k =
    let f = (current k).fd_A fd in
    read_data fuel k.fs f.inode_num f.pos buf length k.term.mem >>= λ r. some (after_read fd k r)

-- `func_read(fd, buf, nbytes)`; a NULL table is the guard's case. The clock's function prints an empty
-- message between clearing its flag and waiting, which empties the running terminal's line.
unfoldable pub call_read : ℕ → Events → Option Fops → ℕ → ℕ → ℕ → Kernel → Option (ℤ × Kernel)
unfolding read_dir read_data_file
call_read fuel e none fd buf n k = some (minus_one, k)
call_read fuel e (some stdin_fops) fd buf n k =
    terminal_read buf n e.keys k.term >>= λ r. some (r.0, record k { term = r.1 })
call_read fuel e (some stdout_fops) fd buf n k = some (invalid_func, k)
call_read fuel e (some rtc_fops) fd buf n k = say (codes "") k >>= λ said.
    rtc_read said.term.curr_term e.ticks said.rtc >>= λ r. some (r.0, record said { rtc = r.1 })
call_read fuel e (some dir_fops) fd buf n k = read_dir fuel e fd buf k
call_read fuel e (some file_fops) fd buf n k = read_data_file fuel fd buf n k

unfoldable pub read_func : ℕ → Events → ℤ → ℕ → ℤ → Kernel → Option (ℤ × Kernel)
read_func fuel e (negsuc n) buf nbytes k = some (minus_one, k)
read_func fuel e (pos fd) buf nbytes k =
    let f = (current k).fd_A fd in
    if leb max_fd fd || (not_positive nbytes || ((buf == 0) || (f.flags == 1)))
    then some (minus_one, k)
    else call_read fuel e f.fops_ptr fd buf (magnitude nbytes) k

unfoldable pub call_write : Option Fops → ℕ → ℕ → Kernel → Option (ℤ × Kernel)
call_write none buf n k = some (minus_one, k)
call_write (some stdin_fops) buf n k = some (invalid_func, k)
call_write (some stdout_fops) buf n k =
    terminal_write buf n k.term >>= λ r. some (r.0, record k { term = r.1 })
call_write (some rtc_fops) buf n k =
    let (r, c) = rtc_write k.term.curr_term buf n k.term.mem k.rtc in some (r, record k { rtc = c })
call_write (some dir_fops) buf n k = some (invalid_func, k)
call_write (some file_fops) buf n k = some (file_write, k)

unfoldable pub write_func : ℤ → ℕ → ℤ → Kernel → Option (ℤ × Kernel)
write_func (negsuc n) buf nbytes k = some (minus_one, k)
write_func (pos fd) buf nbytes k =
    let f = (current k).fd_A fd in
    if leb max_fd fd || (not_positive nbytes || ((buf == 0) || (f.flags == 1)))
    then some (minus_one, k)
    else call_write f.fops_ptr buf (magnitude nbytes) k

abbrev pub is_null : Option Fops → Bool
is_null none = true
is_null (some f) = false

-- The loop of open_func that looks for a free descriptor; `none` leaves `new_fd` unset.
unfoldable pub find_free : ℕ → ℕ → (ℕ → Fd) → Option ℕ
find_free zero i fds = none
find_free (suc left) i fds =
    let rest = find_free left (i + 1) fds in if is_null (fds i).fops_ptr then some i else rest

-- The switch on the file's type; the descriptor is left alone where no case fits.
unfoldable pub entry_fd : ℕ → ℕ → Fd → Fd
entry_fd file_type inode_num old =
    if file_type == 0
    then record { fops_ptr = some rtc_fops; inode_num = 4294967295; pos = 0; flags = 0 }
    else if file_type == 1
    then record { fops_ptr = some dir_fops; inode_num = 4294967295; pos = 1; flags = 0 }
    else if file_type == 2
    then record { fops_ptr = some file_fops; inode_num = inode_num; pos = 0; flags = 0 }
    else old

-- `func_open(filename)`; a call through a NULL table has no result.
unfoldable pub call_open : ℕ → Option Fops → Kernel → Option (ℤ × Kernel)
call_open port none k = none
call_open port (some stdin_fops) k = some (invalid_func, k)
call_open port (some stdout_fops) k = some (invalid_func, k)
call_open port (some rtc_fops) k =
    let (r, c) = rtc_open port k.rtc in some (r, record k { rtc = c })
call_open port (some dir_fops) k = some (file_open, k)
call_open port (some file_fops) k = some (file_open, k)

-- open_func from `fd_total_open++` on. `dentry` is the address of `file_entry`.
unfoldable pub open_entry : ℕ → ℕ → Kernel → Option (ℤ × Kernel)
unfolding find_free entry_fd call_open
open_entry port dentry k =
    let p = current k in
    let counted =
      with_pcb k k.curr_pcb_ptr (record p { fd_total_open = add32 p.fd_total_open 1 }) in
    let m = k.term.mem in
    find_free 6 2 p.fd_A >>= λ new_fd.
    let f = entry_fd (load32 m (dentry + 32)) (load32 m (dentry + 36)) (p.fd_A new_fd) in
    call_open port f.fops_ptr (with_fd counted new_fd f) >>= λ r.
    some ((if is_minus_one (r.0) then minus_one else pos new_fd), r.1)

unfoldable pub open_func : ℕ → ℕ → ℕ → ℕ → Kernel → Option (ℤ × Kernel)
unfolding open_entry
open_func fuel port filename dentry k =
    if leb (max_fd - 1) (current k).fd_total_open
    then (say (codes "Cannot Open More Files\n") k >>= λ s. some (minus_one, s))
    else (read_dentry_by_name fuel k.fs filename dentry k.term.mem >>= λ r.
        let n = with_mem k (r.1) in
        if is_minus_one (r.0)
        then (say (codes "File Does not exist\n") n >>= λ s. some (minus_one, s))
        else open_entry port dentry n)

unfoldable pub call_close : Fops → Kernel → ℤ × Kernel
call_close stdin_fops k = (invalid_func, k)
call_close stdout_fops k = (invalid_func, k)
call_close rtc_fops k = let (r, c) = rtc_close k.rtc in (r, record k { rtc = c })
call_close dir_fops k = (file_close, k)
call_close file_fops k = (file_close, k)

-- close_func when the descriptor's table is `o`.
unfoldable pub close_entry : ℕ → Option Fops → Kernel → ℤ × Kernel
unfolding call_close
close_entry fd none k = (minus_one, k)
close_entry fd (some f) k =
    let cleared = with_fd k fd (record { fops_ptr = none; inode_num = 0; pos = 0; flags = 0 }) in
    let p = current cleared in
    call_close f
      (with_pcb cleared k.curr_pcb_ptr (record p { fd_total_open = sub32 p.fd_total_open 1 }))

unfoldable pub close_func : ℕ → Kernel → ℤ × Kernel
unfolding close_entry
close_func fd k =
    if leb fd 1 || leb max_fd fd
    then (minus_one, k)
    else close_entry fd ((current k).fd_A fd).fops_ptr k
