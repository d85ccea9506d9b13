-- ===== src/Kernel/Files/Slots.antt =====
-- The descriptors of a process: what open_func and close_func keep true of them.
use linux_operating_system.Prelude.{
  ℕ, ◌+◌, ◌≤◌, ◌<◌, ◌≡◌, refl, ◌≢◌, inl, inr, true, false, ◌||◌, none, some, arith, leb, ◌==◌,
  Bool-cases, pos, Memory, load32, add32, sub32,
}
use linux_operating_system.Kernel.{
  Fops, stdin_fops, stdout_fops, rtc_fops, dir_fops, file_fops, Fd, Pcb, Kernel, put, with_mem,
  with_pcb, with_fd, current,
}
use linux_operating_system.Kernel.Files.{
  is_null, entry_fd, call_open, open_entry, close_entry, call_close, close_func, open_func,
}
use linux_operating_system.FileSys.{read_dentry_by_name}
use linux_operating_system.Rtc.{Rtc, rtc_open, rtc_close}
use linux_operating_system.Kernel.Files.Counting.{
  count_open, find_free_lem, count_fill, count_clear, count_bound,
}

-- fd_total_open is one more than the number of open descriptors from 2 on.
pub record IsTable (p : Pcb) : Type 0 where
  pub total : p.fd_total_open ≡ 1 + count_open 6 2 p.fd_A
  pub input : (p.fd_A 0).fops_ptr ≡ some stdin_fops
  pub output : (p.fd_A 1).fops_ptr ≡ some stdout_fops

entry_fd_open :
    (file_type n port : ℕ) (old : Fd) (k : Kernel)
    → file_type < 3
    → (r : Rtc) × (call_open port (entry_fd file_type n old).fops_ptr k
        ≡ some (pos 0, record k { rtc = r }))
      × (is_null (entry_fd file_type n old).fops_ptr ≡ false)
unfolding entry_fd call_open rtc_open
entry_fd_open file_type n port old k h = elim (Bool-cases (file_type == 0)) [
  | inl e ↦ rw e ((rtc_open port k.rtc).1, refl, refl)
  | inr e ↦ elim (Bool-cases (file_type == 1)) [
    | inl e1 ↦ rw (e, e1) (k.rtc, refl, refl)
    | inr e1 ↦ let e2 : (file_type == 2) ≡ true = ground arith in rw (e, e1, e2) (k.rtc, refl, refl)
  ]
]

-- What open_func promises of the descriptor `fd` that it gives: the least free one from 2 on, which is
-- open afterwards, with the others as they were.
pub record Opens (p p' : Pcb) (fd : ℕ) : Type 0 where
  pub low : 2 ≤ fd
  pub high : fd < 8
  pub was_free : is_null (p.fd_A fd).fops_ptr ≡ true
  pub least : (x : ℕ) → 2 ≤ x → x < fd → is_null (p.fd_A x).fops_ptr ≡ false
  pub is_open : is_null (p'.fd_A fd).fops_ptr ≡ false
  pub others : (x : ℕ) → x ≢ fd → p'.fd_A x ≡ p.fd_A x
  pub table : IsTable p'

open_entry-Opens :
    (port dentry : ℕ) (k : Kernel)
    → IsTable (current k)
    → (current k).fd_total_open < 7
    → load32 k.term.mem (dentry + 32) < 3
    → (fd : ℕ) × (k' : Kernel) × (open_entry port dentry k ≡ some (pos fd, k'))
      × Opens (current k) (current k') fd
unfolding open_entry
open_entry-Opens port dentry k v room kind =
    let p = current k in
    let (fd, run, lo, hi, free, taken) =
      find_free_lem 6 2 p.fd_A (let q = v.total in omega arith) in
    let m = k.term.mem in
    let f = entry_fd (load32 m (dentry + 32)) (load32 m (dentry + 36)) (p.fd_A fd) in
    let counted =
      with_pcb k k.curr_pcb_ptr (record p { fd_total_open = add32 p.fd_total_open 1 }) in
    let k1 = with_fd counted fd f in
    let (r, opened, full) =
      entry_fd_open (load32 m (dentry + 32)) (load32 m (dentry + 36)) port (p.fd_A fd) k1 kind in
    (
      fd,
      record k1 { rtc = r },
      rw (run, opened) refl,
      record {
        low = lo;
        high = hi;
        was_free = free;
        least = taken;
        is_open = ground (arith, full);
        others = λ x q. ground arith;
        table = record {
          total =
              let g = count_fill 6 2 fd p.fd_A f lo hi free full in
              let same : (k.curr_pcb_ptr == k.curr_pcb_ptr) ≡ true = ground arith in
              let q = v.total in rw (same, g) (ground (arith, room));
          input = ground (arith, v.input);
          output = ground (arith, v.output);
        };
      },
    )

-- open_func in a process with a free descriptor and a right count of the open ones, on a name for
-- which read_dentry_by_name succeeds with an entry of one of the three known types, returns a
-- descriptor: the least free one from 2 on. It is open afterwards, every other descriptor is as
-- before, and fd_total_open still counts the open ones.
pub open_func-Opens :
    (fuel port filename dentry : ℕ) (k : Kernel) (m : Memory)
    → IsTable (current k)
    → (current k).fd_total_open < 7
    → read_dentry_by_name fuel k.fs filename dentry k.term.mem ≡ some (pos 0, m)
    → load32 m (dentry + 32) < 3
    → (fd : ℕ) × (k' : Kernel) × (open_func fuel port filename dentry k ≡ some (pos fd, k'))
      × Opens (current k) (current k') fd
unfolding open_func
open_func-Opens fuel port filename dentry k m v room found kind =
    let (fd, k', run, o) = open_entry-Opens port dentry (with_mem k m) v room kind in
    let e : leb 7 (current k).fd_total_open ≡ false = ground (arith, room) in
    (fd, k', rw (e, found) run, o)

zero_result :
    (f : Fops) (k : Kernel) → f ≢ stdin_fops → f ≢ stdout_fops → call_close f k ≡ (pos 0, k)
unfolding call_close rtc_close
zero_result stdin_fops k a b = absurd (a refl)
zero_result stdout_fops k a b = absurd (b refl)
zero_result rtc_fops k a b = refl
zero_result dir_fops k a b = refl
zero_result file_fops k a b = refl

-- What close_func promises of the descriptor `fd`: it is free afterwards, with the others as they were.
pub record Closes (p p' : Pcb) (fd : ℕ) : Type 0 where
  pub is_free : is_null (p'.fd_A fd).fops_ptr ≡ true
  pub others : (x : ℕ) → x ≢ fd → p'.fd_A x ≡ p.fd_A x
  pub table : IsTable p'

cleared_total :
    (p : Pcb) (fd : ℕ) (f : Fd)
    → IsTable p
    → 2 ≤ fd
    → fd < 8
    → is_null (p.fd_A fd).fops_ptr ≡ false
    → is_null f.fops_ptr ≡ true
    → p.fd_total_open < 8
    → sub32 p.fd_total_open 1 ≡ 1 + count_open 6 2 (put p.fd_A fd f)
cleared_total p fd f v lo hi full free small =
    let c = count_clear 6 2 fd p.fd_A f lo hi full free in let q = v.total in ground arith

-- close_func on an open descriptor from 2 on, of a file, a directory or the clock, in a process
-- with a right count of the open ones, returns 0. The descriptor is free afterwards, every other
-- one is as before, and fd_total_open still counts the open ones.
pub close_func-Closes :
    (fd : ℕ) (f : Fops) (k : Kernel)
    → IsTable (current k)
    → 2 ≤ fd
    → fd < 8
    → ((current k).fd_A fd).fops_ptr ≡ some f
    → f ≢ stdin_fops
    → f ≢ stdout_fops
    → (k' : Kernel) × (close_func fd k ≡ (pos 0, k')) × Closes (current k) (current k') fd
unfolding close_func close_entry
close_func-Closes fd f k v lo hi at_fd not_in not_out =
    let a : (leb fd 1 || leb 8 fd) ≡ false = ground arith in
    let same : (k.curr_pcb_ptr == k.curr_pcb_ptr) ≡ true = ground arith in
    let p = current k in
    let nil : Fd = record { fops_ptr = none; inode_num = 0; pos = 0; flags = 0 } in
    let cleared = with_fd k fd nil in
    let k1 =
      with_pcb cleared k.curr_pcb_ptr
        (record (current cleared) { fd_total_open = sub32 (current cleared).fd_total_open 1 }) in
    let b = count_bound 6 2 p.fd_A in
    let q = v.total in
    let full : is_null (p.fd_A fd).fops_ptr ≡ false = rw at_fd refl in
    let total = cleared_total p fd nil v lo hi full refl (omega arith) in
    (
      k1,
      rw (a, at_fd) (zero_result f k1 not_in not_out),
      record {
        is_free = ground arith;
        others = λ x n. ground arith;
        table = record {
          total = rw same total;
          input = ground (arith, v.input);
          output = ground (arith, v.output);
        };
      },
    )
