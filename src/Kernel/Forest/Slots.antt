-- ===== src/Kernel/Forest/Slots.antt =====
-- open, close, getargs and vidmap leave the processes of every terminal as they are.
use linux_operating_system.Prelude.{
  ℕ, ◌+◌, ◌-◌, ◌*◌, ◌≡◌, refl, inl, inr, ◌||◌, Option, none, some, List, ltb, leb, ◌==◌, Bool-cases,
  ◌>>=◌, bind_some, if_branch, ℤ, pos, minus_one, Memory, load32, store32, add32, sub32,
}
use linux_operating_system.Kernel.{
  Fops, stdin_fops, stdout_fops, rtc_fops, dir_fops, file_fops, Kernel, max_fd, current, with_mem,
  with_pcb, with_fd, say,
}
use linux_operating_system.Kernel.Process.{args_offset}
use linux_operating_system.Kernel.Files.{
  call_open, open_entry, open_func, call_close, close_entry, close_func, find_free, entry_fd,
  is_minus_one,
}
use linux_operating_system.Kernel.Programs.{getargs_func, vidmap_func}
use linux_operating_system.Kernel.Forest.Same.{
  SameForest, SameForest-refl, SameForest-trans, mem-SameForest, fd-SameForest, pcb-SameForest,
  say-SameForest,
}
use linux_operating_system.Kernel.Forest.Calls.{left_by, rtc-SameForest}
use linux_operating_system.CLib.Strings.{strcpy}
use linux_operating_system.FileSys.{read_dentry_by_name}
use linux_operating_system.Rtc.{rtc_open, rtc_close}

call_open-SameForest :
    (port : ℕ) (o : Option Fops) (k k' : Kernel) (r : ℤ)
    → call_open port o k ≡ some (r, k')
    → SameForest k k'
unfolding call_open
call_open-SameForest port none k k' r run = cc
call_open-SameForest port (some rtc_fops) k k' r run =
    let (s, c) = rtc_open port k.rtc in
    left_by (SameForest k) s r (record k { rtc = c }) k' run (rtc-SameForest k c)
call_open-SameForest port (some stdin_fops) k k' r run =
    left_by (SameForest k) _ r k k' run (SameForest-refl k)
call_open-SameForest port (some stdout_fops) k k' r run =
    left_by (SameForest k) _ r k k' run (SameForest-refl k)
call_open-SameForest port (some dir_fops) k k' r run =
    left_by (SameForest k) _ r k k' run (SameForest-refl k)
call_open-SameForest port (some file_fops) k k' r run =
    left_by (SameForest k) _ r k k' run (SameForest-refl k)

open_entry-SameForest :
    (port dentry : ℕ) (k k' : Kernel) (r : ℤ)
    → open_entry port dentry k ≡ some (r, k')
    → SameForest k k'
unfolding open_entry
open_entry-SameForest port dentry k k' r run =
    let p = current k in
    let counted =
      with_pcb k k.curr_pcb_ptr (record p { fd_total_open = add32 p.fd_total_open 1 }) in
    let m = k.term.mem in
    let (new_fd, _, run1) = bind_some {A = ℕ} (find_free 6 2 p.fd_A) _ (r, k') run in
    let f = entry_fd (load32 m (dentry + 32)) (load32 m (dentry + 36)) (p.fd_A new_fd) in
    let ((s, l), q, done) =
      bind_some {A = ℤ × Kernel} (call_open port f.fops_ptr (with_fd counted new_fd f)) _ (r, k')
        run1 in
    left_by (SameForest k) _ r l k' done (
      SameForest-trans k counted l
        (pcb-SameForest k k.curr_pcb_ptr _
          (record { id = refl; parent = refl; parent_id = refl; stack = refl }))
        (SameForest-trans counted (with_fd counted new_fd f) l (fd-SameForest counted new_fd f)
          (call_open-SameForest port f.fops_ptr (with_fd counted new_fd f) l s q)))

complain-SameForest :
    (message : List ℕ) (k k' : Kernel) (r : ℤ)
    → ◌>>=◌ {B = ℤ × Kernel} (say message k) (λ s. some (minus_one, s)) ≡ some (r, k')
    → SameForest k k'
complain-SameForest message k k' r run =
    let (s, q, done) = bind_some {A = Kernel} (say message k) _ (r, k') run in
    left_by (SameForest k) minus_one r s k' done (say-SameForest message k s q)

pub open_func-SameForest :
    (fuel port filename dentry : ℕ) (k k' : Kernel) (r : ℤ)
    → open_func fuel port filename dentry k ≡ some (r, k')
    → SameForest k k'
unfolding open_func
open_func-SameForest fuel port filename dentry k k' r run =
    elim (if_branch (leb (max_fd - 1) (current k).fd_total_open) _ _ (some (r, k')) run) [
      | inl (_, q) ↦ complain-SameForest _ k k' r q
      | inr (_, run1) ↦
          let ((s, m), q, run2) =
            bind_some {A = ℤ × Memory} (read_dentry_by_name fuel k.fs filename dentry k.term.mem) _
              (r, k') run1 in
          SameForest-trans k (with_mem k m) k' (mem-SameForest k m)
            (elim (if_branch (is_minus_one s) _ _ (some (r, k')) run2) [
              | inl (_, q1) ↦ complain-SameForest _ (with_mem k m) k' r q1
              | inr (_, q1) ↦ open_entry-SameForest port dentry (with_mem k m) k' r q1
            ])
    ]

call_close-SameForest : (f : Fops) (k : Kernel) → SameForest k (call_close f k).1
unfolding call_close
call_close-SameForest rtc_fops k = rtc-SameForest k (rtc_close k.rtc).1
call_close-SameForest stdin_fops k = SameForest-refl k
call_close-SameForest stdout_fops k = SameForest-refl k
call_close-SameForest dir_fops k = SameForest-refl k
call_close-SameForest file_fops k = SameForest-refl k

close_entry-SameForest :
    (fd : ℕ) (o : Option Fops) (k : Kernel) → SameForest k (close_entry fd o k).1
unfolding close_entry
close_entry-SameForest fd none k = SameForest-refl k
close_entry-SameForest fd (some f) k =
    let cleared = with_fd k fd (record { fops_ptr = none; inode_num = 0; pos = 0; flags = 0 }) in
    let p = current cleared in
    let counted =
      with_pcb cleared k.curr_pcb_ptr (record p { fd_total_open = sub32 p.fd_total_open 1 }) in
    SameForest-trans k cleared _ (fd-SameForest k fd _) (
      SameForest-trans cleared counted _
        (pcb-SameForest cleared k.curr_pcb_ptr _
          (record { id = refl; parent = refl; parent_id = refl; stack = refl }))
        (call_close-SameForest f counted))

pub close_func-SameForest : (fd : ℕ) (k : Kernel) → SameForest k (close_func fd k).1
unfolding close_func
close_func-SameForest fd k = elim (Bool-cases (leb fd 1 || leb max_fd fd)) [
  | inl e ↦ rw e (SameForest-refl k)
  | inr e ↦ rw e (close_entry-SameForest fd ((current k).fd_A fd).fops_ptr k)
]

pub getargs_func-SameForest :
    (fuel buf : ℕ) (k k' : Kernel) (r : ℤ)
    → getargs_func fuel buf k ≡ some (r, k')
    → SameForest k k'
unfolding getargs_func
getargs_func-SameForest fuel buf k k' r run =
    elim (if_branch (buf == 0) (some (minus_one, k)) _ (some (r, k')) run) [
      | inl (_, q) ↦ left_by (SameForest k) minus_one r k k' q (SameForest-refl k)
      | inr (_, run1) ↦
          let (m, q, done) =
            bind_some {A = Memory} (strcpy fuel buf (k.curr_pcb_ptr + args_offset) k.term.mem) _
              (r, k') run1 in
          left_by (SameForest k) (pos 0) r (with_mem k m) k' done (mem-SameForest k m)
    ]

pub vidmap_func-SameForest : (start : ℕ) (k : Kernel) → SameForest k (vidmap_func start k).1
unfolding vidmap_func
vidmap_func-SameForest start k =
    elim (Bool-cases (ltb (0x8000000 + 0x400000) start || ltb start 0x8000000)) [
      | inl e ↦ rw e (SameForest-refl k)
      | inr e ↦ rw e (
          let m = store32 k.term.mem start (0x8000000 + 0x400000 + k.term.curr_term * 4096) in
          let v = mem-SameForest k m in
          record {
            tree = record {
              curr = refl;
              turn = refl;
              total = refl;
              next = refl;
              blocks = v.tree.blocks;
            };
            slots = refl;
            block = refl;
            pages = refl;
            stack = refl;
          })
    ]
