-- ===== src/Kernel/Forest/Calls.antt =====
-- read, write, open, close, getargs and vidmap leave the processes of every terminal as they are.
use linux_operating_system.Prelude.{
  ℕ, ◌≡◌, refl, ap, subst, inl, inr, ◌||◌, Option, none, some, [], leb, ◌==◌, Bool-cases, ◌>>=◌,
  bind_some, if_branch, length, ℤ, pos, negsuc, minus_one, Memory, add32,
}
use linux_operating_system.Kernel.{
  Fops, stdin_fops, stdout_fops, rtc_fops, dir_fops, file_fops, Kernel, max_fd, current, with_mem,
  Events, say,
}
use linux_operating_system.Kernel.Files.{
  read_dir, read_data_file, after_read, call_read, read_func, call_write, write_func, is_minus_one,
  not_positive, magnitude, with_pos,
}
use linux_operating_system.Kernel.Forest.Same.{
  SameForest, SameForest-refl, SameForest-trans, SameBlock-refl, term-SameForest, mem-SameForest,
  say-SameForest, fd-SameForest,
}
use linux_operating_system.CLib.Strings.{strcpy, strlen}
use linux_operating_system.FileSys.{read_data, read_dentry_by_index}
use linux_operating_system.Rtc.{Rtc, rtc_read, rtc_write}
use linux_operating_system.Terminal.{Term}
use linux_operating_system.Terminal.Calls.{terminal_read, terminal_write}
use linux_operating_system.Terminal.Frame.Runs.{terminal_read-KeepsPlace, terminal_write-KeepsPlace}

-- The kernel that a run with a result leaves.
pub left_by {ℓ} :
    {A : Type ℓ} (P : Kernel → Type 0) (r n : A) (k k' : Kernel)
    → ◌≡◌ {A = Option (A × Kernel)} (some (r, k)) (some (n, k'))
    → P k
    → P k'
left_by {A} P r n k k' e p =
    subst P (ap (λ (o : Option (A × Kernel)). elim o [ none ↦ k | some x ↦ x.1 ]) e) p

pub rtc-SameForest : (k : Kernel) (c : Rtc) → SameForest k (record k { rtc = c })
rtc-SameForest k c = record {
  tree = record {
    curr = refl;
    turn = refl;
    total = refl;
    next = refl;
    blocks = λ a. SameBlock-refl (k.pcbs a);
  };
  slots = refl;
  block = refl;
  pages = refl;
  stack = refl;
}

-- The state of the terminal, the clock or the memory that a driver's call returns.
term_bind-SameForest :
    (k k' : Kernel) (x : Option (ℤ × Term)) (n : ℤ)
    → ((t : Term) (r : ℤ) → x ≡ some (r, t) → SameForest k (record k { term = t }))
    → ◌>>=◌ {B = ℤ × Kernel} x (λ r. some (r.0, record k { term = r.1 })) ≡ some (n, k')
    → SameForest k k'
term_bind-SameForest k k' x n keeps run =
    let ((r, t), q, done) = bind_some {A = ℤ × Term} x _ (n, k') run in
    left_by (SameForest k) r n (record k { term = t }) k' done (keeps t r q)

read_dir-SameForest :
    (fuel : ℕ) (e : Events) (fd buf : ℕ) (k k' : Kernel) (n : ℤ)
    → read_dir fuel e fd buf k ≡ some (n, k')
    → SameForest k k'
unfolding read_dir
read_dir-SameForest fuel e fd buf k k' n run =
    let file_num = ((current k).fd_A fd).pos in
    let (r, m) = read_dentry_by_index k.fs file_num e.stray k.term.mem in
    elim (if_branch (is_minus_one r) (some (pos 0, k)) _ (some (n, k')) run) [
      | inl (_, q) ↦ left_by (SameForest k) (pos 0) n k k' q (SameForest-refl k)
      | inr (_, run1) ↦
          let (m1, q1, run2) = bind_some {A = Memory} (strcpy fuel buf e.stray m) _ (n, k') run1 in
          let (l, q2, done) = bind_some {A = ℕ} (strlen fuel m1 buf) _ (n, k') run2 in
          let moved_on = with_pos (with_mem k m) fd (add32 file_num 1) in
          left_by (SameForest k) (pos l) n (with_mem moved_on m1) k' done (
            SameForest-trans k moved_on _
              (SameForest-trans k (with_mem k m) moved_on (mem-SameForest k m)
                (fd-SameForest (with_mem k m) fd _))
              (mem-SameForest moved_on m1))
    ]

after_read-SameForest :
    (fd : ℕ) (k : Kernel) (r : ℤ) (m : Memory) → SameForest k (after_read fd k (r, m)).1
after_read-SameForest fd k r m = elim (Bool-cases (not_positive r)) [
  | inl e ↦ rw e (mem-SameForest k m)
  | inr e ↦
      rw e (
        SameForest-trans k (with_mem k m) _ (mem-SameForest k m)
          (fd-SameForest (with_mem k m) fd _))
]

read_data_file-SameForest :
    (fuel fd buf length : ℕ) (k k' : Kernel) (n : ℤ)
    → read_data_file fuel fd buf length k ≡ some (n, k')
    → SameForest k k'
unfolding read_data_file
read_data_file-SameForest fuel fd buf length k k' n run =
    let f = (current k).fd_A fd in
    let ((r, m), q, done) =
      bind_some {A = ℤ × Memory} (read_data fuel k.fs f.inode_num f.pos buf length k.term.mem) _
        (n, k') run in
    left_by (SameForest k) r n (after_read fd k (r, m)).1 k' done (after_read-SameForest fd k r m)

call_read-SameForest :
    (fuel : ℕ) (e : Events) (o : Option Fops) (fd buf n : ℕ) (k k' : Kernel) (r : ℤ)
    → call_read fuel e o fd buf n k ≡ some (r, k')
    → SameForest k k'
unfolding call_read
call_read-SameForest fuel e none fd buf n k k' r run =
    left_by (SameForest k) minus_one r k k' run (SameForest-refl k)
call_read-SameForest fuel e (some stdin_fops) fd buf n k k' r run =
    term_bind-SameForest k k' (terminal_read buf n e.keys k.term) r
      (λ t s q. term-SameForest k t (terminal_read-KeepsPlace buf n e.keys k.term t s q)) run
call_read-SameForest fuel e (some stdout_fops) fd buf n k k' r run =
    left_by (SameForest k) minus_one r k k' run (SameForest-refl k)
call_read-SameForest fuel e (some rtc_fops) fd buf n k k' r run =
    let (l, said, run1) = bind_some {A = Kernel} (say [] k) _ (r, k') run in
    let ((s, c), q, done) =
      bind_some {A = ℤ × Rtc} (rtc_read l.term.curr_term e.ticks l.rtc) _ (r, k') run1 in
    left_by (SameForest k) s r (record l { rtc = c }) k' done
      (SameForest-trans k l (record l { rtc = c }) (say-SameForest [] k l said)
        (rtc-SameForest l c))
call_read-SameForest fuel e (some dir_fops) fd buf n k k' r run =
    read_dir-SameForest fuel e fd buf k k' r run
call_read-SameForest fuel e (some file_fops) fd buf n k k' r run =
    read_data_file-SameForest fuel fd buf n k k' r run

pub read_func-SameForest :
    (fuel : ℕ) (e : Events) (fd : ℤ) (buf : ℕ) (nbytes : ℤ) (k k' : Kernel) (r : ℤ)
    → read_func fuel e fd buf nbytes k ≡ some (r, k')
    → SameForest k k'
unfolding read_func
read_func-SameForest fuel e (negsuc n) buf nbytes k k' r run =
    left_by (SameForest k) minus_one r k k' run (SameForest-refl k)
read_func-SameForest fuel e (pos fd) buf nbytes k k' r run =
    let f = (current k).fd_A fd in
    elim (if_branch (leb max_fd fd || (not_positive nbytes || ((buf == 0) || (f.flags == 1))))
      (some (minus_one, k)) _ (some (r, k')) run) [
        | inl (_, q) ↦ left_by (SameForest k) minus_one r k k' q (SameForest-refl k)
        | inr (_, run1) ↦
            call_read-SameForest fuel e f.fops_ptr fd buf (magnitude nbytes) k k' r run1
      ]

call_write-SameForest :
    (o : Option Fops) (buf n : ℕ) (k k' : Kernel) (r : ℤ)
    → call_write o buf n k ≡ some (r, k')
    → SameForest k k'
unfolding call_write
call_write-SameForest (some stdout_fops) buf n k k' r run =
    term_bind-SameForest k k' (terminal_write buf n k.term) r
      (λ t s q. term-SameForest k t (terminal_write-KeepsPlace buf n k.term t s q)) run
call_write-SameForest (some rtc_fops) buf n k k' r run =
    let (s, c) = rtc_write k.term.curr_term buf n k.term.mem k.rtc in
    left_by (SameForest k) s r (record k { rtc = c }) k' run (rtc-SameForest k c)
call_write-SameForest none buf n k k' r run =
    left_by (SameForest k) _ r k k' run (SameForest-refl k)
call_write-SameForest (some stdin_fops) buf n k k' r run =
    left_by (SameForest k) _ r k k' run (SameForest-refl k)
call_write-SameForest (some dir_fops) buf n k k' r run =
    left_by (SameForest k) _ r k k' run (SameForest-refl k)
call_write-SameForest (some file_fops) buf n k k' r run =
    left_by (SameForest k) _ r k k' run (SameForest-refl k)

pub write_func-SameForest :
    (fd : ℤ) (buf : ℕ) (nbytes : ℤ) (k k' : Kernel) (r : ℤ)
    → write_func fd buf nbytes k ≡ some (r, k')
    → SameForest k k'
unfolding write_func
write_func-SameForest (negsuc n) buf nbytes k k' r run =
    left_by (SameForest k) minus_one r k k' run (SameForest-refl k)
write_func-SameForest (pos fd) buf nbytes k k' r run =
    let f = (current k).fd_A fd in
    elim (if_branch (leb max_fd fd || (not_positive nbytes || ((buf == 0) || (f.flags == 1))))
      (some (minus_one, k)) _ (some (r, k')) run) [
        | inl (_, q) ↦ left_by (SameForest k) minus_one r k k' q (SameForest-refl k)
        | inr (_, run1) ↦ call_write-SameForest f.fops_ptr buf (magnitude nbytes) k k' r run1
      ]
