-- ===== src/Kernel/Files/Pieces.antt =====
-- One call of read_func on a file, at any position of the descriptor.
use linux_operating_system.Prelude.{
  ℕ, ◌+◌, ◌-◌, ◌/◌, ◌≤◌, ◌<◌, min, ◌≡◌, refl, sym, ap, ◌∙◌, fun_ext, subst, ◌≢◌, inl, inr, true,
  false, ◌||◌, Option, some, arith, leb, ◌==◌, ==_iff, Bool-cases, ◌>>=◌, ℤ, pos, Memory, add32,
}
use linux_operating_system.FileSys.{inode_val, read_data}
use linux_operating_system.FileSys.Transfer.{delivered}
use linux_operating_system.FileSys.Delivery.{read_data-delivered}
use linux_operating_system.FileSys.Pieces.{IsRest, piece-IsReadable}
use linux_operating_system.Kernel.{
  file_fops, Fd, Pcb, Kernel, put, max_fd, with_mem, current, Events,
}
use linux_operating_system.Kernel.Files.{
  read_func, call_read, read_data_file, after_read, with_pos, not_positive,
}

-- Descriptor `fd` of the current process is open on a file.
pub record IsFile (k : Kernel) (fd : ℕ) : Type 0 where
  pub known : fd < 8
  pub table : ((current k).fd_A fd).fops_ptr ≡ some file_fops
  pub free : ((current k).fd_A fd).flags ≢ 1

-- The kernel with another memory and another position of `fd`.
abbrev pub moved_to : ℕ → Kernel → Memory → ℕ → Kernel
moved_to fd k m p = with_pos (with_mem k m) fd p

pub moved_to_fd :
    (fd : ℕ) (k : Kernel) (m : Memory) (p : ℕ)
    → (current (moved_to fd k m p)).fd_A fd ≡ record ((current k).fd_A fd) { pos = p }
moved_to_fd fd k m p =
    let a : (k.curr_pcb_ptr == k.curr_pcb_ptr) ≡ true = ground arith in
    let b : (fd == fd) ≡ true = ground arith in rw (a, b) refl

put_self : {A : Type 0} (f : ℕ → A) (i : ℕ) (v : A) → put f i v i ≡ v
put_self f i v = let a : (i == i) ≡ true = ground arith in rw a refl

put-put : {A : Type 0} (f : ℕ → A) (i : ℕ) (v w : A) → put (put f i v) i w ≡ put f i w
put-put f i v w = fun_ext λ j. elim (Bool-cases (j == i)) [ inl e ↦ rw e refl | inr e ↦ rw e refl ]

moved_to_again :
    (fd : ℕ) (k : Kernel) (m m' : Memory) (p p' : ℕ)
    → moved_to fd (moved_to fd k m p) m' p' ≡ moved_to fd k m' p'
moved_to_again fd k m m' p p' =
    let c = k.curr_pcb_ptr in
    let old = (current k).fd_A in
    let one = record (old fd) { pos = p } in
    let two = record (old fd) { pos = p' } in
    let block = record (current k) { fd_A = put old fd one } in
    let update = λ (b : Pcb). record b { fd_A = put b.fd_A fd (record (b.fd_A fd) { pos = p' }) } in
    let with_block = λ (f : ℕ → Pcb). record (with_mem k m') { pcbs = f } in
    ap (λ b. with_block (put (put k.pcbs c block) c (update b))) (put_self k.pcbs c block)
    ∙ ap with_block (put-put k.pcbs c block (update block))
    ∙ ap
        (λ (x : Fd). with_block (
          put k.pcbs c
            (record (current k) { fd_A = put (put old fd one) fd (record x { pos = p' }) })))
        (put_self old fd one)
    ∙ ap (λ (x : ℕ → Fd). with_block (put k.pcbs c (record (current k) { fd_A = x })))
        (put-put old fd one two)

-- A call on an open file, by what read_data does.
pub read_func-counted :
    (fuel : ℕ) (e : Events) (fd buf chunk n : ℕ) (h : Kernel) (m' : Memory)
    → IsFile h fd
    → buf ≢ 0
    → 0 < chunk
    → read_data fuel h.fs
        ((current h).fd_A fd).inode_num
        ((current h).fd_A fd).pos
        buf
        chunk
        h.term.mem
      ≡ some (pos n, m')
    → read_func fuel e (pos fd) buf (pos chunk) h ≡ some (after_read fd h (pos n, m'))
unfolding read_func call_read read_data_file
read_func-counted fuel e fd buf chunk n h m' v nn some_bytes run =
    let f = (current h).fd_A fd in
    let known = v.known in
    let free = v.free in
    let t1 : (leb max_fd fd || (not_positive (pos chunk) || ((buf == 0) || (f.flags == 1))))
        ≡ false =
      ground arith in
    rw t1 (
      ap (λ o. call_read fuel e o fd buf chunk h) v.table
      ∙ ap (λ (x : Option (ℤ × Memory)). x >>= λ r. some (after_read fd h r)) run)

pub moved_to-IsFile :
    (fd : ℕ) (k : Kernel) (m : Memory) (p : ℕ) → IsFile k fd → IsFile (moved_to fd k m p) fd
moved_to-IsFile fd k m p v =
    let at = moved_to_fd fd k m p in
    record {
      known = v.known;
      table = ap (λ (x : Fd). x.fops_ptr) at ∙ v.table;
      free = λ e. v.free (sym (ap (λ (x : Fd). x.flags) at) ∙ e);
    }

-- One call, at the position `p`, short of the end of the file.
pub read_func-piece :
    (fuel : ℕ) (e : Events) (fd buf chunk n : ℕ) (k : Kernel) (m : Memory) (p : ℕ)
    → IsFile k fd
    → IsRest k.fs m ((current k).fd_A fd).inode_num p buf
    → buf ≢ 0
    → 0 < chunk
    → chunk < 2147483648
    → chunk / 4096 + 3 ≤ fuel
    → p < inode_val k.fs m ((current k).fd_A fd).inode_num 0
    → n ≡ min chunk (inode_val k.fs m ((current k).fd_A fd).inode_num 0 - p)
    → read_func fuel e (pos fd) buf (pos chunk) (moved_to fd k m p)
      ≡ some
          (pos n, moved_to fd k (delivered k.fs ((current k).fd_A fd).inode_num p buf n m) (p + n))
read_func-piece fuel e fd buf chunk n k m p v rest nn some_bytes small enough before eq =
    let f = (current k).fd_A fd in
    let here = moved_to fd k m p in
    let at = moved_to_fd fd k m p in
    let size = rest.size in
    let readable = piece-IsReadable k.fs m f.inode_num p buf n rest (omega arith) (omega arith) in
    let m' = delivered k.fs f.inode_num p buf n m in
    let run =
      read_data-delivered fuel k.fs m f.inode_num p buf chunk n readable eq (omega arith)
        (omega arith) in
    let moved =
      read_func-counted fuel e fd buf chunk n here m' (moved_to-IsFile fd k m p v) nn some_bytes (
        subst (λ (x : Fd). read_data fuel k.fs x.inode_num x.pos buf chunk m ≡ some (pos n, m'))
          (sym at) run) in
    let t2 : (n == 0) ≡ false = ground arith in
    let sum : add32 ((current here).fd_A fd).pos n ≡ p + n =
      ap (λ (x : Fd). add32 x.pos n) at ∙ omega arith in
    moved
    ∙ rw t2 (
        ap (λ q. some (pos n, moved_to fd here m' q)) sum
        ∙ ap (λ x. some (pos n, x)) (moved_to_again fd k m m' p (p + n)))

pub read_func-end :
    (fuel : ℕ) (e : Events) (fd buf chunk : ℕ) (k : Kernel) (m : Memory) (p : ℕ)
    → IsFile k fd
    → ((current k).fd_A fd).inode_num < k.fs.inodes
    → inode_val k.fs m ((current k).fd_A fd).inode_num 0 ≤ p
    → buf ≢ 0
    → 0 < chunk
    → read_func fuel e (pos fd) buf (pos chunk) (moved_to fd k m p)
      ≡ some (pos 0, moved_to fd k m p)
unfolding read_data
read_func-end fuel e fd buf chunk k m p v known past nn some_bytes =
    let f = (current k).fd_A fd in
    let at = moved_to_fd fd k m p in
    let t1 : leb k.fs.inodes f.inode_num ≡ false = ground arith in
    let t2 : leb (inode_val k.fs m f.inode_num 0) p ≡ true = ground arith in
    let run : read_data fuel k.fs f.inode_num p buf chunk m ≡ some (pos 0, m) = rw (t1, t2) refl in
    read_func-counted fuel e fd buf chunk 0 (moved_to fd k m p) m (moved_to-IsFile fd k m p v) nn
      some_bytes
      (subst (λ (x : Fd). read_data fuel k.fs x.inode_num x.pos buf chunk m ≡ some (pos 0, m))
        (sym at) run)

put_same : {A : Type 0} (f : ℕ → A) (i : ℕ) → put f i (f i) ≡ f
put_same f i = fun_ext λ j. elim (Bool-cases (j == i)) [
  | inl e ↦ rw e (ap f (sym ((==_iff j i).0 e)))
  | inr e ↦ rw e refl
]

pub moved_nowhere : (fd : ℕ) (k : Kernel) → moved_to fd k k.term.mem ((current k).fd_A fd).pos ≡ k
moved_nowhere fd k =
    ap
      (λ (x : ℕ → Fd). record k {
        pcbs = put k.pcbs k.curr_pcb_ptr (record (current k) { fd_A = x });
      })
      (put_same (current k).fd_A fd)
    ∙ ap (λ (x : ℕ → Pcb). record k { pcbs = x }) (put_same k.pcbs k.curr_pcb_ptr)
