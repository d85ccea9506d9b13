-- ===== src/Kernel/Files/Draining.antt =====
-- A program that reads an open file in pieces until read_func gives 0 has read the file.
use linux_operating_system.Prelude.{
  ℕ, zero, suc, ◌+◌, ◌-◌, ◌/◌, ◌≤◌, ◌<◌, min, ◌≡◌, refl, sym, ap, ◌∙◌, fun_ext, ◌≢◌, inl, inr, true,
  false, Option, none, some, arith, ltb, ◌==◌, ltb→lt, Bool-cases, ◌>>=◌, pos, negsuc, Memory,
}
use linux_operating_system.FileSys.{Fs, inode_val}
use linux_operating_system.FileSys.Transfer.{delivered}
use linux_operating_system.FileSys.Pieces.{kept, delivered-IsRest, delivered-delivered, IsRest}
use linux_operating_system.Kernel.{Kernel, current, Events}
use linux_operating_system.Kernel.Files.{read_func}
use linux_operating_system.Kernel.Files.Pieces.{
  IsFile, moved_to, read_func-piece, read_func-end, moved_nowhere,
}

-- Calls of read_func for `chunk` bytes each, one behind the other from `buf` on, until one returns 0; the
-- sum of the results. `none` if one fails or `rounds` calls are not enough.
pub read_all : ℕ → ℕ → Events → ℕ → ℕ → ℕ → Kernel → Option (ℕ × Kernel)
read_all zero fuel e fd buf chunk k = none
read_all (suc rounds) fuel e fd buf chunk k = read_func fuel e (pos fd) buf (pos chunk) k >>= λ r.
    elim (r.0) [
      | negsuc n ↦ none
      | pos n ↦ elim (n == 0) [
        | true ↦ some (0, r.1)
        | false ↦ read_all rounds fuel e fd (buf + n) chunk (r.1) >>= λ s. some (n + s.0, s.1)
      ]
    ]

delivered_none : (fs : Fs) (inode_num p buf : ℕ) (m : Memory) → delivered fs inode_num p buf 0 m ≡ m
unfolding delivered
delivered_none fs inode_num p buf m = fun_ext λ x. ground arith

-- A piece, and what is read behind it.
read_all-piece :
    (rounds fuel : ℕ) (e : Events) (fd buf chunk n left : ℕ) (k l k' : Kernel)
    → n ≢ 0
    → read_func fuel e (pos fd) buf (pos chunk) k ≡ some (pos n, l)
    → read_all rounds fuel e fd (buf + n) chunk l ≡ some (left, k')
    → read_all (suc rounds) fuel e fd buf chunk k ≡ some (n + left, k')
unfolding read_all
read_all-piece rounds fuel e fd buf chunk n left k l k' nn run later =
    let more : (n == 0) ≡ false = ground arith in rw (run, ◌>>=◌, more, later) refl

read_all-moved :
    (rounds fuel : ℕ) (e : Events) (fd buf chunk size : ℕ) (k : Kernel) (m : Memory) (p : ℕ)
    → IsFile k fd
    → IsRest k.fs m ((current k).fd_A fd).inode_num p buf
    → inode_val k.fs m ((current k).fd_A fd).inode_num 0 ≡ size
    → buf ≢ 0
    → 0 < chunk
    → chunk < 2147483648
    → chunk / 4096 + 3 ≤ fuel
    → size - p < rounds
    → read_all rounds fuel e fd buf chunk (moved_to fd k m p)
      ≡ some (
        size - p,
        moved_to fd k (delivered k.fs ((current k).fd_A fd).inode_num p buf (size - p) m) size,
      )
unfolding read_all
read_all-moved zero fuel e fd buf chunk size k m p v rest eq nn some_bytes small enough h =
    absurd (omega arith)
read_all-moved (suc rounds) fuel e fd buf chunk size k m p v rest eq nn some_bytes small enough h =
    let ino = ((current k).fd_A fd).inode_num in
    let within = rest.within in
    elim (Bool-cases (ltb p size)) [
      | inr b ↦
          let q : size ≤ p = ground arith in
          let at_end : p ≡ size = omega arith in
          let none_left : size - p ≡ 0 = omega arith in
          let run =
            read_func-end fuel e fd buf chunk k m p v rest.inode_in (omega arith) nn some_bytes in
          rw (run, none_left)
            (λ i. some (0, moved_to fd k (sym (delivered_none k.fs ino p buf m) i) (at_end i)))
      | inl b ↦
          let q = ltb→lt p size b in
          let n = min chunk (size - p) in
          let pos_n : 0 < n = omega arith in
          let m' = delivered k.fs ino p buf n m in
          let run =
            read_func-piece fuel e fd buf chunk n k m p v rest nn some_bytes small enough (rw eq q)
              (rw eq refl) in
          let fits : p + n ≤ inode_val k.fs m ino 0 = omega arith in
          let later =
            read_all-moved rounds fuel e fd (buf + n) chunk size k m' (p + n) v
              (delivered-IsRest k.fs m ino p buf n rest pos_n fits)
              (kept k.fs m ino p buf n rest pos_n fits 0 (omega arith) ∙ eq) (omega arith)
              some_bytes small enough (omega arith) in
          let left = size - (p + n) in
          let sum : n + left ≡ size - p = omega arith in
          let joined = delivered-delivered k.fs m ino p buf n rest pos_n fits left (omega arith) in
          read_all-piece rounds fuel e fd buf chunk n left (moved_to fd k m p) _ _
            (λ z. absurd (omega arith)) run later
          ∙ λ i.
              some (
                sum i,
                moved_to fd k ((joined ∙ ap (λ c. delivered k.fs ino p buf c m) sum) i) size,
              )
    ]

-- A program that reads an open file in pieces of up to `chunk` bytes, one behind the other from `buf` on,
-- until read_func returns 0: with more calls than bytes are left it gets there, and the results add up to
-- the bytes from the position of the descriptor to the end of the file. The buffer then holds exactly
-- those bytes, the descriptor stands at the end of the file, and nothing else in the kernel has changed.
-- The image lies in the address space and apart from the buffer, which is not NULL, the block numbers are
-- valid, a piece is shorter than 2 ^ 31 bytes, and one round for each block of it and three more are fuel.
pub read_all-delivered :
    (rounds fuel : ℕ) (e : Events) (fd buf chunk : ℕ) (k : Kernel)
    → IsFile k fd
    → IsRest k.fs k.term.mem ((current k).fd_A fd).inode_num ((current k).fd_A fd).pos buf
    → buf ≢ 0
    → 0 < chunk
    → chunk < 2147483648
    → chunk / 4096 + 3 ≤ fuel
    → inode_val k.fs k.term.mem ((current k).fd_A fd).inode_num 0 - ((current k).fd_A fd).pos
      < rounds
    → read_all rounds fuel e fd buf chunk k
      ≡ some (
        inode_val k.fs k.term.mem ((current k).fd_A fd).inode_num 0 - ((current k).fd_A fd).pos,
        moved_to fd k
            (delivered k.fs
              ((current k).fd_A fd).inode_num
              ((current k).fd_A fd).pos
              buf
              (inode_val k.fs k.term.mem ((current k).fd_A fd).inode_num 0
                - ((current k).fd_A fd).pos)
              k.term.mem)
            (inode_val k.fs k.term.mem ((current k).fd_A fd).inode_num 0),
      )
read_all-delivered rounds fuel e fd buf chunk k v rest nn some_bytes small enough h =
    ap (read_all rounds fuel e fd buf chunk) (sym (moved_nowhere fd k))
    ∙ read_all-moved rounds fuel e fd buf chunk
        (inode_val k.fs k.term.mem ((current k).fd_A fd).inode_num 0) k k.term.mem
        ((current k).fd_A fd).pos v rest refl nn some_bytes small enough h
