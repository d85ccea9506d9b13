-- ===== src/FileSys/Delivery.antt =====
-- The copying loop of read_data, round by round, and the whole read.
use linux_operating_system.Prelude.{
  ℕ, zero, suc, ◌+◌, ◌-◌, ◌*◌, ◌/◌, ◌%◌, ◌≤◌, ◌<◌, min, ◌≡◌, sym, ap, ◌∙◌, fun_ext, inl, inr, true,
  false, some, arith, ltb, leb, if◌then◌else◌, ltb→lt, Bool-cases, length, pos, Memory, word, add32,
  to_int32,
}
use linux_operating_system.CLib.Blocks.{memcpy}
use linux_operating_system.FileSys.{
  Fs, Cursor, inode_val, data_start, next_block, advance, read_loop, clip_length, first_block,
  read_data,
}
use linux_operating_system.FileSys.Transfer.{
  IsReadable, delivered, mem, cursor, after, start_eq, after_block, next_count, next_cursor, copied,
  checked,
}

module _ (fs : Fs) (m : Memory) (inode_num offset buf n : ℕ)
    (r : IsReadable fs m inode_num offset buf n) where
  loop_done :
      (fuel : ℕ) (c : Cursor) (m' : Memory)
      → c.count ≡ n
      → read_loop (suc fuel) fs inode_num n c m' ≡ some (to_int32 n, m')
  unfolding read_loop
  loop_done fuel c m' e = let z : ltb c.count n ≡ false = ground arith in rw z

  loop_round :
      (fuel : ℕ) (c : Cursor) (m' m'' : Memory)
      → c.count < n
      → memcpy c.buf c.data_ptr c.data_to_copy m' ≡ m''
      → inode_val fs m'' inode_num (advance c).data_index ≤ fs.blocks
      → read_loop (suc fuel) fs inode_num n c m'
        ≡ read_loop fuel fs inode_num n (next_block fs m'' inode_num n (advance c)) m''
  unfolding read_loop
  loop_round fuel c m' m'' h e v =
      let more : ltb c.count n ≡ true = ground arith in
      let fine : ltb fs.blocks (inode_val fs m'' inode_num (advance c).data_index) ≡ false =
        ground arith in
      rw (more, e, fine)

  round :
      (fuel c : ℕ)
      → c < n
      → read_loop
          (suc fuel)
          fs
          inode_num
          n
          ((cursor fs m inode_num offset buf n r) c)
          ((mem fs m inode_num offset buf n r) c)
        ≡ read_loop fuel fs inode_num n
            (next_block fs
              ((mem fs m inode_num offset buf n r) ((after fs m inode_num offset buf n r) c))
              inode_num
              n
              (advance ((cursor fs m inode_num offset buf n r) c)))
            ((mem fs m inode_num offset buf n r) ((after fs m inode_num offset buf n r) c))
  round fuel c h =
      loop_round fuel ((cursor fs m inode_num offset buf n r) c)
        ((mem fs m inode_num offset buf n r) c)
        ((mem fs m inode_num offset buf n r) ((after fs m inode_num offset buf n r) c))
        (unfold cursor in h) (unfold cursor in copied fs m inode_num offset buf n r c h)
        ((checked fs m inode_num offset buf n r) c h)

  after-le : (c : ℕ) → c < n → (after fs m inode_num offset buf n r) c ≤ n
  unfolding after
  after-le c h = omega arith

  -- The blocks from the one of the next byte on cover the rest, and one round is spare.
  loop_runs :
      (fuel c : ℕ)
      → c < n
      → offset + n + 4096 ≤ ((offset + c) / 4096 + fuel) * 4096
      → read_loop fuel fs inode_num n
          ((cursor fs m inode_num offset buf n r) c)
          ((mem fs m inode_num offset buf n r) c)
        ≡ some (to_int32 n, (mem fs m inode_num offset buf n r) n)
  loop_runs zero c h f = absurd (omega arith)
  loop_runs (suc zero) c h f = absurd (omega arith)
  loop_runs (suc (suc fuel)) c h f =
      round (suc fuel) c h ∙ elim (Bool-cases (ltb ((after fs m inode_num offset buf n r) c) n)) [
        | inl e ↦
            let h' = ltb→lt ((after fs m inode_num offset buf n r) c) n e in
            let (q, z) = (after_block fs m inode_num offset buf n r) c h h' in
            rw ((next_cursor fs m inode_num offset buf n r) c h h')
              (loop_runs (suc fuel) ((after fs m inode_num offset buf n r) c) h' (omega arith))
        | inr e ↦
            let last : (after fs m inode_num offset buf n r) c ≡ n = ground (arith, after-le c h) in
            loop_done fuel
              (next_block fs
                ((mem fs m inode_num offset buf n r) ((after fs m inode_num offset buf n r) c))
                inode_num n (advance ((cursor fs m inode_num offset buf n r) c)))
              ((mem fs m inode_num offset buf n r) ((after fs m inode_num offset buf n r) c))
              (unfold next_block advance in next_count fs m inode_num offset buf n r c h ∙ last)
            ∙ ap (λ k. some (to_int32 n, (mem fs m inode_num offset buf n r) k)) last
      ]

  first_cursor : first_block fs m inode_num offset buf n ≡ (cursor fs m inode_num offset buf n r) 0
  unfolding first_block cursor
  first_cursor =
      let q : (offset + 0) / 4096 ≡ offset / 4096 = omega arith in
      let z : (offset + 0) % 4096 ≡ offset % 4096 = omega arith in
      let v = r.numbers (offset / 4096) (omega arith) (omega arith) in
      let e = (start_eq fs m inode_num offset buf n r) in
      let a = data_start fs + inode_val fs m inode_num (offset / 4096 + 1) * 4096 + offset % 4096 in
      let p : a % word ≡ a = omega arith in
      let d : (if ltb 4096 (add32 n (offset % 4096)) then 4096 - offset % 4096 else n)
          ≡ min (n - 0) (4096 - offset % 4096) =
        ground arith in
      let b : buf ≡ buf + 0 = omega arith in
      rw (q, z)
        (λ i. record {
          count = 0;
          data_ptr = p i;
          data_index = offset / 4096 + 2;
          data_to_copy = d i;
          buf = b i;
        })

  mem_start : (mem fs m inode_num offset buf n r) 0 ≡ m
  unfolding mem delivered
  mem_start = fun_ext λ x. ground arith

-- A read of `length` bytes at an offset inside the file, where `length + offset` does not wrap,
-- returns the number of bytes up to the end of the file, and leaves exactly those bytes of the
-- file in the buffer and all other memory as it was. The image lies in the address space and
-- apart from the buffer, and the block numbers that the read looks at are valid. One round for
-- each block touched and two more are enough fuel.
pub read_data-delivered :
    (fuel : ℕ) (fs : Fs) (m : Memory) (inode_num offset buf length n : ℕ)
    → IsReadable fs m inode_num offset buf n
    → n ≡ min length (inode_val fs m inode_num 0 - offset)
    → length + offset < word
    → n / 4096 + 3 ≤ fuel
    → read_data fuel fs inode_num offset buf length m
      ≡ some (pos n, delivered fs inode_num offset buf n m)
unfolding read_data
read_data-delivered fuel fs m inode_num offset buf length n r e w f =
    let t1 : leb fs.inodes inode_num ≡ false = ground (arith, r.inode_in) in
    let t2 : leb (inode_val fs m inode_num 0) offset ≡ false =
      ground (arith, r.within, r.nonempty) in
    let v = r.numbers (offset / 4096) (omega arith) (omega arith) in
    let t3 : ltb fs.blocks (inode_val fs m inode_num (offset / 4096 + 1)) ≡ false = ground arith in
    let cl : clip_length (inode_val fs m inode_num 0) offset length ≡ n =
      (unfold clip_length in ground (arith, r.within)) in
    let small : to_int32 n ≡ pos n = ground (arith, r.within, r.size) in
    let run = loop_runs fs m inode_num offset buf n r fuel 0 r.nonempty (omega arith) in
    rw (cl, t1, t2, t3, first_cursor fs m inode_num offset buf n r)
      (ap (read_loop fuel fs inode_num n (cursor fs m inode_num offset buf n r 0))
          (sym (mem_start fs m inode_num offset buf n r))
        ∙ run
        ∙ unfold mem in ap (λ k. some (k, delivered fs inode_num offset buf n m)) small)
