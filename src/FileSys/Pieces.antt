-- ===== src/FileSys/Pieces.antt =====
-- A file that is read in pieces, one after the other.
use linux_operating_system.Prelude.{
  ℕ, ◌+◌, ◌-◌, ◌*◌, ◌/◌, ◌%◌, ◌≤◌, ◌<◌, ◌≡◌, ap, ◌∙◌, fun_ext, ◌⊎◌, inl, inr, ◌&&◌, arith, ltb, leb,
  Bool-cases, Memory, word,
}
use linux_operating_system.FileSys.{Fs, inode_val, data_start}
use linux_operating_system.FileSys.Transfer.{
  file_byte, delivered, image_end, IsReadable, mem, mem_image, mem-inode_val, start_eq,
}

-- What is left of a file from offset `p` on can be read to `buf`: the image lies in the address space and
-- apart from the buffer, and the blocks of the file have valid numbers, as has the entry after them.
pub record IsRest (fs : Fs) (m : Memory) (inode_num p buf : ℕ) : Type 0 where
  pub inode_in : inode_num < fs.inodes
  pub image_in : image_end fs ≤ word
  pub within : p ≤ inode_val fs m inode_num 0
  pub size : inode_val fs m inode_num 0 ≤ 1023 * 4096
  pub numbers :
      (k : ℕ)
      → k ≤ (inode_val fs m inode_num 0 - 1) / 4096 + 1
      → inode_val fs m inode_num (k + 1) ≤ fs.blocks
  pub apart : (buf + (inode_val fs m inode_num 0 - p) ≤ fs.bootaddr) ⊎ (image_end fs ≤ buf)

module _ (fs : Fs) (m : Memory) (inode_num p buf n : ℕ) (v : IsRest fs m inode_num p buf)
    (some_bytes : 0 < n) (fits : p + n ≤ inode_val fs m inode_num 0) where
  pub piece-IsReadable : IsReadable fs m inode_num p buf n
  piece-IsReadable = record {
    inode_in = v.inode_in;
    image_in = v.image_in;
    nonempty = some_bytes;
    within = fits;
    size = v.size;
    numbers = λ k lo hi. v.numbers k (omega arith);
    apart = elim v.apart [ inl e ↦ inl (omega arith) | inr e ↦ inr e ];
  }

  pub kept :
      (k : ℕ)
      → k ≤ 1024
      → inode_val fs (delivered fs inode_num p buf n m) inode_num k ≡ inode_val fs m inode_num k
  kept k h = unfold mem in mem-inode_val fs m inode_num p buf n piece-IsReadable n k (omega arith) h

  -- After a piece the rest is the rest of the rest.
  pub delivered-IsRest : IsRest fs (delivered fs inode_num p buf n m) inode_num (p + n) (buf + n)
  delivered-IsRest =
      let e = kept 0 (omega arith) in
      record {
        inode_in = v.inode_in;
        image_in = v.image_in;
        within = rw e fits;
        size = rw e v.size;
        numbers = λ k h.
            let w = v.size in
            let l : k ≤ (inode_val fs m inode_num 0 - 1) / 4096 + 1 = rw e at h in
            rw (kept (k + 1) (omega arith)) (v.numbers k l);
        apart = rw e (elim v.apart [ inl q ↦ inl (omega arith) | inr q ↦ inr (omega arith) ]);
      }

  -- The bytes of the file are still those of the image.
  byte_kept :
      (j : ℕ)
      → j < inode_val fs m inode_num 0
      → file_byte fs (delivered fs inode_num p buf n m) inode_num j ≡ file_byte fs m inode_num j
  unfolding file_byte
  byte_kept j h =
      let w = v.size in
      let b = v.numbers (j / 4096) (omega arith) in
      let s = start_eq fs m inode_num p buf n piece-IsReadable in
      ap (λ k. delivered fs inode_num p buf n m (data_start fs + k * 4096 + j % 4096))
        (kept (j / 4096 + 1) (omega arith))
      ∙ unfold mem in
        mem_image fs m inode_num p buf n piece-IsReadable n
          (data_start fs + inode_val fs m inode_num (j / 4096 + 1) * 4096 + j % 4096) (omega arith)
          (omega arith) (omega arith)

  -- Two pieces, one behind the other, are one.
  pub delivered-delivered :
      (rest : ℕ)
      → p + n + rest ≤ inode_val fs m inode_num 0
      → delivered fs inode_num (p + n) (buf + n) rest (delivered fs inode_num p buf n m)
        ≡ delivered fs inode_num p buf (n + rest) m
  delivered-delivered rest h = fun_ext λ x.
      elim (Bool-cases (leb (buf + n) x && ltb x (buf + n + rest))) [
        | inl e ↦
            let b = byte_kept (p + (x - buf)) (ground arith) in
            let same : p + n + (x - (buf + n)) ≡ p + (x - buf) = ground arith in
            unfold delivered in ground (arith, b, same)
        | inr e ↦ unfold delivered in ground arith
      ]
