-- ===== src/FileSys/Transfer.antt =====
-- read_data delivers the bytes of the file.
use linux_operating_system.Prelude.{
  ℕ, ◌+◌, ◌-◌, ◌*◌, ◌/◌, ◌%◌, ◌≤◌, ◌<◌, min, ◌≡◌, sym, ap, ◌∙◌, fun_ext, ◌⊎◌, inl, inr, ◌&&◌, arith,
  ltb, leb, if◌then◌else◌, Bool-cases, Memory, word, add32, sub32,
}
use linux_operating_system.CLib.Blocks.{memcpy}
use linux_operating_system.CLib.Blocks.Copy.{memcpy-moved}
use linux_operating_system.FileSys.{
  Fs, Cursor, inode_val, calculate_inode_start, data_start, one_block_at_most, next_block, advance,
}

-- Byte `j` of a file, found through the inode's block numbers.
unfoldable pub file_byte : Fs → Memory → ℕ → ℕ → ℕ
file_byte fs m inode_num j =
    m (data_start fs + inode_val fs m inode_num (j / 4096 + 1) * 4096 + j % 4096)

-- The memory in which the `n` bytes at `buf` are those of the file from `offset` on.
unfoldable pub delivered : Fs → ℕ → ℕ → ℕ → ℕ → Memory → Memory
delivered fs inode_num offset buf n m x =
    if leb buf x && ltb x (buf + n) then file_byte fs m inode_num (offset + (x - buf)) else m x

abbrev pub image_end : Fs → ℕ
image_end fs = fs.bootaddr + (fs.inodes + fs.blocks + 2) * 4096

-- A read of `n` bytes within the file, `n` > 0: the image lies in the address space and apart from the
-- buffer, and the blocks that hold the bytes have valid numbers, as has the entry after them.
pub record IsReadable (fs : Fs) (m : Memory) (inode_num offset buf n : ℕ) : Type 0 where
  pub inode_in : inode_num < fs.inodes
  pub image_in : image_end fs ≤ word
  pub nonempty : 0 < n
  pub within : offset + n ≤ inode_val fs m inode_num 0
  pub size : inode_val fs m inode_num 0 ≤ 1023 * 4096
  pub numbers :
      (k : ℕ)
      → offset / 4096 ≤ k
      → k ≤ (offset + n - 1) / 4096 + 1
      → inode_val fs m inode_num (k + 1) ≤ fs.blocks
  pub apart : (buf + n ≤ fs.bootaddr) ⊎ (image_end fs ≤ buf)

module _ (fs : Fs) (m : Memory) (inode_num offset buf n : ℕ)
    (r : IsReadable fs m inode_num offset buf n) where
  -- The memory after `c` bytes.
  unfoldable pub mem : ℕ → Memory
  mem c = delivered fs inode_num offset buf c m

  pub start_eq : data_start fs ≡ fs.bootaddr + fs.inodes * 4096 + 4096
  unfolding data_start
  start_eq = omega arith

  pub mem_image : (c x : ℕ) → c ≤ n → fs.bootaddr ≤ x → x < image_end fs → mem c x ≡ m x
  unfolding mem delivered
  mem_image c x h p q = ground arith

  pub mem-inode_val :
      (c k : ℕ) → c ≤ n → k ≤ 1024 → inode_val fs (mem c) inode_num k ≡ inode_val fs m inode_num k
  unfolding inode_val calculate_inode_start
  mem-inode_val c k h p =
      let a = fs.bootaddr + 4096 + 4096 * inode_num + 4 * k in
      let e0 = mem_image c a h (omega arith) (omega arith) in
      let e1 = mem_image c (a + 1) h (omega arith) (omega arith) in
      let e2 = mem_image c (a + 2) h (omega arith) (omega arith) in
      let e3 = mem_image c (a + 3) h (omega arith) (omega arith) in rw (e0, e1, e2, e3)

  -- The loop variables with `c` bytes delivered and more to come.
  unfoldable pub cursor : ℕ → Cursor
  cursor c = record {
    count = c;
    data_ptr =
        data_start fs
        + inode_val fs m inode_num ((offset + c) / 4096 + 1) * 4096
        + (offset + c) % 4096;
    data_index = (offset + c) / 4096 + 2;
    data_to_copy = min (n - c) (4096 - (offset + c) % 4096);
    buf = buf + c;
  }

  -- The count after the round at count `c`.
  unfoldable pub after : ℕ → ℕ
  after c = c + min (n - c) (4096 - (offset + c) % 4096)

  number_at : (c : ℕ) → c < n → inode_val fs m inode_num ((offset + c) / 4096 + 1) ≤ fs.blocks
  number_at c h = r.numbers ((offset + c) / 4096) (omega arith) (omega arith)

  -- Within a block the file's bytes stand one after the other.
  file_byte_in_block :
      (c j : ℕ)
      → c ≤ j
      → j < after c
      → file_byte fs m inode_num (offset + j) ≡ m ((cursor c).data_ptr + (j - c))
  unfolding file_byte cursor after
  file_byte_in_block c j p q =
      let block : (offset + j) / 4096 ≡ (offset + c) / 4096 = omega arith in
      let place : (offset + j) % 4096 ≡ (offset + c) % 4096 + (j - c) = omega arith in
      rw (block, place) (ap m (omega arith))

  ptr_bounds :
      (c : ℕ)
      → c < n
      → (fs.bootaddr ≤ (cursor c).data_ptr)
        × ((cursor c).data_ptr + (cursor c).data_to_copy ≤ image_end fs)
  unfolding cursor
  ptr_bounds c h = let e = start_eq in let v = number_at c h in (omega arith, omega arith)

  copied_in :
      (c x : ℕ)
      → c < n
      → buf + c ≤ x
      → x < buf + after c
      → mem c ((cursor c).data_ptr + (x - (buf + c))) ≡ mem (after c) x
  unfolding cursor after
  copied_in c x h p q =
      let b = ptr_bounds c h in
      mem_image c ((cursor c).data_ptr + (x - (buf + c))) (omega arith) (omega arith) (omega arith)
      ∙ ap (λ k. m ((cursor c).data_ptr + k)) (omega arith)
      ∙ sym (file_byte_in_block c (x - buf) (omega arith) (omega arith))
      ∙ unfold mem delivered in ground arith

  pub copied :
      (c : ℕ)
      → c < n
      → memcpy (buf + c) (cursor c).data_ptr (cursor c).data_to_copy (mem c) ≡ mem (after c)
  unfolding cursor after
  copied c h =
      let b = ptr_bounds c h in
      memcpy-moved _ _ _ (mem c) (omega arith)
      ∙ fun_ext λ x.
        elim (Bool-cases (leb (buf + c) x && ltb x (buf + c + (cursor c).data_to_copy))) [
          | inl e ↦ rw e (copied_in c x h (ground arith) (ground arith))
          | inr e ↦ rw e (unfold mem delivered in ground arith)
        ]

  -- A round that leaves bytes to copy ends at a block's end.
  pub after_block :
      (c : ℕ)
      → c < n
      → after c < n
      → ((offset + after c) / 4096 ≡ (offset + c) / 4096 + 1) × ((offset + after c) % 4096 ≡ 0)
  unfolding after
  after_block c h h' = (omega arith, omega arith)

  next_ptr :
      (c : ℕ)
      → c < n
      → after c < n
      → (data_start fs + inode_val fs (mem (after c)) inode_num ((offset + c) / 4096 + 2) * 4096)
          % word
        ≡ (cursor (after c)).data_ptr
  unfolding cursor
  next_ptr c h h' =
      let (q, z) = after_block c h h' in
      let v = number_at (after c) h' in
      let e = start_eq in
      let same = mem-inode_val (after c) ((offset + c) / 4096 + 2) (omega arith) (omega arith) in
      let k : (offset + c) / 4096 + 2 ≡ (offset + after c) / 4096 + 1 = omega arith in
      rw (same, k, z) (omega arith)

  pub next_count : (c : ℕ) → c < n → add32 (cursor c).count (cursor c).data_to_copy ≡ after c
  unfolding cursor after
  next_count c h = omega arith

  next_length :
      (c : ℕ)
      → c < n
      → after c < n
      → one_block_at_most (sub32 n (after c)) ≡ (cursor (after c)).data_to_copy
  unfolding cursor one_block_at_most
  next_length c h h' = let (q, z) = after_block c h h' in ground arith

  -- The cursor that the end of a round leaves for the next one.
  pub next_cursor :
      (c : ℕ)
      → c < n
      → after c < n
      → next_block fs (mem (after c)) inode_num n (advance (cursor c)) ≡ cursor (after c)
  unfolding next_block advance cursor
  next_cursor c h h' =
      let (q, z) = after_block c h h' in
      let e1 = next_ptr c h h' in
      let e2 = next_count c h in
      let e3 = next_length c h h' in
      let e4 : (offset + c) / 4096 + 2 + 1 ≡ (offset + after c) / 4096 + 2 = omega arith in
      let e5 : buf + c + min (n - c) (4096 - (offset + c) % 4096) ≡ buf + after c =
        (unfold after in omega arith) in
      rw (e2, e3, e4, e5)
        (λ i. record {
          count = after c;
          data_ptr = e1 i;
          data_index = (offset + after c) / 4096 + 2;
          data_to_copy = (cursor (after c)).data_to_copy;
          buf = buf + after c;
        })

  -- The entry that a round checks after its copy.
  pub checked :
      (c : ℕ)
      → c < n
      → inode_val fs (mem (after c)) inode_num (advance (cursor c)).data_index ≤ fs.blocks
  unfolding advance cursor after
  checked c h =
      let v = r.numbers ((offset + c) / 4096 + 1) (omega arith) (omega arith) in
      let same =
        mem-inode_val (after c) ((offset + c) / 4096 + 2) (unfold after in omega arith)
          (omega arith) in
      let k : (offset + c) / 4096 + 2 ≡ (offset + c) / 4096 + 1 + 1 = omega arith in rw (same, k) v
