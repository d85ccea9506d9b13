-- ===== src/FileSys.antt =====
-- file_sys.c: the read-only file system image, read through the flat memory at `bootaddr`.
-- A block is 4096 bytes: the boot block (three counts, and directory entries of 64 bytes from byte 64
-- on), then the inodes, then the data blocks. A file's name fills at most 32 bytes of its entry, the
-- type stands at byte 32 and the inode number at byte 36; an inode is a size and then block numbers.
pub mod Names
pub mod Transfer
pub mod Delivery
pub mod Pieces
use linux_operating_system.Prelude.{
  ℕ, zero, suc, ◌+◌, ◌-◌, ◌*◌, ◌/◌, ◌%◌, ◌^◌, ◌≤◌, ◌<◌, min, bit_and, bit_or, ◌≡◌, refl, sym, ap,
  ◌∙◌, fun_ext, subst, ◌≢◌, ◌↔◌, ◌⊎◌, inl, inr, Bool, true, false, ◌&&◌, ◌||◌, not, Option, none,
  some, List, [], ◌∷◌, ◌++◌, map, reverse, arith, ltb, leb, ◌==◌, if◌then◌else◌, ltb→lt, leb→le,
  ==_iff, Bool-cases, ◌>>=◌, length, get_elem?, get_or, set, length-append, length-set,
  get_elem?-set_self, get_elem?-set_ne, ℤ, pos, negsuc, minus_one, sub_ℕ, Memory, store, load32,
  store32, bytes, codes, moved, filled, is_table, table_entry, table_witness, word, add32, sub32,
  to_int32,
}
use linux_operating_system.CLib.Blocks.{memcpy}
use linux_operating_system.CLib.Strings.{strlen, strncmp, strcpy}

-- `bootaddr` and the array `fs_stats`: how many directory entries, inodes and data blocks.
pub record Fs : Type 0 where
  pub bootaddr : ℕ
  pub dentries : ℕ
  pub inodes : ℕ
  pub blocks : ℕ

unfoldable pub init_fs : ℕ → Memory → Fs
init_fs boot_addr m = record {
  bootaddr = boot_addr;
  dentries = load32 m boot_addr;
  inodes = load32 m (boot_addr + 4);
  blocks = load32 m (boot_addr + 8);
}

unfoldable pub calculate_dentries_start : Fs → ℕ
calculate_dentries_start fs = fs.bootaddr + 64

unfoldable pub calculate_inode_start : Fs → ℕ
calculate_inode_start fs = fs.bootaddr + 4096

-- The address of entry `i`, where its file name begins.
unfoldable pub dentry_at : Fs → ℕ → ℕ
unfolding calculate_dentries_start
dentry_at fs i = calculate_dentries_start fs + 64 * i

-- `val[k]` of an inode.
unfoldable pub inode_val : Fs → Memory → ℕ → ℕ → ℕ
unfolding calculate_inode_start
inode_val fs m inode_num k = load32 m (calculate_inode_start fs + 4096 * inode_num + 4 * k)

unfoldable pub get_file_size : Fs → Memory → ℕ → ℕ
get_file_size fs m dentry = inode_val fs m (load32 m (dentry + 36)) 0

abbrev pub is_zero : ℤ → Bool
is_zero (pos n) = n == 0
is_zero (negsuc n) = false

-- The tests of one round of read_dentry_by_name; `len` is the length of `fname`.
unfoldable pub names_match : ℕ → Memory → ℕ → ℕ → ℕ → Option Bool
names_match fuel m fname len name = strlen fuel m name >>= λ l. some (
    if ltb l len
    then (l == len) && is_zero (strncmp m name fname len)
    else is_zero (strncmp m name fname l))

-- The index at which the loop breaks. The first number counts the rounds left.
unfoldable pub find_dentry : ℕ → Fs → Memory → ℕ → ℕ → ℕ → ℕ → Option (Option ℕ)
find_dentry fuel fs m fname len zero i = some none
find_dentry fuel fs m fname len (suc left) i =
    elim (names_match fuel m fname len (dentry_at fs i)) [
      | none ↦ none
      | some true ↦ some (some i)
      | some false ↦ find_dentry fuel fs m fname len left (i + 1)
    ]

-- `*dentry = dentries_array[i]` copies the entry's 64 bytes.
unfoldable pub copy_dentry : Fs → ℕ → Memory → Option ℕ → ℤ × Memory
copy_dentry fs dentry m none = (minus_one, m)
copy_dentry fs dentry m (some i) = (pos 0, moved dentry (dentry_at fs i) 64 m)

unfoldable pub read_dentry_by_name : ℕ → Fs → ℕ → ℕ → Memory → Option (ℤ × Memory)
unfolding copy_dentry
read_dentry_by_name fuel fs fname dentry m = strlen fuel m fname >>= λ len.
    find_dentry fuel fs m fname len fs.dentries 0 >>= λ found. some (copy_dentry fs dentry m found)

unfoldable pub read_dentry_by_index : Fs → ℕ → ℕ → Memory → ℤ × Memory
unfolding copy_dentry
read_dentry_by_index fs index dentry m =
    copy_dentry fs dentry m (if ltb fs.dentries index then none else some index)

-- The first byte of the data blocks.
unfoldable pub data_start : Fs → ℕ
data_start fs = (fs.bootaddr + fs.inodes * 4096 + 4096) % word

-- The variables of the copying loop of read_data. `count` and `data_to_copy` are the bit patterns of
-- ints.
pub record Cursor : Type 0 where
  pub count : ℕ
  pub data_ptr : ℕ
  pub data_index : ℕ
  pub data_to_copy : ℕ
  pub buf : ℕ

-- `if (data_to_copy > BYTES_PER_BLOCK)`, a comparison of ints.
unfoldable pub one_block_at_most : ℕ → ℕ
one_block_at_most n = if ltb 4096 n && ltb n 2147483648 then 4096 else n

-- What a round does after its block is checked.
unfoldable pub next_block : Fs → Memory → ℕ → ℕ → Cursor → Cursor
next_block fs m inode_num length c = record c {
  data_ptr = (data_start fs + inode_val fs m inode_num c.data_index * 4096) % word;
  data_index = c.data_index + 1;
  data_to_copy = one_block_at_most (sub32 length c.count);
}

-- `count += data_to_copy; buf += data_to_copy;`
unfoldable pub advance : Cursor → Cursor
advance c = record c { count = add32 c.count c.data_to_copy; buf = c.buf + c.data_to_copy }

unfoldable pub read_loop : ℕ → Fs → ℕ → ℕ → Cursor → Memory → Option (ℤ × Memory)
read_loop zero fs inode_num length c m = none
read_loop (suc fuel) fs inode_num length c m =
    let m' = memcpy c.buf c.data_ptr c.data_to_copy m in
    let c' = advance c in
    let rest = read_loop fuel fs inode_num length (next_block fs m' inode_num length c') m' in
    if ltb c.count length
    then if ltb fs.blocks (inode_val fs m' inode_num c'.data_index)
      then some (minus_one, m')
      else rest
    else some (to_int32 length, m)

-- The length after `length = file_size - offset`.
unfoldable pub clip_length : ℕ → ℕ → ℕ → ℕ
clip_length file_size offset length =
    if ltb file_size (add32 length offset) then file_size - offset else length

-- The loop variables before the first round.
unfoldable pub first_block : Fs → Memory → ℕ → ℕ → ℕ → ℕ → Cursor
first_block fs m inode_num offset buf length = record {
  count = 0;
  data_ptr =
      (data_start fs + inode_val fs m inode_num (offset / 4096 + 1) * 4096 + offset % 4096) % word;
  data_index = offset / 4096 + 2;
  data_to_copy = if ltb 4096 (add32 length (offset % 4096)) then 4096 - offset % 4096 else length;
  buf = buf;
}

unfoldable pub read_data : ℕ → Fs → ℕ → ℕ → ℕ → ℕ → Memory → Option (ℤ × Memory)
read_data fuel fs inode_num offset buf length m =
    let size = inode_val fs m inode_num 0 in
    let length' = clip_length size offset length in
    if leb fs.inodes inode_num
    then some (minus_one, m)
    else if leb size offset
    then some (pos 0, m)
    else if ltb fs.blocks (inode_val fs m inode_num (offset / 4096 + 1))
    then some (minus_one, m)
    else read_loop fuel fs inode_num length' (first_block fs m inode_num offset buf length') m
