-- ===== src/Tests/Files.antt =====
-- file_sys.c and the command line on the image.
use linux_operating_system.Prelude.{
  ℕ, zero, suc, ◌+◌, ◌-◌, ◌<◌, min, ◌≡◌, refl, ◌⊎◌, inl, inr, true, some, [], arith, leb, leb→le,
  pos, minus_one, Memory, moved, is_table, table_entry,
}
use linux_operating_system.CLib.Strings.Laws.{IsCString}
use linux_operating_system.FileSys.{
  inode_val, calculate_inode_start, calculate_dentries_start, dentry_at, read_data,
  read_dentry_by_name,
}
use linux_operating_system.FileSys.Transfer.{delivered, IsReadable}
use linux_operating_system.FileSys.Delivery.{read_data-delivered}
use linux_operating_system.FileSys.Names.{HasName, Terminated, read_dentry_by_name-first}
use linux_operating_system.Kernel.Programs.{ends_line, ends_word, get_args_fname}
use linux_operating_system.Kernel.Programs.Parsing.{IsCommand, IsParsed, get_args_fname-IsParsed}
use linux_operating_system.FileSys.Pieces.{IsRest}
use linux_operating_system.Kernel.{Events}
use linux_operating_system.Kernel.Files.Pieces.{IsFile, moved_to}
use linux_operating_system.Kernel.Files.Draining.{read_all, read_all-delivered}
use linux_operating_system.Tests.Machine.{
  kernel, fname_at, line_at, image, disk, nonzero_below, false_below, equal_below, image-IsBytes,
}

-- The last 1000 bytes of the file, asked for as 2000 across the border of its two blocks.
numbers_checked : is_table 3 (λ k. leb (inode_val disk image 0 (k + 1)) 2) ≡ true
unfolding is_table inode_val calculate_inode_start
numbers_checked = refl

fish-IsReadable : IsReadable disk image 0 4000 300000 1000
unfolding inode_val calculate_inode_start
fish-IsReadable = record {
  inode_in = omega arith;
  image_in = omega arith;
  nonempty = omega arith;
  within = omega arith;
  size = omega arith;
  numbers = λ k p q. let e = table_entry 3 _ k numbers_checked (omega arith) in leb→le _ _ e;
  apart = inr (omega arith);
}

fish_rest : 1000 ≡ min 2000 (inode_val disk image 0 0 - 4000)
unfolding inode_val calculate_inode_start
fish_rest = refl

read_data-delivered_example :
    read_data 3 disk 0 4000 300000 2000 image
    ≡ some (pos 1000, delivered disk 0 4000 300000 1000 image)
read_data-delivered_example =
    read_data-delivered 3 disk image 0 4000 300000 2000 1000 fish-IsReadable fish_rest (omega arith)
      (omega arith)

-- The whole file in pieces of 700 bytes, through descriptor 2.
fish-IsRest : IsRest disk image 0 0 300000
unfolding inode_val calculate_inode_start
fish-IsRest = record {
  inode_in = omega arith;
  image_in = omega arith;
  within = omega arith;
  size = omega arith;
  numbers = λ k p. let e = table_entry 3 _ k numbers_checked (omega arith) in leb→le _ _ e;
  apart = inr (omega arith);
}

fish-IsFile : IsFile kernel 2
fish-IsFile = record { known = omega arith; table = refl; free = λ e. absurd (omega arith) }

no_events : Events
no_events = record { keys = []; ticks = []; port = 0; stray = 0 }

fish_size : inode_val disk image 0 0 ≡ 5000
unfolding inode_val calculate_inode_start
fish_size = refl

read_all-delivered_example :
    read_all 5001 3 no_events 2 300000 700 kernel
    ≡ some (
      inode_val disk image 0 0 - 0,
      moved_to 2 kernel
          (delivered disk 0 0 300000 (inode_val disk image 0 0 - 0) image)
          (inode_val disk image 0 0),
    )
read_all-delivered_example =
    read_all-delivered 5001 3 no_events 2 300000 700 kernel fish-IsFile fish-IsRest
      (λ e. absurd (omega arith)) (omega arith) (omega arith) (omega arith)
      (rw fish_size (omega arith))

name : IsCString image fname_at 4
unfolding is_table
name = record { body = nonzero_below 4 (λ i. image (fname_at + i)) refl; end = refl }

dot_string : IsCString image 64 1
unfolding is_table
dot_string = record { body = nonzero_below 1 (λ i. image (64 + i)) refl; end = refl }

fish_string : IsCString image 128 4
unfolding is_table
fish_string = record { body = nonzero_below 4 (λ i. image (128 + i)) refl; end = refl }

terminated : Terminated 9 disk image fname_at 4 image-IsBytes name
unfolding dentry_at calculate_dentries_start
terminated zero h = (1, dot_string, omega arith)
terminated (suc zero) h = (4, fish_string, omega arith)
terminated (suc (suc j)) h = absurd (omega arith)

read_dentry_by_name-first_example :
    ((k : ℕ) × (k < 2)
      × HasName disk image fname_at 4 k
      × ((j : ℕ) → j < k → ¬ HasName disk image fname_at 4 j)
      × (read_dentry_by_name 9 disk fname_at 400000 image
          ≡ some (pos 0, moved 400000 (dentry_at disk k) 64 image)))
    ⊎ (((j : ℕ) → j < 2 → ¬ HasName disk image fname_at 4 j)
        × (read_dentry_by_name 9 disk fname_at 400000 image ≡ some (minus_one, image)))
read_dentry_by_name-first_example =
    read_dentry_by_name-first 9 disk image fname_at 4 image-IsBytes name 400000 terminated
      (omega arith)

-- "  cat fish\n": two spaces, a word of three, one space, four characters.
line : IsCommand image line_at 200000 200100 2 3 1 4
unfolding is_table
line = record {
  lead = equal_below 2 32 (λ x. image (line_at + x)) refl;
  word = false_below 3 (λ x. ends_word (image (line_at + (2 + x)))) refl;
  word_end = refl;
  gap = equal_below 1 32 (λ x. image (line_at + (2 + 3 + x))) refl;
  rest_start = λ e. absurd (omega arith);
  rest = false_below 4 (λ x. ends_line (image (line_at + (2 + 3 + 1 + x)))) refl;
  rest_end = refl;
  word_start = omega arith;
  word_room = omega arith;
  rest_room = omega arith;
  name_apart = inl (omega arith);
  args_apart = inl (omega arith);
  buffers_apart = inl (omega arith);
}

get_args_fname-IsParsed_example :
    (m' : Memory) × (get_args_fname 9 line_at 200000 200100 image ≡ some m')
    × IsParsed image m' line_at 200000 200100 2 3 1 4
get_args_fname-IsParsed_example =
    get_args_fname-IsParsed 9 image line_at 200000 200100 2 3 1 4 line (omega arith) (omega arith)
