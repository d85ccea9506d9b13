-- ===== src/Tests/Machine.antt =====
-- A machine to run on: a disk image with two entries and one file, three terminals and a shell on each.
use linux_operating_system.Prelude.{
  ℕ, ◌+◌, ◌-◌, ◌*◌, ◌<◌, ◌≡◌, refl, ◌≢◌, Bool, true, false, ◌&&◌, not, none, some, List, [], ◌∷◌,
  arith, ltb, ◌==◌, if◌then◌else◌, Memory, store, codes, is_table, table_entry,
}
use linux_operating_system.CLib.Strings.Compare.{IsBytes}
use linux_operating_system.FileSys.{Fs}
use linux_operating_system.Pic.{Pic}
use linux_operating_system.Rtc.{Rtc}
use linux_operating_system.Terminal.{Term}
use linux_operating_system.Kernel.{stdin_fops, stdout_fops, file_fops, Fd, Pcb, Kernel, Frame}

-- `text` at address `a`.
abbrev write_at : ℕ → List ℕ → Memory → Memory
write_at a [] m = m
write_at a (c ∷ text) m = write_at (a + 1) text (store m a c)

abbrev pub zeros : Memory
zeros x = 0

abbrev pub fname_at : ℕ
fname_at = 100000

abbrev pub line_at : ℕ
line_at = 100100

-- The entries are "." and "fish"; the file has 5000 bytes in the blocks 0 and 1.
abbrev pub image : Memory
image = write_at line_at (codes "  cat fish\n") (
    write_at fname_at (codes "fish") (
      store
        (store
          (store (store (write_at 128 (codes "fish") (write_at 64 (codes ".") zeros)) 160 2) 4096
            136)
          4097 19)
        4104 1))

abbrev pub disk : Fs
disk = record { bootaddr = 0; dentries = 2; inodes = 1; blocks = 2 }

abbrev pub pic : Pic
pic = record { master_mask = 0xFB; slave_mask = 0xFF; written = [] }

-- A clock that divides by 4 on every terminal.
abbrev pub clock : Rtc
clock = record {
  pic = pic;
  rtc_int = zeros;
  rtc_freq = λ _. 4;
  rtc_counter = zeros;
  interrupts = true;
}

abbrev pub terminal : Term
terminal = record {
  mem = image;
  video_buffer = λ j. 0xB9000 + 4096 * j;
  input_buffer = zeros;
  curr_idx = zeros;
  term_x = zeros;
  term_y = zeros;
  term_x_start = zeros;
  term_y_start = zeros;
  term_x_end = zeros;
  term_y_end = zeros;
  read_flag = zeros;
  write_flag = zeros;
  enter_flag = zeros;
  char_from_kb = 0;
  curr_term = 0;
  disp_term = 1;
  written = [];
}

abbrev closed : Fd
closed = record { fops_ptr = none; inode_num = 0; pos = 0; flags = 0 }

-- The descriptors of a program that has a file open at 2.
abbrev descriptors : ℕ → Fd
descriptors x =
    if x == 0
    then record { fops_ptr = some stdin_fops; inode_num = 0; pos = 0; flags = 0 }
    else if x == 1
    then record { fops_ptr = some stdout_fops; inode_num = 0; pos = 0; flags = 0 }
    else if x == 2
    then record { fops_ptr = some file_fops; inode_num = 0; pos = 0; flags = 0 }
    else closed

abbrev block : Pcb
block = record {
  p_id = 0;
  parent_p_id = 0;
  parent = 0;
  child = 0;
  fd_A = descriptors;
  esp = 0;
  ebp = 0;
  esp_s = 0;
  ebp_s = 0;
  saved_by_timer = true;
  esp0 = 0x7FFFFC;
  prog_entry = 0x8048000;
  fd_total_open = 2;
  shell_flag = 1;
  term_num = 0;
}

abbrev pub kernel : Kernel
kernel = record {
  term = terminal;
  rtc = clock;
  fs = disk;
  pcbs = λ _. block;
  curr_pcb_ptr = 0x7FE000;
  active_progs = λ t. 0x7FE000 - t * 0xC000;
  total_progs = 3;
  next_p_id = λ _. 1;
  halt_retval = zeros;
  page_directory = λ _. 0x800087;
  page_table = zeros;
  video_table = zeros;
  tss_esp0 = 0x7FFFFC;
  switch_lock = 0;
  pit_counter = 1;
}

abbrev pub frame : Frame
frame = record {
  file_name = 200000;
  args = 200100;
  file_entry = 200300;
  exec_check = 200400;
  shell = 200500;
  sp = 0x7FE100;
  bp = 0x7FE200;
  in_timer = true;
}

-- Facts of a few bytes, by trying them all.
pub nonzero_below :
    (n : ℕ) (f : ℕ → ℕ) → is_table n (λ i. not (f i == 0)) ≡ true → (i : ℕ) → i < n → f i ≢ 0
nonzero_below n f t i h = let e = table_entry n _ i t h in ground arith

pub false_below :
    (n : ℕ) (f : ℕ → Bool) → is_table n (λ i. not (f i)) ≡ true → (i : ℕ) → i < n → f i ≡ false
false_below n f t i h = go (f i) (table_entry n _ i t h)
  where
    go : (b : Bool) → not b ≡ true → b ≡ false
    go true e = ground arith
    go false e = refl

pub equal_below :
    (n c : ℕ) (f : ℕ → ℕ) → is_table n (λ i. f i == c) ≡ true → (i : ℕ) → i < n → f i ≡ c
equal_below n c f t i h = let e = table_entry n _ i t h in ground arith

store-IsBytes : (m : Memory) (a v : ℕ) → IsBytes m → v < 256 → IsBytes (store m a v)
store-IsBytes m a v h lt x = let b = h x in ground arith

all_bytes : List ℕ → Bool
all_bytes [] = true
all_bytes (c ∷ text) = ltb c 256 && all_bytes text

write_at-IsBytes :
    (text : List ℕ) (a : ℕ) (m : Memory)
    → IsBytes m
    → all_bytes text ≡ true
    → IsBytes (write_at a text m)
unfolding all_bytes
write_at-IsBytes [] a m h e = h
write_at-IsBytes (c ∷ text) a m h e =
    write_at-IsBytes text (a + 1) (store m a c) (store-IsBytes m a c h (ground arith))
      (ground arith)

pub image-IsBytes : IsBytes image
unfolding all_bytes
image-IsBytes =
    write_at-IsBytes (codes "  cat fish\n") line_at _
      (write_at-IsBytes (codes "fish") fname_at _
        (store-IsBytes _ 4104 1
          (store-IsBytes _ 4097 19
            (store-IsBytes _ 4096 136
              (store-IsBytes _ 160 2
                (write_at-IsBytes (codes "fish") 128 _
                  (write_at-IsBytes (codes ".") 64 _ (λ x. omega arith) refl) refl)
                (omega arith))
              (omega arith))
            (omega arith))
          (omega arith))
        refl)
      refl
