-- ===== src/Kernel/Paging.antt =====
-- paging.c: the tables that init_paging fills. `page_table_at` and `video_table_at` are the addresses
-- that the linker gives to the two tables.
pub mod Tables
pub mod Frame
use linux_operating_system.Prelude.{
  ℕ, zero, suc, ◌+◌, ◌-◌, ◌*◌, ◌/◌, ◌%◌, ◌^◌, ◌≤◌, ◌<◌, min, bit_and, bit_or, ◌≡◌, refl, sym, ap,
  ◌∙◌, fun_ext, subst, ◌≢◌, ◌↔◌, ◌⊎◌, inl, inr, Bool, true, false, ◌&&◌, ◌||◌, not, Option, none,
  some, List, [], ◌∷◌, ◌++◌, map, reverse, arith, ltb, leb, ◌==◌, if◌then◌else◌, ltb→lt, leb→le,
  ==_iff, Bool-cases, ◌>>=◌, length, get_elem?, get_or, set, length-append, length-set,
  get_elem?-set_self, get_elem?-set_ne, ℤ, pos, negsuc, minus_one, sub_ℕ, Memory, store, load32,
  store32, bytes, codes, moved, filled, is_table, table_entry, table_witness, word, add32, sub32,
  to_int32,
}
use linux_operating_system.Terminal.{video}
use linux_operating_system.Kernel.{Kernel}

-- The page of video memory, and the one of the directory for the user's view of it.
abbrev pub vid_mem_idx : ℕ
vid_mem_idx = 184

abbrev pub vm_video_idx : ℕ
vm_video_idx = 33

-- One round of the loop over the 1024 entries.
unfoldable pub init_entry : ℕ → Kernel → Kernel
init_entry i k = record k {
  page_directory = store k.page_directory i 2;
  page_table = store k.page_table i (bit_or (i * 0x1000) 3);
  video_table = store k.video_table i 0;
}

unfoldable pub init_entries : ℕ → ℕ → Kernel → Kernel
init_entries zero i k = k
init_entries (suc left) i k = init_entries left (i + 1) (init_entry i k)

-- The round for terminal `i - 1`: its back buffer is the page behind video memory's.
unfoldable pub init_buffer : ℕ → Kernel → Kernel
init_buffer i k =
    let entry = bit_or (k.page_table (vid_mem_idx + i)) 1 in
    record k {
      page_table = store k.page_table (vid_mem_idx + i) entry;
      term = record k.term {
        video_buffer = store k.term.video_buffer (i - 1) (bit_and entry 0xFFFFF000);
      };
      video_table = store k.video_table (i - 1) (bit_or video 7);
    }

-- Loading CR3 and setting the bits of CR0 and CR4 has no counterpart here.
unfoldable pub init_paging : ℕ → ℕ → Kernel → Kernel
init_paging page_table_at video_table_at k =
    let e = init_entries 1024 0 k in
    let p = record e {
      page_table = store e.page_table vid_mem_idx (bit_or (e.page_table vid_mem_idx) 1);
    } in
    let b = init_buffer 3 (init_buffer 2 (init_buffer 1 p)) in
    record b {
      page_directory =
          store (store (store b.page_directory 0 (bit_or page_table_at 3)) 1 (bit_or 0x400000 0x83))
            vm_video_idx (bit_or video_table_at 7);
    }
