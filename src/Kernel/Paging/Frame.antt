-- ===== src/Kernel/Paging/Frame.antt =====
-- init_paging changes the tables and the addresses of the back buffers only.
use linux_operating_system.Prelude.{ℕ, zero, suc, ◌+◌, bit_or, ◌≡◌, refl, sym, subst, store}
use linux_operating_system.Kernel.{Kernel}
use linux_operating_system.Kernel.Paging.{
  vid_mem_idx, vm_video_idx, init_entry, init_entries, init_buffer, init_paging,
}

init_entries_frame :
    (left i : ℕ) (k : Kernel)
    → init_entries left i k ≡ record k {
      page_directory = (init_entries left i k).page_directory;
      page_table = (init_entries left i k).page_table;
      video_table = (init_entries left i k).video_table;
    }
unfolding init_entries init_entry
init_entries_frame zero i k = refl
init_entries_frame (suc left) i k = init_entries_frame left (i + 1) (init_entry i k)

-- `k'` is `k` up to what paging keeps.
pub record SamePaged (k k' : Kernel) : Type 0 where
  pub rest : k' ≡ record k {
    page_directory = k'.page_directory;
    page_table = k'.page_table;
    video_table = k'.video_table;
    term = record k.term { video_buffer = k'.term.video_buffer };
  }

-- init_paging behind its loop.
behind_loop : ℕ → ℕ → Kernel → Kernel
behind_loop page_table_at video_table_at e =
    let p = record e {
      page_table = store e.page_table vid_mem_idx (bit_or (e.page_table vid_mem_idx) 1);
    } in
    let b = init_buffer 3 (init_buffer 2 (init_buffer 1 p)) in
    record b {
      page_directory =
          store (store (store b.page_directory 0 (bit_or page_table_at 3)) 1 (bit_or 0x400000 0x83))
            vm_video_idx (bit_or video_table_at 7);
    }

behind_loop-SamePaged :
    (p v : ℕ) (k : Kernel) (pd pt vt : ℕ → ℕ)
    → SamePaged k
        (behind_loop p v (record k { page_directory = pd; page_table = pt; video_table = vt }))
unfolding behind_loop init_buffer
behind_loop-SamePaged p v k pd pt vt = record { rest = refl }

pub init_paging-SamePaged :
    (page_table_at video_table_at : ℕ) (k : Kernel)
    → SamePaged k (init_paging page_table_at video_table_at k)
unfolding init_paging behind_loop
init_paging-SamePaged p v k =
    let e = init_entries 1024 0 k in
    subst (λ x. SamePaged k (behind_loop p v x)) (sym (init_entries_frame 1024 0 k))
      (behind_loop-SamePaged p v k e.page_directory e.page_table e.video_table)
