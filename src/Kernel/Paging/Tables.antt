-- ===== src/Kernel/Paging/Tables.antt =====
-- The memory map after init_paging.
use linux_operating_system.Prelude.{
  ℕ, zero, suc, ◌+◌, ◌*◌, ◌<◌, bit_or, ◌≡◌, refl, sym, ap, ◌∙◌, ◌≢◌, inl, inr, true, ◌&&◌, arith,
  ltb, leb, ◌==◌, if◌then◌else◌, Bool-cases, is_table, table_entry,
}
use linux_operating_system.Terminal.{video}
use linux_operating_system.Kernel.{Kernel}
use linux_operating_system.Kernel.Paging.{init_entry, init_entries, init_buffer, init_paging}
use linux_operating_system.Kernel.Schedule.Screen.{HasBuffers}

one_more :
    (left i x v w old : ℕ)
    → (x ≡ i → v ≡ w)
    → (if leb (i + 1) x && ltb x (i + 1 + left) then w else if x == i then v else old)
      ≡ (if leb i x && ltb x (i + suc left) then w else old)
one_more left i x v w old h = elim (Bool-cases (x == i)) [
  | inl e ↦ let q = h (ground arith) in ground arith
  | inr e ↦ ground arith
]

page_entry_lem :
    (left i x : ℕ) (k : Kernel)
    → (init_entries left i k).page_table x
      ≡ (if leb i x && ltb x (i + left) then bit_or (x * 0x1000) 3 else k.page_table x)
unfolding init_entries init_entry
page_entry_lem zero i x k = ground arith
page_entry_lem (suc left) i x k =
    page_entry_lem left (i + 1) x (init_entry i k)
    ∙ one_more left i x (bit_or (i * 0x1000) 3) (bit_or (x * 0x1000) 3) (k.page_table x)
        (λ e. ap (λ n. bit_or (n * 0x1000) 3) (sym e))

entry_value : is_table 1024 (λ x. bit_or (x * 0x1000) 3 == x * 0x1000 + 3) ≡ true
unfolding is_table
entry_value = refl

-- The entry of page `x` after the loop.
entry_after :
    (x : ℕ) (k : Kernel) → x < 1024 → (init_entries 1024 0 k).page_table x ≡ x * 0x1000 + 3
entry_after x k h =
    let v = table_entry 1024 _ x entry_value h in page_entry_lem 1024 0 x k ∙ ground arith

directory_entry_lem :
    (left i x : ℕ) (k : Kernel)
    → (init_entries left i k).page_directory x
      ≡ (if leb i x && ltb x (i + left) then 2 else k.page_directory x)
unfolding init_entries init_entry
directory_entry_lem zero i x k = ground arith
directory_entry_lem (suc left) i x k =
    directory_entry_lem left (i + 1) x (init_entry i k)
    ∙ one_more left i x 2 2 (k.page_directory x) (λ e. refl)

-- The entries of the directory: the tables that it points to, the kernel's page, and nothing else.
pub record IsDirectory (page_table_at video_table_at : ℕ) (directory : ℕ → ℕ) : Type 0 where
  pub low : directory 0 ≡ bit_or page_table_at 3
  pub kernel : directory 1 ≡ 0x400083
  pub view : directory 33 ≡ bit_or video_table_at 7
  pub absent : (x : ℕ) → x < 1024 → x ≢ 0 → x ≢ 1 → x ≢ 33 → directory x ≡ 2

-- After init_paging the three back buffers are the pages behind video memory. The directory's first entry
-- is the page table, present and writable, whose 1024 entries map each page of the first 4 MB to itself;
-- the second is the kernel's 4 MB page at 4 MB; the one of the user's view is the video table, whose entry
-- for each terminal is video memory; and every other entry is absent.
pub init_paging-HasBuffers :
    (page_table_at video_table_at : ℕ) (k : Kernel)
    → HasBuffers (init_paging page_table_at video_table_at k)
      × ((x : ℕ)
          → x < 1024
          → (init_paging page_table_at video_table_at k).page_table x ≡ x * 0x1000 + 3)
      × ((j : ℕ) → j < 3 → (init_paging page_table_at video_table_at k).video_table j ≡ video + 7)
      × IsDirectory page_table_at video_table_at
          (init_paging page_table_at video_table_at k).page_directory
unfolding init_paging init_buffer
init_paging-HasBuffers page_table_at video_table_at k =
    let e184 = entry_after 184 k (omega arith) in
    let e185 = entry_after 185 k (omega arith) in
    let e186 = entry_after 186 k (omega arith) in
    let e187 = entry_after 187 k (omega arith) in
    (
      record { at = λ j h. rw (e185, e186, e187) (ground arith) },
      (λ x h. let e = entry_after x k h in rw (e184, e185, e186, e187) (ground arith)),
      (λ j h. ground arith),
      record {
        low = refl;
        kernel = refl;
        view = refl;
        absent = λ x h a b c. (let e = directory_entry_lem 1024 0 x k in ground arith);
      },
    )
