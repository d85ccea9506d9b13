-- ===== src/Pic/Masks.antt =====
-- Masking and unmasking of interrupt lines in the masks of the two controllers.
use linux_operating_system.Prelude.{
  ℕ, ◌-◌, ◌/◌, ◌%◌, ◌^◌, ◌<◌, ◌≡◌, refl, true, ◌&&◌, arith, ltb, leb, ◌==◌, if◌then◌else◌, ==_iff,
  is_table, table_entry,
}
use linux_operating_system.Pic.{Pic, clear_bit, set_bit, enable_irq, disable_irq}

abbrev pub bit_at : ℕ → ℕ → ℕ
bit_at mask i = mask / 2 ^ i % 2

-- 1 if the line is masked. Lines 0 to 7 are the master's, 8 to 15 the slave's.
pub masked : Pic → ℕ → ℕ
masked p irq = if leb irq 7 then bit_at p.master_mask irq else bit_at p.slave_mask (irq - 8)

pub record IsValid (p : Pic) : Type 0 where
  pub master_byte : p.master_mask < 256
  pub slave_byte : p.slave_mask < 256

clear_table :
    is_table 256 (λ m. is_table 8 (λ i.
      ltb (clear_bit m i) 256
      && is_table 8 (λ j. bit_at (clear_bit m i) j == (if i == j then 0 else bit_at m j))))
    ≡ true
unfolding is_table clear_bit
clear_table = refl

set_table :
    is_table 256 (λ m. is_table 8 (λ i.
      ltb (set_bit m i) 256
      && is_table 8 (λ j. bit_at (set_bit m i) j == (if i == j then 1 else bit_at m j))))
    ≡ true
unfolding is_table set_bit
set_table = refl

module _ (f : ℕ → ℕ → ℕ) (v : ℕ)
    (table : is_table 256 (λ m. is_table 8 (λ i.
        ltb (f m i) 256
        && is_table 8 (λ j. bit_at (f m i) j == (if i == j then v else bit_at m j))))
      ≡ true) where
  table_row :
      (m i : ℕ)
      → m < 256
      → i < 8
      → (f m i < 256)
        × (is_table 8 (λ j. bit_at (f m i) j == (if i == j then v else bit_at m j)) ≡ true)
  table_row m i hm hi =
      let row = table_entry 8 _ i (table_entry 256 _ m table hm) hi in (ground arith, ground arith)

  table_bit :
      (m i j : ℕ) → m < 256 → i < 8 → j < 8 → bit_at (f m i) j ≡ (if i == j then v else bit_at m j)
  table_bit m i j hm hi hj = (==_iff _ _).0 (table_entry 8 _ j (table_row m i hm hi).1 hj)

-- With masks that are bytes, unmasking one of the 16 lines clears its mask bit and no other
-- line's, and keeps the masks bytes.
pub masked-enable_irq :
    (p : Pic) (irq j : ℕ)
    → IsValid p
    → irq < 16
    → j < 16
    → IsValid (enable_irq irq p)
      × (masked (enable_irq irq p) j ≡ (if irq == j then 0 else masked p j))
unfolding masked enable_irq
masked-enable_irq p irq j v hi hj =
    let row = table_row clear_bit 0 clear_table in
    let bit = table_bit clear_bit 0 clear_table in
    ground (
      arith,
      row p.master_mask irq,
      row p.slave_mask (irq - 8),
      bit p.master_mask irq j,
      bit p.slave_mask (irq - 8) (j - 8),
    )

-- With masks that are bytes, masking one of the 16 lines sets its mask bit and no other line's,
-- and keeps the masks bytes.
pub masked-disable_irq :
    (p : Pic) (irq j : ℕ)
    → IsValid p
    → irq < 16
    → j < 16
    → IsValid (disable_irq irq p)
      × (masked (disable_irq irq p) j ≡ (if irq == j then 1 else masked p j))
unfolding masked disable_irq
masked-disable_irq p irq j v hi hj =
    let row = table_row set_bit 1 set_table in
    let bit = table_bit set_bit 1 set_table in
    ground (
      arith,
      row p.master_mask irq,
      row p.slave_mask (irq - 8),
      bit p.master_mask irq j,
      bit p.slave_mask (irq - 8) (j - 8),
    )
