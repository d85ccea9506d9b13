-- ===== src/Kernel/Descriptors/Segments.antt =====
-- The segment descriptors hold the address, the limit and the kind of their tables.
use linux_operating_system.Prelude.{ℕ, ◌+◌, ◌*◌, ◌/◌, ◌%◌, ◌<◌, ◌≡◌, arith, word}
use linux_operating_system.Kernel.Descriptors.{SegDesc, set_seg_params, ldt_entry, tss_entry}

-- The two words of a descriptor, by the layout of its bit fields.
unfoldable pub seg_words : SegDesc → ℕ × ℕ
seg_words d = (
  d.base_15_00 * 65536 + d.seg_lim_15_00,
  d.base_31_24 * 16777216
      + d.granularity * 8388608
      + d.opsize * 4194304
      + d.reserved * 2097152
      + d.avail * 1048576
      + d.seg_lim_19_16 * 65536
      + d.present * 32768
      + d.dpl * 8192
      + d.sys * 4096
      + d.seg_type * 256
      + d.base_23_16,
)

-- What the processor reads of the two words: base, limit, and the byte of type, privilege and present
-- bit.
unfoldable pub base_in : ℕ × ℕ → ℕ
base_in (low, high) = high / 16777216 * 16777216 + high % 256 * 65536 + low / 65536

unfoldable pub limit_in : ℕ × ℕ → ℕ
limit_in (low, high) = high / 65536 % 16 * 65536 + low % 65536

unfoldable pub access_in : ℕ × ℕ → ℕ
access_in (low, high) = high / 256 % 256

-- The processor reads back the address, the limit and the kind.
abbrev pub IsSegment : ℕ → ℕ → ℕ → SegDesc → Type 0
IsSegment kind addr lim d =
    (base_in (seg_words d) ≡ addr)
    × (limit_in (seg_words d) ≡ lim)
    × (access_in (seg_words d) ≡ kind)

-- The descriptors that entry makes of an address below 2 ^ 32 and a limit below 2 ^ 20, whatever the
-- structures held before: the processor reads that address and that limit in them, the present system
-- descriptor of an LDT in the first, and that of an available 32-bit TSS in the second.
pub entry-IsSegment :
    (temp : SegDesc) (addr lim : ℕ)
    → addr < word
    → lim < 1048576
    → IsSegment 0x82 addr lim (ldt_entry temp addr lim)
      × IsSegment 0x89 addr lim (tss_entry temp addr lim)
unfolding seg_words base_in limit_in access_in ldt_entry tss_entry set_seg_params
entry-IsSegment temp addr lim h l =
    ((omega arith, omega arith, omega arith), (omega arith, omega arith, omega arith))
