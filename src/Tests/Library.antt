-- ===== src/Tests/Library.antt =====
-- lib.c on concrete strings and blocks.
use linux_operating_system.Prelude.{
  ℕ, ◌+◌, ◌-◌, ◌%◌, ◌≤◌, ◌<◌, min, ◌≡◌, refl, ◌≢◌, ◌↔◌, ◌⊎◌, inl, some, arith, pos, Memory, moved,
  filled, is_table,
}
use linux_operating_system.CLib.Blocks.{memcpy, memmove, memset}
use linux_operating_system.CLib.Blocks.Copy.{memcpy-moved, memmove-moved}
use linux_operating_system.CLib.Blocks.Fill.{memset-filled}
use linux_operating_system.CLib.Strings.{strncpy, strncmp, strrev, itoa}
use linux_operating_system.CLib.Strings.Laws.{IsCString, strncpy-IsCString}
use linux_operating_system.CLib.Strings.Compare.{strncmp_iff}
use linux_operating_system.CLib.Strings.Reverse.{mirrored, strrev-IsCString}
use linux_operating_system.CLib.Strings.Numerals.{IsNumeral, itoa-IsNumeral}
use linux_operating_system.Tests.Machine.{fname_at, image, nonzero_below}

memcpy-moved_example : memcpy 301 fname_at 4 image ≡ moved 301 fname_at 4 image
memcpy-moved_example = memcpy-moved 301 fname_at 4 image (inl (omega arith))

memmove-moved_example :
    memmove (fname_at + 1) fname_at 4 image ≡ moved (fname_at + 1) fname_at 4 image
memmove-moved_example = memmove-moved (fname_at + 1) fname_at 4 image

memset-filled_example : memset 301 0x120 7 image ≡ filled 301 0x20 7 image
memset-filled_example = memset-filled 301 0x120 7 image

-- The name in the image.
name : IsCString image fname_at 4
unfolding is_table
name = record { body = nonzero_below 4 (λ i. image (fname_at + i)) refl; end = refl }

strncpy-IsCString_example :
    strncpy 300 fname_at 6 image
    ≡ filled (300 + min 4 6) 0 (6 - 4) (moved 300 fname_at (min 4 6) image)
strncpy-IsCString_example = strncpy-IsCString 300 6 name (inl (omega arith))

strrev-IsCString_example : strrev 9 fname_at image ≡ some (mirrored fname_at 4 image)
strrev-IsCString_example = strrev-IsCString 9 name (omega arith)

strncmp_iff_example :
    (strncmp (λ x. x % 8) 5 13 6 ≡ pos 0)
    ↔ ((j : ℕ) → j < 6 → ((l : ℕ) → l < j → (5 + l) % 8 ≢ 0) → (5 + j) % 8 ≡ (13 + j) % 8)
strncmp_iff_example = strncmp_iff (λ x. x % 8) 5 13 6 (λ x. omega arith)

itoa-IsNumeral_example :
    (n : ℕ) × (m' : Memory) × (itoa 12 0x2A5 300 16 image ≡ some m')
    × IsNumeral 16 0x2A5 m' 300 n
    × ((x : ℕ) → (x < 300) ⊎ (300 + n < x) → m' x ≡ image x)
    × (n ≤ 10 + 1)
itoa-IsNumeral_example =
    itoa-IsNumeral 12 0x2A5 300 16 10 image (omega arith) (omega arith) (omega arith) (omega arith)
