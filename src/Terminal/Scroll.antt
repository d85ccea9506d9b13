-- ===== src/Terminal/Scroll.antt =====
-- Scrolling moves every row up by one and blanks the last, although its copy overlaps itself.
use linux_operating_system.Prelude.{
  ℕ, ◌+◌, ◌-◌, ◌*◌, ◌%◌, ◌≡◌, ◌∙◌, inl, ◌&&◌, arith, ltb, leb, ◌==◌, if◌then◌else◌, Memory,
}
use linux_operating_system.CLib.Blocks.{memcpy}
use linux_operating_system.CLib.Blocks.Copy.{memcpy-moved}
use linux_operating_system.CLib.Blocks.Fill.{memset_word_lem}
use linux_operating_system.Terminal.{scroll, attrib}

-- After a scroll each of the first 24 rows of 160 bytes holds what the row below held, the last one
-- holds blanks with the standard attribute, and no byte outside the block has changed.
pub scroll_lem :
    (base : ℕ) (m : Memory) (x : ℕ)
    → scroll base m x ≡ (
        if leb base x && ltb x (base + 3840)
        then m (x + 160)
        else if leb base x && ltb x (base + 4000)
        then if (x - base) % 2 == 0 then b' ' else attrib
        else m x)
unfolding scroll
scroll_lem base m x =
    memset_word_lem 80 (base + 3840) 0x0720 (memcpy base (base + 80 * 2) 3840 m) x
    ∙ rw (memcpy-moved base (base + 80 * 2) 3840 m (inl (omega arith))) (ground arith)
