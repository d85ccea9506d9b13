-- ===== src/Kernel/Boot/Magic.antt =====
-- entry under a boot loader that is not a Multiboot one.
use linux_operating_system.Prelude.{
  ℕ, zero, suc, ◌+◌, ◌-◌, ◌*◌, ◌≤◌, ◌<◌, ◌≡◌, refl, ◌∙◌, ◌≢◌, ◌⊎◌, false, some, List, [], ◌∷◌, ◌++◌,
  arith, ◌==◌, length, Memory, codes, word,
}
use linux_operating_system.CLib.Printf.Text.{numeral}
use linux_operating_system.CLib.Printf.Signed.{zeros}
use linux_operating_system.CLib.Console.{Console, put_text, printf}
use linux_operating_system.CLib.Console.Puts.{SameOff}
use linux_operating_system.CLib.Console.Rendering.{
  literal, hex_padded, format_of, args_of, text_of, IsPrintable, flat, ArePrintable, printf-flat,
}
use linux_operating_system.CLib.Console.Plain.{behind, is_plain, behind-ArePrintable}
use linux_operating_system.Terminal.Calls.{blank_cells, clear}
use linux_operating_system.Kernel.{with_mem, Frame}
use linux_operating_system.Kernel.Boot.Start.{
  Machine, Setup, on_console, print_magic, stopped, multiboot_magic, entry,
}

-- The text that the message stands for.
abbrev pub magic_text : ℕ → List ℕ
magic_text magic =
    codes "Invalid magic number: 0x"
    ++ ((zeros (8 - length (numeral 33 16 magic)) ++ numeral 33 16 magic) ++ (10 ∷ []))

blank_cells_frame :
    (left base i : ℕ) (m : Memory) (x : ℕ)
    → (x < base + i * 2) ⊎ (base + (i + left) * 2 ≤ x)
    → blank_cells left base i m x ≡ m x
unfolding blank_cells
blank_cells_frame zero base i m x o = refl
blank_cells_frame (suc left) base i m x o =
    blank_cells_frame left base (i + 1) _ x (omega arith) ∙ ground arith

clear_frame : (m : Memory) → SameOff m (clear m)
unfolding clear
clear_frame m x o = blank_cells_frame 2000 753664 0 m x (omega arith)

printf-magic :
    (fuel magic : ℕ) (c : Console)
    → 34 < fuel
    → magic < word
    → (printf fuel (codes "Invalid magic number: 0x%#x\n") (magic ∷ []) c
        ≡ some (28, put_text (magic_text magic) c))
      × SameOff c.mem (put_text (magic_text magic) c).mem
unfolding behind is_plain flat format_of args_of text_of ArePrintable IsPrintable
printf-magic fuel magic c h lt =
    let text = codes "Invalid magic number: 0x" in
    let ds = hex_padded magic ∷ literal 10 ∷ [] in
    printf-flat fuel (behind text ds) c h
      (behind-ArePrintable fuel c.mem text ds refl (lt, ((λ e. absurd (omega arith)), tt)))

-- entry with a magic number that is not the Multiboot one, on more than 34 units of fuel: it clears
-- the screen, prints the number as eight digits and stops. Nothing is initialised: only the memory of
-- the screen and the cursor of the console have changed.
pub entry-magic :
    (fuel rounds : ℕ) (u : Setup) (f : Frame) (magic addr : ℕ) (b : Machine)
    → 34 < fuel
    → magic < word
    → magic ≢ multiboot_magic
    → (b' : Machine) × (entry fuel rounds u f magic addr b ≡ some (stopped b'))
      × (b' ≡ record b {
        kernel = with_mem b.kernel b'.kernel.term.mem;
        screen_x = b'.screen_x;
        screen_y = b'.screen_y;
      })
      × (b'.kernel.term.mem
          ≡ (put_text (magic_text magic) (record {
            mem = clear b.kernel.term.mem;
            screen_x = b.screen_x;
            screen_y = b.screen_y;
          })).mem)
      × SameOff b.kernel.term.mem b'.kernel.term.mem
unfolding entry on_console print_magic
entry-magic fuel rounds u f magic addr b h lt q =
    let z : (magic == multiboot_magic) ≡ false = ground arith in
    let c : Console = record {
      mem = clear b.kernel.term.mem;
      screen_x = b.screen_x;
      screen_y = b.screen_y;
    } in
    let c' = put_text (magic_text magic) c in
    let (run, off) = printf-magic fuel magic c h lt in
    (
      record b {
        kernel = with_mem b.kernel c'.mem;
        screen_x = c'.screen_x;
        screen_y = c'.screen_y;
      },
      rw (z, run) refl,
      refl,
      refl,
      (λ x o. off x o ∙ clear_frame b.kernel.term.mem x o),
    )
