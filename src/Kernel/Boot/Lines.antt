-- ===== src/Kernel/Boot/Lines.antt =====
-- The lines that entry prints for a module come out.
use linux_operating_system.Prelude.{
  ℕ, ◌+◌, ◌≤◌, ◌<◌, ◌≡◌, refl, sym, ◌∙◌, ◌⊎◌, true, Option, some, List, [], ◌∷◌, arith, codes, word,
}
use linux_operating_system.CLib.Console.{Console, video_mem, put_text}
use linux_operating_system.CLib.Console.Puts.{SameOff}
use linux_operating_system.CLib.Console.Rendering.{
  Directive, literal, hex, hex_padded, signed, format_of, args_of, text_of, IsPrintable, flat,
  ArePrintable, printf-flat,
}
use linux_operating_system.CLib.Console.Plain.{behind, is_plain, behind-ArePrintable}
use linux_operating_system.Kernel.Boot.{print}

-- The block of `n` bytes at `a` does not touch the screen.
abbrev pub Off : ℕ → ℕ → Type 0
Off a n = (a + n ≤ video_mem) ⊎ (video_mem + 4000 ≤ a)

-- A text comes out, and only the screen changes.
abbrev pub Prints : List ℕ → (Console → Option Console) → Console → Type 0
Prints printed line c =
    (line c ≡ some (put_text printed c)) × SameOff c.mem (put_text printed c).mem

-- What directives without a string come to, which no memory matters to.
abbrev pub line_text : List Directive → List ℕ
line_text ds = flat (text_of (λ _. 0)) ds

-- The lines of a module, the numerals in base 16 after "0x".
unfoldable pub address_line : ℕ → List ℕ → ℕ → List Directive
address_line n text v =
    behind (codes "Module ") (signed n ∷ behind text (hex_padded v ∷ literal 10 ∷ []))

abbrev pub start_line_of : ℕ → ℕ → List Directive
start_line_of n v = address_line n (codes " loaded at address: 0x") v

abbrev pub end_line_of : ℕ → ℕ → List Directive
end_line_of n v = address_line n (codes " ends at address: 0x") v

abbrev pub byte_text : ℕ → List Directive
byte_text v = behind (codes "0x") (hex v ∷ literal b' ' ∷ [])

print-Prints :
    (fuel : ℕ) (ds : List Directive) (c : Console)
    → 34 < fuel
    → ArePrintable fuel c.mem ds
    → flat (text_of c.mem) ds ≡ line_text ds
    → Prints (line_text ds) (print fuel (flat format_of ds) (flat args_of ds)) c
print-Prints fuel ds c h p e =
    let (run, off) = printf-flat fuel ds c h p in rw (← e) (rw run refl, off)

module _ (fuel : ℕ) (c : Console) (h : 34 < fuel) where
  -- "0x%x " of a byte of a module.
  pub byte-Prints :
      (v : ℕ) → v < word → Prints (line_text (byte_text v)) (print fuel (codes "0x%x ") (v ∷ [])) c
  unfolding behind text_of is_plain flat format_of args_of ArePrintable IsPrintable
  byte-Prints v lt =
      let text = codes "0x" in
      let ds = hex v ∷ literal b' ' ∷ [] in
      print-Prints fuel (behind text ds) c h
        (behind-ArePrintable fuel c.mem text ds refl (lt, ((λ e. absurd (omega arith)), tt))) refl

  plain-Prints :
      (text : List ℕ)
      → is_plain text ≡ true
      → flat format_of (behind text []) ≡ text
      → flat args_of (behind text []) ≡ []
      → flat (text_of c.mem) (behind text []) ≡ text
      → line_text (behind text []) ≡ text
      → Prints text (print fuel text []) c
  plain-Prints text p e a u w =
      let q =
        print-Prints fuel (behind text []) c h
          (behind-ArePrintable fuel c.mem text [] p (unfold ArePrintable in tt)) (u ∙ sym w) in
      rw (e, a, w) at q

  address_line-ArePrintable :
      (n : ℕ) (text : List ℕ) (v : ℕ)
      → n < word
      → v < word
      → is_plain text ≡ true
      → ArePrintable fuel c.mem (address_line n text v)
  unfolding address_line ArePrintable IsPrintable is_plain
  address_line-ArePrintable n text v ln lv p =
      behind-ArePrintable fuel c.mem (codes "Module ") _ refl
        (ln, behind-ArePrintable fuel c.mem text _ p (lv, ((λ e. absurd (omega arith)), tt)))

  pub loaded-Prints :
      (n v : ℕ)
      → n < word
      → v < word
      → Prints
          (line_text (start_line_of n v))
          (print fuel (codes "Module %d loaded at address: 0x%#x\n") (n ∷ v ∷ []))
          c
  unfolding address_line behind is_plain flat format_of args_of text_of
  loaded-Prints n v ln lv =
      print-Prints fuel (address_line n (codes " loaded at address: 0x") v) c h
        (address_line-ArePrintable n (codes " loaded at address: 0x") v ln lv refl) refl

  pub ends-Prints :
      (n v : ℕ)
      → n < word
      → v < word
      → Prints
          (line_text (end_line_of n v))
          (print fuel (codes "Module %d ends at address: 0x%#x\n") (n ∷ v ∷ []))
          c
  unfolding address_line behind is_plain flat format_of args_of text_of
  ends-Prints n v ln lv =
      print-Prints fuel (address_line n (codes " ends at address: 0x") v) c h
        (address_line-ArePrintable n (codes " ends at address: 0x") v ln lv refl) refl

  pub first-Prints :
      Prints
        (codes "First few bytes of module:\n")
        (print fuel (codes "First few bytes of module:\n") [])
        c
  unfolding behind is_plain flat format_of args_of text_of
  first-Prints = plain-Prints (codes "First few bytes of module:\n") refl refl refl refl refl

  pub feed-Prints : Prints (codes "\n") (print fuel (codes "\n") []) c
  unfolding behind is_plain flat format_of args_of text_of
  feed-Prints = plain-Prints (codes "\n") refl refl refl refl refl
