-- ===== src/CLib/Console/Plain.antt =====
-- Formats that begin with a text without '%'.
use linux_operating_system.Prelude.{
  ℕ, ◌≡◌, Bool, true, ◌&&◌, not, List, [], ◌∷◌, arith, ◌==◌, Memory,
}
use linux_operating_system.CLib.Console.Rendering.{Directive, literal, IsPrintable, ArePrintable}

-- The literals `cs` before other directives.
unfoldable pub behind : List ℕ → List Directive → List Directive
behind [] ds = ds
behind (c ∷ cs) ds = literal c ∷ behind cs ds

unfoldable pub is_plain : List ℕ → Bool
is_plain [] = true
is_plain (c ∷ cs) = not (c == b'%') && is_plain cs

pub behind-ArePrintable :
    (fuel : ℕ) (m : Memory) (cs : List ℕ) (ds : List Directive)
    → is_plain cs ≡ true
    → ArePrintable fuel m ds
    → ArePrintable fuel m (behind cs ds)
unfolding behind is_plain ArePrintable IsPrintable
behind-ArePrintable fuel m [] ds h p = p
behind-ArePrintable fuel m (c ∷ cs) ds h p =
    (ground arith, behind-ArePrintable fuel m cs ds (ground arith) p)
