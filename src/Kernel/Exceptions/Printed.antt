-- ===== src/Kernel/Exceptions/Printed.antt =====
-- The messages of the exceptions come out: terminal_printf returns on each.
use linux_operating_system.Prelude.{
  ℕ, ◌+◌, ◌-◌, ◌≤◌, ◌<◌, ◌≡◌, refl, ap, ◌∙◌, true, some, List, [], ◌∷◌, ◌++◌, arith, length,
  length-append, Memory, codes, word,
}
use linux_operating_system.CLib.Printf.Text.{numeral}
use linux_operating_system.CLib.Printf.Signed.{zeros, length-numeral, length-zeros}
use linux_operating_system.CLib.Console.Rendering.{
  Directive, literal, hex_padded, format_of, args_of, text_of, IsPrintable, flat, ArePrintable,
}
use linux_operating_system.CLib.Console.Plain.{behind, is_plain, behind-ArePrintable}
use linux_operating_system.Terminal.{Term}
use linux_operating_system.Terminal.Safety.{IsReady}
use linux_operating_system.Terminal.Messages.{HasNoString, HaveNoString, terminal_printf-safe}
use linux_operating_system.Kernel.{Kernel, say, tell}

behind_lem :
    (m : Memory) (cs : List ℕ) (ds : List Directive)
    → HaveNoString ds
    → (flat format_of (behind cs ds) ≡ cs ++ flat format_of ds)
      × (flat args_of (behind cs ds) ≡ flat args_of ds)
      × (length (flat (text_of m) (behind cs ds)) ≡ length cs + length (flat (text_of m) ds))
      × HaveNoString (behind cs ds)
unfolding behind flat format_of args_of text_of HaveNoString HasNoString
behind_lem m [] ds q = (refl, refl, omega arith, q)
behind_lem m (c ∷ cs) ds q =
    let (a, b, d, q') = behind_lem m cs ds q in (ap (λ xs. c ∷ xs) a, b, omega arith, (tt, q'))

-- The running terminal can print, and the line has room for a message.
pub record CanPrint (t : ℕ) (k : Kernel) : Type 0 where
  pub ready : IsReady t k.term
  pub room : k.term.curr_idx t ≤ 63

-- The kernel with another state of the terminals, that can print.
pub record Printed (t : ℕ) (k k' : Kernel) : Type 0 where
  pub terminals : (s : Term) × (k' ≡ record k { term = s })
  pub again : CanPrint t k'

tell-Printed :
    (t : ℕ) (ds : List Directive) (k : Kernel)
    → CanPrint t k
    → ArePrintable 40 k.term.mem ds
    → HaveNoString ds
    → length (flat (text_of k.term.mem) ds) ≤ 64
    → length (flat format_of ds) ≤ 127
    → (k' : Kernel) × (tell (flat format_of ds) (flat args_of ds) k ≡ some k') × Printed t k k'
unfolding tell
tell-Printed t ds k c p q h i =
    let room = c.room in
    let (s, run, ready, z, w, r, o, i) =
      terminal_printf-safe 40 t ds k.term (omega arith) c.ready p q (omega arith) i in
    (
      record k { term = s },
      rw run refl,
      record { terminals = (s, refl); again = record { ready = ready; room = omega arith } },
    )

append-nil : (xs : List ℕ) → xs ++ [] ≡ xs
append-nil [] = refl
append-nil (x ∷ xs) = ap (λ ys. x ∷ ys) (append-nil xs)

pub Printed-trans : (t : ℕ) (a b c : Kernel) → Printed t a b → Printed t b c → Printed t a c
Printed-trans t a b c p q =
    let (s, e) = p.terminals in
    let (s', e') = q.terminals in
    record { terminals = (s', e' ∙ ap (λ (u : Kernel). record u { term = s' }) e); again = q.again }

-- A message without a conversion.
pub say-Printed :
    (t : ℕ) (cs : List ℕ) (k : Kernel)
    → CanPrint t k
    → is_plain cs ≡ true
    → length cs ≤ 64
    → (k' : Kernel) × (say cs k ≡ some k') × Printed t k k'
unfolding say
say-Printed t cs k c h le =
    let (a, b, d, q) = behind_lem k.term.mem cs [] (unfold HaveNoString in tt) in
    let p = behind-ArePrintable 40 k.term.mem cs [] h (unfold ArePrintable in tt) in
    let a' : flat format_of (behind cs []) ≡ cs = a ∙ (unfold flat in append-nil cs) in
    let b' : flat args_of (behind cs []) ≡ [] = b ∙ (unfold flat in refl) in
    let n : length (flat (text_of k.term.mem) []) ≡ 0 = unfold flat in refl in
    let r = tell-Printed t (behind cs []) k c p q (omega arith) (rw a' (omega arith)) in
    rw (a', b') at r

line_length :
    (m : Memory) (v : ℕ) → v < word → length (flat (text_of m) (hex_padded v ∷ literal 10 ∷ [])) ≡ 9
unfolding flat text_of
line_length m v lt =
    let d = numeral 33 16 v in
    let le = length-numeral 33 7 16 v (omega arith) lt in
    let z = length-zeros (8 - length d) in
    rw (length-append (zeros (8 - length d) ++ d) (10 ∷ []), length-append (zeros (8 - length d)) d)
      (omega arith)

-- A message that ends in `%#x` and a line feed.
pub line-Printed :
    (t : ℕ) (cs : List ℕ) (v : ℕ) (k : Kernel)
    → CanPrint t k
    → is_plain cs ≡ true
    → length cs ≤ 40
    → v < word
    → (k' : Kernel) × (tell (cs ++ codes "%#x\n") (v ∷ []) k ≡ some k') × Printed t k k'
line-Printed t cs v k c h le lt =
    let ds = hex_padded v ∷ literal 10 ∷ [] in
    let (a, b, d, q) =
      behind_lem k.term.mem cs ds (unfold HaveNoString HasNoString in (tt, (tt, tt))) in
    let p =
      behind-ArePrintable 40 k.term.mem cs ds h
        (unfold ArePrintable IsPrintable in (lt, ((λ e. absurd (omega arith)), tt))) in
    let a' : flat format_of (behind cs ds) ≡ cs ++ codes "%#x\n" =
      a ∙ (unfold flat format_of in refl) in
    let b' : flat args_of (behind cs ds) ≡ v ∷ [] = b ∙ (unfold flat args_of in refl) in
    let n : length (flat (text_of k.term.mem) ds) ≡ 9 = line_length k.term.mem v lt in
    let l : length (cs ++ codes "%#x\n") ≡ length cs + 4 = length-append cs (codes "%#x\n") in
    let r = tell-Printed t (behind cs ds) k c p q (omega arith) (rw a' (omega arith)) in
    rw (a', b') at r
