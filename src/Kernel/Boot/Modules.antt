-- ===== src/Kernel/Boot/Modules.antt =====
-- entry lists the modules that the boot loader has loaded: what it prints for them.
use linux_operating_system.Prelude.{
  ℕ, zero, suc, ◌+◌, ◌*◌, ◌≤◌, ◌<◌, ◌≡◌, refl, ◌∙◌, subst, ◌⊎◌, true, false, List, [], ◌++◌, arith,
  ltb, Memory, load32, codes, word,
}
use linux_operating_system.CLib.Console.{Console, video_mem, put_text}
use linux_operating_system.CLib.Console.Puts.{SameOff, put_text-append}
use linux_operating_system.Kernel.Boot.{
  mods_count, sign_extended, print_bytes, print_module, print_modules,
}
use linux_operating_system.Kernel.Boot.Lines.{
  Off, Prints, line_text, start_line_of, end_line_of, byte_text, byte-Prints, loaded-Prints,
  ends-Prints, first-Prints, feed-Prints,
}

-- Bytes off the screen, and the words that they make.
abbrev pub HasBytes : Memory → Type 0
HasBytes m = (x : ℕ) → (x < video_mem) ⊎ (video_mem + 4000 ≤ x) → m x < 256

HasBytes-off : (m m' : Memory) → SameOff m m' → HasBytes m → HasBytes m'
HasBytes-off m m' f h x o = rw (f x o) (h x o)

load32_below : (m : Memory) (a : ℕ) → HasBytes m → Off a 4 → load32 m a < word
load32_below m a h o =
    let b0 = h a (omega arith) in
    let b1 = h (a + 1) (omega arith) in
    let b2 = h (a + 2) (omega arith) in let b3 = h (a + 3) (omega arith) in omega arith

load32_off : (m m' : Memory) (a : ℕ) → SameOff m m' → Off a 4 → load32 m' a ≡ load32 m a
load32_off m m' a f o =
    rw
      (f a (omega arith), f (a + 1) (omega arith), f (a + 2) (omega arith), f (a + 3) (omega arith))
      refl

sign_extended_below : (c : ℕ) → c < 256 → sign_extended c < word
sign_extended_below c h = ground arith

-- A module's record and its first 16 bytes lie off the screen.
pub record IsModule (m : Memory) (module_at : ℕ) : Type 0 where
  pub entry : Off module_at 8
  pub start : Off (load32 m module_at) 16

IsModule-off :
    (m m' : Memory) (module_at : ℕ) → SameOff m m' → IsModule m module_at → IsModule m' module_at
IsModule-off m m' module_at f d =
    let e = d.entry in
    record { entry = e; start = rw (load32_off m m' module_at f (omega arith)) d.start }

-- The bytes from the `i`th on, sign-extended.
unfoldable pub bytes_text : Memory → ℕ → ℕ → ℕ → List ℕ
bytes_text m start zero i = []
bytes_text m start (suc left) i =
    line_text (byte_text (sign_extended (m (start + i)))) ++ bytes_text m start left (i + 1)

-- What is printed for a module: where it starts and ends, and its first 16 bytes.
unfoldable pub module_text : Memory → ℕ → ℕ → List ℕ
module_text m mod_count module_at =
    line_text (start_line_of mod_count (load32 m module_at))
    ++ (line_text (end_line_of mod_count (load32 m (module_at + 4)))
        ++ (codes "First few bytes of module:\n"
            ++ (bytes_text m (load32 m module_at) 16 0 ++ codes "\n")))

unfoldable pub modules_text : Memory → ℕ → ℕ → ℕ → List ℕ
modules_text m mod_count module_at zero = []
modules_text m mod_count module_at (suc left) =
    module_text m mod_count module_at ++ modules_text m (mod_count + 1) (module_at + 16) left

bytes_text_off :
    (m m' : Memory) (start left i : ℕ)
    → SameOff m m'
    → Off start 16
    → i + left ≤ 16
    → bytes_text m' start left i ≡ bytes_text m start left i
unfolding bytes_text
bytes_text_off m m' start zero i f o le = refl
bytes_text_off m m' start (suc left) i f o le =
    rw (f (start + i) (omega arith), bytes_text_off m m' start left (i + 1) f o (omega arith)) refl

module_text_off :
    (m m' : Memory) (n module_at : ℕ)
    → SameOff m m'
    → IsModule m module_at
    → module_text m' n module_at ≡ module_text m n module_at
unfolding module_text
module_text_off m m' n module_at f d =
    let e = d.entry in
    rw
      (
        load32_off m m' module_at f (omega arith),
        load32_off m m' (module_at + 4) f (omega arith),
        bytes_text_off m m' (load32 m module_at) 16 0 f d.start (omega arith),
      )
      refl

modules_text_off :
    (m m' : Memory) (n module_at left : ℕ)
    → SameOff m m'
    → ((i : ℕ) → i < left → IsModule m (module_at + 16 * i))
    → modules_text m' n module_at left ≡ modules_text m n module_at left
unfolding modules_text
modules_text_off m m' n module_at zero f d = refl
modules_text_off m m' n module_at (suc left) f d =
    rw
      (
        module_text_off m m' n module_at f (subst (IsModule m) (omega arith) (d 0 (omega arith))),
        modules_text_off m m' (n + 1) (module_at + 16) left f
            (λ i p. subst (IsModule m) (omega arith) (d (suc i) (omega arith))),
      )
      refl

print_bytes-Prints :
    (fuel left i module_at : ℕ) (c : Console)
    → 34 < fuel
    → i + left ≤ 16
    → HasBytes c.mem
    → IsModule c.mem module_at
    → Prints
        (bytes_text c.mem (load32 c.mem module_at) left i)
        (print_bytes fuel left i module_at)
        c
unfolding print_bytes bytes_text put_text
print_bytes-Prints fuel zero i module_at c h le b d = (refl, (λ x o. refl))
print_bytes-Prints fuel (suc left) i module_at c h le b d =
    let o = d.start in
    let v = sign_extended (c.mem (load32 c.mem module_at + i)) in
    let here = b (load32 c.mem module_at + i) (omega arith) in
    let (run, off) = byte-Prints fuel c h v (sign_extended_below _ here) in
    let c1 = put_text (line_text (byte_text v)) c in
    let later =
      print_bytes-Prints fuel left (i + 1) module_at c1 h (omega arith)
        (HasBytes-off c.mem c1.mem off b) (IsModule-off c.mem c1.mem module_at off d) in
    let start = let e = d.entry in load32_off c.mem c1.mem module_at off (omega arith) in
    let same : bytes_text c1.mem (load32 c1.mem module_at) left (i + 1)
        ≡ bytes_text c.mem (load32 c.mem module_at) left (i + 1) =
      rw start
        (bytes_text_off c.mem c1.mem (load32 c.mem module_at) left (i + 1) off o (omega arith)) in
    let (run2, off2) =
      subst (λ (cs : List ℕ). Prints cs (print_bytes fuel left (i + 1) module_at) c1) same later in
    rw
      (put_text-append (line_text (byte_text v))
        (bytes_text c.mem (load32 c.mem module_at) left (i + 1)) c)
      (rw (run, print_bytes) run2, (λ x q. off2 x q ∙ off x q))

print_module-Prints :
    (fuel mod_count module_at : ℕ) (c : Console)
    → 34 < fuel
    → mod_count < word
    → HasBytes c.mem
    → IsModule c.mem module_at
    → Prints (module_text c.mem mod_count module_at) (print_module fuel mod_count module_at) c
unfolding print_module module_text
print_module-Prints fuel mod_count module_at c h lt b d =
    let e = d.entry in
    let v = load32 c.mem module_at in
    let w = load32 c.mem (module_at + 4) in
    let one =
      loaded-Prints fuel c h mod_count v lt (load32_below c.mem module_at b (omega arith)) in
    let c1 = put_text (line_text (start_line_of mod_count v)) c in
    let two =
      ends-Prints fuel c1 h mod_count w lt (load32_below c.mem (module_at + 4) b (omega arith)) in
    let c2 = put_text (line_text (end_line_of mod_count w)) c1 in
    let three = first-Prints fuel c2 h in
    let c3 = put_text (codes "First few bytes of module:\n") c2 in
    let f1 = one.1 in
    let f3 : SameOff c.mem c3.mem = λ x o. three.1 x o ∙ two.1 x o ∙ one.1 x o in
    let four =
      print_bytes-Prints fuel 16 0 module_at c3 h (omega arith) (HasBytes-off c.mem c3.mem f3 b)
        (IsModule-off c.mem c3.mem module_at f3 d) in
    let start = load32_off c.mem c3.mem module_at f3 (omega arith) in
    let same : bytes_text c3.mem (load32 c3.mem module_at) 16 0 ≡ bytes_text c.mem v 16 0 =
      rw start (bytes_text_off c.mem c3.mem v 16 0 f3 d.start (omega arith)) in
    let (run4, o4) =
      subst (λ (cs : List ℕ). Prints cs (print_bytes fuel 16 0 module_at) c3) same four in
    let c4 = put_text (bytes_text c.mem v 16 0) c3 in
    let five = feed-Prints fuel c4 h in
    let again = load32_off c.mem c1.mem (module_at + 4) f1 (omega arith) in
    rw
      (
        put_text-append (line_text (start_line_of mod_count v)) _ c,
        put_text-append (line_text (end_line_of mod_count w)) _ c1,
        put_text-append (codes "First few bytes of module:\n") _ c2,
        put_text-append (bytes_text c.mem v 16 0) (codes "\n") c3,
      )
      (rw (one.0, again, two.0, three.0, run4) five.0, (λ x o. five.1 x o ∙ o4 x o ∙ f3 x o))

-- The list of modules from `module_at` on lies off the screen.
pub record AreModules (m : Memory) (addr module_at left : ℕ) : Type 0 where
  pub bytes : HasBytes m
  pub count : Off (addr + 20) 4
  pub modules : (i : ℕ) → i < left → IsModule m (module_at + 16 * i)

-- The loop over the modules, when the bytes off the screen are bytes and the count, the modules' records
-- and their first 16 bytes lie there: with more rounds than there are modules left, and more than 34
-- units of fuel for the conversions, it puts on the console exactly the lines of each module that is left,
-- in their order, with its number, its start, its end and its first 16 bytes sign-extended, and nothing
-- off the screen changes.
pub print_modules-ends :
    (fuel rounds addr mod_count module_at left : ℕ) (c : Console)
    → 34 < fuel
    → left < rounds
    → mods_count addr c.mem ≡ mod_count + left
    → AreModules c.mem addr module_at left
    → Prints
        (modules_text c.mem mod_count module_at left)
        (print_modules fuel rounds addr mod_count module_at)
        c
unfolding print_modules modules_text put_text
print_modules-ends fuel zero addr mod_count module_at left c h r e d = absurd (omega arith)
print_modules-ends fuel (suc rounds) addr mod_count module_at zero c h r e d =
    let done : ltb mod_count (mods_count addr c.mem) ≡ false = ground arith in
    (rw (print_modules, done) refl, (λ x o. refl))
print_modules-ends fuel (suc rounds) addr mod_count module_at (suc left) c h r e d =
    let more : ltb mod_count (mods_count addr c.mem) ≡ true = ground arith in
    let o = d.count in
    let few = load32_below c.mem (addr + 20) d.bytes o in
    let first : IsModule c.mem module_at =
      subst (IsModule c.mem) (omega arith) (d.modules 0 (omega arith)) in
    let (run, off) =
      (print_module-Prints fuel mod_count module_at c h (omega arith) d.bytes first) in
    let rest : (i : ℕ) → i < left → IsModule c.mem (module_at + 16 + 16 * i) =
      λ i p. subst (IsModule c.mem) (omega arith) (d.modules (suc i) (omega arith)) in
    let c1 = put_text (module_text c.mem mod_count module_at) c in
    let later =
      print_modules-ends fuel rounds addr (mod_count + 1) (module_at + 16) left c1 h (omega arith)
        (load32_off c.mem c1.mem (addr + 20) off o ∙ e ∙ omega arith)
        (record {
          bytes = HasBytes-off c.mem c1.mem off d.bytes;
          count = o;
          modules = λ i p. IsModule-off c.mem c1.mem (module_at + 16 + 16 * i) off (rest i p);
        }) in
    let same = modules_text_off c.mem c1.mem (mod_count + 1) (module_at + 16) left off rest in
    let (run2, off2) =
      subst
        (λ (cs : List ℕ).
          Prints cs (print_modules fuel rounds addr (mod_count + 1) (module_at + 16)) c1)
        same later in
    rw (put_text-append (module_text c.mem mod_count module_at) _ c)
      (rw (print_modules, more, run) run2, (λ x q. off2 x q ∙ off x q))
