-- ===== src/CLib/Console/Puts.antt =====
-- The console writes on the screen only, and puts prints the bytes of its string.
use linux_operating_system.Prelude.{
  ℕ, zero, suc, ◌+◌, ◌≤◌, ◌<◌, ◌≡◌, refl, sym, ap, ◌∙◌, subst, ◌≢◌, ◌⊎◌, false, some, List, [], ◌∷◌,
  ◌++◌, arith, ◌==◌, Memory, bytes,
}
use linux_operating_system.CLib.Strings.Laws.{IsCString}
use linux_operating_system.CLib.Console.{Console, video_mem, putc, puts_from, puts, put_text}

-- The memory off the screen is the same.
abbrev pub SameOff : Memory → Memory → Type 0
SameOff m m' = (x : ℕ) → (x < video_mem) ⊎ (video_mem + 4000 ≤ x) → m' x ≡ m x

pub putc_frame : (c : ℕ) (s : Console) → SameOff s.mem (putc c s).mem
unfolding putc
putc_frame c s x h = ground arith

pub put_text_frame : (cs : List ℕ) (s : Console) → SameOff s.mem (put_text cs s).mem
unfolding put_text
put_text_frame [] s x h = refl
put_text_frame (c ∷ cs) s x h = put_text_frame cs (putc c s) x h ∙ putc_frame c s x h

pub put_text-append :
    (cs ds : List ℕ) (s : Console) → put_text (cs ++ ds) s ≡ put_text ds (put_text cs s)
unfolding put_text
put_text-append [] ds s = refl
put_text-append (c ∷ cs) ds s = put_text-append cs ds (putc c s)

pub bytes_off :
    (n a : ℕ) (m m' : Memory)
    → SameOff m m'
    → (a + n ≤ video_mem) ⊎ (video_mem + 4000 ≤ a)
    → bytes m' a n ≡ bytes m a n
bytes_off zero a m m' f h = refl
bytes_off (suc n) a m m' f h =
    ap (λ c. c ∷ bytes m' (a + 1) n) (f a (omega arith))
    ∙ ap (λ xs. m a ∷ xs) (bytes_off n (a + 1) m m' f (omega arith))

pub IsCString_off :
    (n a : ℕ) (m m' : Memory)
    → SameOff m m'
    → (a + n < video_mem) ⊎ (video_mem + 4000 ≤ a)
    → IsCString m a n
    → IsCString m' a n
IsCString_off n a m m' f h d = record {
  body = λ i p. rw (f (a + i) (omega arith)) (d.body i p);
  end = f (a + n) (omega arith) ∙ d.end;
}

puts_from_lem :
    (n fuel a index : ℕ) (s : Console)
    → n < fuel
    → (a + index + n < video_mem) ⊎ (video_mem + 4000 ≤ a)
    → IsCString s.mem (a + index) n
    → puts_from fuel a index s ≡ some (index + n, put_text (bytes s.mem (a + index) n) s)
unfolding puts_from put_text
puts_from_lem n zero a index s h o d = absurd (omega arith)
puts_from_lem zero (suc fuel) a index s h o d =
    let z : s.mem (a + index) ≡ 0 = ap s.mem (omega arith) ∙ d.end in
    rw (z, puts_from) (ap (λ k. some (k, s)) (omega arith))
puts_from_lem (suc n) (suc fuel) a index s h o d =
    let here : s.mem (a + index) ≢ 0 =
      subst (λ k. s.mem k ≢ 0) (omega arith) (d.body 0 (omega arith)) in
    let z : (s.mem (a + index) == 0) ≡ false = ground arith in
    let s' = putc (s.mem (a + index)) s in
    let f = putc_frame (s.mem (a + index)) s in
    let d' : IsCString s'.mem (a + (index + 1)) n =
      IsCString_off n (a + (index + 1)) s.mem s'.mem f (omega arith) (record {
        body = λ i p. subst (λ k. s.mem k ≢ 0) (omega arith) (d.body (suc i) (omega arith));
        end = ap s.mem (omega arith) ∙ d.end;
      }) in
    let same : bytes s'.mem (a + (index + 1)) n ≡ bytes s.mem (a + index + 1) n =
      bytes_off n (a + (index + 1)) s.mem s'.mem f (omega arith)
      ∙ ap (λ b. bytes s.mem b n) (omega arith) in
    rw (z, puts_from, puts_from_lem n fuel a (index + 1) s' (omega arith) (omega arith) d')
      (ap (λ k. some (k, put_text (bytes s'.mem (a + (index + 1)) n) s')) (omega arith)
        ∙ ap (λ cs. some (index + suc n, put_text cs s')) same)

-- On a string off the screen that is shorter than the fuel, puts prints its bytes and returns how
-- many they are.
pub puts-IsCString :
    (fuel n a : ℕ) (s : Console)
    → n < fuel
    → (a + n < video_mem) ⊎ (video_mem + 4000 ≤ a)
    → IsCString s.mem a n
    → puts fuel a s ≡ some (n, put_text (bytes s.mem a n) s)
unfolding puts
puts-IsCString fuel n a s h o d =
    let e : a ≡ a + 0 = omega arith in
    puts_from_lem n fuel a 0 s h (omega arith) (subst (λ b. IsCString s.mem b n) e d)
    ∙ ap (λ k. some (k, put_text (bytes s.mem (a + 0) n) s)) (omega arith)
    ∙ ap (λ b. some (n, put_text (bytes s.mem b n) s)) (sym e)
