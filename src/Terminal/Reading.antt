-- ===== src/Terminal/Reading.antt =====
-- terminal_read gives the program the line that was typed.
use linux_operating_system.Prelude.{
  ℕ, zero, suc, ◌+◌, ◌-◌, ◌≤◌, ◌<◌, ◌≡◌, refl, sym, ap, ◌∙◌, fun_ext, ◌≢◌, inl, inr, true, false,
  ◌&&◌, ◌||◌, some, List, [], ◌∷◌, ◌++◌, reverse, arith, ltb, leb, ◌==◌, if◌then◌else◌, Bool-cases,
  length, pos, Memory, store, bytes,
}
use mathlib.Core.List.{reverse-cons}
use linux_operating_system.CLib.Printf.Text.{bytes-last}
use linux_operating_system.CLib.Printf.Signed.{bytes_ext}
use linux_operating_system.Terminal.{Term, line_buffer_size, input_at}
use linux_operating_system.Terminal.Calls.{
  terminal_reset_buffer, read_begin, read_chars, read_end, read_wait, terminal_read,
}
use linux_operating_system.Terminal.Editing.{edit_all, fits, Holds}
use linux_operating_system.Terminal.Lines.{HasLine}
use linux_operating_system.Terminal.Waiting.{read_wait-HasLine, read_begin-IsReading}

-- The memory that the loop leaves, from column `i` to column `k`.
abbrev copied : ℕ → ℕ → ℕ → Term → Memory
copied k buf i s x =
    if leb (buf + i) x && ltb x (buf + k)
    then s.input_buffer (input_at s.disp_term 1 (x - buf))
    else s.mem x

copied_all :
    (k buf i : ℕ) (s : Term) → i ≡ k → ◌≡◌ {A = ℕ × Memory} (i, s.mem) (k, copied k buf i s)
copied_all k buf i s e =
    ap (λ n. (n, s.mem)) e ∙ ap (λ (f : Memory). (k, f)) (fun_ext λ x. ground arith)

copied_one :
    (k buf i x : ℕ) (s : Term)
    → i < k
    → copied k buf
        (i + 1)
        (record s { mem = store s.mem (buf + i) (s.input_buffer (input_at s.disp_term 1 i)) })
        x
      ≡ copied k buf i s x
copied_one k buf i x s h = elim (Bool-cases (x == buf + i)) [
  | inl e ↦
      let place : i ≡ x - buf = ground arith in
      let after : (leb (buf + (i + 1)) x && ltb x (buf + k)) ≡ false = ground arith in
      let here : (leb (buf + i) x && ltb x (buf + k)) ≡ true = ground arith in
      rw (after, here, e) (ap (λ j. s.input_buffer (input_at s.disp_term 1 j)) place)
  | inr e ↦ ground arith
]

-- The loop copies the `k` columns that are not NUL, and stops.
read_chars_lem :
    (k left buf i : ℕ) (s : Term)
    → k ≤ 128
    → i ≤ k
    → k ≤ i + left
    → ((j : ℕ) → j < k → s.input_buffer (input_at s.disp_term 1 j) ≢ 0)
    → ((j : ℕ)
        → k ≤ j
        → j < 128
        → (s.input_buffer (input_at s.disp_term 1 j) ≡ 0)
          × (s.input_buffer (input_at s.disp_term 0 j) ≡ 0))
    → read_chars left s buf i ≡ (k, copied k buf i s)
unfolding read_chars
read_chars_lem k zero buf i s h lo hi full empty = copied_all k buf i s (omega arith)
read_chars_lem k (suc left) buf i s h lo hi full empty = elim (Bool-cases (i == k)) [
  | inl e ↦
      let same : i ≡ k = ground arith in
      let stop : (((s.input_buffer (input_at s.disp_term 1 i) == 0)
              && (s.input_buffer (input_at s.disp_term 0 i) == 0))
            || leb line_buffer_size i)
          ≡ true =
        ground (arith, empty i) in
      rw stop (copied_all k buf i s same)
  | inr e ↦
      let q = full i (ground arith) in
      let on : (((s.input_buffer (input_at s.disp_term 1 i) == 0)
              && (s.input_buffer (input_at s.disp_term 0 i) == 0))
            || leb line_buffer_size i)
          ≡ false =
        ground arith in
      rw on (
        read_chars_lem k left buf (i + 1)
          (record s { mem = store s.mem (buf + i) (s.input_buffer (input_at s.disp_term 1 i)) }) h
          (ground arith) (omega arith) full empty
        ∙ ap (λ (f : Memory). (k, f)) (fun_ext λ x. copied_one k buf i x s (ground arith)))
]

Holds-bytes :
    (m : Memory) (a : ℕ) (line : List ℕ) → Holds m a line → bytes m a (length line) ≡ reverse line
unfolding Holds
Holds-bytes m a [] h = refl
Holds-bytes m a (c ∷ line) (e, z, h) =
    bytes-last m a (length line)
    ∙ ap (λ xs. xs ++ (m (a + length line) ∷ [])) (Holds-bytes m a line h)
    ∙ ap (λ d. reverse line ++ (d ∷ [])) e
    ∙ sym (reverse-cons c line)

Holds-nonzero :
    (m : Memory) (a : ℕ) (line : List ℕ)
    → Holds m a line
    → (j : ℕ) → j < length line
    → m (a + j) ≢ 0
unfolding Holds
Holds-nonzero m a [] h j p = absurd (omega arith)
Holds-nonzero m a (c ∷ line) (e, z, h) j p = elim (Bool-cases (j == length line)) [
  | inl q ↦ let same : j ≡ length line = ground arith in rw (same, e) z
  | inr q ↦ Holds-nonzero m a line h j (ground arith)
]

-- The copy of an entered line.
read_chars-HasLine :
    (t buf nbytes : ℕ) (line : List ℕ) (s : Term)
    → HasLine t line s
    → length line < nbytes
    → read_chars nbytes s buf 0 ≡ (suc (length line), copied (suc (length line)) buf 0 s)
read_chars-HasLine t buf nbytes line s q h =
    let short = q.short in
    read_chars_lem (suc (length line)) nbytes buf 0 s (omega arith) (omega arith) (omega arith)
      (λ j p.
        let z = Holds-nonzero s.input_buffer (input_at t 1 0) (b'\n' ∷ line) q.holds j p in
        let place : input_at s.disp_term 1 j ≡ input_at t 1 0 + j = rw q.displayed (omega arith) in
        rw place z)
      (λ j lo hi. rw q.displayed (q.after j (omega arith) hi, q.empty j hi))

copied-bytes :
    (t buf : ℕ) (line : List ℕ) (s : Term)
    → HasLine t line s
    → bytes (copied (suc (length line)) buf 0 s) buf (suc (length line))
      ≡ reverse line ++ (b'\n' ∷ [])
copied-bytes t buf line s q =
    bytes_ext (suc (length line)) buf (input_at t 1 0) (copied (suc (length line)) buf 0 s)
      s.input_buffer
      (λ i p.
        let inside : (leb (buf + 0) (buf + i) && ltb (buf + i) (buf + suc (length line))) ≡ true =
          ground arith in
        let place : input_at s.disp_term 1 (buf + i - buf) ≡ input_at t 1 0 + i =
          rw q.displayed (omega arith) in
        rw inside (ap s.input_buffer place))
    ∙ Holds-bytes s.input_buffer (input_at t 1 0) (b'\n' ∷ line) q.holds
    ∙ reverse-cons b'\n' line

terminal_read_run :
    (buf nbytes : ℕ) (keys : List ℕ) (s r : Term)
    → buf ≢ 0
    → nbytes ≢ 0
    → read_wait keys (read_begin s) ≡ some r
    → terminal_read buf nbytes keys s ≡ some (read_end buf nbytes r)
unfolding terminal_read
terminal_read_run buf nbytes keys s r b n run =
    let somewhere : (buf == 0) ≡ false = ground arith in
    let some_bytes : (nbytes == 0) ≡ false = ground arith in rw (somewhere, some_bytes, run) refl

-- What terminal_read leaves when the loop has copied `n` characters.
read_end_lem :
    (buf nbytes n t : ℕ) (m : Memory) (s : Term)
    → read_chars nbytes s buf 0 ≡ (n, m)
    → n ≤ 128
    → s.curr_term ≡ t
    → s.disp_term ≡ t
    → ((read_end buf nbytes s).0 ≡ pos n)
      × ((read_end buf nbytes s).1.mem ≡ m)
      × ((read_end buf nbytes s).1.curr_idx t ≡ 0)
      × ((read_end buf nbytes s).1.enter_flag t ≡ 0)
      × ((read_end buf nbytes s).1.read_flag t ≡ 0)
unfolding read_end terminal_reset_buffer
read_end_lem buf nbytes n t m s e le c d = (
  ap (λ (x : ℕ × Memory). pos (if leb line_buffer_size x.0 then line_buffer_size else x.0)) e
      ∙ ap pos (ground arith),
  ap (λ x. x.1) e,
  rw c (ground arith),
  rw d (ground arith),
  rw c (ground arith),
)

-- A program on the running and displayed terminal reads into a buffer that is not NULL with room for the
-- line: when keys are pressed none of which is NUL or ends the line and that never make the line longer
-- than 127 characters, and then Enter, terminal_read comes back, whatever is typed behind it. It returns
-- the length of the line with its line feed, the buffer holds them, a backspace having taken away the
-- character before it, and the terminal's line is empty and its read and enter flags are down.
pub terminal_read-typed :
    (buf nbytes t : ℕ) (keys rest : List ℕ) (s : Term)
    → buf ≢ 0
    → s.curr_term ≡ t
    → s.disp_term ≡ t
    → fits [] keys ≡ true
    → length (edit_all [] keys) < nbytes
    → (s' : Term) × (terminal_read buf nbytes (keys ++ (b'\n' ∷ rest)) s
        ≡ some (pos (suc (length (edit_all [] keys))), s'))
      × (bytes s'.mem buf (suc (length (edit_all [] keys)))
          ≡ reverse (edit_all [] keys) ++ (b'\n' ∷ []))
      × (s'.curr_idx t ≡ 0)
      × (s'.enter_flag t ≡ 0)
      × (s'.read_flag t ≡ 0)
terminal_read-typed buf nbytes t keys rest s b c d h room =
    let line = edit_all [] keys in
    let (r, run, q) =
      read_wait-HasLine t keys rest [] (read_begin s) (read_begin-IsReading t s c d) h in
    let short = q.short in
    let (count, mem, idx, enter, read) =
      read_end_lem buf nbytes (suc (length line)) t (copied (suc (length line)) buf 0 r) r
        (read_chars-HasLine t buf nbytes line r q room) (omega arith) q.running q.displayed in
    (
      (read_end buf nbytes r).1,
      terminal_read_run buf nbytes (keys ++ (b'\n' ∷ rest)) s r b (omega arith) run
          ∙ ap (λ z. some (z, (read_end buf nbytes r).1)) count,
      ap (λ (m : Memory). bytes m buf (suc (length line))) mem ∙ copied-bytes t buf line r q,
      idx,
      enter,
      read,
    )
