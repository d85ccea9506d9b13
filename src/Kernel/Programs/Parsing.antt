-- ===== src/Kernel/Programs/Parsing.antt =====
-- How get_args_fname takes a command line apart.
use linux_operating_system.Prelude.{
  ℕ, ◌+◌, ◌≤◌, ◌<◌, ◌≡◌, refl, sym, ap, ◌∙◌, ◌≢◌, ◌⊎◌, inl, inr, true, false, some, arith, ltb,
  Memory, store, moved,
}
use linux_operating_system.Kernel.Programs.{ends_line, ends_word, get_args_fname}
use linux_operating_system.Kernel.Programs.Command.{Apart, skip_spaces_lem, skip_first, copy_first}

-- A command line at `command`: `a` spaces, a word of `n` characters, `b` spaces, `l` characters and the
-- end of the line. The word and the rest fit the buffers, which meet neither the line nor each other.
pub record IsCommand (m : Memory) (command file_name args a n b l : ℕ) : Type 0 where
  pub lead : (x : ℕ) → x < a → m (command + x) ≡ 32
  pub word : (x : ℕ) → x < n → ends_word (m (command + (a + x))) ≡ false
  pub word_end : ends_word (m (command + (a + n))) ≡ true
  pub gap : (x : ℕ) → x < b → m (command + (a + n + x)) ≡ 32
  pub rest_start : m (command + (a + n + b)) ≢ 32
  pub rest : (x : ℕ) → x < l → ends_line (m (command + (a + n + b + x))) ≡ false
  pub rest_end : ends_line (m (command + (a + n + b + l))) ≡ true
  pub word_start : 0 < n
  pub word_room : n < 32
  pub rest_room : l < 128
  pub name_apart : Apart command (a + n + b + l + 1) file_name 32
  pub args_apart : Apart command (a + n + b + l + 1) args 128
  pub buffers_apart : Apart file_name 32 args 128

-- What get_args_fname leaves: the word and the rest of the line, each with a NUL behind it.
pub record IsParsed (m m' : Memory) (command file_name args a n b l : ℕ) : Type 0 where
  pub name : (x : ℕ) → x < n → m' (file_name + x) ≡ m (command + (a + x))
  pub name_end : m' (file_name + n) ≡ 0
  pub argument : (x : ℕ) → x < l → m' (args + x) ≡ m (command + (a + n + b + x))
  pub argument_end : m' (args + l) ≡ 0
  pub others :
      (y : ℕ) → (y < file_name) ⊎ (file_name + 32 ≤ y) → (y < args) ⊎ (args + 128 ≤ y) → m' y ≡ m y

plus_zero : (a : ℕ) → a + 0 ≡ a
plus_zero a = omega arith

lt_true : (a b : ℕ) → a < b → ltb a b ≡ true
lt_true a b h = ground arith

word_char : (c : ℕ) → ends_word c ≡ false → c ≢ 32
word_char c h = ground arith

-- The memory with `n` characters from `s` at `d`, and a NUL behind them.
abbrev copied : ℕ → ℕ → ℕ → Memory → Memory
copied d s n m = store (moved d s n m) (d + n) 0

copied_char : (d s n x : ℕ) (m : Memory) → x < n → copied d s n m (d + x) ≡ m (s + x)
copied_char d s n x m h = ground arith

copied_end : (d s n : ℕ) (m : Memory) → copied d s n m (d + n) ≡ 0
copied_end d s n m = ground arith

copied_outside :
    (d s n room y : ℕ) (m : Memory) → n < room → (y < d) ⊎ (d + room ≤ y) → copied d s n m y ≡ m y
copied_outside d s n room y m h q = ground arith

-- An address of one block is outside the other.
Apart-at : (a n b l x : ℕ) → Apart a n b l → x < n → (a + x < b) ⊎ (b + l ≤ a + x)
Apart-at a n b l x (inl p) h = inl (omega arith)
Apart-at a n b l x (inr p) h = inr (omega arith)

finished :
    (m : Memory) (command file_name args a n b l : ℕ)
    → IsCommand m command file_name args a n b l
    → IsParsed m
        (copied args (command + (a + n + b)) l (copied file_name (command + a) n m))
        command
        file_name
        args
        a
        n
        b
        l
finished m command file_name args a n b l v =
    let m2 = copied file_name (command + a) n m in
    let s = command + (a + n + b) in
    let size = a + n + b + l + 1 in
    record {
      name = λ x lt.
          copied_outside args s l 128 (file_name + x) m2 v.rest_room
            (Apart-at file_name 32 args 128 x v.buffers_apart (let h = v.word_room in omega arith))
          ∙ copied_char file_name (command + a) n x m lt
          ∙ ap m (omega arith);
      name_end =
          copied_outside args s l 128 (file_name + n) m2 v.rest_room
            (Apart-at file_name 32 args 128 n v.buffers_apart v.word_room)
          ∙ copied_end file_name (command + a) n m;
      argument = λ x lt.
          copied_char args s l x m2 lt
          ∙ ap m2 (shift x)
          ∙ copied_outside file_name (command + a) n 32 (command + (a + n + b + x)) m v.word_room
              (Apart-at command size file_name 32 (a + n + b + x) v.name_apart (omega arith));
      argument_end = copied_end args s l m2;
      others = λ y p q.
          copied_outside args s l 128 y m2 v.rest_room q
          ∙ copied_outside file_name (command + a) n 32 y m v.word_room p;
    }
  where
    shift : (x : ℕ) → command + (a + n + b) + x ≡ command + (a + n + b + x)
    shift x = omega arith

-- get_args_fname on a command line splits it: file_name gets the first word and args what follows
-- the spaces behind it, up to the end of the line, both ended by NUL. It changes no memory
-- outside the two buffers. The word has 1 to 31 characters and the rest at most 127, the buffers
-- and the line do not meet, and the fuel is above the number of spaces in each place.
pub get_args_fname-IsParsed :
    (fuel : ℕ) (m : Memory) (command file_name args a n b l : ℕ)
    → IsCommand m command file_name args a n b l
    → a < fuel
    → b < fuel
    → (m' : Memory) × (get_args_fname fuel command file_name args m ≡ some m')
      × IsParsed m m' command file_name args a n b l
unfolding get_args_fname
get_args_fname-IsParsed fuel m command file_name args a n b l v fa fb =
    let size = a + n + b + l + 1 in
    let s1 = skip_first fuel a m command fa v.lead (first_char v) in
    let c1 =
      copy_first ends_word 32 n command file_name a m v.word_room
        (within_name v.name_apart v.word_room) v.word v.word_end in
    let m2 = copied file_name (command + a) n m in
    let same : (k : ℕ) → k < size → m2 (command + k) ≡ m (command + k) = λ k h.
      copied_outside file_name (command + a) n 32 (command + k) m v.word_room
        (Apart-at command size file_name 32 k v.name_apart h) in
    let s2 =
      skip_spaces_lem fuel b m2 command (a + n) fb
        (λ x lt. same (a + n + x) (omega arith) ∙ v.gap x lt)
        (λ q. v.rest_start (sym (same (a + n + b) (omega arith)) ∙ q)) in
    let c2 =
      copy_first ends_line 128 l command args (a + n + b) m2 v.rest_room
        (within_args v.args_apart v.rest_room)
        (λ x lt. ap ends_line (same (a + n + b + x) (omega arith)) ∙ v.rest x lt)
        (ap ends_line (same (a + n + b + l) (omega arith)) ∙ v.rest_end) in
    (
      copied args (command + (a + n + b)) l m2,
      rw (s1, c1, lt_true n 32 v.word_room, s2, c2) refl,
      finished m command file_name args a n b l v,
    )
  where
    first_char : IsCommand m command file_name args a n b l → m (command + a) ≢ 32
    first_char w =
        let c = ap (λ k. ends_word (m (command + k))) (sym (plus_zero a)) ∙ w.word 0 w.word_start in
        word_char (m (command + a)) c

    within_name :
        Apart command (a + n + b + l + 1) file_name 32
        → n < 32
        → Apart (command + a) (n + 1) file_name n
    within_name d h = omega arith

    within_args :
        Apart command (a + n + b + l + 1) args 128
        → l < 128
        → Apart (command + (a + n + b)) (l + 1) args l
    within_args d h = omega arith
