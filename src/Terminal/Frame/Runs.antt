-- ===== src/Terminal/Frame/Runs.antt =====
-- Whole runs of input and output leave the running and the displayed terminal and the back buffers alone.
use linux_operating_system.Prelude.{
  ℕ, zero, suc, ◌+◌, ◌%◌, ◌≡◌, refl, ap, subst, inl, inr, true, false, ◌&&◌, not, Option, none,
  some, List, [], ◌∷◌, ◌==◌, Bool-cases, bind_some, some_injective, Option-cases, if_branch, ℤ, pos,
  minus_one,
}
use linux_operating_system.CLib.Printf.{
  Piece, nothing, char, buffer, string, convert, Mode, text, conversion,
}
use linux_operating_system.Terminal.{Term}
use linux_operating_system.Terminal.Putc.{terminal_putc}
use linux_operating_system.Terminal.Calls.{
  terminal_reset_buffer, read_begin, read_wait, read_end, terminal_read, write_chars,
  terminal_write,
}
use linux_operating_system.Terminal.Print.{
  make_room, start_output, end_output, put_string, terminal_puts, put_chars, puts_buffer,
  print_piece, print_from, terminal_printf,
}
use linux_operating_system.Terminal.Frame.{
  KeepsPlace, KeepsPlace-trans, KeepsPlace-refl, if-KeepsPlace, terminal_putc-KeepsPlace,
}

reset-KeepsPlace : (s : Term) → KeepsPlace s (terminal_reset_buffer s)
unfolding terminal_reset_buffer
reset-KeepsPlace s = record { curr = refl; disp = refl; buffers = refl }

make_room-KeepsPlace : (index : ℕ) (s : Term) → KeepsPlace s (make_room index s)
make_room-KeepsPlace index s =
    if-KeepsPlace (index % 128 == 127) s _ s (reset-KeepsPlace s) (KeepsPlace-refl s)

end_output-KeepsPlace :
    (w r : ℕ) (s0 s : Term) → KeepsPlace (start_output s0) s → KeepsPlace s0 (end_output w r s)
unfolding end_output terminal_reset_buffer
end_output-KeepsPlace w r s0 s v = record { curr = v.curr; disp = v.disp; buffers = v.buffers }

-- A character after the line has been emptied, if that is due.
room_putc-KeepsPlace :
    (c index : ℕ) (s s' : Term) → terminal_putc c (make_room index s) ≡ some s' → KeepsPlace s s'
room_putc-KeepsPlace c index s s' run =
    KeepsPlace-trans s (make_room index s) s' (make_room-KeepsPlace index s)
      (terminal_putc-KeepsPlace c (make_room index s) s' run)

stays-KeepsPlace {ℓ} :
    {A : Type ℓ} (r n : A) (s s' : Term)
    → ◌≡◌ {A = Option (A × Term)} (some (r, s)) (some (n, s'))
    → KeepsPlace s s'
stays-KeepsPlace {A} r n s s' q =
    subst (KeepsPlace s) (ap (λ (o : Option (A × Term)). elim o [ none ↦ s | some x ↦ x.1 ]) q)
      (KeepsPlace-refl s)

put_string-KeepsPlace :
    (fuel a index n : ℕ) (s s' : Term) → put_string fuel a index s ≡ some (n, s') → KeepsPlace s s'
unfolding put_string
put_string-KeepsPlace zero a index n s s' run = cc
put_string-KeepsPlace (suc fuel) a index n s s' run = elim (Bool-cases (s.mem (a + index) == 0)) [
  | inl e ↦ stays-KeepsPlace index n s s' (rw (put_string, e) at run)
  | inr e ↦
      elim (Option-cases
        (terminal_putc ((make_room index s).mem (a + index)) (make_room index s))) [
          | inl q ↦ absurd (
              let z : ◌≡◌ {A = Option (ℕ × Term)} none (some (n, s')) =
                rw (put_string, e, put_string, q) at run in
              cc)
          | inr (t, q) ↦ KeepsPlace-trans s t s' (room_putc-KeepsPlace _ index s t q) (
              put_string-KeepsPlace fuel a (index + 1) n t s'
                (rw (put_string, e, put_string, q) at run))
        ]
]

terminal_puts-KeepsPlace :
    (fuel a n : ℕ) (s s' : Term) → terminal_puts fuel a s ≡ some (n, s') → KeepsPlace s s'
unfolding terminal_puts
terminal_puts-KeepsPlace fuel a n s s' run =
    let ((k, w), q, done) =
      bind_some {A = ℕ × Term} (put_string fuel a 0 (start_output s)) _ (n, s') run in
    subst (KeepsPlace s) (ap (λ (r : ℕ × Term). r.1) (some_injective _ (n, s') done))
      (end_output-KeepsPlace _ _ s w (put_string-KeepsPlace fuel a 0 k (start_output s) w q))

put_chars-KeepsPlace :
    (cs : List ℕ) (index : ℕ) (s s' : Term) → put_chars cs index s ≡ some s' → KeepsPlace s s'
unfolding put_chars
put_chars-KeepsPlace [] index s s' run =
    subst (KeepsPlace s) (some_injective s s' run) (KeepsPlace-refl s)
put_chars-KeepsPlace (c ∷ cs) index s s' run =
    elim (Option-cases (terminal_putc c (make_room index s))) [
      | inl q ↦
          absurd (let z : ◌≡◌ {A = Option Term} none (some s') = rw (q, put_chars) at run in cc)
      | inr (t, q) ↦
          KeepsPlace-trans s t s' (room_putc-KeepsPlace c index s t q)
            (put_chars-KeepsPlace cs (index + 1) t s' (rw (q, put_chars) at run))
    ]

puts_buffer-KeepsPlace : (cs : List ℕ) (s s' : Term) → puts_buffer cs s ≡ some s' → KeepsPlace s s'
unfolding puts_buffer
puts_buffer-KeepsPlace cs s s' run =
    let (w, q, done) = bind_some {A = Term} (put_chars cs 0 (start_output s)) _ s' run in
    subst (KeepsPlace s) (some_injective _ s' done)
      (end_output-KeepsPlace _ _ s w (put_chars-KeepsPlace cs 0 (start_output s) w q))

print_piece-KeepsPlace :
    (fuel : ℕ) (p : Piece) (s s' : Term) → print_piece fuel p s ≡ some s' → KeepsPlace s s'
unfolding print_piece
print_piece-KeepsPlace fuel nothing s s' run =
    subst (KeepsPlace s) (some_injective s s' run) (KeepsPlace-refl s)
print_piece-KeepsPlace fuel (char c) s s' run = terminal_putc-KeepsPlace c s s' run
print_piece-KeepsPlace fuel (buffer cs) s s' run = puts_buffer-KeepsPlace cs s s' run
print_piece-KeepsPlace fuel (string a) s s' run =
    let ((n, w), q, done) = bind_some {A = ℕ × Term} (terminal_puts fuel a s) _ s' run in
    subst (KeepsPlace s) (some_injective _ s' done) (terminal_puts-KeepsPlace fuel a n s w q)

print_from-KeepsPlace :
    (fuel : ℕ) (mode : Mode) (format args : List ℕ) (index : ℕ) (s s' : Term)
    → print_from fuel mode format args index s ≡ some s'
    → KeepsPlace s s'
unfolding print_from
print_from-KeepsPlace fuel text [] args index s s' run =
    subst (KeepsPlace s) (some_injective s s' run) (KeepsPlace-refl s)
print_from-KeepsPlace fuel (conversion alternate) [] args index s s' run = cc
print_from-KeepsPlace fuel text (c ∷ format) args index s s' run = elim (Bool-cases (c == b'%')) [
  | inl e ↦ KeepsPlace-trans s (make_room index s) s' (make_room-KeepsPlace index s) (
      print_from-KeepsPlace fuel (conversion false) format args (index + 1) (make_room index s) s'
        (rw (e, print_from) at run))
  | inr e ↦ elim (Option-cases (terminal_putc c (make_room index s))) [
    | inl q ↦
        absurd (let z : ◌≡◌ {A = Option Term} none (some s') = rw (e, print_from, q) at run in cc)
    | inr (t, q) ↦ KeepsPlace-trans s t s' (room_putc-KeepsPlace c index s t q) (
        print_from-KeepsPlace fuel text format args (index + 1) t s' (rw (e, print_from, q) at run))
  ]
]
print_from-KeepsPlace fuel (conversion alternate) (c ∷ format) args index s s' run =
    elim (Bool-cases (c == b'#')) [
      | inl e ↦
          print_from-KeepsPlace fuel (conversion true) format args (index + 1) s s'
            (rw (e, print_from) at run)
      | inr e ↦ elim (Option-cases (convert fuel alternate c args)) [
        | inl q ↦
            absurd
              (let z : ◌≡◌ {A = Option Term} none (some s') = rw (e, print_from, q) at run in cc)
        | inr (r, q) ↦ elim (Option-cases (print_piece fuel r.0 s)) [
          | inl q' ↦ absurd (
              let z : ◌≡◌ {A = Option Term} none (some s') =
                rw (e, print_from, q, print_from, q') at run in
              cc)
          | inr (t, q') ↦ KeepsPlace-trans s t s' (print_piece-KeepsPlace fuel r.0 s t q') (
              print_from-KeepsPlace fuel text format r.1 (index + 1) t s'
                (rw (e, print_from, q, print_from, q') at run))
        ]
      ]
    ]

pub terminal_printf-KeepsPlace :
    (fuel n : ℕ) (format args : List ℕ) (s s' : Term)
    → terminal_printf fuel format args s ≡ some (n, s')
    → KeepsPlace s s'
unfolding terminal_printf
terminal_printf-KeepsPlace fuel n format args s s' run =
    let (w, q, done) =
      bind_some {A = Term} (print_from fuel text format args 0 (start_output s)) _ (n, s') run in
    subst (KeepsPlace s) (ap (λ (r : ℕ × Term). r.1) (some_injective _ (n, s') done)) (
      end_output-KeepsPlace _ _ s w
        (print_from-KeepsPlace fuel text format args 0 (start_output s) w q))

write_chars-KeepsPlace :
    (left p : ℕ) (s s' : Term) → write_chars left p s ≡ some s' → KeepsPlace s s'
unfolding write_chars
write_chars-KeepsPlace zero p s s' run =
    subst (KeepsPlace s) (some_injective s s' run) (KeepsPlace-refl s)
write_chars-KeepsPlace (suc left) p s s' run =
    elim (Option-cases (
      terminal_putc ((make_room (s.curr_idx s.curr_term) s).mem p)
        (make_room (s.curr_idx s.curr_term) s))) [
          | inl q ↦
              absurd
                (let z : ◌≡◌ {A = Option Term} none (some s') = rw (q, write_chars) at run in cc)
          | inr (t, q) ↦
              KeepsPlace-trans s t s' (room_putc-KeepsPlace _ (s.curr_idx s.curr_term) s t q)
                (write_chars-KeepsPlace left (p + 1) t s' (rw (q, write_chars) at run))
        ]

pub terminal_write-KeepsPlace :
    (buf nbytes : ℕ) (s s' : Term) (n : ℤ)
    → terminal_write buf nbytes s ≡ some (n, s')
    → KeepsPlace s s'
unfolding terminal_write terminal_reset_buffer
terminal_write-KeepsPlace buf nbytes s s' n run =
    elim (if_branch (buf == 0) (some (minus_one, s)) _ (some (n, s')) run) [
      | inl (e, q) ↦ stays-KeepsPlace minus_one n s s' q
      | inr (e, run1) ↦
          let (w, q, done) =
            bind_some {A = Term} (write_chars nbytes buf (start_output s)) _ (n, s') run1 in
          let v = write_chars-KeepsPlace nbytes buf (start_output s) w q in
          subst (KeepsPlace s) (ap (λ (r : ℤ × Term). r.1) (some_injective _ (n, s') done))
            (record { curr = v.curr; disp = v.disp; buffers = v.buffers })
    ]

read_wait-KeepsPlace : (keys : List ℕ) (s s' : Term) → read_wait keys s ≡ some s' → KeepsPlace s s'
unfolding read_wait
read_wait-KeepsPlace [] s s' run =
    elim (Bool-cases (not (s.enter_flag s.curr_term == 0) && (s.disp_term == s.curr_term))) [
      | inl e ↦ subst (KeepsPlace s) (some_injective s s' (rw e at run)) (KeepsPlace-refl s)
      | inr e ↦ absurd (let z : ◌≡◌ {A = Option Term} none (some s') = rw e at run in cc)
    ]
read_wait-KeepsPlace (c ∷ keys) s s' run =
    elim (Bool-cases (not (s.enter_flag s.curr_term == 0) && (s.disp_term == s.curr_term))) [
      | inl e ↦
          subst (KeepsPlace s) (some_injective s s' (rw (e, read_wait) at run)) (KeepsPlace-refl s)
      | inr e ↦ elim (Option-cases (terminal_putc c (record s { char_from_kb = 1 }))) [
        | inl q ↦
            absurd
              (let z : ◌≡◌ {A = Option Term} none (some s') = rw (e, read_wait, q) at run in cc)
        | inr (t, q) ↦
            let v = terminal_putc-KeepsPlace c (record s { char_from_kb = 1 }) t q in
            KeepsPlace-trans s t s' (record { curr = v.curr; disp = v.disp; buffers = v.buffers })
              (read_wait-KeepsPlace keys t s' (rw (e, read_wait, q) at run))
      ]
    ]

pub terminal_read-KeepsPlace :
    (buf nbytes : ℕ) (keys : List ℕ) (s s' : Term) (n : ℤ)
    → terminal_read buf nbytes keys s ≡ some (n, s')
    → KeepsPlace s s'
unfolding terminal_read read_begin read_end terminal_reset_buffer
terminal_read-KeepsPlace buf nbytes keys s s' n run =
    elim (if_branch (buf == 0) (some (minus_one, s)) _ (some (n, s')) run) [
      | inl (e, q) ↦ stays-KeepsPlace minus_one n s s' q
      | inr (e, run1) ↦ elim (if_branch (nbytes == 0) (some (pos 0, s)) _ (some (n, s')) run1) [
        | inl (z, q) ↦ stays-KeepsPlace (pos 0) n s s' q
        | inr (z, run2) ↦
            let (w, q, done) =
              bind_some {A = Term} (read_wait keys (read_begin s)) _ (n, s') run2 in
            let v = read_wait-KeepsPlace keys (read_begin s) w q in
            subst (KeepsPlace s) (ap (λ (r : ℤ × Term). r.1) (some_injective _ (n, s') done))
              (record { curr = v.curr; disp = v.disp; buffers = v.buffers })
      ]
    ]
