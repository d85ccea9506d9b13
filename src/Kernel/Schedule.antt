-- ===== src/Kernel/Schedule.antt =====
-- schedule.c and pit.c: three terminals take turns, one a tick of the interval timer, and ALT with a
-- function key changes the one on display. A change of stacks shows in the saved stack pointers and the
-- current block alone; what follows it in the source runs on the other terminal's stack and returns to
-- the caller of the function that saved it. `none` is a run that the fuel does not end or that goes on with a NULL block.
pub mod Turns
pub mod Screen
use linux_operating_system.Prelude.{
  ℕ, zero, suc, ◌+◌, ◌-◌, ◌*◌, ◌/◌, ◌%◌, ◌^◌, ◌≤◌, ◌<◌, min, bit_and, bit_or, ◌≡◌, refl, sym, ap,
  ◌∙◌, fun_ext, subst, ◌≢◌, ◌↔◌, ◌⊎◌, inl, inr, Bool, true, false, ◌&&◌, ◌||◌, not, Option, none,
  some, List, [], ◌∷◌, ◌++◌, map, reverse, arith, ltb, leb, ◌==◌, if◌then◌else◌, ltb→lt, leb→le,
  ==_iff, Bool-cases, ◌>>=◌, bind_some, some_injective, Option-cases, if_branch, length, get_elem?,
  get_or, set, length-append, length-set, get_elem?-set_self, get_elem?-set_ne, ℤ, pos, negsuc,
  minus_one, sub_ℕ, Memory, store, load32, store32, bytes, codes, moved, filled, is_table,
  table_entry, table_witness, word, add32, sub32, to_int32,
}
use linux_operating_system.CLib.Blocks.{memcpy}
use linux_operating_system.Pic.{Pic, outb, enable_irq, send_eoi}
use linux_operating_system.Terminal.{video, num_cols, num_rows, terminal_update_cursor}
use linux_operating_system.Terminal.Calls.{blank_cells}
use linux_operating_system.Kernel.{
  Kernel, num_terms, with_mem, with_pcb, current, Outcome, returns, enters, Frame,
}
use linux_operating_system.Kernel.Process.{swap_pages}
use linux_operating_system.Kernel.Programs.{execute_func}

abbrev pub with_pic : Kernel → Pic → Kernel
with_pic k p = record k { rtc = record k.rtc { pic = p } }

-- The rounds of clear_terminals.
unfoldable pub clear_buffers : ℕ → ℕ → (ℕ → ℕ) → Memory → Memory
clear_buffers zero j buffers m = m
clear_buffers (suc left) j buffers m =
    clear_buffers left (j + 1) buffers (blank_cells (num_rows * num_cols) (buffers j) 0 m)

unfoldable pub clear_terminals : Kernel → Kernel
unfolding clear_buffers
clear_terminals k = with_mem k (clear_buffers num_terms 0 k.term.video_buffer k.term.mem)

unfoldable pub init_terminals : Kernel → Kernel
unfolding clear_terminals
init_terminals k =
    let c = clear_terminals (record k {
      next_p_id = store (store (store k.next_p_id 0 0) 1 0) 2 0;
      active_progs = store (store (store k.active_progs 0 0) 1 0) 2 0;
    }) in
    record c {
      curr_pcb_ptr = 0;
      term = record c.term { curr_term = 0; disp_term = 0 };
      total_progs = 0;
      switch_lock = 0;
    }

-- The first half of do_switch: `dest` becomes the running terminal.
unfoldable pub hand_over : Frame → ℕ → Kernel → Kernel
hand_over f dest k =
    let saved =
      with_pcb k k.curr_pcb_ptr
        (record (current k) { esp_s = f.sp; ebp_s = f.bp; saved_by_timer = f.in_timer }) in
    let active = store saved.active_progs saved.term.curr_term saved.curr_pcb_ptr in
    record saved {
      active_progs = active;
      curr_pcb_ptr = active dest;
      term = record saved.term { curr_term = dest };
    }

-- The second half, for a terminal that has a program.
unfoldable pub resume : Kernel → Kernel
resume k =
    let u = record k { term = terminal_update_cursor k.term; tss_esp0 = (current k).esp0 } in
    swap_pages (current u).p_id u

unfoldable pub do_switch : ℕ → Frame → ℕ → Kernel → Option (Outcome × Kernel)
unfolding hand_over resume
do_switch fuel f dest k =
    let h = hand_over f dest k in
    if h.curr_pcb_ptr == 0
    then (execute_func fuel f f.shell (record h { switch_lock = 0 }) >>= λ r. elim (r.0) [
      | returns n ↦ none
      | enters entry stack ↦ some r
    ])
    else some (returns (pos 0), resume h)

-- `switch_lock = 0` after do_switch, where the run gets there.
unfoldable pub unlock : Outcome × Kernel → Outcome × Kernel
unlock (returns n, k) = (returns n, record k { switch_lock = 0 })
unlock (enters entry stack, k) = (enters entry stack, k)

-- The guards of schedule.
abbrev pub stays : ℕ → Kernel → Bool
stays new_term k = (k.active_progs new_term == 0) || not (k.switch_lock == 0)

unfoldable pub schedule : ℕ → Frame → ℕ → Kernel → Option (Outcome × Kernel)
unfolding do_switch unlock
schedule fuel f new_term k =
    if stays new_term k
    then some (returns (pos 0), k)
    else (do_switch fuel (record f { in_timer = true }) new_term (record k { switch_lock = 1 })
        >>= λ r. some (unlock r))

unfoldable pub switch_vidmem : ℕ → Kernel → Kernel
switch_vidmem dest_term k =
    let b = k.term.video_buffer in
    let size = num_rows * num_cols * 2 in
    with_mem k (memcpy video (b dest_term) size (memcpy (b k.term.disp_term) video size k.term.mem))

unfoldable pub switch_vidmap : ℕ → Kernel → Kernel
switch_vidmap dest_term k =
    let d = k.term.disp_term in
    record k {
      video_table =
          store (store k.video_table d (bit_or (k.term.video_buffer d) 7)) dest_term
            (bit_or video 7);
    }

-- `dest_term` is unsigned. `returns` carries the result.
unfoldable pub switch_terminals : ℕ → Frame → ℕ → Kernel → Option (Outcome × Kernel)
unfolding switch_vidmem switch_vidmap
switch_terminals fuel f dest_term k =
    let shown = switch_vidmap dest_term (switch_vidmem dest_term (record k { switch_lock = 1 })) in
    let d = record shown { term = record shown.term { disp_term = dest_term } } in
    if (k.term.disp_term == dest_term) || leb num_terms dest_term
    then some (returns minus_one, k)
    else if not (k.switch_lock == 0)
    then some (returns (pos 0), k)
    else if d.active_progs dest_term == 0
    then (do_switch fuel (record f { in_timer = false }) dest_term d >>= λ r. some (unlock r))
    else some (returns (pos 0), record d { switch_lock = 0 })

unfoldable pub set_pit_freq : ℕ → Pic → Pic
set_pit_freq freq p =
    outb (bit_and (1193180 / freq / 256) 0xFF) 0x40 (outb (bit_and (1193180 / freq) 0xFF) 0x40 p)

unfoldable pub pit_init : Kernel → Kernel
unfolding set_pit_freq
pit_init k =
    let p = set_pit_freq 100 (outb 0x36 0x43 k.rtc.pic) in
    record (with_pic k (enable_irq 0 p)) { pit_counter = 0 }

-- `pit_counter` moves on where schedule() comes back to pit_handler: without a change of stacks, or on
-- the stack of a program whose pointers another call of schedule saved. Where switch_terminals saved them,
-- the run goes on behind its call in get_c_keyboard, which does nothing more.
unfoldable pub next_turn : Bool → Outcome × Kernel → Outcome × Kernel
next_turn stayed (returns n, k) =
    let counted = record k { pit_counter = add32 k.pit_counter 1 % num_terms } in
    (returns n, if stayed || (current k).saved_by_timer then counted else k)
next_turn stayed (enters entry stack, k) = (enters entry stack, k)

unfoldable pub pit_handler : ℕ → Frame → Kernel → Option (Outcome × Kernel)
unfolding next_turn
pit_handler fuel f k =
    let acknowledged = with_pic k (send_eoi 0 k.rtc.pic) in
    schedule fuel f k.pit_counter acknowledged >>= λ r.
    some (next_turn (stays k.pit_counter acknowledged) r)
