-- ===== src/Kernel/Live/Runs.antt =====
-- Every run of interrupts comes to its end.
use linux_operating_system.Prelude.{ℕ, ◌<◌, ◌≡◌, refl, ap, ◌∙◌, some, List, [], ◌∷◌, ℤ, pos, Memory}
use linux_operating_system.Rtc.{rtc_irq_handler}
use linux_operating_system.Terminal.{Term}
use linux_operating_system.Kernel.{Kernel, returns, Frame}
use linux_operating_system.Kernel.Schedule.Turns.{Ticks, SameScreen, pit_handler-Ticks}
use linux_operating_system.Kernel.Keyboard.{Keys}
use linux_operating_system.Kernel.Live.{
  IsCalm, IsLive, Interrupt, timer, scan, pulse, handle, handle_all, scans,
}
use linux_operating_system.Kernel.Live.Pressing.{get_c_keyboard-IsLive}

screen-IsCalm : (s s' : Term) → SameScreen s s' → s'.curr_term < 3 → IsCalm s → IsCalm s'
screen-IsCalm s s' w h v = record {
  running = h;
  shown = rw w.disp v.shown;
  flags = λ t ht. rw (w.reads, w.writes) (v.flags t ht);
  cursors =
      λ t ht. let c = v.cursors t ht in record { column = rw w.xs c.column; row = rw w.ys c.row };
}

pub ticked-IsLive :
    (left : ℕ) (keys : Keys) (k k' : Kernel) → Ticks k k' → IsLive left keys k → IsLive left keys k'
ticked-IsLive left keys k k' w v = record {
  running = w.running;
  programs = λ t ht. rw (w.slots t) (v.programs t ht);
  calm = screen-IsCalm k.term k'.term w.screen w.running.in_range v.calm;
  room = λ t ht. rw w.screen.lines (v.room t ht);
  no_key = w.screen.key ∙ v.no_key;
  function_key = v.function_key;
}

pub pulse-IsLive :
    (left a b : ℕ) (keys : Keys) (k : Kernel)
    → IsLive left keys k
    → IsLive left keys (record k { rtc = rtc_irq_handler a b k.rtc })
pulse-IsLive left a b keys k v = record {
  running = record {
    in_range = v.running.in_range;
    turn = v.running.turn;
    unlocked = v.running.unlocked;
    block = v.running.block;
    slot = v.running.slot;
    page = v.running.page;
    stack = v.running.stack;
  };
  programs = v.programs;
  calm = v.calm;
  room = v.room;
  no_key = v.no_key;
  function_key = v.function_key;
}

handle-IsLive :
    (fuel : ℕ) (f : Frame) (i : Interrupt) (rest : List Interrupt) (keys : Keys) (k : Kernel)
    → IsLive (scans (i ∷ rest)) keys k
    → (n : ℤ) × (keys' : Keys) × (k' : Kernel) × (handle fuel f i keys k
        ≡ some (keys', (returns n, k')))
      × IsLive (scans rest) keys' k'
      × ((t : ℕ) → t < 3 → k'.active_progs t ≡ k.active_progs t)
unfolding handle scans
handle-IsLive fuel f timer rest keys k v =
    let (k', run, w) = pit_handler-Ticks fuel f k v.running in
    (pos 0, keys, k', rw run refl, ticked-IsLive (scans rest) keys k k' w v, (λ t ht. w.slots t))
handle-IsLive fuel f (scan c) rest keys k v =
    let (n, keys', k', run, w, slots, _, _) =
      get_c_keyboard-IsLive (scans rest) fuel f c keys k v in
    (n, keys', k', run, w, (λ t ht. ap (λ (g : Memory). g t) slots))
handle-IsLive fuel f (pulse a b) rest keys k v = (
  pos 0,
  keys,
  record k { rtc = rtc_irq_handler a b k.rtc },
  refl,
  pulse-IsLive (scans rest) a b keys k v,
  (λ t ht. refl),
)

-- While each of the three terminals has a program, the scheduler's lock is free, every terminal reads or
-- writes or does neither, the cursors are on the screen, the keyboard knows of no other function key
-- than three, and every input line has room for as many characters as scan codes come: timer ticks, scan
-- codes and clock interrupts, in any order, are all handled to the end, whatever the fuel, and no handler
-- starts a program. All that holds afterwards again: the running terminal's block, page and kernel stack
-- are in place, every terminal keeps its program, and no input line has run past its end.
pub handle_all-IsLive :
    (fuel : ℕ) (f : Frame) (is : List Interrupt) (keys : Keys) (k : Kernel)
    → IsLive (scans is) keys k
    → (keys' : Keys) × (k' : Kernel) × (handle_all fuel f is keys k ≡ some (keys', k'))
      × IsLive 0 keys' k'
      × ((t : ℕ) → t < 3 → k'.active_progs t ≡ k.active_progs t)
unfolding handle_all scans
handle_all-IsLive fuel f [] keys k v = (keys, k, refl, v, (λ t ht. refl))
handle_all-IsLive fuel f (i ∷ rest) keys k v =
    let (n, keys1, k1, run, w, slots) = handle-IsLive fuel f i rest keys k v in
    let (keys2, k2, later, u, slots2) = handle_all-IsLive fuel f rest keys1 k1 w in
    (keys2, k2, rw run later, u, (λ t ht. slots2 t ht ∙ slots t ht))
