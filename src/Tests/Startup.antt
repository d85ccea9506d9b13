-- ===== src/Tests/Startup.antt =====
-- The console, the messages, the exceptions and the start of the machine.
use linux_operating_system.Prelude.{
  ℕ, ◌≡◌, refl, ap, ◌≢◌, some, List, [], ◌∷◌, arith, length, get_elem?, pos, Memory, codes,
}
use linux_operating_system.CLib.Printf.Text.{numeral}
use linux_operating_system.CLib.Printf.Signed.{zeros}
use linux_operating_system.CLib.Strings.Digits.{digit_char}
use linux_operating_system.CLib.Console.{Console, put_text, printf}
use linux_operating_system.CLib.Console.Puts.{SameOff}
use linux_operating_system.CLib.Console.Rendering.{
  Directive, literal, percent, hex_padded, signed, character, format_of, args_of, text_of,
  IsPrintable, flat, ArePrintable, printf-flat,
}
use linux_operating_system.Terminal.{Term}
use linux_operating_system.Terminal.Touches.{SameElsewhere}
use linux_operating_system.Terminal.Calls.{clear}
use linux_operating_system.Terminal.Print.{terminal_printf}
use linux_operating_system.Terminal.Safety.{IsReady}
use linux_operating_system.Terminal.Messages.{HasNoString, HaveNoString, terminal_printf-safe}
use linux_operating_system.Kernel.{say, Kernel, returns, with_mem}
use linux_operating_system.Kernel.Exceptions.{squash_user_prog, IsSquashed}
use linux_operating_system.Kernel.Exceptions.Handlers.{messages, report, Fault, exception}
use linux_operating_system.Kernel.Exceptions.Reports.{exception-IsSquashed}
use linux_operating_system.Kernel.Descriptors.{
  IdtDesc, Handlers, fill_idt, SegDesc, ldt_entry, tss_entry,
}
use linux_operating_system.Kernel.Descriptors.Gates.{IsFilled, HasAddresses, fill_idt-IsFilled}
use linux_operating_system.Kernel.Descriptors.Segments.{IsSegment, entry-IsSegment}
use linux_operating_system.Kernel.Boot.Start.{Machine, Setup, stopped, initialise, entry}
use linux_operating_system.Kernel.Boot.Ready.{IsReadyToRun, initialise-IsReadyToRun}
use linux_operating_system.Kernel.Boot.Magic.{magic_text, entry-magic}
use linux_operating_system.Tests.Machine.{image, terminal, kernel, frame}

abbrev console : Console
console = record { mem = image; screen_x = 78; screen_y = 24 }

-- "n:%d,%#x%%%c\n" of -5, 14 and 'A'.
abbrev directives : List Directive
directives =
    literal b'n'
    ∷ literal b':'
    ∷ signed 4294967291
    ∷ literal b','
    ∷ hex_padded 14
    ∷ percent
    ∷ character 65
    ∷ literal 10
    ∷ []

directives_text : flat (text_of image) directives ≡ codes "n:-5,0000000E%A\n"
unfolding flat text_of numeral zeros digit_char
directives_text = refl

directives-ArePrintable : (m : Memory) → ArePrintable 40 m directives
unfolding ArePrintable IsPrintable
directives-ArePrintable m = (
  (λ e. absurd (omega arith)),
  (
    (λ e. absurd (omega arith)),
    (
      omega arith,
      (
        (λ e. absurd (omega arith)),
        (omega arith, (tt, (omega arith, ((λ e. absurd (omega arith)), tt)))),
      ),
    ),
  ),
)

printf-flat_example :
    (printf 40 (flat format_of directives) (flat args_of directives) console
      ≡ some
          (length (flat format_of directives), put_text (flat (text_of image) directives) console))
    × SameOff image (put_text (flat (text_of image) directives) console).mem
printf-flat_example =
    printf-flat 40 directives console (omega arith) (directives-ArePrintable image)

terminal-IsReady : IsReady 0 terminal
terminal-IsReady = record {
  running = refl;
  no_key = refl;
  flags = record { disp = omega arith; curr = omega arith; key = omega arith };
  line = omega arith;
}

directives-HaveNoString : HaveNoString directives
unfolding HaveNoString HasNoString
directives-HaveNoString = (tt, (tt, (tt, (tt, (tt, (tt, (tt, (tt, tt))))))))

directives_fit : length (flat (text_of image) directives) ≡ 16
directives_fit = ap length directives_text

format_fits : length (flat format_of directives) ≡ 13
unfolding flat format_of
format_fits = refl

terminal_printf-safe_example :
    (s' : Term) × (terminal_printf 40 (flat format_of directives) (flat args_of directives) terminal
      ≡ some (length (flat format_of directives), s'))
    × IsReady 0 s'
    × (s'.curr_idx 0 ≡ 0)
    × (s'.write_flag 0 ≡ terminal.write_flag 0)
    × (s'.read_flag 0 ≡ terminal.read_flag 0)
    × ((u : ℕ) → u ≢ 0 → s'.curr_idx u ≡ terminal.curr_idx u)
    × SameElsewhere 0 terminal.input_buffer s'.input_buffer
terminal_printf-safe_example =
    terminal_printf-safe 40 0 directives terminal (omega arith) terminal-IsReady
      (directives-ArePrintable image) directives-HaveNoString (omega (arith, directives_fit))
      (omega (arith, format_fits))

abbrev child_runs : Kernel
child_runs = record kernel { pcbs = λ a. record (kernel.pcbs a) { parent = 0x7FC000 } }

abbrev fault : Fault
fault = record {
  page_fault_addr = 0xDEADBEEF;
  error_code = 4;
  eip = 0x8048010;
  cs = 0x23;
  eflags = 0x202;
}

exception-IsSquashed_example :
    (cs : List ℕ) × (said : Kernel) × (reported : Kernel) × (k' : Kernel) × (get_elem? messages 14
      ≡ some cs)
    × (say cs child_runs ≡ some said)
    × (report fault said ≡ some reported)
    × (squash_user_prog 1 9 frame reported ≡ some (returns (pos 0), k'))
    × (exception 14 fault 1 9 frame child_runs ≡ some (returns (pos 0), k'))
    × IsSquashed child_runs k'
exception-IsSquashed_example =
    exception-IsSquashed 14 0 fault 1 9 frame child_runs (omega arith) (omega arith)
      (record {
        page_fault_addr = omega arith;
        error_code = omega arith;
        eip = omega arith;
        cs = omega arith;
        eflags = omega arith;
      })
      (record { ready = terminal-IsReady; room = omega arith }) (λ e. absurd (omega arith))

abbrev handlers : Handlers
handlers = record {
  exception = λ n. 0x401000;
  pit_handler = 0x402000;
  kb_handler = 0x402010;
  rtc_handler = 0x402020;
  syscall_handler = 0x412030;
}

handlers-HasAddresses : HasAddresses handlers
handlers-HasAddresses = record {
  exception = λ n. omega arith;
  pit = omega arith;
  keyboard = omega arith;
  rtc = omega arith;
  syscall = omega arith;
}

-- What the stack held.
abbrev garbage : IdtDesc
garbage = record {
  offset_15_00 = 7;
  seg_selector = 7;
  reserved4 = 7;
  reserved3 = 1;
  reserved2 = 0;
  reserved1 = 0;
  size = 0;
  reserved0 = 1;
  dpl = 3;
  present = 0;
  offset_31_16 = 7;
}

abbrev garbage_segment : SegDesc
garbage_segment = record {
  seg_lim_15_00 = 7;
  base_15_00 = 7;
  base_23_16 = 7;
  seg_type = 7;
  sys = 1;
  dpl = 3;
  present = 0;
  seg_lim_19_16 = 7;
  avail = 1;
  reserved = 1;
  opsize = 1;
  granularity = 1;
  base_31_24 = 7;
}

fill_idt-IsFilled_example :
    IsFilled handlers (λ _. garbage) (fill_idt handlers garbage garbage (λ _. garbage))
fill_idt-IsFilled_example =
    fill_idt-IsFilled handlers garbage garbage (λ _. garbage) handlers-HasAddresses

entry-IsSegment_example :
    IsSegment 0x82 0x40A1B2 0x6F (ldt_entry garbage_segment 0x40A1B2 0x6F)
    × IsSegment 0x89 0x40A1B2 0x6F (tss_entry garbage_segment 0x40A1B2 0x6F)
entry-IsSegment_example = entry-IsSegment garbage_segment 0x40A1B2 0x6F (omega arith) (omega arith)

abbrev pub setup : Setup
setup = record {
  handlers = handlers;
  temp_gate = garbage;
  temp_gate_sys = garbage;
  temp_ldt = garbage_segment;
  temp_tss = garbage_segment;
  ldt = 0x40A1B2;
  ldt_size = 0x3F;
  tss = 0x40B000;
  tss_size = 104;
  prev_b = 2;
  prev_a = 0x26;
  index = 0x8B;
  page_table_at = 0x401000;
  video_table_at = 0x402000;
}

abbrev pub machine : Machine
machine = record {
  kernel = kernel;
  screen_x = 0;
  screen_y = 0;
  idt = λ _. garbage;
  ldt_desc = garbage_segment;
  tss_desc = garbage_segment;
  ldtr = 0;
  tr = 0;
  tss_ldt = 0;
  tss_ss0 = 0;
}

initialise-IsReadyToRun_example :
    IsReadyToRun setup (initialise setup 0x2C000 machine)
    × IsFilled handlers (λ _. garbage) (initialise setup 0x2C000 machine).idt
initialise-IsReadyToRun_example =
    initialise-IsReadyToRun setup 0x2C000 machine handlers-HasAddresses (omega arith) (omega arith)
      (omega arith) (omega arith)

entry-magic_example :
    (b' : Machine) × (entry 40 0 setup frame 0x1BADB002 0x2C000 machine ≡ some (stopped b'))
    × (b' ≡ record machine {
      kernel = with_mem kernel b'.kernel.term.mem;
      screen_x = b'.screen_x;
      screen_y = b'.screen_y;
    })
    × (b'.kernel.term.mem
        ≡ (put_text
            (magic_text 0x1BADB002)
            (record { mem = clear image; screen_x = 0; screen_y = 0 })).mem)
    × SameOff image b'.kernel.term.mem
entry-magic_example =
    entry-magic 40 0 setup frame 0x1BADB002 0x2C000 machine (omega arith) (omega arith)
      (λ e. absurd (omega arith))
