-- ===== src/Kernel/Boot/Start.antt =====
-- kernel.c: the second part of entry, which initialises the machine and starts the shell.
use linux_operating_system.Prelude.{
  ℕ, Bool, true, false, not, Option, some, [], ◌∷◌, ◌==◌, if◌then◌else◌, ◌>>=◌, load32, codes,
}
use linux_operating_system.CLib.Console.{Console, printf}
use linux_operating_system.FileSys.{init_fs}
use linux_operating_system.Pic.{i8259_init}
use linux_operating_system.Rtc.{rtc_init}
use linux_operating_system.Terminal.Calls.{clear, terminal_open}
use linux_operating_system.Kernel.{Kernel, with_mem, Outcome, Frame}
use linux_operating_system.Kernel.Paging.{init_paging}
use linux_operating_system.Kernel.Keyboard.{init_keyboard}
use linux_operating_system.Kernel.Schedule.{with_pic, pit_init, init_terminals}
use linux_operating_system.Kernel.Programs.{execute_func}
use linux_operating_system.Kernel.Descriptors.{
  IdtDesc, Idt, Handlers, fill_idt, SegDesc, ldt_entry, tss_entry,
}
use linux_operating_system.Kernel.Boot.{mods_addr, print_info}

-- The machine while it starts: the kernel, the console, the descriptors, and the selectors loaded by
-- lldt and ltr.
pub record Machine : Type 0 where
  pub kernel : Kernel
  pub screen_x : ℕ
  pub screen_y : ℕ
  pub idt : Idt
  pub ldt_desc : SegDesc
  pub tss_desc : SegDesc
  pub ldtr : ℕ
  pub tr : ℕ
  pub tss_ldt : ℕ
  pub tss_ss0 : ℕ

-- What entry takes from the linker and the hardware: addresses and sizes of the tables, the handlers,
-- what the stack held where a structure is filled in, and the bytes that rtc_init reads from its ports.
pub record Setup : Type 0 where
  pub handlers : Handlers
  pub temp_gate : IdtDesc
  pub temp_gate_sys : IdtDesc
  pub temp_ldt : SegDesc
  pub temp_tss : SegDesc
  pub ldt : ℕ
  pub ldt_size : ℕ
  pub tss : ℕ
  pub tss_size : ℕ
  pub prev_b : ℕ
  pub prev_a : ℕ
  pub index : ℕ
  pub page_table_at : ℕ
  pub video_table_at : ℕ

unfoldable pub on_console : (Console → Option (Bool × Console)) → Machine → Option (Bool × Machine)
on_console f b =
    f (record { mem = b.kernel.term.mem; screen_x = b.screen_x; screen_y = b.screen_y }) >>= λ r.
    some (
      r.0,
      record b {
        kernel = with_mem b.kernel r.1.mem;
        screen_x = r.1.screen_x;
        screen_y = r.1.screen_y;
      },
    )

-- The LDT and the TSS in the GDT.
unfoldable pub load_descriptors : Setup → Machine → Machine
unfolding ldt_entry tss_entry
load_descriptors u b = record b {
  ldt_desc = ldt_entry u.temp_ldt u.ldt u.ldt_size;
  ldtr = 0x38;
  tss_desc = tss_entry u.temp_tss u.tss u.tss_size;
  tss_ldt = 0x38;
  tss_ss0 = 0x18;
  kernel = record b.kernel { tss_esp0 = 0x800000 };
  tr = 0x30;
}

-- The initialisers of the devices, of paging and of the file system, in the order of the source.
unfoldable pub init_devices : Setup → ℕ → Kernel → Kernel
unfolding i8259_init pit_init init_keyboard rtc_init terminal_open init_paging init_fs
init_devices u addr k =
    let k1 = init_keyboard (pit_init (with_pic k (i8259_init k.rtc.pic))) in
    let k2 = record k1 { rtc = rtc_init u.prev_b u.prev_a u.index k1.rtc } in
    let k3 = record k2 { term = (terminal_open k2.term).1 } in
    let k4 = init_paging u.page_table_at u.video_table_at k3 in
    let k5 = record k4 {
      fs = init_fs (load32 k4.term.mem (mods_addr addr k4.term.mem)) k4.term.mem;
    } in
    record k5 { rtc = record k5.rtc { interrupts = true } }

unfoldable pub initialise : Setup → ℕ → Machine → Machine
unfolding load_descriptors fill_idt init_devices init_terminals
initialise u addr b =
    let d = load_descriptors u b in
    record d {
      idt = fill_idt u.handlers u.temp_gate u.temp_gate_sys d.idt;
      kernel = init_terminals (init_devices u addr d.kernel);
    }

-- How entry ends: it returns to boot.S, or it executes the shell.
pub data Entry : Type 0 where
  stopped : Machine → Entry
  executed : Machine → Outcome × Kernel → Entry

abbrev pub multiboot_magic : ℕ
multiboot_magic = 0x2BADB002

-- The wrong magic number, in the argument of the message.
unfoldable pub print_magic : ℕ → ℕ → Console → Option (Bool × Console)
print_magic fuel magic c =
    printf fuel (codes "Invalid magic number: 0x%#x\n") (magic ∷ []) c >>= λ r. some (false, r.1)

-- The boot loader runs it with interrupts off. An interrupt between sti and the shell is left out.
unfoldable pub entry : ℕ → ℕ → Setup → Frame → ℕ → ℕ → Machine → Option Entry
unfolding on_console print_magic initialise
entry fuel rounds u f magic addr b =
    let c = record b { kernel = with_mem b.kernel (clear b.kernel.term.mem) } in
    if not (magic == multiboot_magic)
    then (on_console (print_magic fuel magic) c >>= λ r. some (stopped r.1))
    else (on_console (print_info fuel rounds addr) c >>= λ r.
        if not r.0
        then some (stopped r.1)
        else (let i = initialise u addr r.1 in
            execute_func fuel f f.shell i.kernel >>= λ o. some (executed i o)))
