-- ===== src/Kernel/Boot.antt =====
-- kernel.c: entry, from the screen that the boot loader leaves to the first shell. The Multiboot
-- structures are read from memory, at the offsets of multiboot.h.
pub mod Start
pub mod Ready
pub mod Running
pub mod Magic
pub mod Lines
pub mod Modules
use linux_operating_system.Prelude.{
  ℕ, zero, suc, ◌+◌, ◌-◌, ◌*◌, ◌/◌, ◌%◌, ◌^◌, ◌≤◌, ◌<◌, min, bit_and, bit_or, ◌≡◌, refl, sym, ap,
  ◌∙◌, fun_ext, subst, ◌≢◌, ◌↔◌, ◌⊎◌, inl, inr, Bool, true, false, ◌&&◌, ◌||◌, not, Option, none,
  some, List, [], ◌∷◌, ◌++◌, map, reverse, arith, ltb, leb, ◌==◌, if◌then◌else◌, ltb→lt, leb→le,
  ==_iff, Bool-cases, ◌>>=◌, length, get_elem?, get_or, set, length-append, length-set,
  get_elem?-set_self, get_elem?-set_ne, ℤ, pos, negsuc, minus_one, sub_ℕ, Memory, store, load32,
  store32, bytes, codes, moved, filled, is_table, table_entry, table_witness, word, add32, sub32,
  to_int32,
}
use linux_operating_system.CLib.Console.{Console, printf}

-- A line of printf.
abbrev print : ℕ → List ℕ → List ℕ → Console → Option Console
print fuel format args c = printf fuel format args c >>= λ r. some r.1

-- CHECK_FLAG
abbrev pub check_flag : ℕ → ℕ → Bool
check_flag flags bit = not (flags / 2 ^ bit % 2 == 0)

abbrev pub mods_count : ℕ → Memory → ℕ
mods_count addr m = load32 m (addr + 20)

abbrev pub mods_addr : ℕ → Memory → ℕ
mods_addr addr m = load32 m (addr + 24)

-- `*((char*)p)` passed on as an int: the sign bit of the byte is copied.
abbrev pub sign_extended : ℕ → ℕ
sign_extended c = if ltb c 128 then c else c + (word - 256)

-- The `left` bytes of a module from index `i` on.
unfoldable pub print_bytes : ℕ → ℕ → ℕ → ℕ → Console → Option Console
print_bytes fuel zero i module_at c = some c
print_bytes fuel (suc left) i module_at c =
    elim (print fuel (codes "0x%x ") (sign_extended (c.mem (load32 c.mem module_at + i)) ∷ []) c) [
      | none ↦ none
      | some c' ↦ print_bytes fuel left (i + 1) module_at c'
    ]

unfoldable pub print_module : ℕ → ℕ → ℕ → Console → Option Console
unfolding print_bytes
print_module fuel mod_count module_at c =
    print fuel (codes "Module %d loaded at address: 0x%#x\n")
      (mod_count ∷ load32 c.mem module_at ∷ []) c
    >>= λ c1.
        print fuel (codes "Module %d ends at address: 0x%#x\n")
          (mod_count ∷ load32 c1.mem (module_at + 4) ∷ []) c1
        >>= λ c2. print fuel (codes "First few bytes of module:\n") [] c2 >>= λ c3.
            print_bytes fuel 16 0 module_at c3 >>= λ c4. print fuel (codes "\n") [] c4

-- The `while` over the modules; `rounds` bounds it. `mods_count` is read again in each test.
unfoldable pub print_modules : ℕ → ℕ → ℕ → ℕ → ℕ → Console → Option Console
unfolding print_module
print_modules fuel zero addr mod_count module_at c = none
print_modules fuel (suc rounds) addr mod_count module_at c =
    elim (ltb mod_count (mods_count addr c.mem)) [
      | false ↦ some c
      | true ↦ elim (print_module fuel mod_count module_at c) [
        | none ↦ none
        | some c' ↦ print_modules fuel rounds addr (mod_count + 1) (module_at + 16) c'
      ]
    ]

-- The `for` over the memory map; `rounds` bounds it.
unfoldable pub print_regions : ℕ → ℕ → ℕ → ℕ → Console → Option Console
print_regions fuel zero addr mmap c = none
print_regions fuel (suc rounds) addr mmap c =
    elim (ltb mmap (add32 (load32 c.mem (addr + 48)) (load32 c.mem (addr + 44)))) [
      | false ↦ some c
      | true ↦
          elim (print fuel
            (codes
              " size = 0x%x,     base_addr = 0x%#x%#x\n     type = 0x%x,  length    = 0x%#x%#x\n")
            (load32 c.mem mmap
              ∷ load32 c.mem (mmap + 8)
              ∷ load32 c.mem (mmap + 4)
              ∷ load32 c.mem (mmap + 20)
              ∷ load32 c.mem (mmap + 16)
              ∷ load32 c.mem (mmap + 12)
              ∷ [])
            c) [
              | none ↦ none
              | some c' ↦
                  print_regions fuel rounds addr (add32 (add32 mmap (load32 c'.mem mmap)) 4) c'
            ]
    ]

-- What entry prints for a bit of the flags.
abbrev when : ℕ → ℕ → (Console → Option Console) → Console → Option Console
when addr bit f c = if check_flag (load32 c.mem addr) bit then f c else some c

unfoldable pub print_mem : ℕ → ℕ → Console → Option Console
print_mem fuel addr c =
    print fuel (codes "mem_lower = %uKB, mem_upper = %uKB\n")
      (load32 c.mem (addr + 4) ∷ load32 c.mem (addr + 8) ∷ []) c

unfoldable pub print_boot_device : ℕ → ℕ → Console → Option Console
print_boot_device fuel addr c =
    print fuel (codes "boot_device = 0x%#x\n") (load32 c.mem (addr + 12) ∷ []) c

unfoldable pub print_cmdline : ℕ → ℕ → Console → Option Console
print_cmdline fuel addr c = print fuel (codes "cmdline = %s\n") (load32 c.mem (addr + 16) ∷ []) c

unfoldable pub print_elf_sec : ℕ → ℕ → Console → Option Console
print_elf_sec fuel addr c =
    print fuel (codes "elf_sec: num = %u, size = 0x%#x, addr = 0x%#x, shndx = 0x%#x\n")
      (load32 c.mem (addr + 28)
        ∷ load32 c.mem (addr + 32)
        ∷ load32 c.mem (addr + 36)
        ∷ load32 c.mem (addr + 40)
        ∷ [])
      c

unfoldable pub print_mmap : ℕ → ℕ → ℕ → Console → Option Console
unfolding print_regions
print_mmap fuel rounds addr c =
    print fuel (codes "mmap_addr = 0x%#x, mmap_length = 0x%x\n")
      (load32 c.mem (addr + 48) ∷ load32 c.mem (addr + 44) ∷ []) c
    >>= λ c'. print_regions fuel rounds addr (load32 c'.mem (addr + 48)) c'

-- What entry prints when the boot loader is a Multiboot one. `false` is the early return.
unfoldable pub print_info : ℕ → ℕ → ℕ → Console → Option (Bool × Console)
unfolding print_mem print_boot_device print_cmdline print_modules print_elf_sec print_mmap
print_info fuel rounds addr c =
    print fuel (codes "flags = 0x%#x\n") (load32 c.mem addr ∷ []) c >>= λ c1.
    when addr 0 (print_mem fuel addr) c1 >>= λ c2.
    when addr 1 (print_boot_device fuel addr) c2 >>= λ c3.
    when addr 2 (print_cmdline fuel addr) c3 >>= λ c4.
    when addr 3 (λ c. print_modules fuel rounds addr 0 (mods_addr addr c.mem) c) c4 >>= λ c5.
    if check_flag (load32 c5.mem addr) 4 && check_flag (load32 c5.mem addr) 5
    then (print fuel (codes "Both bits 4 and 5 are set.\n") [] c5 >>= λ e. some (false, e))
    else (when addr 5 (print_elf_sec fuel addr) c5 >>= λ c6.
        when addr 6 (print_mmap fuel rounds addr) c6 >>= λ c7. some (true, c7))
