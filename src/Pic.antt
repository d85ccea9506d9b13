-- ===== src/Pic.antt =====
-- i8259.c: the two interrupt controllers. The state is the two masks and the bytes written to ports,
-- newest first, each with its port.
pub mod Masks
use linux_operating_system.Prelude.{
  ℕ, zero, suc, ◌+◌, ◌-◌, ◌*◌, ◌/◌, ◌%◌, ◌^◌, ◌≤◌, ◌<◌, min, bit_and, bit_or, ◌≡◌, refl, sym, ap,
  ◌∙◌, fun_ext, subst, ◌≢◌, ◌↔◌, ◌⊎◌, inl, inr, Bool, true, false, ◌&&◌, ◌||◌, not, Option, none,
  some, List, [], ◌∷◌, ◌++◌, map, reverse, arith, ltb, leb, ◌==◌, if◌then◌else◌, ltb→lt, leb→le,
  ==_iff, Bool-cases, ◌>>=◌, length, get_elem?, get_or, set, length-append, length-set,
  get_elem?-set_self, get_elem?-set_ne, ℤ, pos, negsuc, minus_one, sub_ℕ, Memory, store, load32,
  store32, bytes, codes, moved, filled, is_table, table_entry, word, add32, sub32, to_int32,
}

pub record Pic : Type 0 where
  pub master_mask : ℕ
  pub slave_mask : ℕ
  pub written : List (ℕ × ℕ)

abbrev pub master_port : ℕ
master_port = 0x20

abbrev pub slave_port : ℕ
slave_port = 0xA0

-- `outb(data, port)` writes the low byte.
abbrev pub outb : ℕ → ℕ → Pic → Pic
outb value port p = record p { written = (value % 256, port) ∷ p.written }

unfoldable pub i8259_init : Pic → Pic
i8259_init p =
    let q =
      outb 0xFF (slave_port + 1)
        (outb 0xFF (master_port + 1) (record p { master_mask = 0xFF; slave_mask = 0xFF })) in
    let master =
      outb 0x01 (master_port + 1)
        (outb 0x04 (master_port + 1) (outb 0x20 (master_port + 1) (outb 0x11 master_port q))) in
    let slave =
      outb 0x01 (slave_port + 1)
        (outb 0x02 (slave_port + 1) (outb 0x28 (slave_port + 1) (outb 0x11 slave_port master))) in
    let open_slave = bit_and 0xFF (255 - 0x04) in
    outb open_slave (master_port + 1) (record slave { master_mask = open_slave })

-- `mask & ~(1 << bit)` and `mask | (1 << bit)` on a byte.
unfoldable pub clear_bit : ℕ → ℕ → ℕ
clear_bit mask bit = bit_and mask (255 - 2 ^ bit)

unfoldable pub set_bit : ℕ → ℕ → ℕ
set_bit mask bit = bit_or mask (2 ^ bit)

unfoldable pub enable_irq : ℕ → Pic → Pic
enable_irq irq p =
    if leb irq 7
    then outb (clear_bit p.master_mask irq) (master_port + 1)
        (record p { master_mask = clear_bit p.master_mask irq })
    else if leb 8 irq && leb irq 15
    then outb (clear_bit p.slave_mask (irq - 8)) (slave_port + 1)
        (record p { slave_mask = clear_bit p.slave_mask (irq - 8) })
    else p

unfoldable pub disable_irq : ℕ → Pic → Pic
disable_irq irq p =
    if leb irq 7
    then outb (set_bit p.master_mask irq) (master_port + 1)
        (record p { master_mask = set_bit p.master_mask irq })
    else if leb 8 irq && leb irq 15
    then outb (set_bit p.slave_mask (irq - 8)) (slave_port + 1)
        (record p { slave_mask = set_bit p.slave_mask (irq - 8) })
    else p

-- For a line of the slave both controllers are told.
unfoldable pub send_eoi : ℕ → Pic → Pic
send_eoi irq p =
    if leb 8 irq && leb irq 15
    then outb (bit_or 0x60 2) master_port (outb (bit_or 0x60 (irq - 8)) slave_port p)
    else outb (bit_or 0x60 irq) master_port p
