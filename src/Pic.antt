-- ===== src/Pic.antt =====
-- The 8259 interrupt controllers: student-distrib/i8259.c and i8259.h. The two masks are the
-- globals `master_mask` and `slave_mask`; `ports` logs what `outb` wrote, the latest first.
pub mod Masks
pub mod Sync
pub mod Lines
pub mod Eoi
use orca_os.Base.{
  ℕ, ◌+◌, ◌-◌, ◌^◌, ◌*◌, bit_and, bit_or, List, ◌∷◌, ltb, leb, if◌then◌else◌, u8, sub32,
}

pub record Pic : Type 0 where
  pub master_mask : ℕ
  pub slave_mask : ℕ
  pub ports : List (ℕ × ℕ)

abbrev pub master_port : ℕ
master_port = 0x20

abbrev pub slave_port : ℕ
slave_port = 0xA0

abbrev pub master_data : ℕ
master_data = 0x21

abbrev pub slave_data : ℕ
slave_data = 0xA1

-- The macro `EOI`.
abbrev pub eoi : ℕ
eoi = 0x60

-- `outb(v, p)`: the low byte of `v` goes to port `p`.
abbrev pub outb : ℕ → ℕ → Pic → Pic
outb v p s = record s { ports = (u8 v, p) ∷ s.ports }

-- The masks after `i8259_init`, and ICW1 to ICW4 to both controllers, then the masks.
unfoldable pub init : Pic → Pic
init s =
    let s1 = record s { master_mask = 0xFB; slave_mask = 0xFF } in
    let s2 = outb 0x11 slave_port (outb 0x11 master_port s1) in
    let s3 = outb 0x28 slave_data (outb 0x20 master_data s2) in
    let s4 = outb 0x02 slave_data (outb 0x04 master_data s3) in
    let s5 = outb 0x01 slave_data (outb 0x01 master_data s4) in
    outb 0xFF slave_data (outb 0xFB master_data s5)

-- `mask & ~(1 << n)` and `mask | 1 << n`, kept in a `uint8_t`; the complement is that of an `int`.
abbrev pub clear_bit : ℕ → ℕ → ℕ
clear_bit mask n = u8 (bit_and mask (2 ^ 32 - 1 - 2 ^ n))

abbrev pub set_bit : ℕ → ℕ → ℕ
set_bit mask n = u8 (bit_or mask (2 ^ n))

unfoldable pub enable_irq : ℕ → Pic → Pic
enable_irq irq s =
    if ltb irq 8
    then (let value = clear_bit s.master_mask irq in
        outb value master_data (record s { master_mask = value }))
    else (let value = clear_bit s.slave_mask (irq - 8) in
        outb value slave_data (record s { slave_mask = value }))

unfoldable pub disable_irq : ℕ → Pic → Pic
disable_irq irq s =
    if ltb irq 8
    then (let value = set_bit s.master_mask irq in
        outb value master_data (record s { master_mask = value }))
    else (let value = set_bit s.slave_mask (irq - 8) in
        outb value slave_data (record s { slave_mask = value }))

-- After a slave's line the code goes on to the last `outb` with `irq_num` lowered by 8.
unfoldable pub send_eoi : ℕ → Pic → Pic
send_eoi irq s =
    if leb 8 irq
    then (let n = irq - 8 in
        outb (bit_or eoi n) master_port
          (outb (bit_or eoi 0x2) master_port (outb (bit_or eoi n) slave_port s)))
    else outb (bit_or eoi irq) master_port s
