-- ===== src/Pic/Eoi.antt =====
-- Which end-of-interrupt bytes `send_eoi` sends, and to which controller.
use orca_os.Base.{
  ℕ, ◌-◌, ◌+◌, ◌<◌, ◌≡◌, refl, arith, leb, ◌==◌, ==_iff, if◌then◌else◌, true, ◌∷◌, bit_or,
  all_below, all_below_sound,
}
use orca_os.Pic.{Pic, send_eoi, master_port, slave_port}

eoi_table : all_below 8 (λ n. bit_or 0x60 n == 0x60 + n) ≡ true
unfolding all_below
eoi_table = refl

pub bit_or-eoi : (n : ℕ) → n < 8 → bit_or 0x60 n ≡ 0x60 + n
bit_or-eoi n h = (==_iff _ _).0 (all_below_sound 8 _ n eoi_table h)

-- For a line of the master one specific end-of-interrupt for it goes to the master, and for a
-- line of the slave three are sent: for its own number to the slave, for line 2 to the master,
-- and for its number less 8 to the master too.
pub send_eoi_ports :
    (irq : ℕ) (s : Pic)
    → irq < 16
    → (send_eoi irq s).ports ≡ (
        if leb 8 irq
        then (0x60 + (irq - 8), master_port)
          ∷ (0x62, master_port)
          ∷ (0x60 + (irq - 8), slave_port)
          ∷ s.ports
        else (0x60 + irq, master_port) ∷ s.ports)
unfolding send_eoi
send_eoi_ports irq s h = ground (arith, bit_or-eoi irq, bit_or-eoi (irq - 8), bit_or-eoi 2)
