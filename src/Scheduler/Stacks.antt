-- ===== src/Scheduler/Stacks.antt =====
-- The stack pointers that the scheduler keeps in the blocks.
use orca_os.Base.{ℕ, ◌+◌, ◌≡◌, sym, ap, ◌∙◌, arith, update}
use orca_os.Process.{Pcb, Kernel, below}
use orca_os.Process.Tasks.{last_active}
use orca_os.Scheduler.{slot, block_of, save_registers_esp, restore_register_esp, set_scheduling_esp}

-- The block that the scheduler uses for a terminal whose first block is at `base`.
abbrev chosen : ℕ → Pcb → ℕ
chosen base t = block_of base t (last_active (slot t) 4)

chosen-set :
    (base esp a b : ℕ) (m : ℕ → Pcb)
    → chosen base (update m a (set_scheduling_esp esp (m a)) b) ≡ chosen base (m b)
unfolding slot block_of last_active
chosen-set base esp a b m = ground arith

fifth_slot : (t : Pcb) → t.terminal_displays 0 ≡ 0 → last_active (slot t) 5 ≡ last_active (slot t) 4
unfolding last_active slot
fifth_slot t h = ground (arith, h)

-- Where the first entry of `terminal_displays` in the first block of the scheduled terminal is 0,
-- which is all that the kernel ever writes there: `restore_register_esp` gives the stack pointer
-- that `save_registers_esp` was given last, whichever of the terminal's processes is active.
pub restore_register_esp-save_registers_esp :
    (esp : ℕ) (k : Kernel)
    → (k.pcbs (below (k.schedule.terminal_counter + 1))).terminal_displays 0 ≡ 0
    → restore_register_esp (save_registers_esp esp k) ≡ esp
unfolding restore_register_esp save_registers_esp
restore_register_esp-save_registers_esp esp k h =
    let base = below (k.schedule.terminal_counter + 1) in
    let t = k.pcbs base in
    let a = block_of base t (last_active (slot t) 5) in
    let same : a ≡ chosen base t = ap (block_of base t) (fifth_slot t h) in
    let m = update k.pcbs a (set_scheduling_esp esp (k.pcbs a)) in
    let found : chosen base (m base) ≡ a = chosen-set base esp a base k.pcbs ∙ sym same in
    ap (λ b. (m b).scheduling_esp) found ∙ ground arith
