-- ===== src/Pic/Sync.antt =====
-- The masks that the code keeps are those that the controllers hold.
use orca_os.Base.{ℕ, ◌≡◌, refl, arith, ◌==◌, if◌then◌else◌, Option, none, some, List, [], ◌∷◌}
use orca_os.Pic.{Pic, init, enable_irq, disable_irq, send_eoi, master_data, slave_data}
use orca_os.Pic.Masks.{IsPic}

-- The last byte written to a port.
abbrev pub last_write : ℕ → List (ℕ × ℕ) → Option ℕ
last_write p [] = none
last_write p ((v, q) ∷ l) = if p == q then some v else last_write p l

-- Each controller's data port was last given the mask that the code keeps for it.
pub record IsSynced (s : Pic) : Type 0 where
  pub bytes : IsPic s
  pub master_synced : last_write master_data s.ports ≡ some s.master_mask
  pub slave_synced : last_write slave_data s.ports ≡ some s.slave_mask

-- After `i8259_init` the controllers hold the kept masks.
pub init-IsSynced : (s : Pic) → IsSynced (init s)
unfolding init
init-IsSynced s = record {
  bytes = record { master = omega arith; slave = omega arith };
  master_synced = refl;
  slave_synced = refl;
}

pub enable_irq-IsSynced : {s : Pic} (irq : ℕ) → IsSynced s → IsSynced (enable_irq irq s)
unfolding enable_irq
enable_irq-IsSynced irq v = ground arith

pub disable_irq-IsSynced : {s : Pic} (irq : ℕ) → IsSynced s → IsSynced (disable_irq irq s)
unfolding disable_irq
disable_irq-IsSynced irq v = ground arith

pub send_eoi-IsSynced : {s : Pic} (irq : ℕ) → IsSynced s → IsSynced (send_eoi irq s)
unfolding send_eoi
send_eoi-IsSynced irq v = ground arith

-- What the kernel does with the controllers once they are initialised.
pub data Command : Type 0 where
  enable disable eoi : ℕ → Command

unfoldable pub run : List Command → Pic → Pic
run [] s = s
run (Command.enable n ∷ cs) s = run cs (enable_irq n s)
run (Command.disable n ∷ cs) s = run cs (disable_irq n s)
run (Command.eoi n ∷ cs) s = run cs (send_eoi n s)

-- From a state in which the controllers hold the kept masks, any sequence of enabling, disabling
-- and end-of-interrupt calls leads to such a state.
pub run-IsSynced : (cs : List Command) {s : Pic} → IsSynced s → IsSynced (run cs s)
unfolding run
run-IsSynced [] v = v
run-IsSynced (Command.enable n ∷ cs) v = run-IsSynced cs (enable_irq-IsSynced n v)
run-IsSynced (Command.disable n ∷ cs) v = run-IsSynced cs (disable_irq-IsSynced n v)
run-IsSynced (Command.eoi n ∷ cs) v = run-IsSynced cs (send_eoi-IsSynced n v)
