-- ===== src/Pic/Lines.antt =====
-- The sixteen lines over any sequence of calls, against a description that knows no masks.
use orca_os.Base.{
  ℕ, ◌<◌, ◌≡◌, refl, ap, ◌∙◌, arith, ltb, ◌==◌, ◌&&◌, Bool, true, false, if◌then◌else◌, List, [],
  ◌∷◌,
}
use orca_os.Pic.{Pic, enable_irq, disable_irq, send_eoi}
use orca_os.Pic.Masks.{masked, masked-enable_irq, masked-disable_irq, masked-send_eoi}
use orca_os.Pic.Sync.{
  Command, IsSynced, enable_irq-IsSynced, disable_irq-IsSynced, send_eoi-IsSynced, run,
}

-- Whether line `j` is masked in the end, if it was as `b` says.
unfoldable pub expected : List Command → ℕ → Bool → Bool
expected [] j b = b
expected (Command.enable n ∷ cs) j b = expected cs j (if n == j then false else b)
expected (Command.disable n ∷ cs) j b = expected cs j (if n == j then true else b)
expected (Command.eoi n ∷ cs) j b = expected cs j b

-- Every line that is named is one of the sixteen.
unfoldable pub in_range : List Command → Bool
in_range [] = true
in_range (Command.enable n ∷ cs) = ltb n 16 && in_range cs
in_range (Command.disable n ∷ cs) = ltb n 16 && in_range cs
in_range (Command.eoi n ∷ cs) = ltb n 16 && in_range cs

-- From a state in which the controllers hold the kept masks, any sequence of `enable_irq`,
-- `disable_irq` and `send_eoi` on the lines 0 to 15 leaves each line as the last call that names it
-- says, masked after `disable_irq` and open after `enable_irq`, and as it was if none does.
pub masked-run :
    (cs : List Command) (s : Pic) (j : ℕ)
    → IsSynced s
    → in_range cs ≡ true
    → j < 16
    → masked (run cs s) j ≡ expected cs j (masked s j)
unfolding expected in_range run
masked-run [] s j v h l = refl
masked-run (Command.enable n ∷ cs) s j v h l =
    masked-run cs (enable_irq n s) j (enable_irq-IsSynced n v) (ground arith) l
    ∙ ap (expected cs j) (masked-enable_irq v.bytes n j (ground arith) l)
masked-run (Command.disable n ∷ cs) s j v h l =
    masked-run cs (disable_irq n s) j (disable_irq-IsSynced n v) (ground arith) l
    ∙ ap (expected cs j) (masked-disable_irq v.bytes n j (ground arith) l)
masked-run (Command.eoi n ∷ cs) s j v h l =
    masked-run cs (send_eoi n s) j (send_eoi-IsSynced n v) (ground arith) l
    ∙ ap (expected cs j) (masked-send_eoi n j s)
