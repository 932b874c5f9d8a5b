-- ===== src/Scheduler/Runs.antt =====
-- Runs of the kernel since scheduling_init, as far as the scheduler sees them.
use orca_os.Base.{
  zero, ℤ, pos, negsuc, minus_one, to_i32, load32, ap, ◌≤◌, ◌≢◌, ℕ, suc, ◌+◌, ◌<◌, ◌≡◌, refl, sym,
  ◌∙◌, arith, subst, some, Memory,
}
use mathlib.Core.Option.{some-injective}
use orca_os.Process.{Kernel, Schedule, below}
use orca_os.Files.{Dentry, inode_start}
use orca_os.Files.Read.{file_byte}
use orca_os.Process.Execute.{shell, save_esp}
use orca_os.Process.Execute.Command.{IsCommand}
use orca_os.Process.Execute.Started.{IsProgram, Started, sys_execute_lem}
use orca_os.Scheduler.{
  Turn, runs, entered, enter_program, scheduling_init, system_execute, prepare_shell, scheduler,
  acknowledge, pit_handler,
}
use orca_os.Scheduler.Ticks.{state, Counted, Tick, pit_handler-Tick}

-- What only the scheduler changes.
pub record SameCounters (s s' : Schedule) : Type 0 where
  pub flag : s'.terminal_init_flag ≡ s.terminal_init_flag
  pub terminal : s'.terminal_counter ≡ s.terminal_counter
  pub executed : s'.execute_counter ≡ s.execute_counter

-- States that are reached with `n` ticks of the timer, anything else in between.
pub data Ran : ℕ → Kernel → Type 0 where
  started : (k : Kernel) → Ran 0 (scheduling_init k)
  ticked :
      (n fuel z : ℕ) (behind stack : Memory) (esp : ℕ) (k : Kernel) (t : Turn)
      → Ran n k
      → behind z ≡ 0
      → z + 6 < fuel
      → pit_handler fuel behind stack esp k ≡ some t
      → Ran (suc n) (state t)
  other : (n : ℕ) (k l : Kernel) → Ran n k → SameCounters k.schedule l.schedule → Ran n l

Ran-Counted : (n : ℕ) (k : Kernel) → Ran n k → Counted n k.schedule
unfolding scheduling_init
Ran-Counted n k (started l) = record { no_flag = refl; executed = refl; terminals = refl }
Ran-Counted n k (ticked m fuel z behind stack esp l t r ends fits e) =
    let w = pit_handler-Tick fuel z behind ends fits m stack esp l (Ran-Counted m l r) in
    let same = some-injective w.0 t (sym w.1 ∙ e) in
    let c = subst (λ t. Counted (m + 1) (state t).schedule) same w.2.counted in
    record {
      no_flag = c.no_flag;
      executed = ground (arith, c.executed);
      terminals = ground (arith, c.terminals);
    }
Ran-Counted n k (other m l l' r same) =
    let c = Ran-Counted m l r in
    record {
      no_flag = same.flag ∙ c.no_flag;
      executed = same.executed ∙ c.executed;
      terminals = same.terminal ∙ c.terminals;
    }

executes :
    (n fuel : ℕ) (behind stack : Memory) (esp : ℕ) (k : Kernel)
    → Counted n k.schedule
    → n < 3
    → pit_handler fuel behind stack esp k
      ≡ acknowledge (system_execute fuel (shell behind) stack esp (prepare_shell k))
unfolding pit_handler scheduler
executes n fuel behind stack esp k c h = ground (arith, c.no_flag, c.executed)

-- "shell", with what lies behind it, is a command of `len` bytes of arguments from `i` on that
-- starts the program in the file of `e`, as sys_execute_lem asks for it.
pub record Startable (fuel : ℕ) (behind : Memory) (k : Kernel) : Type 0 where
  pub name : ℕ
  pub first : ℕ
  pub len : ℕ
  pub entry : Dentry
  pub command : IsCommand (shell behind) name first len
  pub named : 0 < name
  pub short : len ≤ 126
  pub enough : first + len < fuel
  pub number : k.process_number < 6
  pub free : ((k.pcbs (below (k.process_number + 1))).file_array 2).flags ≡ 0
  pub program : IsProgram (shell behind) k entry
  pub starts :
      to_i32 (load32 (file_byte k.image (inode_start k.image entry.inode_num)) 24) ≢ minus_one

-- The program runs from its entry point, with the stack pointer kept in its block.
pub record Starts (fuel : ℕ) (behind : Memory) (esp : ℕ) (k : Kernel) (s : Startable fuel behind k)
    (t : Turn) : Type 0 where
  pub kernel : Kernel
  pub address : ℤ
  pub running : t ≡ runs (save_esp esp kernel) address
  pub started : Started (shell behind) s.first s.len k s.entry kernel address

enter_program-runs :
    (esp : ℕ) (k : Kernel) (r : ℤ)
    → r ≢ minus_one
    → enter_program esp (k, r) ≡ runs (save_esp esp k) r
unfolding enter_program
enter_program-runs esp k (pos n) h = refl
enter_program-runs esp k (negsuc zero) h = absurd (h refl)
enter_program-runs esp k (negsuc (suc n)) h = refl

shell-Starts :
    (fuel : ℕ) (behind stack : Memory) (esp : ℕ) (k : Kernel) (t : Turn)
    (s : Startable fuel behind k)
    → acknowledge (system_execute fuel (shell behind) stack esp k) ≡ some t
    → Starts fuel behind esp k s t
unfolding system_execute acknowledge
shell-Starts fuel behind stack esp k t s e =
    let x =
      sys_execute_lem (shell behind) stack s.name s.first s.len fuel k s.entry s.command s.named
        s.short s.enough s.number s.free s.program in
    let w : Started (shell behind) s.first s.len k s.entry x.0 x.1 = x.3 in
    let runs_on = enter_program-runs esp x.0 x.1 (λ m. s.starts (sym w.entry ∙ m)) in
    let same : acknowledge (system_execute fuel (shell behind) stack esp k)
        ≡ some (runs (save_esp esp x.0) x.1) =
      ap (λ o. acknowledge (entered esp o)) x.2 ∙ ap (λ t. acknowledge (some t)) runs_on in
    record { kernel = x.0; address = x.1; running = some-injective t _ (sym e ∙ same); started = w }

-- After any number `n` of the timer's ticks since scheduling_init, whatever else has happened that
-- leaves the three counters of the scheduler alone: the next tick is handled, if the memory behind
-- the string "shell" has a zero, and gives a state or a program to run. Ticks 1, 2 and 3 execute
-- "shell" on a blank screen, the last two after showing terminal 1 and then 2, and if the file
-- system has a program of that name, which fits and can be started, it is running then, loaded into
-- its memory; tick 4 shows terminal 0, and later ones leave the display as it is. The counters count
-- the ticks up to 4 and the terminals up to 2.
pub ticks_lem :
    (n : ℕ) (k : Kernel)
    → Ran n k
    → (fuel z : ℕ) (behind stack : Memory) (esp : ℕ) → behind z ≡ 0
    → z + 6 < fuel
    → (t : Turn) × (pit_handler fuel behind stack esp k ≡ some t)
      × Tick n k t
      × (n < 3
          → (s : Startable fuel behind (prepare_shell k))
          → Starts fuel behind esp (prepare_shell k) s t)
ticks_lem n k r fuel z behind stack esp ends fits =
    let c = Ran-Counted n k r in
    let w = pit_handler-Tick fuel z behind ends fits n stack esp k c in
    (
      w.0,
      w.1,
      w.2,
      λ h s.
          shell-Starts fuel behind stack esp (prepare_shell k) w.0 s
            (sym (executes n fuel behind stack esp k c h) ∙ w.1),
    )
