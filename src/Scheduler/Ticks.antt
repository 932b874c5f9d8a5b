-- ===== src/Scheduler/Ticks.antt =====
-- How the timer's ticks start the shells: pit_handler over a run of the kernel.
use orca_os.Base.{
  if_cases, ℕ, zero, suc, ◌+◌, ◌-◌, ◌≤◌, ◌<◌, ◌≡◌, refl, arith, min, ℤ, pos, negsuc, ltb, ◌==◌,
  ◌&&◌, ◌||◌, if◌then◌else◌, Option, some, Memory,
}
use orca_os.Screen.{Screen, video, clear, set_pos}
use orca_os.Screen.Fill.{blank_byte, mem-clear}
use orca_os.Switch.Pages.{switch_terminal_valid, on_display-show_terminal}
use orca_os.Process.{Kernel, Schedule}
use orca_os.Process.Execute.{name_end, save_esp, shell}
use orca_os.Process.Execute.Total.{Keeps, sys_execute_total}
use orca_os.Scheduler.{
  Turn, runs, returns, enter_program, system_execute, next_terminal, prepare_shell, scheduler,
  acknowledge, pit_handler,
}

-- The kernel's state when the handler is done, or when the program starts.
abbrev pub state : Turn → Kernel
state (runs k r) = k
state (returns k) = k

-- The three globals that the scheduler decides by, after `n` ticks.
pub record Counted (n : ℕ) (s : Schedule) : Type 0 where
  pub no_flag : s.terminal_init_flag ≡ 0
  pub executed : s.execute_counter ≡ min n 4
  pub terminals : s.terminal_counter ≡ min (n - 1) 2

-- The same counters, and the same on the screen.
abbrev Looks : Kernel → Kernel → Type 0
Looks k l =
    (l.schedule ≡ k.schedule)
    × (l.console.screen ≡ k.console.screen)
    × (l.console.on_display ≡ k.console.on_display)

entered-Looks :
    (esp : ℕ) (k k' : Kernel) (r : ℤ)
    → Keeps k k'
    → (t : Turn) × (acknowledge (some (enter_program esp (k', r))) ≡ some t) × Looks k (state t)
unfolding enter_program acknowledge save_esp
entered-Looks esp k k' (negsuc zero) w = (_, refl, (w.0, rw w.1, rw w.1))
entered-Looks esp k k' (negsuc (suc r)) w = (_, refl, (w.0, rw w.1, rw w.1))
entered-Looks esp k k' (pos r) w = (_, refl, (w.0, rw w.1, rw w.1))

-- A program that is started, or not, once enough fuel is given.
system_execute-Looks :
    (fuel z : ℕ) (behind stack : Memory) (esp : ℕ) (k : Kernel)
    → behind z ≡ 0
    → z + 6 < fuel
    → (t : Turn) × (acknowledge (system_execute fuel (shell behind) stack esp k) ≡ some t)
      × Looks k (state t)
unfolding system_execute name_end
system_execute-Looks fuel z behind stack esp k h fits =
    let g =
      sys_execute_total fuel (z + 6) (shell behind) stack k (ground (arith, h)) (omega arith)
        fits in
    let r = entered-Looks esp k g.0 g.1 g.3 in (r.0, rw g.2 r.1, r.2)

display-next :
    (k : Kernel)
    → k.schedule.execute_counter ≤ 2
    → (next_terminal k).console.on_display ≡ (
        if k.schedule.execute_counter == 0
        then k.console.on_display
        else k.schedule.execute_counter)
unfolding next_terminal
display-next k h = ground (
  arith,
  switch_terminal_valid k.schedule.execute_counter k.console h,
  on_display-show_terminal k.schedule.execute_counter k.console,
)

prepared :
    (n : ℕ) (k : Kernel) → n < 3 → Counted n k.schedule → Counted (n + 1) (prepare_shell k).schedule
unfolding prepare_shell next_terminal
prepared n k h c = record {
  no_flag = ground (arith, c.no_flag);
  executed = ground (arith, c.executed);
  terminals = ground (arith, c.executed, c.terminals);
}

display-prepared :
    (k : Kernel)
    → k.schedule.execute_counter ≤ 2
    → (prepare_shell k).console.on_display ≡ (
        if k.schedule.execute_counter == 0
        then k.console.on_display
        else k.schedule.execute_counter)
unfolding prepare_shell clear set_pos
display-prepared k h = display-next k h

-- The screen is blank, and the cursor in its corner.
pub record IsBlank (s : Screen) : Type 0 where
  pub blank : (a : ℕ) → video ≤ a → a < video + 4000 → s.mem a ≡ blank_byte a
  pub left : s.x ≡ 0
  pub top : s.y ≡ 0

blank-prepared : (k : Kernel) → IsBlank (prepare_shell k).console.screen
unfolding prepare_shell set_pos
blank-prepared k = record {
  blank = λ a h l. ground (arith, mem-clear (next_terminal k).console.screen a);
  left = refl;
  top = refl;
}

-- What the tick after `n` others comes to, in the state `k`.
pub record Tick (n : ℕ) (k : Kernel) (t : Turn) : Type 0 where
  pub counted : Counted (n + 1) (state t).schedule
  pub display :
      (state t).console.on_display
      ≡ (if (n == 0) || ltb 3 n then k.console.on_display else if n == 3 then 0 else n)
  pub blank : n < 3 → IsBlank (state t).console.screen

module _ (fuel z : ℕ) (behind : Memory) (ends : behind z ≡ 0) (fits : z + 6 < fuel) where
  abbrev Does : ℕ → Kernel → Option Turn → Type 0
  Does n k o = (t : Turn) × (acknowledge o ≡ some t) × Tick n k t

  starts :
      (n : ℕ) (stack : Memory) (esp : ℕ) (k : Kernel)
      → n < 3
      → Counted n k.schedule
      → Does n k (system_execute fuel (shell behind) stack esp (prepare_shell k))
  starts n stack esp k h c =
      let r = system_execute-Looks fuel z behind stack esp (prepare_shell k) ends fits in
      (
        r.0,
        r.1,
        record {
          counted = rw r.2.0 (prepared n k h c);
          display = ground (arith, r.2.2, display-prepared k, c.executed);
          blank = λ l. rw r.2.1 (blank-prepared k);
        },
      )

  pub pit_handler-Tick :
      (n : ℕ) (stack : Memory) (esp : ℕ) (k : Kernel)
      → Counted n k.schedule
      → (t : Turn) × (pit_handler fuel behind stack esp k ≡ some t) × Tick n k t
  unfolding pit_handler scheduler acknowledge
  pit_handler-Tick n stack esp k c =
      let s = k.schedule in
      if_cases (Does n k) ((s.terminal_init_flag == 0) && ltb s.execute_counter 3)
        (λ e. starts n stack esp k (ground (arith, c.executed)) c)
        (λ e.
          if_cases (Does n k) (ltb s.execute_counter 4)
            (λ e'. (
              _,
              refl,
              record {
                counted = record {
                  no_flag = c.no_flag;
                  executed = ground (arith, c.executed, c.no_flag);
                  terminals = ground (arith, c.executed, c.no_flag, c.terminals);
                };
                display = ground (
                  arith,
                  c.executed,
                  c.no_flag,
                  switch_terminal_valid 0 k.console,
                  on_display-show_terminal 0 k.console,
                );
                blank = λ l. ground (arith, c.executed, c.no_flag);
              },
            ))
            (λ e'. (
              _,
              refl,
              record {
                counted = record {
                  no_flag = c.no_flag;
                  executed = ground (arith, c.executed);
                  terminals = ground (arith, c.executed, c.terminals);
                };
                display = ground (arith, c.executed);
                blank = λ l. ground (arith, c.executed, c.no_flag);
              },
            )))
