-- ===== src/System/Turns.antt =====
-- The scheduler and the start of programs, and the limits of the kernel's state.
use orca_os.Base.{
  ℕ, ◌≡◌, refl, arith, ℤ, pos, negsuc, zero, suc, if_cases, Option, none, some, Memory, ltb, ◌==◌,
  ◌&&◌,
}
use orca_os.Screen.{clear, set_pos}
use orca_os.Screen.Frame.{clear-Keeps}
use orca_os.Console.{Console}
use orca_os.Keyboard.Frame.{IsConsole, on_screen-IsConsole}
use orca_os.Keyboard.Handler.{switch_terminal-IsConsole}
use orca_os.Process.{Kernel, Schedule}
use orca_os.Process.Execute.{sys_execute, save_esp, shell}
use orca_os.Scheduler.{
  Turn, runs, returns, enter_program, entered, system_execute, start_first_shell, next_terminal,
  prepare_shell, scheduler, acknowledge, pit_handler,
}
use orca_os.System.Calm.{update-Calm}
use orca_os.System.Limits.{nowhere, Limits, Calm-Limits, with_console-Limits}
use orca_os.System.Calls.{with_pic-IsConsole}
use orca_os.System.Programs.{Executed, sys_execute-Executed}

-- Where the scheduler leaves the kernel.
abbrev pub Turned : Option Turn → Type 0
Turned none = Unit {0}
Turned (some (runs k r)) = Limits k
Turned (some (returns k)) = Limits k

enter_program-Turned :
    (esp : ℕ) (k : Kernel) (r : ℤ) → Limits k → Turned (some (enter_program esp (k, r)))
unfolding enter_program save_esp
enter_program-Turned esp k (negsuc zero) v = v
enter_program-Turned esp k (negsuc (suc r)) v =
    Calm-Limits k _ (update-Calm k.current_pcb _ k refl refl refl) v
enter_program-Turned esp k (pos r) v =
    Calm-Limits k _ (update-Calm k.current_pcb _ k refl refl refl) v

pub entered-Turned : (esp : ℕ) (o : Option (Kernel × ℤ)) → Executed o → Turned (entered esp o)
entered-Turned esp none w = tt
entered-Turned esp (some (k, r)) w = enter_program-Turned esp k r w

pub system_execute-Turned :
    (fuel : ℕ) (command stack : Memory) (esp : ℕ) (k : Kernel)
    → Limits k
    → Turned (system_execute fuel command stack esp k)
unfolding system_execute
system_execute-Turned fuel command stack esp k v =
    entered-Turned esp (sys_execute fuel (some command) stack k)
      (sys_execute-Executed fuel (some command) stack k v)

pub start_first_shell-Turned :
    (fuel : ℕ) (behind stack : Memory) (esp : ℕ) (k : Kernel)
    → Limits k
    → Turned (start_first_shell fuel behind stack esp k)
unfolding start_first_shell
start_first_shell-Turned fuel behind stack esp k v =
    system_execute-Turned fuel (shell behind) stack esp _ (record {
      console = v.console;
      current = nowhere refl;
      number = omega (arith, v.console.shown);
      recover = v.number;
      frame = v.frame;
      numbers = v.numbers;
      slots = v.slots;
      home = v.home;
    })

-- The counters of the scheduler and the console may change.
with_counters-Limits :
    (s : Schedule) (c : Console) (k : Kernel)
    → s.recover_num ≡ k.schedule.recover_num
    → IsConsole c
    → Limits k
    → Limits (record k { schedule = s; console = c })
with_counters-Limits s c k e w v = record {
  console = w;
  current = v.current;
  number = v.number;
  recover = omega (arith, e, v.recover);
  frame = v.frame;
  numbers = v.numbers;
  slots = v.slots;
  home = v.home;
}

next_terminal-Limits : (k : Kernel) → Limits k → Limits (next_terminal k)
unfolding next_terminal
next_terminal-Limits k v =
    let n = k.schedule.execute_counter in
    if_cases Limits (ltb 0 n)
      (λ e.
        with_counters-Limits _ _ k refl (switch_terminal-IsConsole (pos n) k.console v.console) v)
      (λ e. v)

pub prepare_shell-Limits : (k : Kernel) → Limits k → Limits (prepare_shell k)
unfolding prepare_shell
prepare_shell-Limits k v =
    let k1 = next_terminal k in
    let w = next_terminal-Limits k v in
    with_counters-Limits _ _ k1 refl
      (with_pic-IsConsole _ _ (
        on_screen-IsConsole (λ t. set_pos 0 0 (clear t)) k1.console w.console
          (clear-Keeps k1.console.screen)))
      w

scheduler-Turned :
    (fuel : ℕ) (behind stack : Memory) (esp : ℕ) (k : Kernel)
    → Limits k
    → Turned (scheduler fuel behind stack esp k)
unfolding scheduler
scheduler-Turned fuel behind stack esp k v =
    let s = k.schedule in
    if_cases Turned ((s.terminal_init_flag == 0) && ltb s.execute_counter 3)
      (λ e. system_execute-Turned fuel (shell behind) stack esp _ (prepare_shell-Limits k v))
      (λ e.
        if_cases Turned (ltb s.execute_counter 4)
          (λ f.
            with_counters-Limits _ _ k refl (switch_terminal-IsConsole (pos 0) k.console v.console)
              v)
          (λ f. v))

pub acknowledge-Turned : (o : Option Turn) → Turned o → Turned (acknowledge o)
unfolding acknowledge
acknowledge-Turned none w = tt
acknowledge-Turned (some (runs k r)) w = w
acknowledge-Turned (some (returns k)) w =
    with_console-Limits _ k (with_pic-IsConsole _ k.console w.console) w

pub pit_handler-Turned :
    (fuel : ℕ) (behind stack : Memory) (esp : ℕ) (k : Kernel)
    → Limits k
    → Turned (pit_handler fuel behind stack esp k)
unfolding pit_handler
pit_handler-Turned fuel behind stack esp k v =
    acknowledge-Turned _ (scheduler-Turned fuel behind stack esp k v)
