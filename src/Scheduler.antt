-- ===== src/Scheduler.antt =====
-- The scheduler and the timer: student-distrib/scheduling.c without switch_terminal, pit_handler of
-- student-distrib/pit.c, system_execute of student-distrib/system_callASM.S and start_first_shell of
-- student-distrib/system_call.c.
pub mod Ticks
pub mod Runs
pub mod Stacks
use orca_os.Base.{
  ℕ, zero, suc, ◌+◌, ℤ, pos, negsuc, Bool, true, false, ltb, ◌==◌, ◌&&◌, if◌then◌else◌, Option,
  none, some, Memory, update,
}
use orca_os.Pic.{send_eoi}
use orca_os.Screen.{clear, set_pos}
use orca_os.Console.{Console, on_screen}
use orca_os.Switch.{switch_terminal}
use orca_os.Process.{Pcb, Kernel, Schedule, below}
use orca_os.Process.Tasks.{last_active}
use orca_os.Process.Execute.{sys_execute, save_esp, shell}

-- What a handler comes to: a program that runs from an address on, or the end of the handler.
pub data Turn : Type 0 where
  runs : Kernel → ℤ → Turn
  returns : Kernel → Turn

unfoldable pub scheduling_init : Kernel → Kernel
scheduling_init k = record k {
  schedule = record (k.schedule) {
    execute_counter = 0;
    terminal_init_flag = 0;
    terminal_counter = 0;
    terminal_switch_flag = 0;
  };
  console = record (k.console) { on_display = 0 };
}

-- What system_execute does with the result of sys_execute; the stack pointer is `esp`.
unfoldable pub enter_program : ℕ → Kernel × ℤ → Turn
enter_program esp (k, negsuc zero) = returns k
enter_program esp (k, r) = runs (save_esp esp k) r

abbrev pub entered : ℕ → Option (Kernel × ℤ) → Option Turn
entered esp none = none
entered esp (some r) = some (enter_program esp r)

unfoldable pub system_execute : ℕ → Memory → Memory → ℕ → Kernel → Option Turn
system_execute fuel command stack esp k = entered esp (sys_execute fuel (some command) stack k)

-- The base shell is started again under the number of the terminal.
unfoldable pub start_first_shell : ℕ → Memory → Memory → ℕ → Kernel → Option Turn
start_first_shell fuel behind stack esp k = system_execute fuel (shell behind) stack esp (record k {
  current_pcb = 0;
  schedule = record (k.schedule) { recover_num = k.process_number };
  process_number = k.console.on_display;
})

-- The next terminal is shown, but for the first one.
unfoldable pub next_terminal : Kernel → Kernel
next_terminal k =
    let s = k.schedule in
    if ltb 0 s.execute_counter
    then record k {
      console = switch_terminal (pos s.execute_counter) k.console;
      schedule = record s { terminal_counter = s.terminal_counter + 1 };
    }
    else k

abbrev pub end_of_interrupt : Console → Console
end_of_interrupt c = record c { pic = send_eoi 0 c.pic }

-- What is done before a shell is started.
unfoldable pub prepare_shell : Kernel → Kernel
prepare_shell k =
    let k1 = next_terminal k in
    let s = k1.schedule in
    record k1 {
      schedule = record s { execute_counter = s.execute_counter + 1 };
      console = end_of_interrupt (on_screen (λ t. set_pos 0 0 (clear t)) k1.console);
    }

-- The `#if 0` in the last branch leaves nothing of it.
unfoldable pub scheduler : ℕ → Memory → Memory → ℕ → Kernel → Option Turn
scheduler fuel behind stack esp k =
    let s = k.schedule in
    if (s.terminal_init_flag == 0) && ltb s.execute_counter 3
    then system_execute fuel (shell behind) stack esp (prepare_shell k)
    else if ltb s.execute_counter 4
    then some (
        returns (record k {
          console = switch_terminal (pos 0) k.console;
          schedule = record s { execute_counter = s.execute_counter + 1 };
        }))
    else some (returns k)

-- The rest of `pit_handler`, if the scheduler returns.
unfoldable pub acknowledge : Option Turn → Option Turn
acknowledge (some (returns k)) = some (returns (record k { console = end_of_interrupt k.console }))
acknowledge t = t

unfoldable pub pit_handler : ℕ → Memory → Memory → ℕ → Kernel → Option Turn
pit_handler fuel behind stack esp k = acknowledge (scheduler fuel behind stack esp k)

-- `active_processes[i]` with what lies around it in the block.
unfoldable pub slot : Pcb → ℕ → ℕ
slot p i = if ltb i 4 then p.active_processes i else p.terminal_displays 0

-- The block of the process with the number in the slot that was found; `other` without one.
unfoldable pub block_of : ℕ → Pcb → Option ℕ → ℕ
block_of other p none = other
block_of other p (some i) = below (slot p i + 1)

abbrev pub set_scheduling_esp : ℕ → Pcb → Pcb
set_scheduling_esp esp p = record p { scheduling_esp = esp }

-- The search starts at index 4 of the four.
unfoldable pub save_registers_esp : ℕ → Kernel → Kernel
save_registers_esp esp k =
    let base = below (k.schedule.terminal_counter + 1) in
    let t = k.pcbs base in
    let a = block_of base t (last_active (slot t) 5) in
    record k { pcbs = update k.pcbs a (set_scheduling_esp esp (k.pcbs a)) }

unfoldable pub restore_register_esp : Kernel → ℕ
restore_register_esp k =
    let base = below (k.schedule.terminal_counter + 1) in
    let t = k.pcbs base in (k.pcbs (block_of base t (last_active (slot t) 4))).scheduling_esp

-- Without an active process the index is -1, where `scheduling_esp` lies.
unfoldable pub restore_register_esp_terminal : Kernel → ℕ
restore_register_esp_terminal k =
    let t = k.pcbs (below (k.console.on_display + 1)) in
    (k.pcbs (block_of (below (t.scheduling_esp + 1)) t (last_active (slot t) 4))).scheduling_esp
