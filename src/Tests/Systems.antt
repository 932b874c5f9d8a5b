-- ===== src/Tests/Systems.antt =====
-- Examples on runs of the kernel and on its system calls.
use orca_os.Base.{
  true, ltb, ◌&&◌, false, minus_one, if◌then◌else◌, some, none, subst, load32, ◌≡◌, refl, arith,
  pos, [],
}
use orca_os.Multiboot.{bootloader_magic, info_at}
use orca_os.Multiboot.Maps.{ends}
use orca_os.Boot.{Machine, idles, entry}
use orca_os.Boot.Start.{entry_lem}
use orca_os.Scheduler.{Turn, start_first_shell, pit_handler}
use orca_os.Scheduler.Ticks.{state, pit_handler-Tick}
use orca_os.System.{press, tick_clock}
use orca_os.System.{
  Call, call, Request, Ending, back, halted, after_shell, system_halt, system_call_linkage,
}
use orca_os.System.Waits.{is_waiting}
use orca_os.System.Linkage.{
  number_of, is_number, any_active, displayed, system_halt_lem, system_call_linkage_lem,
}
use orca_os.Process.Tasks.{sys_halt}
use orca_os.System.Limits.{Limits}
use orca_os.System.Start.{Idles, entry-Idles, IsLoaded}
use orca_os.System.Runs.{key, clock, here, step, Run-Limits}
use orca_os.Tests.{blank, some_events, some_kernel}
use orca_os.Tests.Kernels.{some_machine, some_symbols}

some_kernel-IsLoaded : IsLoaded some_kernel
some_kernel-IsLoaded = record {
  fits = λ t. omega arith;
  flags = record { either = refl; not_both = refl };
  recover = omega arith;
  frame = omega arith;
  numbers = λ a. omega arith;
  slots = λ a i. omega arith;
  home = λ a. omega arith;
}

booted :
    (m' : Machine) × (entry (λ a. []) some_symbols 1 0x26 0 bootloader_magic 0x4000 some_machine
      ≡ some (idles m'))
unfolding info_at load32
booted =
    let r =
      entry_lem some_symbols (λ l. omega arith) (omega arith) (omega arith) (omega arith)
        (omega arith) (λ a. []) 1 0x26 0 0x4000 some_machine 0x80 refl (omega arith)
        (ends 0 (omega arith)) (omega arith) refl refl in
    (r.0, r.1)

ticked : (t : Turn) × (pit_handler 7 blank blank 0 booted.0.kernel ≡ some t)
ticked =
    let v = subst Idles booted.1 (
      entry-Idles (λ a. []) some_symbols 1 0x26 0 bootloader_magic 0x4000 some_machine
        some_kernel-IsLoaded) in
    let r =
      pit_handler-Tick 7 0 blank refl (omega arith) 0 blank 0 booted.0.kernel
        (record { no_flag = v.no_flag; executed = v.executed; terminals = v.terminals }) in
    (r.0, r.1)

Run_example : Limits (tick_clock (press 0x1E (state ticked.0)))
Run_example =
    Run-Limits (λ a. []) some_symbols 1 0x26 0 bootloader_magic 0x4000 some_machine booted.0
      some_kernel-IsLoaded booted.1 7 blank blank 0 ticked.0 ticked.1
      (record { last = 0; ends = refl; fits = omega arith })
      (tick_clock (press 0x1E (state ticked.0)))
      (step (press 0x1E (state ticked.0)) (tick_clock (press 0x1E (state ticked.0)))
        (step (state ticked.0) (press 0x1E (state ticked.0)) here (key 0x1E)) clock)

abbrev some_request : Request
some_request = record {
  eax = pos 11;
  status = 0x105;
  fd = pos 2;
  nbytes = pos 4;
  buf = some blank;
  buf_at = 0x8000000;
  args = blank;
  name = none;
  command = none;
  screen_start = 0;
  events = some_events;
  stack = blank;
  esp = 0;
  behind = blank;
  table_word = λ i. 0;
  fuel = 7;
}

system_halt_example :
    (t : Turn) × (start_first_shell 7 blank blank 0 some_kernel ≡ some t)
    × (system_halt some_request some_kernel ≡ (
        if any_active (displayed some_kernel) && ltb 3 1
        then some (halted 0x105 (sys_halt some_events some_kernel))
        else after_shell some_events (some t)))
system_halt_example =
    system_halt_lem some_request 0 some_kernel refl (omega arith) (omega arith) (omega arith)

abbrev last_call : Request
last_call = record some_request { eax = pos 10 }

system_call_linkage_example :
    (e : Ending) × (system_call_linkage last_call some_kernel ≡ some e)
    × (is_number (pos 10) ≡ false → e ≡ back some_kernel none minus_one)
    × (is_number (pos 10) ≡ true
        → (c : Call) × (pos 10 ≡ pos (number_of c)) × (call c last_call some_kernel ≡ some e))
    × (is_waiting e ≡ true → pos 10 ≡ pos 3)
system_call_linkage_example = system_call_linkage_lem last_call 0 some_kernel refl (omega arith) tt
