-- ===== src/System/Start.antt =====
-- The state after start-up and after the first tick of the timer. Before that tick the cursor may
-- be behind the screen, where the lines about the boot loader have taken it.
use orca_os.Base.{
  ℕ, subst, sym, ◌≤◌, ◌≡◌, refl, arith, for_range-update, if_cases, Option, none, some, List,
  Memory, ltb, ◌==◌, ◌&&◌,
}
use orca_os.Screen.{Screen, clear, set_pos, cursor_init}
use orca_os.Console.{on_screen}
use orca_os.Multiboot.{bootloader_magic, check_flag, info_at, say_loaded, say_layout}
use orca_os.Rtc.{rtc_init}
use orca_os.Keyboard.Modifiers.{IsKeys}
use orca_os.Paging.{Pages, page_init}
use orca_os.Process.{Kernel}
use orca_os.Process.Execute.{shell}
use orca_os.Scheduler.{
  scheduling_init, system_execute, next_terminal, prepare_shell, scheduler, pit_handler,
}
use orca_os.Boot.{
  Machine, Symbols, End, returned, idles, pit_init, keyboard_init, clock_init, sys_calls_init,
  init_kernel, with_screen, set_segments, init_devices, set_up, entry,
}
use orca_os.System.Limits.{nowhere, Limits}
use orca_os.System.Turns.{Turned, system_execute-Turned, prepare_shell-Limits, acknowledge-Turned}

-- What the loader leaves where the kernel's variables and the blocks of processes will be: lines
-- that fit, flags of the keyboard that agree, and no number out of range. Zeros are of this kind.
pub record IsLoaded (k : Kernel) : Type 0 where
  pub fits : (t : ℕ) → k.console.terminal.idxs t ≤ 127
  pub flags : IsKeys k.console.keys
  pub recover : k.schedule.recover_num ≤ 6
  pub frame : (k.pages.directory 32).upper_address ≤ 7
  pub numbers : (a : ℕ) → (k.pcbs a).process_num ≤ 5
  pub slots : (a i : ℕ) → (k.pcbs a).active_processes i ≤ 5
  pub home : (a : ℕ) → (k.pcbs a).parent_terminal ≤ 2

abbrev home_cursor : Kernel → Kernel
home_cursor k = record k { console = on_screen (set_pos 0 0) k.console }

-- Within the limits, were the cursor in its corner; and no shell has been started.
pub record IsFresh (k : Kernel) : Type 0 where
  pub limits : Limits (home_cursor k)
  pub no_flag : k.schedule.terminal_init_flag ≡ 0
  pub executed : k.schedule.execute_counter ≡ 0
  pub terminals : k.schedule.terminal_counter ≡ 0

frame-page_init :
    (p : Pages) → ((page_init p).directory 32).upper_address ≡ (p.directory 32).upper_address
unfolding page_init
frame-page_init p =
    ground (arith, for_range-update (λ i d. record d { rw = 1 }) 1024 0 p.directory 32)

init_devices-IsFresh :
    (y : Symbols) (reg_a reg_b mods_addr : ℕ) (s : Screen) (m : Machine)
    → IsLoaded m.kernel
    → IsFresh
        (init_devices y.address reg_a reg_b mods_addr (set_segments y (with_screen s m))).kernel
unfolding init_devices pit_init keyboard_init clock_init rtc_init init_kernel sys_calls_init
    scheduling_init cursor_init set_pos set_segments
init_devices-IsFresh y reg_a reg_b mods_addr s m v = record {
  no_flag = refl;
  executed = refl;
  terminals = refl;
  limits = record {
    console = record {
      shown = omega arith;
      fits = v.fits;
      cursor = record { column = omega arith; row = omega arith };
      saved_columns = λ t h. ground (arith, for_range-update (λ i x. 0) 3 0 s.saved_x t);
      saved_rows = λ t h. ground (arith, for_range-update (λ i x. 0) 3 0 s.saved_y t);
      flags = v.flags;
    };
    current = nowhere refl;
    number = omega arith;
    recover = v.recover;
    frame = omega (arith, frame-page_init m.kernel.pages, v.frame);
    numbers = v.numbers;
    slots = v.slots;
    home = v.home;
  };
}

-- How `entry` ends, if it comes to its waiting loop.
abbrev pub Idles : Option End → Type 0
Idles none = Unit {0}
Idles (some (returned m)) = Unit {0}
Idles (some (idles m)) = IsFresh m.kernel

set_up-Idles :
    (y : Symbols) (reg_a reg_b mods_addr : ℕ) (m : Machine) (o : Option Screen)
    → IsLoaded m.kernel
    → Idles (set_up y reg_a reg_b mods_addr m o)
set_up-Idles y reg_a reg_b mods_addr m none v = tt
set_up-Idles y reg_a reg_b mods_addr m (some s) v =
    init_devices-IsFresh y reg_a reg_b mods_addr s m v

pub entry-Idles :
    (text : ℕ → List ℕ) (y : Symbols) (fuel reg_a reg_b magic addr : ℕ) (m : Machine)
    → IsLoaded m.kernel
    → Idles (entry text y fuel reg_a reg_b magic addr m)
unfolding entry
entry-Idles text y fuel reg_a reg_b magic addr m v =
    let mem = m.kernel.image.mem in
    let i = info_at mem addr in
    let s1 = say_loaded text mem i (clear m.kernel.console.screen) in
    if_cases Idles (magic == bootloader_magic)
      (λ e.
        if_cases Idles (check_flag i.flags 4 && check_flag i.flags 5) (λ f. tt)
          (λ f. set_up-Idles y reg_a reg_b i.mods_addr m (say_layout text fuel mem i s1) v))
      (λ e. tt)

prepare_shell-home_cursor :
    (k : Kernel) → k.schedule.execute_counter ≡ 0 → prepare_shell k ≡ prepare_shell (home_cursor k)
unfolding prepare_shell next_terminal clear set_pos
prepare_shell-home_cursor k e = rw e refl

scheduler-first :
    (fuel : ℕ) (behind stack : Memory) (esp : ℕ) (k : Kernel)
    → IsFresh k
    → Turned (scheduler fuel behind stack esp k)
unfolding scheduler
scheduler-first fuel behind stack esp k v =
    let s = k.schedule in
    if_cases Turned ((s.terminal_init_flag == 0) && ltb s.execute_counter 3)
      (λ e.
        subst (λ l. Turned (system_execute fuel (shell behind) stack esp l))
          (sym (prepare_shell-home_cursor k v.executed))
          (system_execute-Turned fuel (shell behind) stack esp _
            (prepare_shell-Limits (home_cursor k) v.limits)))
      (λ e. absurd (ground (arith, v.no_flag, v.executed)))

pub first_tick-Turned :
    (fuel : ℕ) (behind stack : Memory) (esp : ℕ) (k : Kernel)
    → IsFresh k
    → Turned (pit_handler fuel behind stack esp k)
unfolding pit_handler
first_tick-Turned fuel behind stack esp k v =
    acknowledge-Turned _ (scheduler-first fuel behind stack esp k v)
