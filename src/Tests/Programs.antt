-- ===== src/Tests/Programs.antt =====
-- Examples on programs that are started: one file "a" of 40 bytes, and the command "a xy".
use orca_os.Base.{
  leb, ◌&&◌, ◌-◌, none, ℕ, ◌+◌, ◌≡◌, refl, arith, ℤ, pos, minus_one, ltb, ◌==◌, ◌||◌, if◌then◌else◌,
  some, Memory, load32, slice, bytes_of, codes,
}
use orca_os.Strings.{strlen, strncmp, strncmp_from}
use orca_os.Files.{dentry_at, read_dentry_by_name, find_entry}
use orca_os.Files.Read.{file_byte}
use orca_os.Process.{Kernel, below}
use orca_os.Process.Drivers.{local_dentry}
use orca_os.Process.Execute.Refused.{NoProgram, missing, sys_execute_refused}
use orca_os.Process.Calls.{ret, jumps, sys_close, sys_getargs}
use orca_os.Process.Tasks.{sys_halt}
use orca_os.System.Return.{sys_halt-sys_execute}
use orca_os.Scheduler.{Turn, scheduling_init, prepare_shell, next_terminal, pit_handler}
use orca_os.Scheduler.Ticks.{Tick}
use orca_os.Scheduler.Runs.{Ran, Startable, Starts, ticks_lem}
use orca_os.Process.Execute.{shell, name_end, process_name, sys_execute}
use orca_os.Process.Execute.Command.{IsCommand}
use orca_os.Process.Execute.Started.{IsProgram, Started, sys_execute_lem}
use orca_os.Process.Execute.Ninth.{sys_close_eight}
use orca_os.Process.Execute.Handover.{sys_getargs-sys_execute}
use orca_os.Tests.{
  some_events, blank, some_pages, some_console, some_image, some_kernel, some_pcb, unused_fd,
}

abbrev program_disk : Memory
program_disk a =
    if (a == 0) || (a == 4)
    then 1
    else if a == 64
    then 97
    else if a == 96
    then 2
    else if a == 4096
    then 40
    else if a == 8192
    then 0x7F
    else if a == 8193
    then 0x45
    else if a == 8194
    then 0x4C
    else if a == 8195
    then 0x46
    else if a == 8219
    then 8
    else 0

abbrev program_kernel : Kernel
program_kernel = record some_kernel {
  image = record some_image { mem = program_disk };
  pcbs = λ a. record some_pcb { file_array = λ i. unused_fd };
}

abbrev command : Memory
command = bytes_of (codes "a xy")

command-IsCommand : IsCommand command 1 2 2
command-IsCommand = record {
  named = λ j l. (ground arith, ground arith);
  short = omega arith;
  behind = omega arith;
  separated = refl;
  spaces = λ j l m. absurd (omega arith);
  no_space = λ e. absurd (omega arith);
  bytes = λ j l m. ground arith;
  ends = refl;
}

dentry_at-IsProgram : IsProgram command program_kernel (dentry_at program_disk 64)
unfolding load32 dentry_at strlen strncmp strncmp_from read_dentry_by_name find_entry process_name
    name_end file_byte slice
dentry_at-IsProgram = record {
  found = refl;
  in_range = omega arith;
  long = omega arith;
  fits = omega arith;
  magic_0 = refl;
  magic_1 = refl;
  magic_2 = refl;
  magic_3 = refl;
}

sys_execute_example :
    (k' : Kernel) × (r : ℤ) × (sys_execute 5 (some command) blank program_kernel ≡ some (k', r))
    × Started command 2 2 program_kernel (dentry_at program_disk 64) k' r
sys_execute_example =
    sys_execute_lem command blank 1 2 2 5 program_kernel (dentry_at program_disk 64)
      command-IsCommand (omega arith) (omega arith) (omega arith) (omega arith) refl
      dentry_at-IsProgram

sys_getargs-sys_execute_example :
    (k' : Kernel) × (r : ℤ) × (sys_execute 5 (some command) blank program_kernel ≡ some (k', r))
    × (let (k2, out, r2) = sys_getargs blank (pos 9) k' in
        ((j : ℕ) → out j ≡ (if ltb j 2 then command (2 + j) else if j == 2 then 0 else 0))
        × (r2 ≡ pos 0))
sys_getargs-sys_execute_example =
    sys_getargs-sys_execute command blank 1 2 2 5 program_kernel (dentry_at program_disk 64)
      command-IsCommand (omega arith) (omega arith) (omega arith) (omega arith) refl
      dentry_at-IsProgram blank 9 (omega arith) (omega arith) (omega arith)

-- One file "shell" of 40 bytes.
abbrev shell_disk : Memory
shell_disk a = if leb 64 a && ltb a 69 then bytes_of (codes "shell") (a - 64) else program_disk a

abbrev shell_kernel : Kernel
shell_kernel =
    scheduling_init (record program_kernel { image = record some_image { mem = shell_disk } })

shell-IsCommand : IsCommand (shell blank) 5 6 0
shell-IsCommand = record {
  named = λ j l. (ground arith, ground arith);
  short = omega arith;
  behind = omega arith;
  separated = refl;
  spaces = λ j l m. absurd (omega arith);
  no_space = λ e. absurd (omega arith);
  bytes = λ j l m. absurd (omega arith);
  ends = refl;
}

shell-IsProgram : IsProgram (shell blank) (prepare_shell shell_kernel) (dentry_at shell_disk 64)
unfolding load32 dentry_at strlen strncmp strncmp_from read_dentry_by_name find_entry process_name
    name_end file_byte slice prepare_shell next_terminal scheduling_init
shell-IsProgram = record {
  found = refl;
  in_range = omega arith;
  long = omega arith;
  fits = omega arith;
  magic_0 = refl;
  magic_1 = refl;
  magic_2 = refl;
  magic_3 = refl;
}

shell-Startable : Startable 7 blank (prepare_shell shell_kernel)
unfolding load32 dentry_at file_byte prepare_shell next_terminal scheduling_init
shell-Startable = record {
  name = 5;
  first = 6;
  len = 0;
  entry = dentry_at shell_disk 64;
  command = shell-IsCommand;
  named = omega arith;
  short = omega arith;
  enough = omega arith;
  number = omega arith;
  free = refl;
  program = shell-IsProgram;
  starts = λ e. absurd (ground (arith, e));
}

ticks_example :
    (t : Turn) × (pit_handler 7 blank blank 0 shell_kernel ≡ some t)
    × Tick 0 shell_kernel t
    × Starts 7 blank 0 (prepare_shell shell_kernel) shell-Startable t
ticks_example =
    let r =
      ticks_lem 0 shell_kernel
        (Ran.started (record program_kernel { image = record some_image { mem = shell_disk } })) 7 0
        blank blank 0 refl (omega arith) in
    (r.0, r.1, r.2, r.3 (omega arith) shell-Startable)

-- The command "a " with 24 times the letter A.
abbrev long_command : Memory
long_command j = if j == 0 then 97 else if j == 1 then 0x20 else if ltb j 26 then 65 else 0

long_command-IsCommand : IsCommand long_command 1 2 24
long_command-IsCommand = record {
  named = λ j l. (ground arith, ground arith);
  short = omega arith;
  behind = omega arith;
  separated = refl;
  spaces = λ j l m. absurd (omega arith);
  no_space = λ e. absurd (omega arith);
  bytes = λ j l m. ground arith;
  ends = refl;
}

long_command-IsProgram : IsProgram long_command program_kernel (dentry_at program_disk 64)
unfolding load32 dentry_at strlen strncmp strncmp_from read_dentry_by_name find_entry process_name
    name_end file_byte slice
long_command-IsProgram = record {
  found = refl;
  in_range = omega arith;
  long = omega arith;
  fits = omega arith;
  magic_0 = refl;
  magic_1 = refl;
  magic_2 = refl;
  magic_3 = refl;
}

sys_close_eight_example :
    (k' : Kernel) × (r : ℤ) × (sys_execute 27 (some long_command) blank program_kernel
      ≡ some (k', r))
    × (sys_close some_events (pos 8) k' ≡ jumps 0x41414141)
unfolding load32
sys_close_eight_example =
    sys_close_eight long_command blank 1 2 24 27 program_kernel (dentry_at program_disk 64)
      some_events long_command-IsCommand (omega arith) (omega arith) (omega arith) (omega arith)
      (omega arith) refl long_command-IsProgram

abbrev no_such : Memory
no_such = bytes_of (codes "b")

no_such-NoProgram : NoProgram no_such blank program_kernel
unfolding load32 strlen strncmp strncmp_from read_dentry_by_name find_entry process_name name_end
    slice
no_such-NoProgram = missing (some local_dentry) refl refl

sys_execute_refused_example :
    (k' : Kernel) × (sys_execute 0 (some no_such) blank program_kernel ≡ some (k', minus_one))
    × (k'.process_number ≡ 1)
    × (k'.current_pcb ≡ below 1)
    × (k'.pages ≡ some_pages)
    × (k'.frames ≡ (λ n. blank))
    × (k'.console ≡ some_console)
    × (k'.schedule ≡ program_kernel.schedule)
sys_execute_refused_example =
    sys_execute_refused 0 no_such blank program_kernel (λ e. absurd (omega arith)) (omega arith)
      no_such-NoProgram

-- Three base shells run.
abbrev full_kernel : Kernel
full_kernel = record program_kernel { process_number = 3 }

full_kernel-IsProgram : IsProgram command full_kernel (dentry_at program_disk 64)
full_kernel-IsProgram =
    let p = dentry_at-IsProgram in
    record {
      found = p.found;
      in_range = p.in_range;
      long = p.long;
      fits = p.fits;
      magic_0 = p.magic_0;
      magic_1 = p.magic_1;
      magic_2 = p.magic_2;
      magic_3 = p.magic_3;
    }

fourth :
    (k' : Kernel) × (r : ℤ) × (sys_execute 5 (some command) blank full_kernel ≡ some (k', r))
    × (k'.process_number ≡ 4)
fourth =
    let x =
      sys_execute_lem command blank 1 2 2 5 full_kernel (dentry_at program_disk 64)
        command-IsCommand (omega arith) (omega arith) (omega arith) (omega arith) refl
        full_kernel-IsProgram in
    (x.0, x.1, x.2, x.3.number)

sys_halt-sys_execute_example :
    (m : Kernel) × (sys_halt some_events fourth.0 ≡ ret m none (pos 0))
    × (m.process_number ≡ 3)
    × (m.current_pcb ≡ below 3)
unfolding name_end
sys_halt-sys_execute_example =
    sys_halt-sys_execute 5 4 command blank full_kernel fourth.0 fourth.1 some_events refl
      (omega arith) (omega arith) (omega arith) (omega arith) (omega arith)
      (record { first = λ e. refl; second = λ e. refl; last = refl }) (λ j p. refl) fourth.2
      fourth.3
