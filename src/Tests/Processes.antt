-- ===== src/Tests/Processes.antt =====
-- Examples on processes.
use orca_os.Base.{ℕ, ◌+◌, ◌%◌, ◌<◌, ◌≡◌, arith, false, ltb, ◌==◌, if◌then◌else◌, pos, none}
use orca_os.Process.{Kernel, below, current_fd}
use orca_os.Process.Calls.{ret, sys_getargs}
use orca_os.Process.Calls.Arguments.{run_length, sys_getargs_lem}
use orca_os.Process.Tasks.{sys_halt}
use orca_os.Process.Tasks.Halt.{sys_halt_lem}
use orca_os.Process.Tasks.Closing.{is_raw}
use orca_os.Tests.{blank, some_kernel, some_events}

abbrev four_running : Kernel
four_running = record some_kernel { process_number = 4 }

no_raw : (j : ℕ) → j < 8 → is_raw (current_fd j four_running).close ≡ false
no_raw j h = ground arith

sys_halt_example :
    (k' : Kernel) × (sys_halt some_events four_running ≡ ret k' none (pos 0))
    × ((j : ℕ) → ((k'.pcbs 0x7FE000).file_array (j % 8)).flags ≡ 0)
    × (k'.process_number ≡ 3)
    × (k'.current_pcb ≡ below k'.process_number)
    × (k'.esp0 ≡ below (k'.pcbs k'.current_pcb).process_num)
    × ((k'.pages.directory 32).upper_address ≡ (2 + (k'.pcbs k'.current_pcb).process_num) % 1024)
sys_halt_example = sys_halt_lem some_events four_running (omega arith) no_raw

abbrev with_word : Kernel
with_word = record some_kernel {
  pcbs = λ a. record (some_kernel.pcbs a) { arguments = λ i. if ltb i 2 then 65 else 0 };
}

sys_getargs_example :
    let (k', out, r) = sys_getargs blank (pos 2) with_word in
    ((j : ℕ)
      → out j ≡ (if ltb j 2 then (if ltb (0 + j) 2 then 65 else 0) else if j == 2 then 0 else 0))
    × ((k'.pcbs 0x7FE000).arg_position ≡ 2)
    × (r ≡ pos 0)
unfolding run_length
sys_getargs_example = sys_getargs_lem blank 2 with_word (omega arith)
