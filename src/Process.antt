-- ===== src/Process.antt =====
-- Processes: `pcb_t` and `fd_t` of student-distrib/types.h, the globals of
-- student-distrib/system_call.c and scheduling.h, and the state of the devices. A process control
-- block lies at an address, 8 KB apart, so the blocks are kept by address; a descriptor's four
-- function pointers are one of the drivers' functions or some other address.
pub mod Drivers
pub mod Calls
pub mod Tasks
pub mod Execute
use orca_os.Base.{ℕ, ◌+◌, ◌-◌, ◌*◌, ◌≤◌, ◌%◌, ◌^◌, ℤ, List, Memory, update, u32, sub32}
use orca_os.Console.{Console}
use orca_os.Rtc.{Rtc}
use orca_os.Files.{Image}
use orca_os.Paging.{Pages}

-- `no_op` is `no_read` or `no_write`; `raw` is an address that is none of the drivers'.
pub data Driver : Type 0 where
  null no_op terminal rtc directory file : Driver
  raw : ℕ → Driver

pub record Fd : Type 0 where
  pub read : Driver
  pub write : Driver
  pub open_ : Driver
  pub close : Driver
  pub inode : ℕ
  pub position : ℕ
  pub flags : ℕ

-- The arrays as functions of the index; `file_array` has eight entries. `overrun` is no field of
-- the source's: it lists the bytes that sys_execute has stored behind the block, each with its
-- index from `arguments` on, the last one first.
pub record Pcb : Type 0 where
  pub process_num : ℕ
  pub parent_terminal : ℕ
  pub parent_terminal_number : ℕ
  pub scheduling_esp : ℕ
  pub active_processes : ℕ → ℕ
  pub terminal_displays : ℕ → ℕ
  pub executed_processes : ℕ → ℕ
  pub file_array : ℕ → Fd
  pub esp : ℕ
  pub arguments : Memory
  pub arg_position : ℕ
  pub overrun : List (ℕ × ℕ)

-- The globals of student-distrib/scheduling.h; `flag` is never used.
pub record Schedule : Type 0 where
  pub terminal_init_flag : ℕ
  pub terminal_counter : ℕ
  pub execute_counter : ℕ
  pub terminal_switch_flag : ℕ
  pub recover_num : ℕ

-- `frames n` is the `n`-th four megabytes of physical memory, from which programs run.
pub record Kernel : Type 0 where
  pub console : Console
  pub clock : Rtc
  pub image : Image
  pub pcbs : ℕ → Pcb
  pub current_pcb : ℕ
  pub process_number : ℕ
  pub esp0 : ℕ
  pub pages : Pages
  pub frames : ℕ → Memory
  pub schedule : Schedule

abbrev pub eight_mb : ℕ
eight_mb = 0x800000

abbrev pub eight_kb : ℕ
eight_kb = 0x2000

-- `EIGHT_MB - EIGHT_KB * n`, as a `uint32_t`.
abbrev pub below : ℕ → ℕ
below n = sub32 eight_mb (u32 (eight_kb * n))

-- `current_pcb->file_array[fd]`, for an `fd` of the array.
abbrev pub current_fd : ℕ → Kernel → Fd
current_fd fd k = (k.pcbs k.current_pcb).file_array fd

abbrev pub set_fd : ℕ → Fd → Kernel → Kernel
set_fd fd d k =
    let p = k.pcbs k.current_pcb in
    record k {
      pcbs = update k.pcbs k.current_pcb (record p { file_array = update p.file_array fd d });
    }
