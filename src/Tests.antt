-- ===== src/Tests.antt =====
-- The concrete states that the examples of the children run on.
pub mod Blocks
pub mod Consoles
pub mod Disks
pub mod Devices
pub mod Processes
pub mod Kernels
pub mod Programs
pub mod Systems
use orca_os.Base.{
  ℕ, ◌+◌, ◌-◌, ◌≤◌, ◌<◌, ◌≡◌, refl, arith, Bool, true, false, ltb, leb, ◌==◌, ◌&&◌, ◌||◌,
  if◌then◌else◌, List, [], ◌∷◌, Memory,
}
use orca_os.Pic.{Pic}
use orca_os.Screen.{Screen}
use orca_os.Console.{Terminal, Keys, Console}
use orca_os.Rtc.{Rtc}
use orca_os.Files
use orca_os.Files.{Image}
use orca_os.Process.{Driver, null, no_op, file, Fd, Pcb, Kernel}
use orca_os.Paging.{Pde, Pte, Pages}
use orca_os.Process.Calls.{Events}

abbrev pub blank : Memory
blank a = 0

abbrev pub some_pic : Pic
some_pic = record { master_mask = 255; slave_mask = 255; ports = [] }

abbrev pub some_screen : Screen
some_screen = record { mem = blank; x = 3; y = 24; saved_x = λ t. 0; saved_y = λ t. 0; ports = [] }

abbrev pub no_keys : Keys
no_keys = record {
  shift = false;
  shift_l = false;
  shift_r = false;
  caps_lock = false;
  ctrl = false;
  alt = false;
  enter = false;
  line_run_over_flag = false;
}

abbrev pub some_console : Console
some_console = record {
  screen = some_screen;
  terminal = record { buffer = λ i t. 0; idxs = λ t. 0 };
  keys = no_keys;
  on_display = 0;
  pic = some_pic;
}

abbrev pub some_clock : Rtc
some_clock = record { interrupt_flag = false; counter = 0; rates = λ t. 512; ports = [] }

-- One file "a" of the three bytes "ABC".
abbrev pub disk : Memory
disk a =
    if (a == 0) || (a == 4)
    then 1
    else if a == 64
    then 97
    else if a == 96
    then 2
    else if a == 4096
    then 3
    else if leb 8192 a && ltb a 8195
    then a - 8127
    else 0

abbrev pub some_image : Image
some_image = record { mem = disk; boot_block = 0; inode_block = 4096; data_block = 8192 }

abbrev pub unused_fd : Fd
unused_fd = record {
  read = null;
  write = null;
  open_ = null;
  close = null;
  inode = 0;
  position = 0;
  flags = 0;
}

-- Descriptor 2 has the file open, at its second byte.
abbrev pub some_fds : ℕ → Fd
some_fds i =
    if i == 2
    then record {
      read = file;
      write = file;
      open_ = no_op;
      close = file;
      inode = 0;
      position = 1;
      flags = 1;
    }
    else unused_fd

abbrev pub some_pcb : Pcb
some_pcb = record {
  process_num = 1;
  parent_terminal = 0;
  parent_terminal_number = 0;
  scheduling_esp = 0;
  active_processes = λ i. 0;
  terminal_displays = λ i. 0;
  executed_processes = λ i. 0;
  file_array = some_fds;
  esp = 0;
  arguments = blank;
  arg_position = 0;
  overrun = [];
}

abbrev pub zero_pde : Pde
zero_pde = record {
  present = 0;
  rw = 0;
  us = 0;
  pwt = 0;
  pcd = 0;
  accessed = 0;
  differs = 0;
  page_size = 0;
  global = 0;
  avail = 0;
  lower_address = 0;
  upper_address = 0;
}

abbrev pub zero_pte : Pte
zero_pte = record {
  present = 0;
  rw = 0;
  us = 0;
  pwt = 0;
  pcd = 0;
  accessed = 0;
  dirty = 0;
  pat = 0;
  global = 0;
  avail = 0;
  address = 0;
}

abbrev pub some_pages : Pages
some_pages = record {
  directory = λ i. zero_pde;
  first_page_table = λ i. zero_pte;
  vid_page_table = λ i. zero_pte;
  first_at = 0x401000;
  vid_at = 0x402000;
}

abbrev pub some_kernel : Kernel
some_kernel = record {
  console = some_console;
  clock = some_clock;
  image = some_image;
  pcbs = λ a. some_pcb;
  current_pcb = 0x7FE000;
  process_number = 1;
  esp0 = 0;
  pages = some_pages;
  frames = λ n. blank;
  schedule = record {
    terminal_init_flag = 0;
    terminal_counter = 0;
    execute_counter = 0;
    terminal_switch_flag = 0;
    recover_num = 0;
  };
}

abbrev pub some_events : Events
some_events = record { codes = []; ticks = 0; reg_a = 0x26; reg_b = 0; reg_a' = 0x26 }
