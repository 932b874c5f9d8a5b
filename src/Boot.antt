-- ===== src/Boot.antt =====
-- Start-up: pit_init of student-distrib/pit.c, keyboard_init of student-distrib/keyboard.c,
-- sys_calls_init of student-distrib/system_call.c, and `entry` of student-distrib/kernel.c up to
-- the loop in which it waits.
pub mod Start
use orca_os.Base.{
  ℕ, ◌/◌, ◌%◌, ◌*◌, ◌+◌, ◌^◌, Memory, load32, ◌==◌, ◌&&◌, if◌then◌else◌, Option, none, some, List,
  [], ◌∷◌, codes,
}
use orca_os.Pic
use orca_os.Pic.{Pic, enable_irq, outb}
use orca_os.Screen.{Screen, clear, cursor_init}
use orca_os.Multiboot.{bootloader_magic, check_flag, info_at, say, say_loaded, say_layout}
use orca_os.Segments.{Segment, kernel_ds, kernel_tss, kernel_ldt, ldt_segment, tss_segment}
use orca_os.Console.{Console, on_screen}
use orca_os.Rtc.{Rtc, rtc_init}
use orca_os.Files
use orca_os.Idt.{Gate, Linkage, pit, keyboard, rtc, install, idt_init}
use orca_os.Paging.{page_init}
use orca_os.Process.{Kernel}
use orca_os.Scheduler.{scheduling_init}

-- The kernel's state, the interrupt descriptor table, the two descriptors in the global one, the
-- fields of `tss` that are set besides `esp0`, and the two registers that `lldt` and `ltr` load.
pub record Machine : Type 0 where
  pub kernel : Kernel
  pub idt : ℕ → Gate
  pub ldt_desc : Segment
  pub tss_desc : Segment
  pub ldt_segment_selector : ℕ
  pub ss0 : ℕ
  pub ldt_register : ℕ
  pub task_register : ℕ

-- What the linker and the assembly files fix: the addresses of routines and tables, and the sizes
-- of the tables less one.
pub record Symbols : Type 0 where
  pub address : Linkage → ℕ
  pub ldt : ℕ
  pub ldt_size : ℕ
  pub tss : ℕ
  pub tss_size : ℕ

-- How `entry` ends: it returns, or it waits for interrupts for ever.
pub data End : Type 0 where
  returned : Machine → End
  idles : Machine → End

abbrev pub on_pic : (Pic → Pic) → Kernel → Kernel
on_pic f k = record k { console = record (k.console) { pic = f k.console.pic } }

-- The reload value of the timer has 16 bits.
unfoldable pub pit_init : (Linkage → ℕ) → ℕ → Machine → Machine
pit_init address frequency m =
    let reload_value = 1193182 / frequency % 2 ^ 16 in
    record m {
      idt = install 0x20 (address pit) m.idt;
      kernel =
          on_pic
            (λ p.
              outb (reload_value / 2 ^ 8) 0x40
                (outb (reload_value % 2 ^ 8) 0x40 (outb 0x34 0x43 (enable_irq 0 p))))
            m.kernel;
    }

unfoldable pub keyboard_init : (Linkage → ℕ) → Machine → Machine
keyboard_init address m = record m {
  idt = install 0x21 (address keyboard) m.idt;
  kernel = on_pic (enable_irq 1) m.kernel;
}

-- `rtc_init` with its entry of the table.
unfoldable pub clock_init : (Linkage → ℕ) → ℕ → ℕ → Machine → Machine
clock_init address reg_a reg_b m =
    let k = m.kernel in
    let (s, p) = rtc_init reg_a reg_b (k.clock, k.console.pic) in
    record m {
      idt = install 0x28 (address rtc) m.idt;
      kernel = on_pic (λ q. p) (record k { clock = s });
    }

unfoldable pub sys_calls_init : Kernel → Kernel
sys_calls_init k = record k { process_number = 0; current_pcb = 0 }

-- The steps on the kernel's state from fileSystem_init on; the first module starts at `fs_start`.
unfoldable pub init_kernel : ℕ → Kernel → Kernel
init_kernel fs_start k =
    let k1 = record k { image = Files.init k.image.mem fs_start } in
    let k2 = record k1 { pages = page_init k1.pages } in
    let k3 = record k2 { console = on_screen cursor_init k2.console } in
    scheduling_init (sys_calls_init k3)

abbrev pub with_screen : Screen → Machine → Machine
with_screen s m =
    let k = m.kernel in
    record m { kernel = record k { console = record (k.console) { screen = s } } }

unfoldable pub set_segments : Symbols → Machine → Machine
set_segments y m = record m {
  ldt_desc = ldt_segment y.ldt y.ldt_size;
  ldt_register = kernel_ldt;
  tss_desc = tss_segment y.tss y.tss_size;
  ldt_segment_selector = kernel_ldt;
  ss0 = kernel_ds;
  task_register = kernel_tss;
  kernel = record (m.kernel) { esp0 = 0x800000 };
}

-- From i8259_init on; `mods_addr` is the field of the boot loader's information, whose first word
-- is read.
unfoldable pub init_devices : (Linkage → ℕ) → ℕ → ℕ → ℕ → Machine → Machine
init_devices address reg_a reg_b mods_addr m =
    let m1 = record m { kernel = on_pic Pic.init m.kernel; idt = idt_init address m.idt } in
    let m2 = clock_init address reg_a reg_b (keyboard_init address (pit_init address 100 m1)) in
    let k = m2.kernel in record m2 { kernel = init_kernel (load32 k.image.mem mods_addr) k }

-- What follows the memory map.
abbrev pub set_up : Symbols → ℕ → ℕ → ℕ → Machine → Option Screen → Option End
set_up y reg_a reg_b mods_addr m none = none
set_up y reg_a reg_b mods_addr m (some s) =
    some (idles (init_devices y.address reg_a reg_b mods_addr (set_segments y (with_screen s m))))

-- `text` gives the string at an address; `reg_a` and `reg_b` are what the clock's registers hold.
-- The result is `none` if the fuel does not suffice for the memory map.
unfoldable pub entry : (ℕ → List ℕ) → Symbols → ℕ → ℕ → ℕ → ℕ → ℕ → Machine → Option End
entry text y fuel reg_a reg_b magic addr m =
    let mem = m.kernel.image.mem in
    let s = clear m.kernel.console.screen in
    let i = info_at mem addr in
    let s1 = say_loaded text mem i s in
    if magic == bootloader_magic
    then (if check_flag i.flags 4 && check_flag i.flags 5
        then some (returned (with_screen (say text (codes "Both bits 4 and 5 are set.\n") [] s1) m))
        else set_up y reg_a reg_b i.mods_addr m (say_layout text fuel mem i s1))
    else some
        (returned (with_screen (say text (codes "Invalid magic number: 0x%#x\n") (magic ∷ []) s) m))
