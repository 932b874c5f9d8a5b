-- ===== src/Boot/Start.antt =====
-- The state in which `entry` of student-distrib/kernel.c leaves the machine.
use orca_os.Base.{
  ℕ, ◌+◌, ◌^◌, ◌<◌, ◌≡◌, refl, arith, ◌==◌, ◌&&◌, if_cases, not, true, false, Option, some, List,
  [], codes,
}
use orca_os.Pic
use orca_os.Pic.{enable_irq, clear_bit}
use orca_os.Rtc.{rtc_init}
use orca_os.Screen.{Screen, clear}
use orca_os.Multiboot.{bootloader_magic, check_flag, info_at, say, say_loaded}
use orca_os.Multiboot.Maps.{Walk, say_layout_total}
use orca_os.Segments.{base_of, limit_of, ldt_segment_lem, tss_segment_lem}
use orca_os.Idt.{Linkage, boot_idt}
use orca_os.Idt.Gates.{Entry, routine, vectors, boot_idt-Entry}
use orca_os.Scheduler.{scheduling_init}
use orca_os.Boot.{
  Machine, Symbols, End, idles, returned, pit_init, keyboard_init, clock_init, sys_calls_init,
  init_kernel, set_segments, init_devices, with_screen, entry,
}

init_devices-idt :
    (address : Linkage → ℕ) (reg_a reg_b mods_addr : ℕ) (m : Machine)
    → (init_devices address reg_a reg_b mods_addr m).idt ≡ boot_idt address m.idt
unfolding init_devices boot_idt pit_init keyboard_init clock_init rtc_init
init_devices-idt address reg_a reg_b mods_addr m = refl

-- What is true of the machine once it idles, for the vector `v`.
pub record Started (y : Symbols) (m m' : Machine) (v : ℕ) : Type 0 where
  pub gate : Entry y.address v (routine vectors v) (m.idt v) (m'.idt v)
  pub raised : (((m'.idt v).present == 1) && ((m'.idt v).dpl == 3)) ≡ (v == 0x80)
  pub master : m'.kernel.console.pic.master_mask ≡ 0xF8
  pub slave : m'.kernel.console.pic.slave_mask ≡ 0xFE
  pub ldt_base : base_of m'.ldt_desc ≡ y.ldt
  pub ldt_limit : limit_of m'.ldt_desc ≡ y.ldt_size
  pub tss_base : base_of m'.tss_desc ≡ y.tss
  pub tss_limit : limit_of m'.tss_desc ≡ y.tss_size
  pub number : m'.kernel.process_number ≡ 0
  pub display : m'.kernel.console.on_display ≡ 0

module _ (y : Symbols) (fits : (l : Linkage) → y.address l < 2 ^ 32) (ldt_fits : y.ldt < 2 ^ 32)
    (tss_fits : y.tss < 2 ^ 32) (ldt_small : y.ldt_size < 2 ^ 20)
    (tss_small : y.tss_size < 2 ^ 20) where
  init-Started :
      (reg_a reg_b mods_addr : ℕ) (s : Screen) (m : Machine) (v : ℕ)
      → (m.idt v).present ≡ 0
      → (m.idt v).dpl ≡ 0
      → Started y m
          (init_devices y.address reg_a reg_b mods_addr (set_segments y (with_screen s m)))
          v
  unfolding init_devices boot_idt pit_init keyboard_init clock_init rtc_init init_kernel
      sys_calls_init scheduling_init enable_irq Pic.init set_segments
  init-Started reg_a reg_b mods_addr s m v hp hd =
      let r = boot_idt-Entry y.address fits m.idt v hp hd in
      let l = ldt_segment_lem y.ldt y.ldt_size ldt_fits ldt_small in
      let t = tss_segment_lem y.tss y.tss_size tss_fits tss_small in
      record {
        gate = r.0;
        raised = r.1;
        master = refl;
        slave = refl;
        ldt_base = l.0;
        ldt_limit = l.1;
        tss_base = t.0;
        tss_limit = t.1;
        number = refl;
        display = refl;
      }

  -- Called by a boot loader of the right magic number, whose information has not both bit 4 and
  -- bit 5 set and a memory map whose entries, walked by their sizes, end below the 32-bit limit,
  -- on a machine with an interrupt descriptor
  -- table of zeros, `entry` ends in its waiting loop, with one more than the map's length as fuel.
  -- Then every vector in use has a present gate that leads to its routine, and all other entries
  -- are as they were; a program may raise vector 0x80 and no other; of the lines of the two
  -- interrupt controllers exactly the timer's, the keyboard's, the slave's and the clock's are open
  -- (0, 1, 2 and 8); the two segment descriptors have the addresses and sizes of their tables; no
  -- process exists, and terminal 0 is on display. Addresses have 32 bits, and sizes 20.
  pub entry_lem :
      (text : ℕ → List ℕ) (fuel reg_a reg_b addr : ℕ) (m : Machine) (v : ℕ)
      → let mem = m.kernel.image.mem in
        let i = info_at mem addr in
        (check_flag i.flags 4 && check_flag i.flags 5) ≡ false
        → i.mmap_addr + i.mmap_length < 2 ^ 32
        → Walk mem (i.mmap_addr + i.mmap_length) i.mmap_addr
        → i.mmap_length < fuel
        → (m.idt v).present ≡ 0
        → (m.idt v).dpl ≡ 0
        → (m' : Machine) × (entry text y fuel reg_a reg_b bootloader_magic addr m ≡ some (idles m'))
          × Started y m m' v
  unfolding entry
  entry_lem text fuel reg_a reg_b addr m v bits small below enough hp hd =
      let mem = m.kernel.image.mem in
      let i = info_at mem addr in
      let s = say_loaded text mem i (clear m.kernel.console.screen) in
      let w = say_layout_total text mem fuel i s small below enough in
      (
        init_devices y.address reg_a reg_b i.mods_addr (set_segments y (with_screen w.0 m)),
        rw bits (rw w.1 refl),
        init-Started reg_a reg_b i.mods_addr w.0 m v hp hd,
      )

-- With another magic number, or with both bits set, `entry` returns, and but for the screen the
-- machine is as it was.
entry_returns :
    (text : ℕ → List ℕ) (y : Symbols) (fuel reg_a reg_b magic addr : ℕ) (m : Machine)
    → let i = info_at m.kernel.image.mem addr in
      ((magic == bootloader_magic) && not (check_flag i.flags 4 && check_flag i.flags 5)) ≡ false
      → (s : Screen) × (entry text y fuel reg_a reg_b magic addr m
          ≡ some (returned (with_screen s m)))
unfolding entry
entry_returns text y fuel reg_a reg_b magic addr m h =
    let i = info_at m.kernel.image.mem addr in
    if_cases (λ (o : Option End). (s : Screen) × (o ≡ some (returned (with_screen s m))))
      (magic == bootloader_magic)
      (λ e.
        let b : (check_flag i.flags 4 && check_flag i.flags 5) ≡ true = ground (arith, h, e) in
        (
          say text (codes "Both bits 4 and 5 are set.\n") []
              (say_loaded text m.kernel.image.mem i (clear m.kernel.console.screen)),
          rw b refl,
        ))
      (λ e. (_, refl))
