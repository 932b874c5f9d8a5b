-- ===== src/Multiboot.antt =====
-- What `entry` of student-distrib/kernel.c prints about the boot loader's information, which is
-- laid out by student-distrib/multiboot.h. The string at an address is an argument.
pub mod Maps
use orca_os.Base.{
  ℕ, zero, suc, ◌+◌, ◌-◌, ◌*◌, ◌/◌, ◌%◌, ◌^◌, Bool, ltb, ◌==◌, ◌&&◌, if◌then◌else◌, Option, none,
  some, List, [], ◌∷◌, get_or, codes, Memory, load32, for_range, u32,
}
use orca_os.Screen.{Screen, clear}
use orca_os.Printf.{printf}

abbrev pub bootloader_magic : ℕ
bootloader_magic = 0x2BADB002

-- `CHECK_FLAG`
abbrev pub check_flag : ℕ → ℕ → Bool
check_flag flags bit = flags / 2 ^ bit % 2 == 1

-- `multiboot_info_t`, with the fields of its `elf_sec`.
pub record Info : Type 0 where
  pub flags : ℕ
  pub mem_lower : ℕ
  pub mem_upper : ℕ
  pub boot_device : ℕ
  pub cmdline : ℕ
  pub mods_count : ℕ
  pub mods_addr : ℕ
  pub num : ℕ
  pub size : ℕ
  pub addr : ℕ
  pub shndx : ℕ
  pub mmap_length : ℕ
  pub mmap_addr : ℕ

unfoldable pub info_at : Memory → ℕ → Info
info_at m a = record {
  flags = load32 m a;
  mem_lower = load32 m (a + 4);
  mem_upper = load32 m (a + 8);
  boot_device = load32 m (a + 12);
  cmdline = load32 m (a + 16);
  mods_count = load32 m (a + 20);
  mods_addr = load32 m (a + 24);
  num = load32 m (a + 28);
  size = load32 m (a + 32);
  addr = load32 m (a + 36);
  shndx = load32 m (a + 40);
  mmap_length = load32 m (a + 44);
  mmap_addr = load32 m (a + 48);
}

-- A `char` that is passed as an `int`.
abbrev pub char_word : ℕ → ℕ
char_word c = if ltb c 128 then c else 2 ^ 32 - 256 + c

abbrev printed : Option (Screen × ℕ) → Screen → Screen
printed none s = s
printed (some (t, n)) s = t

module _ (text : ℕ → List ℕ) where
  -- `printf` with the words that it is given; no format here ends behind a `%`.
  unfoldable pub say : List ℕ → List ℕ → Screen → Screen
  say format words s = printed (printf text (λ i. get_or words i 0) format s) s

  -- One round of the loop over the modules; a `module_t` has 16 bytes.
  unfoldable pub say_module : Memory → ℕ → ℕ → Screen → Screen
  say_module m mods_addr i s =
      let mod_start = load32 m (mods_addr + 16 * i) in
      let mod_end = load32 m (mods_addr + 16 * i + 4) in
      let s1 = say (codes "Module %d loaded at address: 0x%#x\n") (i ∷ mod_start ∷ []) s in
      let s2 = say (codes "Module %d ends at address: 0x%#x\n") (i ∷ mod_end ∷ []) s1 in
      let s3 = say (codes "First few bytes of module:\n") [] s2 in
      let s4 = for_range 16 0 (λ j. say (codes "0x%x ") (char_word (m (mod_start + j)) ∷ [])) s3 in
      say (codes "\n") [] s4

  unfoldable pub say_map_entry : Memory → ℕ → Screen → Screen
  say_map_entry m a =
      say (codes "    size = 0x%x, base_addr = 0x%#x%#x\n    type = 0x%x,  length    = 0x%#x%#x\n")
        (load32 m a
          ∷ load32 m (a + 8)
          ∷ load32 m (a + 4)
          ∷ load32 m (a + 20)
          ∷ load32 m (a + 16)
          ∷ load32 m (a + 12)
          ∷ [])

  -- The loop over the memory map, from the entry at `a` on; each says how far the next one is.
  unfoldable pub say_map : ℕ → Memory → ℕ → ℕ → Screen → Option Screen
  say_map zero m last a s = none
  say_map (suc fuel) m last a s =
      let rest = say_map fuel m last (u32 (a + load32 m a + 4)) (say_map_entry m a s) in
      if ltb a last then rest else some s

  abbrev pub say_if : Bool → (Screen → Screen) → Screen → Screen
  say_if b f s = if b then f s else s

  -- From the flags to the modules.
  unfoldable pub say_loaded : Memory → Info → Screen → Screen
  say_loaded m i s =
      let s0 = say (codes "flags = 0x%#x\n") (i.flags ∷ []) s in
      let s1 =
        say_if (check_flag i.flags 0)
          (say (codes "mem_lower = %uKB, mem_upper = %uKB\n") (i.mem_lower ∷ i.mem_upper ∷ []))
          s0 in
      let s2 =
        say_if (check_flag i.flags 1) (say (codes "boot_device = 0x%#x\n") (i.boot_device ∷ []))
          s1 in
      let s3 = say_if (check_flag i.flags 2) (say (codes "cmdline = %s\n") (i.cmdline ∷ [])) s2 in
      say_if (check_flag i.flags 3) (for_range i.mods_count 0 (say_module m i.mods_addr)) s3

  -- From the section headers to the memory map.
  unfoldable pub say_layout : ℕ → Memory → Info → Screen → Option Screen
  say_layout fuel m i s =
      let s1 =
        say_if (check_flag i.flags 5)
          (say (codes "elf_sec: num = %u, size = 0x%#x, addr = 0x%#x, shndx = 0x%#x\n")
            (i.num ∷ i.size ∷ i.addr ∷ i.shndx ∷ []))
          s in
      let s2 =
        say (codes "mmap_addr = 0x%#x, mmap_length = 0x%x\n") (i.mmap_addr ∷ i.mmap_length ∷ [])
          s1 in
      if check_flag i.flags 6
      then say_map fuel m (u32 (i.mmap_addr + i.mmap_length)) i.mmap_addr s2
      else some s1
