-- ===== src/Process/Execute/Started.antt =====
-- What sys_execute leaves when it starts a program.
use orca_os.Base.{
  ℕ, ◌+◌, ◌-◌, ◌≤◌, ◌<◌, ◌≡◌, ◌≢◌, refl, subst, sym, ap, ◌∙◌, arith, ℤ, pos, to_i32, true, false,
  ltb, leb, ◌==◌, ◌||◌, if◌then◌else◌, some, Memory, update, load32, bytes_of,
}
use orca_os.Strings.{strncmp}
use orca_os.Files.{Dentry, is_zero, read_dentry_by_name, inode_start}
use orca_os.Files.Read.{file_byte}
use orca_os.Paging.{Pages, map_program}
use orca_os.Process.{Fd, Pcb, Kernel, Schedule, below}
use orca_os.Process.Drivers.{local_dentry}
use orca_os.Process.Tasks.{system_call_paging}
use orca_os.Process.Execute.{
  image_at, magic, process_name, user_frame, open_program, load_image, start_program, execute,
  sys_execute,
}
use orca_os.Process.Execute.Command.{
  IsCommand, name_end_lem, skip_spaces_lem, copy_arguments_lem, SameBut, strncmp-magic,
}
use orca_os.Process.Execute.Opening.{Opened, open_program-Opened}
use orca_os.Process.Execute.Load.{load_image-Loaded}

-- The kernel `k'` in which the program in the file of `e` starts at `r`, from `k`.
pub record Started (command : Memory) (i len : ℕ) (k : Kernel) (e : Dentry) (k' : Kernel) (r : ℤ)
    : Type 0 where
  pub entry : r ≡ to_i32 (load32 (file_byte k.image (inode_start k.image e.inode_num)) 24)
  pub current : k'.current_pcb ≡ below (k.process_number + 1)
  pub number : k'.process_number ≡ (
      if ltb (k.process_number + 1) k.schedule.recover_num
      then k.schedule.recover_num
      else k.process_number + 1)
  pub stack : k'.esp0 ≡ below k.process_number
  pub frame : user_frame k' ≡ 2 + k.process_number
  pub image :
      (j : ℕ)
      → j < load32 k.image.mem (inode_start k.image e.inode_num)
      → k'.frames (2 + k.process_number) (image_at + j)
        ≡ file_byte k.image (inode_start k.image e.inode_num) j
  pub others : (m x : ℕ) → m ≢ 2 + k.process_number → k'.frames m x ≡ k.frames m x
  pub arguments :
      (x : ℕ)
      → x < 127
      → (k'.pcbs k'.current_pcb).arguments x ≡ (if ltb x len then command (i + x) else 0)
  pub position : (k'.pcbs k'.current_pcb).arg_position ≡ 0

entry_point : (f buf : Memory) → ((j : ℕ) → j < 40 → buf j ≡ f j) → load32 buf 24 ≡ load32 f 24
unfolding load32
entry_point f buf h = ground (arith, h 24, h 25, h 26, h 27)

-- From the copied arguments on.
start_program-Started :
    (command stack buf : Memory) (i len : ℕ) (k k3 : Kernel) (e : Dentry) (p : Pcb)
    → k.process_number < 6
    → e.inode_num < load32 k.image.mem (k.image.boot_block + 4)
    → 40 ≤ load32 k.image.mem (inode_start k.image e.inode_num)
    → load32 k.image.mem (inode_start k.image e.inode_num) ≤ 0x400000 - image_at
    → Opened k e k3 (pos 2) buf
    → SameBut (k3.pcbs k3.current_pcb) p
    → ((x : ℕ) → x < 127 → p.arguments x ≡ (if ltb x len then command (i + x) else 0))
    → let (k', r) =
        start_program (pos 2) buf (record k3 { pcbs = update k3.pcbs k3.current_pcb p }) in
      Started command i len k e k' r
unfolding start_program system_call_paging map_program
start_program-Started command stack buf i len k k3 e p h hi long fits w same args =
    let k4 = record k3 { pcbs = update k3.pcbs k3.current_pcb p } in
    let k5 = system_call_paging (k4.pcbs k4.current_pcb) k4 in
    let c = k3.current_pcb in
    let block : k4.pcbs c ≡ p = ground arith in
    let numbered : (k4.pcbs c).process_num ≡ k.process_number =
      ap (λ (q : Pcb). q.process_num) block
      ∙ (same.process_num ∙ (ap (λ c. (k3.pcbs c).process_num) w.current ∙ w.numbered)) in
    let l =
      load_image-Loaded k.image e.inode_num buf k5 w.image
        (ap (λ (q : Pcb). (q.file_array 2).inode) block
          ∙ (ap (λ (f : ℕ → Fd). (f 2).inode) same.file_array ∙ w.inode))
        (ap (λ (q : Pcb). (q.file_array 2).position) block
          ∙ (ap (λ (f : ℕ → Fd). (f 2).position) same.file_array ∙ w.position))
        hi w.header long fits in
    let k6 = load_image (pos 2) buf k5 in
    let frame5 : user_frame k5 ≡ 2 + k.process_number = ground (arith, numbered) in
    let counted : k6.process_number ≡ k.process_number + 1 = l.others.number ∙ w.number in
    let recovered : k6.schedule.recover_num ≡ k.schedule.recover_num =
      ap (λ (s : Schedule). s.recover_num) (l.others.schedule ∙ w.schedule) in
    let here = l.others.current in
    record {
      entry = ap to_i32 (entry_point _ buf w.header);
      current = here ∙ w.current;
      number = ground (arith, counted, recovered);
      stack =
          ap below (ap (λ c. (k6.pcbs c).process_num) here ∙ (l.others.process_num c ∙ numbered));
      frame = ap (λ (q : Pages). (q.directory 32).upper_address) l.others.pages ∙ frame5;
      image = λ j b. ap (λ n. k6.frames n (image_at + j)) (sym frame5) ∙ l.bytes j b;
      others =
          λ m x ne. l.apart m x (λ q. ne (q ∙ frame5)) ∙ ap (λ (f : ℕ → Memory). f m x) w.frames;
      arguments = λ x b.
          ap (λ c. (k6.pcbs c).arguments x) here
          ∙ (ap (λ (m : Memory). m x) (l.others.arguments c)
              ∙ (ap (λ (q : Pcb). q.arguments x) block ∙ args x b));
      position =
          ap (λ c. (k6.pcbs c).arg_position) here
          ∙ (l.others.arg_position c
              ∙ (ap (λ (q : Pcb). q.arg_position) block
                  ∙ (same.arg_position
                      ∙ (ap (λ c. (k3.pcbs c).arg_position) w.current ∙ w.arg_position))));
    }

execute-Started :
    (command stack buf : Memory) (n i len fuel : ℕ) (k k3 : Kernel) (e : Dentry)
    → IsCommand command n i len
    → len ≤ 126
    → i + len < fuel
    → k.process_number < 6
    → e.inode_num < load32 k.image.mem (k.image.boot_block + 4)
    → 40 ≤ load32 k.image.mem (inode_start k.image e.inode_num)
    → load32 k.image.mem (inode_start k.image e.inode_num) ≤ 0x400000 - image_at
    → Opened k e k3 (pos 2) buf
    → is_zero (strncmp buf (bytes_of magic) 4) ≡ true
    → (k' : Kernel) × (r : ℤ) × (execute fuel command (pos 2) buf k3 ≡ some (k', r))
      × Started command i len k e k' r
unfolding execute
execute-Started command stack buf n i len fuel k k3 e c short enough h hi long fits w is_elf =
    let below31 : n < 31 = c.short in
    let behind : n < i = c.behind in
    let a : k3.current_pcb ≡ below (k.process_number + 1) = w.current in
    let p =
      copy_arguments_lem fuel command i 0 len (k3.pcbs k3.current_pcb) c.bytes c.ends (omega arith)
        (omega arith) in
    let name = name_end_lem command n 0 31 c.named c.separated (omega arith) (omega arith) in
    let skip =
      skip_spaces_lem fuel command (n + 1) i (λ x l. c.spaces x (omega arith)) c.no_space
        (omega arith) (omega arith) in
    let s =
      start_program-Started command stack buf i len k k3 e p.0 h hi long fits w p.3
        (λ x b. ground (arith, p.2 x, ap (λ a. (k3.pcbs a).arguments x) a, w.cleared x b)) in
    let r = start_program (pos 2) buf (record k3 { pcbs = update k3.pcbs k3.current_pcb p.0 }) in
    (r.0, r.1, rw is_elf (rw name (rw skip (rw p.1 refl))), s)

-- The name in the command leads to the entry `e`, whose file is a program that fits.
pub record IsProgram (command : Memory) (k : Kernel) (e : Dentry) : Type 0 where
  pub found :
      read_dentry_by_name k.image (some (process_name command)) (some local_dentry)
      ≡ (pos 0, some e)
  pub in_range : e.inode_num < load32 k.image.mem (k.image.boot_block + 4)
  pub long : 40 ≤ load32 k.image.mem (inode_start k.image e.inode_num)
  pub fits : load32 k.image.mem (inode_start k.image e.inode_num) ≤ 0x400000 - image_at
  pub magic_0 : file_byte k.image (inode_start k.image e.inode_num) 0 ≡ 0x7F
  pub magic_1 : file_byte k.image (inode_start k.image e.inode_num) 1 ≡ 0x45
  pub magic_2 : file_byte k.image (inode_start k.image e.inode_num) 2 ≡ 0x4C
  pub magic_3 : file_byte k.image (inode_start k.image e.inode_num) 3 ≡ 0x46

-- A command of a name of at most 30 characters, a space or a zero, further spaces, and at most 126
-- bytes of arguments up to a zero, with
-- fewer than six processes running: the name is found in the file system; its file has at least 40
-- bytes, begins with 0x7F "ELF" and fits behind the place of the image in four megabytes; the
-- third descriptor of the new block is free. Then `sys_execute` starts the program, given enough
-- fuel: it returns the word at byte 24 of the file; the file's bytes lie from 0x48000 on in the
-- four megabytes of the new process, to which the program's addresses are mapped, and no other
-- process's memory has changed; the new block is current, its arguments are those of the command
-- with zeros behind them, to be read from the start; the kernel's stack is the new process's.
pub sys_execute_lem :
    (command stack : Memory) (n i len fuel : ℕ) (k : Kernel) (e : Dentry)
    → IsCommand command n i len
    → 0 < n
    → len ≤ 126
    → i + len < fuel
    → k.process_number < 6
    → ((k.pcbs (below (k.process_number + 1))).file_array 2).flags ≡ 0
    → IsProgram command k e
    → (k' : Kernel) × (r : ℤ) × (sys_execute fuel (some command) stack k ≡ some (k', r))
      × Started command i len k e k' r
unfolding sys_execute
sys_execute_lem command stack n i len fuel k e c named short enough h free p =
    let o = open_program-Opened command stack k e h p.found p.in_range free p.long in
    let w : Opened k e o.0 (pos 2) o.2 = subst (λ d. Opened k e o.0 d o.2) o.4.is_two o.4 in
    let header = w.header in
    let is_elf =
      strncmp-magic o.2 (header 0 (omega arith) ∙ p.magic_0) (header 1 (omega arith) ∙ p.magic_1)
        (header 2 (omega arith) ∙ p.magic_2) (header 3 (omega arith) ∙ p.magic_3) in
    let x =
      execute-Started command stack o.2 n i len fuel k o.0 e c short enough h p.in_range p.long
        p.fits w is_elf in
    let opens : open_program command stack k ≡ (o.0, pos 2, o.2) =
      o.3 ∙ ap (λ d. (o.0, d, o.2)) o.4.is_two in
    let starts : ((command 0 == 0) || leb 6 k.process_number) ≡ false =
      ground (arith, (c.named 0 named).1) in
    (x.0, x.1, rw starts (rw opens x.2), x.3)
