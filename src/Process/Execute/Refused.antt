-- ===== src/Process/Execute/Refused.antt =====
-- What sys_execute leaves when the command names no program.
use orca_os.Base.{
  ℕ, ◌+◌, ◌<◌, ◌≤◌, ◌≡◌, ◌≢◌, refl, ap, ◌∙◌, arith, ℤ, pos, minus_one, false, leb, ◌==◌, ◌||◌,
  Option, some, List, Memory, load32, bytes_of, sub32,
}
use orca_os.Strings.{strncmp, strncmp_from}
use orca_os.Files.{Dentry, is_zero, read_dentry_by_name, inode_start}
use orca_os.Files.Read.{file_byte}
use orca_os.Process.{Kernel, below}
use orca_os.Process.Drivers.{local_dentry, file_open, open_found, file_read, file_close}
use orca_os.Process.Tasks.{create_pcb}
use orca_os.Process.Execute.{magic, process_name, open_program, give_back, execute, sys_execute}
use orca_os.Process.Execute.Steps.{Steady-trans, create_pcb-Fresh, file_close-Steady}
use orca_os.Process.Execute.Total.{file_open-Steady, file_read-Steady}
use orca_os.Process.Execute.Opening.{read_header, open_program-Opened}

-- The name is in no directory entry and the buffer on the stack does not begin like a program, or
-- the file that it leads to does not.
pub data NoProgram (command stack : Memory) (k : Kernel) : Type 0 where
  missing :
      (d : Option Dentry)
      → read_dentry_by_name k.image (some (process_name command)) (some local_dentry)
        ≡ (minus_one, d)
      → is_zero (strncmp stack (bytes_of magic) 4) ≡ false
      → NoProgram command stack k
  unlike :
      (e : Dentry)
      → read_dentry_by_name k.image (some (process_name command)) (some local_dentry)
        ≡ (pos 0, some e)
      → e.inode_num < load32 k.image.mem (k.image.boot_block + 4)
      → ((k.pcbs (below (k.process_number + 1))).file_array 2).flags ≡ 0
      → 40 ≤ load32 k.image.mem (inode_start k.image e.inode_num)
      → is_zero (strncmp (file_byte k.image (inode_start k.image e.inode_num)) (bytes_of magic) 4)
        ≡ false
      → NoProgram command stack k

strncmp-same : (f g m : Memory) → ((j : ℕ) → j < 4 → f j ≡ g j) → strncmp f m 4 ≡ strncmp g m 4
unfolding strncmp strncmp_from
strncmp-same f g m h =
    rw (h 0 (omega arith), h 1 (omega arith), h 2 (omega arith), h 3 (omega arith)) refl

-- The kernel when the header has been read, whatever the file.
pub record Tried (k k3 : Kernel) : Type 0 where
  pub image : k3.image ≡ k.image
  pub console : k3.console ≡ k.console
  pub number : k3.process_number ≡ k.process_number + 1
  pub schedule : k3.schedule ≡ k.schedule
  pub pages : k3.pages ≡ k.pages
  pub frames : k3.frames ≡ k.frames

open_program-Tried :
    (command stack : Memory) (k : Kernel)
    → k.process_number < 6
    → Tried k (open_program command stack k).0
unfolding open_program
open_program-Tried command stack k h =
    let w = create_pcb-Fresh k h in
    let k1 = record ((create_pcb k).0) { current_pcb = (create_pcb k).1 } in
    let o = file_open (some (process_name command)) k1 in
    let k3 = (file_read o.1 (some stack) (pos 40) o.0).0 in
    let u =
      Steady-trans k1 o.0 k3 (file_open-Steady (some (process_name command)) k1)
        (file_read-Steady o.1 (some stack) (pos 40) o.0) in
    record {
      image = u.image ∙ w.image;
      console = u.console ∙ w.console;
      number = u.number ∙ w.number;
      schedule = u.schedule ∙ w.schedule;
      pages = u.pages ∙ w.pages;
      frames = u.frames ∙ w.frames;
    }

file_open_missing :
    (name : List ℕ) (d : Option Dentry) (k : Kernel)
    → read_dentry_by_name k.image (some name) (some local_dentry) ≡ (minus_one, d)
    → file_open (some name) k ≡ (k, minus_one)
unfolding file_open open_found
file_open_missing name d k e = ap (λ r. open_found r k) e

missing_buffer :
    (command stack : Memory) (k : Kernel) (d : Option Dentry)
    → k.process_number < 6
    → read_dentry_by_name k.image (some (process_name command)) (some local_dentry) ≡ (minus_one, d)
    → (open_program command stack k).2 ≡ stack
unfolding open_program file_read
missing_buffer command stack k d h e =
    let w = create_pcb-Fresh k h in
    let k1 = record ((create_pcb k).0) { current_pcb = (create_pcb k).1 } in
    let opens = file_open_missing (process_name command) d k1 (
      ap (λ i. read_dentry_by_name i (some (process_name command)) (some local_dentry)) w.image
      ∙ e) in
    ap (λ x. (read_header stack x).2) opens

not_magic :
    (command stack : Memory) (k : Kernel)
    → k.process_number < 6
    → NoProgram command stack k
    → is_zero (strncmp (open_program command stack k).2 (bytes_of magic) 4) ≡ false
not_magic command stack k h (missing d e f) =
    ap (λ b. is_zero (strncmp b (bytes_of magic) 4)) (missing_buffer command stack k d h e) ∙ f
not_magic command stack k h (unlike e found hi free long f) =
    let o = open_program-Opened command stack k e h found hi free long in
    ap (λ (t : Kernel × ℤ × Memory). is_zero (strncmp t.2 (bytes_of magic) 4)) o.3
    ∙ (ap is_zero (strncmp-same o.2 _ (bytes_of magic) (λ j l. o.4.header j (omega arith))) ∙ f)

give_back-Tried :
    (fd : ℤ) (k k3 : Kernel)
    → k.process_number < 6
    → Tried k k3
    → let k' = give_back fd k3 in
      (k'.process_number ≡ k.process_number)
      × (k'.current_pcb ≡ below k.process_number)
      × (k'.pages ≡ k.pages)
      × (k'.frames ≡ k.frames)
      × (k'.console ≡ k.console)
      × (k'.schedule ≡ k.schedule)
unfolding give_back
give_back-Tried fd k k3 h w =
    let c = file_close-Steady fd k3 in
    let number : sub32 (file_close fd k3).0.process_number 1 ≡ k.process_number =
      ap (λ n. sub32 n 1) (c.number ∙ w.number) ∙ ground arith in
    (
      number,
      ap below number,
      c.pages ∙ w.pages,
      c.frames ∙ w.frames,
      c.console ∙ w.console,
      c.schedule ∙ w.schedule,
    )

-- With a command that is not empty and fewer than six processes, `sys_execute` of a name that is
-- not found, or of a file of at least 40 bytes whose first four are not those of a program, returns
-- -1 with any fuel: the number of processes, the paging, the memory of programs, the terminals and
-- the scheduler's counters are as before, and the current block is the one at 8 MB less 8 KB for
-- each process. For a name that is not found this needs that the stack does not hold the first
-- bytes of a program: the buffer is compared although nothing was read into it. For a file it needs
-- that the third descriptor of the new block is free.
pub sys_execute_refused :
    (fuel : ℕ) (command stack : Memory) (k : Kernel)
    → command 0 ≢ 0
    → k.process_number < 6
    → NoProgram command stack k
    → (k' : Kernel) × (sys_execute fuel (some command) stack k ≡ some (k', minus_one))
      × (k'.process_number ≡ k.process_number)
      × (k'.current_pcb ≡ below k.process_number)
      × (k'.pages ≡ k.pages)
      × (k'.frames ≡ k.frames)
      × (k'.console ≡ k.console)
      × (k'.schedule ≡ k.schedule)
unfolding sys_execute execute
sys_execute_refused fuel command stack k named h none_there =
    let o = open_program command stack k in
    let starts : ((command 0 == 0) || leb 6 k.process_number) ≡ false = ground (arith, named) in
    let n = not_magic command stack k h none_there in
    let g = give_back-Tried o.1 k o.0 h (open_program-Tried command stack k h) in
    (give_back o.1 o.0, rw starts (rw n refl), g.0, g.1, g.2, g.3, g.4, g.5)
