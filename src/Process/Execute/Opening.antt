-- ===== src/Process/Execute/Opening.antt =====
-- The first steps of sys_execute: the new block, and the file's first 40 bytes.
use orca_os.Base.{
  ℕ, ◌+◌, ◌-◌, ◌^◌, ◌≤◌, ◌<◌, ◌≡◌, refl, subst, ap, ◌∙◌, arith, min, ℤ, pos, ltb, ◌==◌,
  if◌then◌else◌, Option, some, Memory, load32,
}
use orca_os.Files.{Image, Dentry, read_dentry_by_name, inode_start}
use orca_os.Files.Read.{file_byte}
use orca_os.Process.{Fd, Kernel, below, current_fd}
use orca_os.Process.Drivers.{local_dentry, file_read}
use orca_os.Process.Tasks.{create_pcb}
use orca_os.Process.Execute.{process_name, open_program, contents}
use orca_os.Process.Execute.Steps.{
  Steady, Steady-trans, create_pcb-Fresh, file_open_two, file_read_lem,
}

-- A read from descriptor 2, whose file and position are known.
abbrev pub Reads : ℕ → Memory → Kernel → Image → ℕ → ℕ → Type 0
Reads n buf k image inode p =
    let a = inode_start image inode in
    let m = min n (load32 image.mem a - p) in
    (k' : Kernel) × (out : Memory) × (file_read (pos 2) (some buf) (pos n) k
      ≡ (k', some out, pos m))
    × ((j : ℕ) → out j ≡ (if ltb j m then file_byte image a (p + j) else buf j))
    × Steady k k'
    × ((current_fd 2 k').inode ≡ inode)
    × ((current_fd 2 k').position ≡ (if m == 0 then load32 image.mem a else p + n))

pub file_read_at :
    (image : Image) (inode p n : ℕ) (buf : Memory) (k : Kernel)
    → k.image ≡ image
    → (current_fd 2 k).inode ≡ inode
    → (current_fd 2 k).position ≡ p
    → n < 2 ^ 31
    → inode < load32 image.mem (image.boot_block + 4)
    → p + n < 2 ^ 32
    → Reads n buf k image inode p
file_read_at image inode p n buf k ei en ep hn hi fits =
    let d = current_fd 2 k in
    let r = file_read_lem 2 n buf k (omega arith) hn (rw (ei, en) hi) (rw ep fits) in
    subst (λ i. Reads n buf k i inode p) ei
      (subst (λ m. Reads n buf k k.image m p) en
        (subst (λ q. Reads n buf k k.image d.inode q) ep r))

-- The kernel `k3` that has opened the file of the entry `e` as descriptor 2, from `k`.
pub record Opened (k : Kernel) (e : Dentry) (k3 : Kernel) (fd : ℤ) (buf : Memory) : Type 0 where
  pub image : k3.image ≡ k.image
  pub number : k3.process_number ≡ k.process_number + 1
  pub schedule : k3.schedule ≡ k.schedule
  pub pages : k3.pages ≡ k.pages
  pub frames : k3.frames ≡ k.frames
  pub current : k3.current_pcb ≡ below (k.process_number + 1)
  pub is_two : fd ≡ pos 2
  pub inode : (current_fd 2 k3).inode ≡ e.inode_num
  pub position : (current_fd 2 k3).position ≡ 40
  pub header : (j : ℕ) → j < 40 → buf j ≡ file_byte k.image (inode_start k.image e.inode_num) j
  pub numbered : (k3.pcbs (below (k.process_number + 1))).process_num ≡ k.process_number
  pub arg_position : (k3.pcbs (below (k.process_number + 1))).arg_position ≡ 0
  pub cleared : (i : ℕ) → i < 127 → (k3.pcbs (below (k.process_number + 1))).arguments i ≡ 0

-- What open_program does with the results of file_open and of file_read.
abbrev pub read_header : Memory → Kernel × ℤ → Kernel × ℤ × Memory
read_header stack (k2, fd) =
    let (k3, out, r) = file_read fd (some stack) (pos 40) k2 in (k3, fd, contents out stack)

abbrev keep : Memory → Kernel × Option Memory × ℤ → Kernel × ℤ × Memory
keep stack (k3, out, r) = (k3, pos 2, contents out stack)

pub open_program-Opened :
    (command stack : Memory) (k : Kernel) (e : Dentry)
    → k.process_number < 6
    → read_dentry_by_name k.image (some (process_name command)) (some local_dentry)
      ≡ (pos 0, some e)
    → e.inode_num < load32 k.image.mem (k.image.boot_block + 4)
    → ((k.pcbs (below (k.process_number + 1))).file_array 2).flags ≡ 0
    → 40 ≤ load32 k.image.mem (inode_start k.image e.inode_num)
    → (k3 : Kernel) × (fd : ℤ) × (buf : Memory) × (open_program command stack k ≡ (k3, fd, buf))
      × Opened k e k3 fd buf
unfolding open_program create_pcb
open_program-Opened command stack k e h found hi free long =
    let a = below (k.process_number + 1) in
    let w = create_pcb-Fresh k h in
    let k1 = record ((create_pcb k).0) { current_pcb = a } in
    let o =
      file_open_two (process_name command) e k1
        (ap (λ i. read_dentry_by_name i (some (process_name command)) (some local_dentry)) w.image
          ∙ found)
        (ap (λ (f : ℕ → Fd). (f 0).flags) w.streams) (ap (λ (f : ℕ → Fd). (f 1).flags) w.streams)
        (ap (λ (f : ℕ → Fd). (f 2).flags) w.streams ∙ free) in
    let k2 = o.0 in
    let v : Steady k1 k2 = o.2 in
    let image2 : k2.image ≡ k.image = v.image ∙ w.image in
    let r =
      file_read_at k.image e.inode_num 0 40 stack k2 image2 o.3 o.4 (omega arith) hi
        (omega arith) in
    let k3 = r.0 in
    let u : Steady k1 k3 = Steady-trans k1 k2 k3 v r.4 in
    let opened : Opened k e k3 (pos 2) r.1 = record {
      image = u.image ∙ w.image;
      number = u.number ∙ w.number;
      schedule = u.schedule ∙ w.schedule;
      pages = u.pages ∙ w.pages;
      frames = u.frames ∙ w.frames;
      current = u.current;
      is_two = refl;
      inode = r.5;
      position = ground (arith, r.6, long);
      header = λ j l. ground (arith, r.3 j, long);
      numbered = u.process_num a ∙ w.numbered;
      arg_position = u.arg_position a ∙ w.position;
      cleared = λ i l. ap (λ (m : Memory). m i) (u.arguments a) ∙ w.cleared i l;
    } in
    (k3, pos 2, r.1, ap (read_header stack) o.1 ∙ ap (keep stack) r.2, opened)
