-- ===== src/Process/Execute/Steps.antt =====
-- What the steps of sys_execute on the new block and its descriptor leave alone.
use orca_os.Base.{
  ℕ, ◌+◌, ◌-◌, ◌^◌, ◌<◌, ◌≡◌, refl, ap, ◌∙◌, arith, min, ℤ, pos, pos_part, to_i32, ltb, ◌==◌,
  if◌then◌else◌, some, List, Memory, update, load32, for_range, for_range-update, if_cases,
}
use orca_os.Files.{Dentry, read_dentry_by_name, inode_start}
use orca_os.Files.Read.{file_byte, read_data_lem}
use orca_os.Process.{Fd, Kernel, below, current_fd, set_fd}
use orca_os.Process.Drivers.{
  local_dentry, claim, open_found, file_open, file_read, file_close, bad_fd,
}
use orca_os.Process.Calls.Files.{moved, file_read-moved}
use orca_os.Process.Tasks.{with_streams, create_pcb}

-- Everything is the same but the descriptors and the clock.
pub record Steady (k k' : Kernel) : Type 0 where
  pub image : k'.image ≡ k.image
  pub console : k'.console ≡ k.console
  pub current : k'.current_pcb ≡ k.current_pcb
  pub number : k'.process_number ≡ k.process_number
  pub schedule : k'.schedule ≡ k.schedule
  pub pages : k'.pages ≡ k.pages
  pub frames : k'.frames ≡ k.frames
  pub arguments : (a : ℕ) → (k'.pcbs a).arguments ≡ (k.pcbs a).arguments
  pub arg_position : (a : ℕ) → (k'.pcbs a).arg_position ≡ (k.pcbs a).arg_position
  pub process_num : (a : ℕ) → (k'.pcbs a).process_num ≡ (k.pcbs a).process_num

pub Steady-trans : (k l m : Kernel) → Steady k l → Steady l m → Steady k m
Steady-trans k l m v w = record {
  image = w.image ∙ v.image;
  console = w.console ∙ v.console;
  current = w.current ∙ v.current;
  number = w.number ∙ v.number;
  schedule = w.schedule ∙ v.schedule;
  pages = w.pages ∙ v.pages;
  frames = w.frames ∙ v.frames;
  arguments = λ a. w.arguments a ∙ v.arguments a;
  arg_position = λ a. w.arg_position a ∙ v.arg_position a;
  process_num = λ a. w.process_num a ∙ v.process_num a;
}

pub Steady-refl : (k : Kernel) → Steady k k
Steady-refl k = record {
  image = refl;
  console = refl;
  current = refl;
  number = refl;
  schedule = refl;
  pages = refl;
  frames = refl;
  arguments = λ a. refl;
  arg_position = λ a. refl;
  process_num = λ a. refl;
}

pub set_fd-Steady : (fd : ℕ) (d : Fd) (k : Kernel) → Steady k (set_fd fd d k)
set_fd-Steady fd d k = record {
  image = refl;
  console = refl;
  current = refl;
  number = refl;
  schedule = refl;
  pages = refl;
  frames = refl;
  arguments = λ a. ground arith;
  arg_position = λ a. ground arith;
  process_num = λ a. ground arith;
}

-- Descriptors 0 and 1 are in use and 2 is not: the file gets 2.
pub file_open_two :
    (name : List ℕ) (e : Dentry) (k : Kernel)
    → read_dentry_by_name k.image (some name) (some local_dentry) ≡ (pos 0, some e)
    → (current_fd 0 k).flags ≡ 1
    → (current_fd 1 k).flags ≡ 1
    → (current_fd 2 k).flags ≡ 0
    → (k' : Kernel) × (file_open (some name) k ≡ (k', pos 2))
      × Steady k k'
      × ((current_fd 2 k').inode ≡ e.inode_num)
      × ((current_fd 2 k').position ≡ 0)
unfolding file_open open_found claim
file_open_two name e k h h0 h1 h2 =
    let d = record (current_fd 2 k) { flags = 1; inode = e.inode_num; position = 0 } in
    (set_fd 2 d k, rw h (rw (h0, h1, h2) refl), set_fd-Steady 2 d k, ground arith, ground arith)

-- Reading from a descriptor of the array, of a file whose inode is in range.
pub file_read_lem :
    (fd n : ℕ) (buf : Memory) (k : Kernel)
    → fd < 8
    → n < 2 ^ 31
    → (current_fd fd k).inode < load32 k.image.mem (k.image.boot_block + 4)
    → (current_fd fd k).position + n < 2 ^ 32
    → let d = current_fd fd k in
      let a = inode_start k.image d.inode in
      let m = min n (load32 k.image.mem a - d.position) in
      (k' : Kernel) × (out : Memory) × (file_read (pos fd) (some buf) (pos n) k
        ≡ (k', some out, pos m))
      × ((j : ℕ) → out j ≡ (if ltb j m then file_byte k.image a (d.position + j) else buf j))
      × Steady k k'
      × ((current_fd fd k').inode ≡ d.inode)
      × ((current_fd fd k').position ≡ (if m == 0 then load32 k.image.mem a else d.position + n))
file_read_lem fd n buf k h hn hi fits =
    let d = current_fd fd k in
    let m = min n (load32 k.image.mem (inode_start k.image d.inode) - d.position) in
    let r = read_data_lem k.image d.inode d.position n buf hi fits in
    let e : to_i32 m ≡ pos m = ground arith in
    (
      moved fd n m k,
      r.0,
      file_read-moved fd n buf k h m r.0 (r.1 ∙ ap (λ z. (z, some r.0)) e),
      r.2,
      set_fd-Steady fd _ k,
      ground arith,
      ground arith,
    )

pub file_close-Steady : (fd : ℤ) (k : Kernel) → Steady k (file_close fd k).0
unfolding file_close
file_close-Steady fd k =
    if_cases (λ (r : Kernel × ℤ). Steady k r.0) (bad_fd fd) (λ e. Steady-refl k)
      (λ e.
        if_cases (λ (r : Kernel × ℤ). Steady k r.0) ((current_fd (pos_part fd) k).flags == 1)
          (λ e. set_fd-Steady (pos_part fd) _ k) (λ e. Steady-refl k))

-- What a new block holds, in a kernel with fewer than 2 ^ 32 - 1 processes.
pub record Fresh (k k1 : Kernel) (a : ℕ) : Type 0 where
  pub image : k1.image ≡ k.image
  pub console : k1.console ≡ k.console
  pub number : k1.process_number ≡ k.process_number + 1
  pub schedule : k1.schedule ≡ k.schedule
  pub pages : k1.pages ≡ k.pages
  pub frames : k1.frames ≡ k.frames
  pub numbered : (k1.pcbs a).process_num ≡ k.process_number
  pub position : (k1.pcbs a).arg_position ≡ 0
  pub cleared : (i : ℕ) → i < 127 → (k1.pcbs a).arguments i ≡ 0
  pub streams : (k1.pcbs a).file_array ≡ with_streams (k.pcbs a).file_array

cleared_arguments :
    (k : Kernel)
    → k.process_number < 6
    → (i : ℕ) → i < 127
    → ((create_pcb k).0.pcbs (below (k.process_number + 1))).arguments i ≡ 0
unfolding create_pcb
cleared_arguments k h i l =
    let a = below (k.process_number + 1) in
    let m = (k.pcbs a).arguments in
    let e : ((create_pcb k).0.pcbs a).arguments ≡ for_range 127 0 (λ i m. update m i 0) m =
      ground arith in
    ap (λ (m : Memory). m i) e ∙ (for_range-update (λ i x. 0) 127 0 m i ∙ (ground arith))

pub create_pcb-Fresh :
    (k : Kernel) → k.process_number < 6 → Fresh k (create_pcb k).0 (below (k.process_number + 1))
unfolding create_pcb
create_pcb-Fresh k h = record {
  image = refl;
  console = refl;
  number = omega arith;
  schedule = refl;
  pages = refl;
  frames = refl;
  numbered = ground arith;
  position = ground arith;
  cleared = cleared_arguments k h;
  streams = ground arith;
}
