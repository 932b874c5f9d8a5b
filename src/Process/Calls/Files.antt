-- ===== src/Process/Calls/Files.antt =====
-- Reading a regular file through a descriptor.
use orca_os.Base.{
  minus_one, ℕ, zero, suc, ◌+◌, ◌-◌, ◌^◌, ◌<◌, ◌≡◌, ◌≢◌, refl, ap, ◌∙◌, arith, min, ℤ, pos, to_i32,
  ltb, ◌==◌, if◌then◌else◌, if_false, Option, some, Memory, load32, u32,
}
use orca_os.Files.{read_data, inode_start}
use orca_os.Files.Read.{file_byte, read_data_lem}
use orca_os.Process.{file, Kernel, current_fd, set_fd}
use orca_os.Process.Drivers.{after_read, file_read, file_length}
use orca_os.Process.Calls.{Events, ret, call_read, not_open, sys_read}

-- The descriptor after `m` bytes have been read of `n` that were asked for.
abbrev pub moved : ℕ → ℕ → ℕ → Kernel → Kernel
moved fd n m k =
    let d = current_fd fd k in
    set_fd fd
      (record d { position = if m == 0 then file_length k d.inode else u32 (d.position + n) }) k

after_read-moved :
    (fd n m : ℕ) (k : Kernel) (out : Memory)
    → after_read fd (pos n) k (pos m, some out) ≡ (moved fd n m k, some out, pos m)
unfolding after_read
after_read-moved fd n zero k out = refl
after_read-moved fd n (suc m) k out = ground arith

module _ (fd n : ℕ) (buf : Memory) (k : Kernel) (h : fd < 8) (m : ℕ) (out : Memory)
    (e : read_data k.image (current_fd fd k).inode (current_fd fd k).position (some buf) n
      ≡ (pos m, some out)) where
  pub file_read-moved : file_read (pos fd) (some buf) (pos n) k ≡ (moved fd n m k, some out, pos m)
  unfolding file_read
  file_read-moved =
      if_false (ltb 7 fd) _ _ (ground arith)
      ∙ ap (after_read fd (pos n) k) e
      ∙ after_read-moved fd n m k out

  call_read_file :
      (ev : Events)
      → (current_fd fd k).flags ≢ 0
      → (current_fd fd k).read ≡ file
      → sys_read ev (pos fd) (some buf) (pos n) k ≡ ret (moved fd n m k) (some out) (pos m)
  unfolding sys_read call_read
  call_read_file ev used reads =
      if_false (not_open (pos fd) k) (ret k (some buf) minus_one)
        (call_read (current_fd fd k).read ev (pos fd) buf (pos n) k) (ground arith)
      ∙ ap (λ d. call_read d ev (pos fd) buf (pos n) k) reads
      ∙ ap (λ (r : Kernel × Option Memory × ℤ). ret r.0 r.1 r.2) file_read-moved

-- Reading an open regular file whose inode is in range, with a count from 1 to 2 ^ 31 - 1 that
-- takes the position no further than a `uint32_t`: the call returns the number of bytes that were
-- left from the position on, at most the count; they are the file's, and the rest of the buffer is
-- as it was; the position moves on by the count, read or not, or, if nothing was left, to the
-- file's length; every other descriptor is as it was.
pub sys_read_file :
    (ev : Events) (fd n : ℕ) (buf : Memory) (k : Kernel)
    → fd < 8
    → (current_fd fd k).flags ≢ 0
    → (current_fd fd k).read ≡ file
    → (current_fd fd k).inode < load32 k.image.mem (k.image.boot_block + 4)
    → 0 < n
    → n < 2 ^ 31
    → (current_fd fd k).position + n < 2 ^ 32
    → let d = current_fd fd k in
      let len = file_length k d.inode in
      let m = min n (len - d.position) in
      (k' : Kernel) × (out : Memory) × (sys_read ev (pos fd) (some buf) (pos n) k
        ≡ ret k' (some out) (pos m))
      × ((j : ℕ)
          → out j ≡ (
              if ltb j m
              then file_byte k.image (inode_start k.image d.inode) (d.position + j)
              else buf j))
      × ((current_fd fd k').position ≡ (if m == 0 then len else d.position + n))
      × ((i : ℕ) → current_fd i k' ≡ (if i == fd then current_fd fd k' else current_fd i k))
sys_read_file ev fd n buf k h open_ reads inode_ok pos_n small fits =
    let d = current_fd fd k in
    let m = min n (file_length k d.inode - d.position) in
    let r = read_data_lem k.image d.inode d.position n buf inode_ok fits in
    let e : to_i32 m ≡ pos m = ground arith in
    (
      moved fd n m k,
      r.0,
      call_read_file fd n buf k h m r.0 (r.1 ∙ ap (λ z. (z, some r.0)) e) ev open_ reads,
      r.2,
      ground arith,
      λ i. ground arith,
    )
