-- ===== src/Files.antt =====
-- The read-only file system: student-distrib/filesystems.c and filesystems.h, but for the drivers
-- that keep a descriptor (Process/Drivers). The image lies in memory; pointers are byte addresses,
-- so `p + 16` on a `uint32_t *` is 64 more. Products of `uint32_t` wrap; an address that leaves
-- the 32-bit space, which C leaves undefined, does not.
pub mod Names
pub mod Read
use orca_os.Base.{
  ℕ, zero, suc, ◌+◌, ◌-◌, ◌*◌, ◌/◌, ◌%◌, ℤ, pos, negsuc, false, minus_one, pos_part, to_i32, Bool,
  ltb, leb, ◌==◌, ◌||◌, if◌then◌else◌, Option, none, some, List, Memory, update, load32, slice,
  bytes_of, u8, u32,
}
use orca_os.Strings.{strlen, strncmp}

-- Memory, and the pointers `boot_block_start`, `inode_block_start` and `data_block_start`.
pub record Image : Type 0 where
  pub mem : Memory
  pub boot_block : ℕ
  pub inode_block : ℕ
  pub data_block : ℕ

pub record Dentry : Type 0 where
  pub file_name : List ℕ
  pub file_type : ℕ
  pub inode_num : ℕ
  pub reserved : List ℕ

abbrev pub block_size : ℕ
block_size = 4096

-- `fileSystem_init`; the number of inodes is the second word of the boot block.
unfoldable pub init : Memory → ℕ → Image
init m fs_start = record {
  mem = m;
  boot_block = fs_start;
  inode_block = fs_start + block_size;
  data_block = fs_start + block_size + u32 (load32 m (fs_start + 4) * 1024) * 4;
}

-- A packed `dentry_t` at an address: 32 bytes of name, two words, 24 reserved bytes.
unfoldable pub dentry_at : Memory → ℕ → Dentry
dentry_at m a = record {
  file_name = slice m a 32;
  file_type = load32 m (a + 32);
  inode_num = load32 m (a + 36);
  reserved = slice m (a + 40) 24;
}

abbrev pub is_zero : ℤ → Bool
is_zero (pos n) = n == 0
is_zero (negsuc n) = false

-- The search loop over `left` entries from address `a`: the address of the first whose name
-- agrees with `fname` on 31 bytes.
unfoldable pub find_entry : Memory → Memory → ℕ → ℕ → Option ℕ
find_entry m fname zero a = none
find_entry m fname (suc left) a =
    let rest = find_entry m fname left (a + 64) in
    if is_zero (strncmp fname (λ i. m (a + i)) 31) then some a else rest

-- The struct at the pointer `dentry`, if that is not NULL, is filled in.
abbrev pub fill : Memory → Option ℕ → Option Dentry → ℤ × Option Dentry
fill m (some a) (some d) = (pos 0, some (dentry_at m a))
fill m _ d = (minus_one, d)

-- The length is counted in a `uint8_t`, the number of entries is an `int`. `none` is NULL.
unfoldable pub read_dentry_by_name : Image → Option (List ℕ) → Option Dentry → ℤ × Option Dentry
read_dentry_by_name f none d = (minus_one, d)
read_dentry_by_name f (some fname) none = (minus_one, none)
read_dentry_by_name f (some fname) (some d) =
    if ltb 32 (u8 (strlen fname))
    then (minus_one, some d)
    else fill f.mem
        (find_entry f.mem (bytes_of fname) (pos_part (to_i32 (load32 f.mem f.boot_block)))
          (f.boot_block + 64))
        (some d)

-- The index is compared as a `uint32_t`.
unfoldable pub read_dentry_by_index : Image → ℕ → Option Dentry → ℤ × Option Dentry
read_dentry_by_index f index none = (minus_one, none)
read_dentry_by_index f index (some d) =
    if leb (load32 f.mem f.boot_block) index
    then (minus_one, some d)
    else fill f.mem (some (f.boot_block + 64 + u32 (16 * index) * 4)) (some d)

-- Where data block `n` starts.
abbrev pub block_start : Image → ℕ → ℕ
block_start f n = f.data_block + u32 (n * 1024) * 4

abbrev pub inode_start : Image → ℕ → ℕ
inode_start f inode = f.inode_block + u32 (inode * 1024) * 4

-- The loop of `read_data` with `left` rounds to go: `ptr` is `inode_block_ptr`, `block` is
-- `data_block_ptr`, `cur` is `currentByte` and `done` is `bytesRead`.
unfoldable pub read_loop : Image → ℕ → ℕ → ℕ → ℕ → ℕ → ℕ → ℕ → Memory → ℕ × Memory
read_loop f offset len zero ptr block cur done buf = (done, buf)
read_loop f offset len (suc left) ptr block cur done buf =
    let turn = leb block_size (cur + 1) in
    let ptr' = if turn then ptr + 4 else ptr in
    let block' = if turn then block_start f (load32 f.mem (ptr + 4)) else block in
    let cur' = if turn then 0 else cur + 1 in
    let rest =
      read_loop f offset len left ptr' block' cur' (done + 1)
        (update buf done (f.mem (block + cur))) in
    if leb len (u32 (offset + done)) then (done, buf) else rest

-- The result is a `uint32_t` returned as an `int32_t`. `none` is NULL.
unfoldable pub read_data : Image → ℕ → ℕ → Option Memory → ℕ → ℤ × Option Memory
read_data f inode offset none length = (minus_one, none)
read_data f inode offset (some buf) length =
    if leb (load32 f.mem (f.boot_block + 4)) inode
    then (minus_one, some buf)
    else let a = inode_start f inode in
      let ptr = a + 4 + offset / block_size * 4 in
      let (n, out) =
        read_loop f offset (load32 f.mem a) length ptr (block_start f (load32 f.mem ptr))
          (offset % block_size) 0 buf in
      (to_i32 n, some out)
