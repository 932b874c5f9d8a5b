-- ===== src/Process/Drivers.antt =====
-- The drivers that keep a descriptor: the file and directory functions of
-- student-distrib/filesystems.c. `none` for a name or a buffer is NULL.
use orca_os.Base.{
  ℕ, zero, suc, ◌+◌, ◌/◌, ℤ, pos, negsuc, minus_one, pos_part, ltb_ℤ, to_u32, Bool, ltb, ◌==◌,
  if◌then◌else◌, true, Option, none, some, List, [], ◌∷◌, Memory, update, load32, u32, get_or,
}
use orca_os.Files.{Dentry, read_dentry_by_name, read_dentry_by_index, read_data, inode_start}
use orca_os.Process.{Kernel, current_fd, set_fd}

-- `fd < 0 || fd > 7`
abbrev pub bad_fd : ℤ → Bool
bad_fd (pos n) = ltb 7 n
bad_fd (negsuc n) = true

-- A `dentry_t` on the stack, whose first contents no caller reads.
abbrev pub local_dentry : Dentry
local_dentry = record { file_name = []; file_type = 0; inode_num = 0; reserved = [] }

-- The first free descriptor from `i` on, of `left` ones, is taken for the inode.
unfoldable pub claim : ℕ → ℕ → ℕ → Kernel → Kernel × ℤ
claim inode i zero k = (k, minus_one)
claim inode i (suc left) k =
    let d = current_fd i k in
    let rest = claim inode (i + 1) left k in
    if d.flags == 0
    then (set_fd i (record d { flags = 1; inode = inode; position = 0 }) k, pos i)
    else rest

-- `file_open` once the look-up has given its result.
unfoldable pub open_found : ℤ × Option Dentry → Kernel → Kernel × ℤ
open_found (pos n, some d) k = claim d.inode_num 0 8 k
open_found _ k = (k, minus_one)

unfoldable pub file_open : Option (List ℕ) → Kernel → Kernel × ℤ
file_open none k = (k, minus_one)
file_open (some name) k = open_found (read_dentry_by_name k.image (some name) (some local_dentry)) k

unfoldable pub file_close : ℤ → Kernel → Kernel × ℤ
file_close fd k =
    let n = pos_part fd in
    let d = current_fd n k in
    if bad_fd fd
    then (k, minus_one)
    else if d.flags == 1
    then (set_fd n (record d { inode = 0; position = 0; flags = 0 }) k, pos 0)
    else (k, minus_one)

abbrev pub file_length : Kernel → ℕ → ℕ
file_length k inode = load32 k.image.mem (inode_start k.image inode)

-- What `file_read` does with the result of `read_data`: at the end of the file the position
-- becomes its length, else it moves on by `nbytes`, a `uint32_t` sum.
unfoldable pub after_read : ℕ → ℤ → Kernel → ℤ × Option Memory → Kernel × Option Memory × ℤ
after_read fd nbytes k (negsuc zero, out) = (k, out, minus_one)
after_read fd nbytes k (pos zero, out) =
    let d = current_fd fd k in
    (set_fd fd (record d { position = file_length k d.inode }) k, out, pos 0)
after_read fd nbytes k (r, out) =
    let d = current_fd fd k in
    (set_fd fd (record d { position = u32 (d.position + to_u32 nbytes) }) k, out, r)

unfoldable pub file_read : ℤ → Option Memory → ℤ → Kernel → Kernel × Option Memory × ℤ
file_read fd none nbytes k = (k, none, minus_one)
file_read fd (some buf) nbytes k =
    let n = pos_part fd in
    let d = current_fd n k in
    if bad_fd fd
    then (k, some buf, minus_one)
    else after_read n nbytes k (read_data k.image d.inode d.position (some buf) (to_u32 nbytes))

unfoldable pub file_write : ℤ → Option Memory → ℤ → Kernel → Kernel × ℤ
file_write fd buf nbytes k = (k, minus_one)

-- The name that is given is not used: the root "/" is looked up.
unfoldable pub directory_open : Kernel → ℤ
directory_open k = (read_dentry_by_name k.image (some (0x2F ∷ [])) (some local_dentry)).0

-- The copy of a name: `left` characters from `i` on, and how many of them are not zero.
unfoldable pub copy_name : List ℕ → ℕ → ℕ → ℕ → Memory → ℕ × Memory
copy_name name i zero n buf = (n, buf)
copy_name name i (suc left) n buf =
    let c = get_or name i 0 in
    copy_name name (i + 1) left (if c == 0 then n else n + 1) (update buf i c)

-- At most `FILE_NAME_LEN` bytes.
abbrev pub name_bytes : ℤ → ℤ
name_bytes nbytes = if ltb_ℤ (pos 32) nbytes then pos 32 else nbytes

unfoldable pub list_entry : ℕ → ℤ → Memory → Kernel → ℤ × Option Dentry → Kernel × Option Memory × ℤ
list_entry fd count buf k (pos r, some e) =
    let d = current_fd fd k in
    let (n, out) = copy_name e.file_name 0 (pos_part count) 0 buf in
    (set_fd fd (record d { position = u32 (d.position + to_u32 count) }) k, some out, pos n)
list_entry fd count buf k _ = (k, some buf, minus_one)

unfoldable pub directory_read : ℤ → Option Memory → ℤ → Kernel → Kernel × Option Memory × ℤ
directory_read fd none nbytes k = (k, none, minus_one)
directory_read fd (some buf) nbytes k =
    let n = pos_part fd in
    let index = (current_fd n k).position / 32 in
    if bad_fd fd
    then (k, some buf, minus_one)
    else if index == load32 k.image.mem k.image.boot_block
    then (k, some buf, pos 0)
    else list_entry n (name_bytes nbytes) buf k
        (read_dentry_by_index k.image index (some local_dentry))

unfoldable pub directory_close : ℤ → Kernel → Kernel × ℤ
directory_close fd k =
    let n = pos_part fd in
    if bad_fd fd
    then (k, minus_one)
    else (set_fd n (record (current_fd n k) { position = 0; flags = 0 }) k, pos 0)

unfoldable pub directory_write : ℤ → Option Memory → ℤ → Kernel → Kernel × ℤ
directory_write fd buf nbytes k = (k, minus_one)
