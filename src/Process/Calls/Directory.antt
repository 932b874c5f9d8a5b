-- ===== src/Process/Calls/Directory.antt =====
-- Listing the directory through a descriptor.
use orca_os.Base.{
  ℕ, zero, suc, ◌+◌, ◌*◌, ◌/◌, ◌^◌, ◌<◌, ◌≡◌, ap, ◌∙◌, arith, min, pos, ltb, leb, ◌==◌, ◌&&◌,
  if◌then◌else◌, if_false, some, List, Memory, update, load32, slice, get_or, u32,
}
use orca_os.Files.{Image, Dentry, dentry_at, read_dentry_by_index}
use orca_os.Files.Names.{entry}
use orca_os.Process.{Kernel, current_fd, set_fd}
use orca_os.Process.Drivers.{copy_name, name_bytes, list_entry, directory_read, local_dentry}

-- How many of the `left` characters from `i` on are not zero.
abbrev pub count_chars : List ℕ → ℕ → ℕ → ℕ
count_chars name i zero = 0
count_chars name i (suc left) =
    (if get_or name i 0 == 0 then 0 else 1) + count_chars name (i + 1) left

copy_name-count :
    (name : List ℕ) (i left n : ℕ) (buf : Memory)
    → (copy_name name i left n buf).0 ≡ n + count_chars name i left
unfolding copy_name
copy_name-count name i zero n buf = omega arith
copy_name-count name i (suc left) n buf = ground (
  arith,
  copy_name-count name (i + 1) left (if get_or name i 0 == 0 then n else n + 1)
      (update buf i (get_or name i 0)),
)

copy_name-buf :
    (name : List ℕ) (i left n : ℕ) (buf : Memory) (j : ℕ)
    → (copy_name name i left n buf).1 j
      ≡ (if leb i j && ltb j (i + left) then get_or name j 0 else buf j)
unfolding copy_name
copy_name-buf name i zero n buf j = ground arith
copy_name-buf name i (suc left) n buf j = ground (
  arith,
  copy_name-buf name (i + 1) left (if get_or name i 0 == 0 then n else n + 1)
      (update buf i (get_or name i 0)) j,
)

get_or-slice :
    (m : Memory) (a n j : ℕ) → get_or (slice m a n) j 0 ≡ (if ltb j n then m (a + j) else 0)
unfolding slice
get_or-slice m a zero j = ground arith
get_or-slice m a (suc n) zero = ground (arith, ap m (let e : a ≡ a + 0 = omega arith in e))
get_or-slice m a (suc n) (suc j) =
    ground
      (arith, get_or-slice m (a + 1) n j, ap m (let e : a + 1 + j ≡ a + suc j = omega arith in e))

-- The descriptor `fd` with its position moved on by `m`.
abbrev pub moved_by : ℕ → ℕ → Kernel → Kernel
moved_by fd m k =
    let d = current_fd fd k in set_fd fd (record d { position = u32 (d.position + m) }) k

entry_read :
    (f : Image) (i : ℕ) (d : Dentry)
    → i < load32 f.mem f.boot_block
    → load32 f.mem f.boot_block < 2 ^ 28
    → read_dentry_by_index f i (some d) ≡ (pos 0, some (dentry_at f.mem (entry f i)))
unfolding read_dentry_by_index
entry_read f i d h hc = ground (
  arith,
  ap (dentry_at f.mem)
      (let e : f.boot_block + 64 + u32 (16 * i) * 4 ≡ entry f i = omega arith in e),
)

list_entry_lem :
    (fd m : ℕ) (buf : Memory) (k : Kernel) (e : Dentry)
    → let r = copy_name e.file_name 0 m 0 buf in
      m < 2 ^ 31
      → list_entry fd (pos m) buf k (pos 0, some e) ≡ (moved_by fd m k, some r.1, pos r.0)
unfolding list_entry
list_entry_lem fd m buf k e h = ground arith

-- Reading an open directory, with a count below 2 ^ 31, at a position that stands for an entry of
-- the fewer than 2 ^ 28 there are: the buffer gets the first bytes of that entry's name, as many as
-- the count and 32 allow, and is unchanged behind; the result is how many of them are not zero;
-- the position moves on by the number of bytes copied; every other descriptor is as it was.
pub directory_read_lem :
    (fd n : ℕ) (buf : Memory) (k : Kernel)
    → fd < 8
    → n < 2 ^ 31
    → (current_fd fd k).position / 32 < load32 k.image.mem k.image.boot_block
    → load32 k.image.mem k.image.boot_block < 2 ^ 28
    → (current_fd fd k).position + 32 < 2 ^ 32
    → let a = entry k.image ((current_fd fd k).position / 32) in
      let m = min n 32 in
      (k' : Kernel) × (out : Memory) × (directory_read (pos fd) (some buf) (pos n) k
        ≡ (k', some out, pos (count_chars (slice k.image.mem a 32) 0 m)))
      × ((j : ℕ) → out j ≡ (if ltb j m then k.image.mem (a + j) else buf j))
      × ((current_fd fd k').position ≡ (current_fd fd k).position + m)
      × ((i : ℕ) → current_fd i k' ≡ (if i == fd then current_fd fd k' else current_fd i k))
unfolding directory_read dentry_at
directory_read_lem fd n buf k h hn hi hc hp =
    let i = (current_fd fd k).position / 32 in
    let a = entry k.image i in
    let m = min n 32 in
    let r = copy_name (slice k.image.mem a 32) 0 m 0 buf in
    (
      moved_by fd m k,
      r.1,
      if_false (ltb 7 fd) _ _ (ground arith)
          ∙ if_false (i == load32 k.image.mem k.image.boot_block) _ _ (ground arith)
          ∙ ap (λ z. list_entry fd z buf k (read_dentry_by_index k.image i (some local_dentry)))
              (let e : name_bytes (pos n) ≡ pos m = ground arith in e)
          ∙ ap (list_entry fd (pos m) buf k) (entry_read k.image i local_dentry hi hc)
          ∙ list_entry_lem fd m buf k (dentry_at k.image.mem a) (omega arith)
          ∙ ap (λ c. (moved_by fd m k, some r.1, pos c))
              (let e : r.0 ≡ count_chars (slice k.image.mem a 32) 0 m =
                  ground (arith, copy_name-count (slice k.image.mem a 32) 0 m 0 buf) in
                e),
      λ j. ground (
        arith,
        copy_name-buf (slice k.image.mem a 32) 0 m 0 buf j,
        get_or-slice k.image.mem a 32 j,
      ),
      ground arith,
      λ i. ground arith,
    )
