-- ===== src/Tests/Disks.antt =====
-- Examples on strings, the file system and the calls on files.
use orca_os.Base.{
  slice, ℕ, zero, suc, ◌+◌, ◌≡◌, ◌↔◌, inr, refl, arith, ltb, ◌==◌, if◌then◌else◌, pos, [], ◌∷◌,
  some, none, Memory, bytes_of, load32,
}
use orca_os.Strings.{strlen, strncmp, strncmp_from}
use orca_os.Strings.Compare.{Agree, IsBytes, strncmp-zero_iff}
use orca_os.Files.{Dentry, dentry_at, find_entry, read_data, read_dentry_by_name}
use orca_os.Files.Names.{Looked, read_dentry_by_name_lem}
use orca_os.Files.Read.{file_byte, read_data_lem}
use orca_os.Process.{Kernel, current_fd}
use orca_os.Process.Drivers.{local_dentry, directory_read}
use orca_os.Process.Calls.Directory.{count_chars, directory_read_lem}
use orca_os.Process.Calls.{ret, open_as, sys_read, sys_open, sys_close}
use orca_os.Process.Calls.Files.{sys_read_file}
use orca_os.Process.Calls.Close.{
  Opens, IsFree, sys_open_lem, sys_close-open_as, sys_close-open_as_rtc,
}
use orca_os.Tests.{blank, disk, some_image, some_kernel, some_events}

disk-IsBytes : IsBytes disk
disk-IsBytes a = ground arith

name_a-IsBytes : IsBytes (bytes_of (97 ∷ []))
name_a-IsBytes zero = omega arith
name_a-IsBytes (suc a) = omega arith

strncmp_example : (strncmp disk blank 4 ≡ pos 0) ↔ Agree disk blank 0 4
strncmp_example = strncmp-zero_iff disk blank 4 disk-IsBytes (λ a. omega arith)

read_data_example :
    (out : Memory) × (read_data some_image 0 1 (some blank) 5 ≡ (pos 2, some out))
    × ((j : ℕ) → out j ≡ (if ltb j 2 then file_byte some_image 4096 (1 + j) else 0))
unfolding load32
read_data_example = read_data_lem some_image 0 1 5 blank (omega arith) (omega arith)

read_dentry_by_name_example : Looked some_image (97 ∷ []) name_a-IsBytes disk-IsBytes local_dentry
unfolding load32 strlen
read_dentry_by_name_example =
    read_dentry_by_name_lem some_image (97 ∷ []) name_a-IsBytes disk-IsBytes local_dentry
      (omega arith) (omega arith)

sys_read_example :
    (k' : Kernel) × (out : Memory) × (sys_read some_events (pos 2) (some blank) (pos 5) some_kernel
      ≡ ret k' (some out) (pos 2))
    × ((j : ℕ) → out j ≡ (if ltb j 2 then file_byte some_image 4096 (1 + j) else 0))
    × ((current_fd 2 k').position ≡ 6)
    × ((i : ℕ) → current_fd i k' ≡ (if i == 2 then current_fd 2 k' else current_fd i some_kernel))
unfolding load32
sys_read_example =
    sys_read_file some_events 2 5 blank some_kernel (omega arith) (λ e. absurd (omega arith)) refl
      (omega arith) (omega arith) (omega arith) (omega arith)

directory_read_example :
    (k' : Kernel) × (out : Memory) × (directory_read (pos 3) (some blank) (pos 40) some_kernel
      ≡ (k', some out, pos (count_chars (slice disk 64 32) 0 32)))
    × ((j : ℕ) → out j ≡ (if ltb j 32 then disk (64 + j) else 0))
    × ((current_fd 3 k').position ≡ 32)
    × ((i : ℕ) → current_fd i k' ≡ (if i == 3 then current_fd 3 k' else current_fd i some_kernel))
unfolding load32
directory_read_example =
    directory_read_lem 3 40 blank some_kernel (omega arith) (omega arith) (omega arith)
      (omega arith) (omega arith)

sys_open_example :
    Opens some_events
      (dentry_at disk 64)
      2
      6
      some_kernel
      (sys_open some_events (some (97 ∷ [])) some_kernel)
unfolding load32 strlen strncmp read_dentry_by_name find_entry strncmp_from
sys_open_example = sys_open_lem some_events (97 ∷ []) some_kernel (dentry_at disk 64) refl

abbrev some_file : Dentry
some_file = record { file_name = 97 ∷ []; file_type = 2; inode_num = 0; reserved = [] }

sys_close_example :
    (k' : Kernel) × (sys_close some_events (pos 3) (open_as some_events some_file 3 some_kernel)
      ≡ ret k' none (pos 0))
    × IsFree k' 3
    × ((i : ℕ) → current_fd i k' ≡ (if i == 3 then current_fd 3 k' else current_fd i some_kernel))
sys_close_example =
    sys_close-open_as some_events some_file 3 some_kernel (omega arith) (omega arith) (inr refl)

sys_close_rtc_example :
    let e = record some_file { file_type = 0 } in
    (k' : Kernel) × (sys_close some_events (pos 3) (open_as some_events e 3 some_kernel)
      ≡ ret k' none (pos 0))
    × ((current_fd 3 k').flags ≡ 1)
sys_close_rtc_example =
    sys_close-open_as_rtc some_events (record some_file { file_type = 0 }) 3 some_kernel
      (omega arith) (omega arith) refl
