-- ===== src/Tests/Blocks.antt =====
-- Examples on blocks of memory.
use orca_os.Base.{◌≡◌, inr, arith, Memory, true}
use orca_os.Blocks.{memset, memset_word, memset_dword, memcpy, memmove}
use orca_os.Blocks.Fill.{memset_lem}
use orca_os.Blocks.Copy.{memcpy_lem, memmove_lem}

-- Each address holds the same as its number.
abbrev numbered : Memory
numbered a = a

memset_example :
    (memset 3 0x141 6 numbered 8 ≡ 0x41)
    × (memset_word 3 0x141 6 numbered 8 ≡ 1)
    × (memset_dword 3 0x141 6 numbered 8 ≡ 1)
memset_example = memset_lem 3 0x141 6 numbered 8

memcpy_example : memcpy 21 6 9 numbered 29 ≡ 14
memcpy_example = memcpy_lem 21 6 9 numbered 29 (inr (omega arith))

memmove_example : ((memmove 5 3 4 numbered).0 8 ≡ 6) × ((memmove 5 3 4 numbered).1 ≡ true)
memmove_example = memmove_lem 5 3 4 numbered 8
