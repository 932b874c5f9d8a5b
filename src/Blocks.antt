-- ===== src/Blocks.antt =====
-- Blocks of memory: memset, memset_word, memset_dword, memcpy and memmove of
-- student-distrib/lib.c, which are written in assembly. The registers are arguments; a jump is a
-- call, and a repeated instruction a loop over `ecx`.
pub mod Fill
pub mod Copy
use orca_os.Base.{
  ℕ, zero, suc, ◌+◌, ◌-◌, ◌*◌, ◌/◌, ◌%◌, ◌^◌, Bool, true, false, leb, ◌==◌, if◌then◌else◌, Memory,
  update, u8,
}

-- The bytes of a word of two or four bytes, at an address.
abbrev pub store16 : ℕ → ℕ → Memory → Memory
store16 a w m = update (update m a (u8 w)) (a + 1) (u8 (w / 2 ^ 8))

abbrev pub store32 : ℕ → ℕ → Memory → Memory
store32 a w m = store16 (a + 2) (w / 2 ^ 16) (store16 a w m)

-- `rep stosw`, and `rep stosl`.
unfoldable pub stosw : ℕ → ℕ → ℕ → Memory → Memory
stosw zero edi eax m = m
stosw (suc ecx) edi eax m = stosw ecx (edi + 2) eax (store16 edi eax m)

unfoldable pub stosl : ℕ → ℕ → ℕ → Memory → Memory
stosl zero edi eax m = m
stosl (suc ecx) edi eax m = stosl ecx (edi + 4) eax (store32 edi eax m)

-- From `.memset_bottom` on; the register counted down is `edx`.
unfoldable pub memset_bottom : ℕ → ℕ → ℕ → Memory → Memory
memset_bottom zero edi al m = m
memset_bottom (suc edx) edi al m = memset_bottom edx (edi + 1) al (update m edi al)

unfoldable pub memset_aligned : ℕ → ℕ → ℕ → Memory → Memory
memset_aligned ecx edi eax m =
    memset_bottom (ecx % 4) (edi + 4 * (ecx / 4)) (u8 eax) (stosl (ecx / 4) edi eax m)

unfoldable pub memset_top : ℕ → ℕ → ℕ → Memory → Memory
memset_top zero edi eax m = m
memset_top (suc ecx) edi eax m =
    let rest = memset_top ecx (edi + 1) eax (update m edi (u8 eax)) in
    if edi % 4 == 0 then memset_aligned (suc ecx) edi eax m else rest

-- `c << 24 | c << 16 | c << 8 | c`, for a byte `c`.
abbrev pub spread : ℕ → ℕ
spread c = c * 2 ^ 24 + c * 2 ^ 16 + c * 2 ^ 8 + c

-- The low byte of `c` is what is stored.
unfoldable pub memset : ℕ → ℕ → ℕ → Memory → Memory
memset s c n m = memset_top n s (spread (u8 c)) m

unfoldable pub memset_word : ℕ → ℕ → ℕ → Memory → Memory
memset_word s c n m = stosw n s c m

unfoldable pub memset_dword : ℕ → ℕ → ℕ → Memory → Memory
memset_dword s c n m = stosl n s c m

-- Four bytes are read before any is written.
abbrev pub copy32 : ℕ → ℕ → Memory → Memory
copy32 edi esi m =
    update (update (update (update m edi (m esi)) (edi + 1) (m (esi + 1))) (edi + 2) (m (esi + 2)))
      (edi + 3) (m (esi + 3))

-- `rep movsl`
unfoldable pub movsl : ℕ → ℕ → ℕ → Memory → Memory
movsl zero edi esi m = m
movsl (suc ecx) edi esi m = movsl ecx (edi + 4) (esi + 4) (copy32 edi esi m)

-- `rep movsb`, upwards and downwards.
unfoldable pub movsb : ℕ → ℕ → ℕ → Memory → Memory
movsb zero edi esi m = m
movsb (suc ecx) edi esi m = movsb ecx (edi + 1) (esi + 1) (update m edi (m esi))

unfoldable pub movsb_down : ℕ → ℕ → ℕ → Memory → Memory
movsb_down zero edi esi m = m
movsb_down (suc ecx) edi esi m = movsb_down ecx (edi - 1) (esi - 1) (update m edi (m esi))

-- The loop from `.memcpy_bottom` on does what `rep movsb` does.
unfoldable pub memcpy_aligned : ℕ → ℕ → ℕ → Memory → Memory
memcpy_aligned ecx edi esi m =
    movsb (ecx % 4) (edi + 4 * (ecx / 4)) (esi + 4 * (ecx / 4)) (movsl (ecx / 4) edi esi m)

unfoldable pub memcpy_top : ℕ → ℕ → ℕ → Memory → Memory
memcpy_top zero edi esi m = m
memcpy_top (suc ecx) edi esi m =
    let rest = memcpy_top ecx (edi + 1) (esi + 1) (update m edi (m esi)) in
    if edi % 4 == 0 then memcpy_aligned (suc ecx) edi esi m else rest

unfoldable pub memcpy : ℕ → ℕ → ℕ → Memory → Memory
memcpy dest src n m = memcpy_top n dest src m

-- The memory, and the direction flag, which is not cleared again.
unfoldable pub memmove : ℕ → ℕ → ℕ → Memory → Memory × Bool
memmove dest src n m =
    if leb dest src
    then (movsb n dest src m, false)
    else (movsb_down n (dest + n - 1) (src + n - 1) m, true)
