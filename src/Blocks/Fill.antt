-- ===== src/Blocks/Fill.antt =====
-- What the memset functions leave in each byte.
use orca_os.Base.{
  ℕ, zero, suc, ◌+◌, ◌-◌, ◌*◌, ◌/◌, ◌%◌, ◌^◌, ◌<◌, ◌≡◌, ap, ◌∙◌, arith, ltb, leb, ◌==◌, ◌&&◌,
  if◌then◌else◌, if_cases, Memory, update, u8,
}
use orca_os.Blocks.{
  store16, store32, stosw, stosl, memset_bottom, memset_aligned, memset_top, spread, memset,
  memset_word, memset_dword,
}

-- `n` bytes from `s` on are those of `f`, counted from `s`.
abbrev pub filled : ℕ → ℕ → (ℕ → ℕ) → Memory → Memory
filled s n f m a = if leb s a && ltb a (s + n) then f (a - s) else m a

-- Byte `j` of a pattern of two or of four bytes.
abbrev pub byte16 : ℕ → ℕ → ℕ
byte16 w j = if j % 2 == 0 then u8 w else u8 (w / 2 ^ 8)

abbrev pub byte32 : ℕ → ℕ → ℕ
byte32 w j = byte16 (if ltb (j % 4) 2 then w else w / 2 ^ 16) j

stosw_lem :
    (n edi w : ℕ) (m : Memory) (a : ℕ) → stosw n edi w m a ≡ filled edi (2 * n) (byte16 w) m a
unfolding stosw
stosw_lem zero edi w m a = ground arith
stosw_lem (suc n) edi w m a = ground (arith, stosw_lem n (edi + 2) w (store16 edi w m) a)

stosl_lem :
    (n edi w : ℕ) (m : Memory) (a : ℕ) → stosl n edi w m a ≡ filled edi (4 * n) (byte32 w) m a
unfolding stosl
stosl_lem zero edi w m a = ground arith
stosl_lem (suc n) edi w m a = ground (arith, stosl_lem n (edi + 4) w (store32 edi w m) a)

bottom_lem :
    (n edi c : ℕ) (m : Memory) (a : ℕ) → memset_bottom n edi c m a ≡ filled edi n (λ j. c) m a
unfolding memset_bottom
bottom_lem zero edi c m a = ground arith
bottom_lem (suc n) edi c m a = ground (arith, bottom_lem n (edi + 1) c (update m edi c) a)

spread_byte : (c j : ℕ) → c < 256 → byte32 (spread c) j ≡ c
spread_byte c j h = ground arith

low_spread : (c : ℕ) → c < 256 → u8 (spread c) ≡ c
low_spread c h = omega arith

-- A word whose bytes are all the same.
module _ (w c : ℕ) (low : u8 w ≡ c) (bytes : (j : ℕ) → byte32 w j ≡ c) where
  words_lem : (n edi : ℕ) (m : Memory) (a : ℕ) → stosl n edi w m a ≡ filled edi (4 * n) (λ j. c) m a
  words_lem n edi m a =
      stosl_lem n edi w m a
      ∙ ap (λ x. if leb edi a && ltb a (edi + 4 * n) then x else m a) (bytes (a - edi))

  aligned_lem :
      (n edi : ℕ) (m : Memory) (a : ℕ) → memset_aligned n edi w m a ≡ filled edi n (λ j. c) m a
  unfolding memset_aligned
  aligned_lem n edi m a =
      let m1 = stosl (n / 4) edi w m in
      let e = bottom_lem (n % 4) (edi + 4 * (n / 4)) (u8 w) m1 a in
      let f : m1 a ≡ filled edi (4 * (n / 4)) (λ j. c) m a = words_lem (n / 4) edi m a in
      e ∙ (ground (arith, f, low))

  top_lem : (n edi : ℕ) (m : Memory) (a : ℕ) → memset_top n edi w m a ≡ filled edi n (λ j. c) m a
  unfolding memset_top
  top_lem zero edi m a = ground arith
  top_lem (suc n) edi m a =
      if_cases (λ (r : Memory). r a ≡ filled edi (suc n) (λ j. c) m a) (edi % 4 == 0)
        (λ e. aligned_lem (suc n) edi m a)
        (λ e. top_lem n (edi + 1) (update m edi (u8 w)) a ∙ ground (arith, low))

-- The three functions, byte by byte: `memset` gives `n` bytes the low byte of `c`, `memset_word`
-- gives `n` words of two bytes the low 16 bits, and `memset_dword` gives `n` words of four bytes
-- all of `c`, each word with its low byte first; no other byte changes.
pub memset_lem :
    (s c n : ℕ) (m : Memory) (a : ℕ)
    → (memset s c n m a ≡ filled s n (λ j. u8 c) m a)
      × (memset_word s c n m a ≡ filled s (2 * n) (byte16 c) m a)
      × (memset_dword s c n m a ≡ filled s (4 * n) (byte32 c) m a)
unfolding memset memset_word memset_dword
memset_lem s c n m a = (
  top_lem (spread (u8 c)) (u8 c) (low_spread (u8 c) (omega arith))
      (λ j. spread_byte (u8 c) j (omega arith)) n s m a,
  stosw_lem n s c m a,
  stosl_lem n s c m a,
)
