-- ===== src/Blocks/Copy.antt =====
-- memcpy and memmove against a copy of all bytes at once.
use orca_os.Base.{
  ℕ, zero, suc, ◌+◌, ◌-◌, ◌*◌, ◌/◌, ◌%◌, ◌<◌, ◌≤◌, ◌≡◌, ◌⊎◌, inl, ap, ◌∙◌, fun_ext, arith, ltb, leb,
  ◌==◌, ◌&&◌, Bool, if◌then◌else◌, if_cases, Memory, update,
}
use orca_os.Blocks.{copy32, movsl, movsb, movsb_down, memcpy_aligned, memcpy_top, memcpy, memmove}

-- The `n` bytes from `src` on, as they were, at `dest`.
abbrev pub moved : ℕ → ℕ → ℕ → Memory → Memory
moved dest src n m a = if leb dest a && ltb a (dest + n) then m (src + (a - dest)) else m a

-- A copy upwards does not write what it still has to read.
abbrev pub Upwards : ℕ → ℕ → ℕ → Type 0
Upwards dest src n = (dest ≤ src) ⊎ (src + n ≤ dest)

-- A copy in two parts.
moved-moved :
    (k n dest src : ℕ) (m : Memory) (a : ℕ)
    → Upwards dest src (k + n)
    → moved (dest + k) (src + k) n (moved dest src k m) a ≡ moved dest src (k + n) m a
moved-moved k n dest src m a h = ground arith

movsb_lem :
    (n dest src : ℕ) (m : Memory) (a : ℕ)
    → Upwards dest src n
    → movsb n dest src m a ≡ moved dest src n m a
unfolding movsb
movsb_lem zero dest src m a h = ground arith
movsb_lem (suc n) dest src m a h =
    movsb_lem n (dest + 1) (src + 1) (update m dest (m src)) a (ground arith) ∙ ground arith

offset : (m : Memory) (dest src a k : ℕ) → dest + k ≡ a → m (src + k) ≡ m (src + (a - dest))
offset m dest src a k e = ap m (let f : src + k ≡ src + (a - dest) = omega arith in f)

copy32_lem : (dest src : ℕ) (m : Memory) (a : ℕ) → copy32 dest src m a ≡ moved dest src 4 m a
copy32_lem dest src m a = ground (
  arith,
  offset m dest src a 0,
  offset m dest src a 1,
  offset m dest src a 2,
  offset m dest src a 3,
)

movsl_lem :
    (n dest src : ℕ) (m : Memory) (a : ℕ)
    → Upwards dest src (4 * n)
    → movsl n dest src m a ≡ moved dest src (4 * n) m a
unfolding movsl
movsl_lem zero dest src m a h = ground arith
movsl_lem (suc n) dest src m a h =
    movsl_lem n (dest + 4) (src + 4) (copy32 dest src m) a (ground arith)
    ∙ (ap (λ q. moved (dest + 4) (src + 4) (4 * n) q a) (fun_ext (copy32_lem dest src m))
        ∙ (moved-moved 4 (4 * n) dest src m a (ground arith)
            ∙ ap (λ k. moved dest src k m a) (let e : 4 + 4 * n ≡ 4 * suc n = omega arith in e)))

movsb_down_lem :
    (n dest src : ℕ) (m : Memory) (a : ℕ)
    → src < dest
    → movsb_down n (dest + n - 1) (src + n - 1) m a ≡ moved dest src n m a
unfolding movsb_down
movsb_down_lem zero dest src m a h = ground arith
movsb_down_lem (suc n) dest src m a h =
    let here : dest + suc n - 1 ≡ dest + n = omega arith in
    let there : src + suc n - 1 ≡ src + n = omega arith in
    let d : dest + suc n - 1 - 1 ≡ dest + n - 1 = omega arith in
    let t : src + suc n - 1 - 1 ≡ src + n - 1 = omega arith in
    rw (d, t, here, there)
      (movsb_down_lem n dest src (update m (dest + n) (m (src + n))) a h ∙ ground arith)

aligned_lem :
    (n dest src : ℕ) (m : Memory) (a : ℕ)
    → Upwards dest src n
    → memcpy_aligned n dest src m a ≡ moved dest src n m a
unfolding memcpy_aligned
aligned_lem n dest src m a h =
    let k = 4 * (n / 4) in
    let words = fun_ext (λ b. movsl_lem (n / 4) dest src m b (ground arith)) in
    let whole : k + n % 4 ≡ n = omega arith in
    movsb_lem (n % 4) (dest + k) (src + k) (movsl (n / 4) dest src m) a (ground arith)
    ∙ (ap (λ q. moved (dest + k) (src + k) (n % 4) q a) words
        ∙ (moved-moved k (n % 4) dest src m a (ground arith)
            ∙ ap (λ j. moved dest src j m a) whole))

top_lem :
    (n dest src : ℕ) (m : Memory) (a : ℕ)
    → Upwards dest src n
    → memcpy_top n dest src m a ≡ moved dest src n m a
unfolding memcpy_top
top_lem zero dest src m a h = ground arith
top_lem (suc n) dest src m a h =
    if_cases (λ (r : Memory). r a ≡ moved dest src (suc n) m a) (dest % 4 == 0)
      (λ e. aligned_lem (suc n) dest src m a h)
      (λ e. top_lem n (dest + 1) (src + 1) (update m dest (m src)) a (ground arith) ∙ ground arith)

-- `memcpy` copies byte for byte wherever the destination lies at or below the source, or the two
-- areas do not overlap: whatever the alignment, the `n` bytes from `dest` on become those that were
-- at `src`, and no other byte changes.
pub memcpy_lem :
    (dest src n : ℕ) (m : Memory) (a : ℕ)
    → (dest ≤ src) ⊎ (src + n ≤ dest)
    → memcpy dest src n m a ≡ moved dest src n m a
unfolding memcpy
memcpy_lem dest src n m a h = top_lem n dest src m a h

-- `memmove` copies byte for byte however the two areas overlap: the `n` bytes from `dest` on become
-- those that were at `src`, and no other byte changes. It leaves the direction flag set exactly
-- where the destination is above the source.
pub memmove_lem :
    (dest src n : ℕ) (m : Memory) (a : ℕ)
    → let (m', down) = memmove dest src n m in (m' a ≡ moved dest src n m a) × (down ≡ ltb src dest)
unfolding memmove
memmove_lem dest src n m a =
    if_cases (λ (r : Memory × Bool). (r.0 a ≡ moved dest src n m a) × (r.1 ≡ ltb src dest))
      (leb dest src) (λ e. (movsb_lem n dest src m a (inl (ground arith)), ground arith))
      (λ e. (movsb_down_lem n dest src m a (ground arith), ground arith))
