-- ===== src/Strings/Copy.antt =====
-- What the functions that copy and reverse a string leave in memory.
use orca_os.Base.{
  ℕ, zero, suc, ◌+◌, ◌-◌, ◌≤◌, ◌<◌, ◌≡◌, refl, ap, arith, ◌∙◌, if_true, if_false, Bool-cases, inl,
  inr, ltb, leb, ◌==◌, ◌&&◌, if◌then◌else◌, List, [], ◌∷◌, Memory, bytes_of, get_or, update,
}
use orca_os.Strings.{strlen, copy_from, strcpy, swap_ends, strrev}

get_or-cons :
    (c : ℕ) (s : List ℕ) (n : ℕ) → get_or (c ∷ s) n 0 ≡ (if n == 0 then c else get_or s (n - 1) 0)
get_or-cons c s zero = refl
get_or-cons c s (suc n) =
    ground (arith, ap (λ n. get_or s n 0) (let e : n ≡ suc n - 1 = omega arith in e))

copy_from_lem :
    (s : List ℕ) (i : ℕ) (dest : Memory)
    → let r = copy_from s i dest in
      (r.0 ≡ i + strlen s)
      × ((j : ℕ) → r.1 j ≡ (if leb i j && ltb j (i + strlen s) then get_or s (j - i) 0 else dest j))
unfolding copy_from strlen
copy_from_lem [] i dest = (omega arith, λ j. ground arith)
copy_from_lem (c ∷ s) i dest =
    let ih = copy_from_lem s (i + 1) (update dest i c) in
    (
      ground (arith, ih.0),
      λ j. ground (
        arith,
        ih.1 j,
        get_or-cons c s (j - i),
        ap (λ n. get_or s n 0) (let e : j - i - 1 ≡ j - (i + 1) = omega arith in e),
      ),
    )

-- `strcpy` copies the string with one zero behind it, and nothing else changes.
strcpy_lem :
    (dest : Memory) (s : List ℕ) (j : ℕ)
    → strcpy dest s j
      ≡ (if ltb j (strlen s) then get_or s j 0 else if j == strlen s then 0 else dest j)
unfolding strcpy
strcpy_lem dest s j =
    let w = copy_from_lem s 0 dest in
    ground (arith, w.0, w.1 j, ap (λ n. get_or s n 0) (let e : j - 0 ≡ j = omega arith in e))

one_byte :
    (beg end : ℕ) (s : Memory) (j : ℕ)
    → end ≤ beg
    → s j ≡ (if leb beg j && leb j end then s (beg + end - j) else s j)
one_byte beg end s j h = ground arith

-- The bytes between the two that have been exchanged are still to be reversed.
exchanged :
    (beg end : ℕ) (s : Memory) (j k l : ℕ)
    → beg < end
    → k ≡ beg + 1 + (end - 1) - j
    → l ≡ beg + end - j
    → (if leb (beg + 1) j && leb j (end - 1)
        then update (update s end (s beg)) beg (s end) k
        else update (update s end (s beg)) beg (s end) j)
      ≡ (if leb beg j && leb j end then s l else s j)
exchanged beg end s j k l h hk hl = ground arith

-- The bytes from `beg` to `end` in reverse order.
swap_ends_lem :
    (fuel beg end : ℕ) (s : Memory) (j : ℕ)
    → end ≤ beg + fuel
    → swap_ends fuel beg end s j ≡ (if leb beg j && leb j end then s (beg + end - j) else s j)
unfolding swap_ends
swap_ends_lem zero beg end s j h = one_byte beg end s j (omega arith)
swap_ends_lem (suc fuel) beg end s j h =
    let next = update (update s end (s beg)) beg (s end) in
    let rest = swap_ends fuel (beg + 1) (end - 1) next in
    elim (Bool-cases (ltb beg end)) [
      | inl e ↦
          ap (λ (m : Memory). m j) (if_true (ltb beg end) rest s e)
          ∙ swap_ends_lem fuel (beg + 1) (end - 1) next j (omega arith)
          ∙ exchanged beg end s j (beg + 1 + (end - 1) - j) (beg + end - j) (ground arith) refl refl
      | inr e ↦
          ap (λ (m : Memory). m j) (if_false (ltb beg end) rest s e)
          ∙ one_byte beg end s j (ground arith)
    ]

-- `strrev` reverses the bytes before the first zero, and leaves that zero and what is behind it.
pub strrev_lem :
    (s : List ℕ) (j : ℕ)
    → strrev s j ≡ (if ltb j (strlen s) then get_or s (strlen s - 1 - j) 0 else get_or s j 0)
unfolding strrev
strrev_lem s j = ground (arith, swap_ends_lem (strlen s) 0 (strlen s - 1) (bytes_of s) j)
