-- ===== src/Strings.antt =====
-- The string functions of student-distrib/lib.c. A string is the bytes from
-- its pointer on, as a function of the index; a list stands for its bytes and zeros behind them.
pub mod Compare
pub mod Copy
pub mod Numbers
pub mod Lengths
use orca_os.Base.{
  codes, get_or, slice, ◌/◌, ◌%◌, ℕ, zero, suc, ◌+◌, ◌-◌, ltb, for_range, bytes_of, ℤ, pos, of_i8,
  ◌-ℤ◌, not, ◌||◌, ◌==◌, if◌then◌else◌, List, [], ◌∷◌, Memory, update, Bool,
}

-- Up to the first zero; the list ends in one.
unfoldable pub strlen : List ℕ → ℕ
strlen [] = 0
strlen (c ∷ s) = if c == 0 then 0 else suc (strlen s)

-- The loop of `strncmp` at index `i`, with `left` rounds to go. The difference is one of `int8_t`.
unfoldable pub strncmp_from : Memory → Memory → ℕ → ℕ → ℤ
strncmp_from s1 s2 i zero = pos 0
strncmp_from s1 s2 i (suc left) =
    let rest = strncmp_from s1 s2 (i + 1) left in
    if not (s1 i == s2 i) || (s1 i == 0) then of_i8 (s1 i) -ℤ of_i8 (s2 i) else rest

unfoldable pub strncmp : Memory → Memory → ℕ → ℤ
strncmp s1 s2 n = strncmp_from s1 s2 0 n

-- The first loop of `strcpy`, from index `i` on: where it ends, and the destination.
unfoldable pub copy_from : List ℕ → ℕ → Memory → ℕ × Memory
copy_from [] i dest = (i, dest)
copy_from (c ∷ s) i dest =
    let rest = copy_from s (i + 1) (update dest i c) in if c == 0 then (i, dest) else rest

unfoldable pub strcpy : Memory → List ℕ → Memory
strcpy dest src = let (i, out) = copy_from src 0 dest in update out i 0

-- The first loop of `strncpy`, with at most `left` rounds to go.
unfoldable pub copy_bounded : Memory → ℕ → ℕ → Memory → ℕ × Memory
copy_bounded src i zero dest = (i, dest)
copy_bounded src i (suc left) dest =
    let rest = copy_bounded src (i + 1) left (update dest i (src i)) in
    if src i == 0 then (i, dest) else rest

unfoldable pub strncpy : Memory → List ℕ → ℕ → Memory
strncpy dest src n =
    let (i, out) = copy_bounded (bytes_of src) 0 n dest in
    for_range (n - i) i (λ j m. update m j 0) out

-- The loop of `strrev`; it ends after at most half as many rounds as there are characters.
unfoldable pub swap_ends : ℕ → ℕ → ℕ → Memory → Memory
swap_ends zero beg end s = s
swap_ends (suc fuel) beg end s =
    let rest = swap_ends fuel (beg + 1) (end - 1) (update (update s end (s beg)) beg (s end)) in
    if ltb beg end then rest else s

-- With the empty string `end` is -1 in the source, and the loop makes no round either.
unfoldable pub strrev : List ℕ → Memory
strrev s = swap_ends (strlen s) 0 (strlen s - 1) (bytes_of s)

-- `lookup`
abbrev pub digit_chars : List ℕ
digit_chars = codes "0123456789ABCDEFGHIJKLMNOPQRSTUVWXYZ"

-- The loop of `itoa`: the digits, the lowest first. A `uint32_t` has at most 32 of them, which is
-- the fuel.
unfoldable pub low_digits : ℕ → ℕ → ℕ → List ℕ
low_digits zero newval radix = []
low_digits (suc fuel) newval radix =
    let rest = low_digits fuel (newval / radix) radix in
    if newval == 0 then [] else get_or digit_chars (newval % radix) 0 ∷ rest

-- The string that `itoa` leaves in the buffer, which is long enough wherever it is called.
unfoldable pub itoa : ℕ → ℕ → List ℕ
itoa value radix =
    let digits = low_digits 32 value radix in
    if value == 0 then 48 ∷ [] else slice (strrev digits) 0 (strlen digits)
