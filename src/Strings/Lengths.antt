-- ===== src/Strings/Lengths.antt =====
-- How long the strings of `itoa` are.
use orca_os.Base.{
  ℕ, zero, suc, ◌*◌, ◌/◌, ◌^◌, ◌≤◌, ◌<◌, ◌≡◌, refl, arith, ◌==◌, if_cases, List, [], ◌∷◌, ◌++◌,
  length,
}
use orca_os.Strings.{strlen, low_digits, itoa}
use orca_os.Strings.Numbers.{backwards, length-backwards, reversed, digits-strlen}

-- No byte of the string is zero.
abbrev pub IsText : List ℕ → Type 0
IsText s = strlen s ≡ length s

IsText-cons : (c : ℕ) (s : List ℕ) → IsText (c ∷ s) → (0 < c) × IsText s
unfolding strlen
IsText-cons c s h = (ground arith, ground arith)

IsText-append : (s : List ℕ) (c : ℕ) → IsText s → 0 < c → IsText (s ++ c ∷ [])
unfolding strlen
IsText-append [] c h p = ground arith
IsText-append (d ∷ s) c h p =
    let (q, t) = IsText-cons d s h in ground (arith, IsText-append s c t p)

IsText-backwards : (s : List ℕ) → IsText s → IsText (backwards s)
unfolding backwards strlen
IsText-backwards [] h = refl
IsText-backwards (c ∷ s) h =
    let (q, t) = IsText-cons c s h in IsText-append (backwards s) c (IsText-backwards s t) q

-- Powers of 16.
abbrev sixteens : ℕ → ℕ
sixteens zero = 1
sixteens (suc n) = sixteens n * 16

low_digits-length : (fuel v n : ℕ) → v < sixteens n → length (low_digits fuel v 16) ≤ n
unfolding low_digits
low_digits-length zero v n h = omega arith
low_digits-length (suc fuel) v zero h = ground arith
low_digits-length (suc fuel) v (suc n) h =
    ground (arith, low_digits-length fuel (v / 16) n (omega (arith, h)))

pub itoa-IsText : (radix v : ℕ) → 2 ≤ radix → radix ≤ 36 → IsText (itoa v radix)
unfolding itoa strlen
itoa-IsText radix v lo hi =
    let digits = low_digits 32 v radix in
    let t = digits-strlen radix lo hi 32 v in
    if_cases IsText (v == 0) (λ e. refl) (λ e. rw (reversed digits t) (IsText-backwards digits t))

-- A 32-bit number has at most eight hexadecimal digits.
pub length-itoa : (v : ℕ) → v < 2 ^ 32 → length (itoa v 16) ≤ 8
unfolding itoa
length-itoa v h =
    let digits = low_digits 32 v 16 in
    let t = digits-strlen 16 (omega arith) (omega arith) 32 v in
    if_cases (λ s. length s ≤ 8) (v == 0) {x = 48 ∷ []} (λ e. omega arith)
      (λ e.
        rw (reversed digits t, length-backwards digits)
          (low_digits-length 32 v 8 (omega (arith, h))))
