-- ===== src/Strings/Numbers.antt =====
-- The digits that `itoa` writes, read back.
use native.Mathlib.Nat.{div-lt_iff_lt-mul, mul-le-mul_left, div-add-mod', mod-lt}
use orca_os.Base.{
  length-append, inl, inr, Bool-cases, if_cases, ℕ, zero, suc, ◌+◌, ◌-◌, ◌*◌, ◌/◌, ◌%◌, ◌^◌, ◌≤◌,
  ◌<◌, ◌≡◌, refl, sym, ap, ◌∙◌, arith, ltb, ◌==◌, ◌&&◌, not, Bool, true, if◌then◌else◌, List, [],
  ◌∷◌, ◌++◌, length, get_or, get_or-append_left, slice, all_below, all_below_sound, Memory,
}
use orca_os.Strings.{strlen, strrev, digit_chars, low_digits, itoa}
use orca_os.Strings.Copy.{strrev_lem}

-- What a character of `lookup` stands for.
abbrev pub digit_value : ℕ → ℕ
digit_value c = if ltb c 65 then c - 48 else c - 55

-- The number that a string of digits stands for, after `n` has been read.
unfoldable pub value_from : ℕ → ℕ → List ℕ → ℕ
value_from radix n [] = n
value_from radix n (c ∷ s) = value_from radix (n * radix + digit_value c) s

unfoldable pub backwards : List ℕ → List ℕ
backwards [] = []
backwards (c ∷ s) = backwards s ++ c ∷ []

value_from-append :
    (radix n c : ℕ) (s : List ℕ)
    → value_from radix n (s ++ c ∷ []) ≡ value_from radix n s * radix + digit_value c
unfolding value_from
value_from-append radix n c [] = refl
value_from-append radix n c (d ∷ s) = value_from-append radix (n * radix + digit_value d) c s

digit_entry : ℕ → Bool
digit_entry d = let c = get_or digit_chars d 0 in (digit_value c == d) && not (c == 0)

digit_table : all_below 36 digit_entry ≡ true
unfolding all_below digit_entry
digit_table = refl

pub digit_lem :
    (d : ℕ) → d < 36 → (digit_value (get_or digit_chars d 0) ≡ d) × (0 < get_or digit_chars d 0)
unfolding digit_entry
digit_lem d h =
    let e = all_below_sound 36 digit_entry d digit_table h in (ground arith, ground arith)

abbrev double : ℕ → ℕ
double zero = 1
double (suc n) = double n * 2

pub length-backwards : (s : List ℕ) → length (backwards s) ≡ length s
unfolding backwards
length-backwards [] = refl
length-backwards (c ∷ s) = omega (arith, length-append (backwards s) (c ∷ []), length-backwards s)

get_or-last : (xs : List ℕ) (c j : ℕ) → j ≡ length xs → get_or (xs ++ c ∷ []) j 0 ≡ c
get_or-last [] c zero h = refl
get_or-last [] c (suc j) h = absurd (omega arith)
get_or-last (x ∷ xs) c zero h = absurd (omega arith)
get_or-last (x ∷ xs) c (suc j) h = get_or-last xs c j (omega arith)

get_or-backwards :
    (s : List ℕ) (j : ℕ) → j < length s → get_or (backwards s) j 0 ≡ get_or s (length s - 1 - j) 0
unfolding backwards
get_or-backwards [] j h = absurd (omega arith)
get_or-backwards (c ∷ s) j h = elim (Bool-cases (ltb j (length s))) [
  | inl e ↦
      get_or-append_left (backwards s) (c ∷ []) j 0 (ground (arith, length-backwards s))
      ∙ get_or-backwards s j (ground arith)
      ∙ ap (λ i. get_or (c ∷ s) i 0)
          (let i : suc (length s - 1 - j) ≡ length (c ∷ s) - 1 - j = ground arith in i)
  | inr e ↦
      get_or-last (backwards s) c j (ground (arith, length-backwards s))
      ∙ ap (λ i. get_or (c ∷ s) i 0) (let i : 0 ≡ length (c ∷ s) - 1 - j = ground arith in i)
]

pub slice_list :
    (xs : List ℕ) (m : Memory) (a n : ℕ)
    → length xs ≡ n
    → ((j : ℕ) → j < n → m (a + j) ≡ get_or xs j 0)
    → slice m a n ≡ xs
unfolding slice
slice_list [] m a zero e h = refl
slice_list [] m a (suc n) e h = absurd (omega arith)
slice_list (x ∷ xs) m a zero e h = absurd (omega arith)
slice_list (x ∷ xs) m a (suc n) e h =
    let first : m a ≡ x = ap m (let i : a ≡ a + 0 = omega arith in i) ∙ h 0 (omega arith) in
    let rest =
      slice_list xs m (a + 1) n (omega arith) (λ j l.
        ap m (let i : a + 1 + j ≡ a + suc j = omega arith in i) ∙ h (suc j) (omega arith)) in
    rw (first, rest)

pub reversed : (s : List ℕ) → strlen s ≡ length s → slice (strrev s) 0 (strlen s) ≡ backwards s
reversed s e = slice_list (backwards s) (strrev s) 0 (strlen s) (length-backwards s ∙ sym e) (λ j h.
    ap (strrev s) (let i : 0 + j ≡ j = omega arith in i)
    ∙ strrev_lem s j
    ∙ (ground (arith, get_or-backwards s j)))

module _ (radix : ℕ) (lo : 2 ≤ radix) (hi : radix ≤ 36) where
  quotient_bound : (fuel v : ℕ) → v < double (suc fuel) → v / radix < double fuel
  quotient_bound fuel v h =
      (div-lt_iff_lt-mul {k = radix} {x = v} {y = double fuel} (omega arith)).1
        (omega (arith, h, mul-le-mul_left (double fuel) lo))

  digits-value :
      (fuel v : ℕ) → v < double fuel → value_from radix 0 (backwards (low_digits fuel v radix)) ≡ v
  unfolding low_digits value_from backwards
  digits-value zero v h = omega (arith, h)
  digits-value (suc fuel) v h =
      let c = get_or digit_chars (v % radix) 0 in
      let rest = low_digits fuel (v / radix) radix in
      let digit = digit_lem (v % radix) (omega (arith, mod-lt v {m = radix} (omega arith))) in
      let ih = digits-value fuel (v / radix) (quotient_bound fuel v h) in
      if_cases (λ ds. value_from radix 0 (backwards ds) ≡ v) (v == 0) (λ e. ground arith)
        (λ e.
          value_from-append radix 0 c (backwards rest) ∙ rw (ih, digit.0) (div-add-mod' v radix))

  pub digits-strlen :
      (fuel v : ℕ) → strlen (low_digits fuel v radix) ≡ length (low_digits fuel v radix)
  unfolding low_digits strlen
  digits-strlen zero v = refl
  digits-strlen (suc fuel) v =
      let digit = digit_lem (v % radix) (omega (arith, mod-lt v {m = radix} (omega arith))) in
      if_cases (λ ds. strlen ds ≡ length ds) (v == 0) (λ e. refl)
        (λ e. ground (arith, digit.1, digits-strlen fuel (v / radix)))

  -- A 32-bit number is read back from the digits that `itoa` writes, in any base from 2 to 36.
  pub value_from-itoa : (v : ℕ) → v < 2 ^ 32 → value_from radix 0 (itoa v radix) ≡ v
  unfolding itoa value_from
  value_from-itoa v h =
      let digits = low_digits 32 v radix in
      if_cases (λ ds. value_from radix 0 ds ≡ v) (v == 0) (λ e. ground arith)
        (λ e.
          ap (value_from radix 0) (reversed digits (digits-strlen 32 v))
          ∙ digits-value 32 v (omega arith))
