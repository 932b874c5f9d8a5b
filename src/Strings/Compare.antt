-- ===== src/Strings/Compare.antt =====
-- `strncmp` against the relation that it decides.
use orca_os.Base.{
  ℕ, zero, suc, ◌+◌, ◌≤◌, ◌<◌, ◌≡◌, ◌≢◌, ◌↔◌, refl, arith, pos, of_i8, ◌-ℤ◌, ◌==◌, Bool-cases, inl,
  inr, Memory,
}
use orca_os.Strings.{strncmp, strncmp_from}

-- From index `i` on the two strings agree on `n` bytes, as far as no zero comes before.
abbrev pub Agree : Memory → Memory → ℕ → ℕ → Type 0
Agree s1 s2 i n = (j : ℕ) → i ≤ j → j < i + n → ((k : ℕ) → i ≤ k → k < j → s1 k ≢ 0) → s1 j ≡ s2 j

abbrev pub IsBytes : Memory → Type 0
IsBytes m = (a : ℕ) → m a < 256

i8_difference : (a b : ℕ) → a < 256 → b < 256 → of_i8 a -ℤ of_i8 b ≡ pos 0 → a ≡ b
i8_difference a b ha hb h = ground arith

i8_same : (a : ℕ) → of_i8 a -ℤ of_i8 a ≡ pos 0
i8_same a = ground arith

strncmp_from_iff :
    (s1 s2 : Memory) (i n : ℕ)
    → IsBytes s1
    → IsBytes s2
    → (strncmp_from s1 s2 i n ≡ pos 0) ↔ Agree s1 s2 i n
unfolding strncmp_from
strncmp_from_iff s1 s2 i zero b1 b2 = (λ h j p q z. absurd (omega arith), λ h. refl)
strncmp_from_iff s1 s2 i (suc n) b1 b2 =
    let ih = strncmp_from_iff s1 s2 (i + 1) n b1 b2 in
    (
      λ h j p q z. elim (Bool-cases (i == j)) [
        | inl e ↦ ground (arith, i8_difference (s1 i) (s2 i), b1 i, b2 i)
        | inr e ↦
            ih.0 (ground (arith, i8_difference (s1 i) (s2 i), b1 i, b2 i, z i)) j (ground arith)
              (omega arith) (λ k r. z k (omega arith))
      ],
      λ h.
          let same : s1 i ≡ s2 i =
            h i (omega arith) (omega arith) (λ k r t. absurd (omega arith)) in
          elim (Bool-cases (s1 i == 0)) [
            | inl e ↦ ground (arith, same, i8_same (s1 i))
            | inr e ↦
                let rest = ih.1 (λ j p q z.
                  h j (omega arith) (omega arith)
                    (λ k r t. nonzero k r (ground arith) (λ q. z k q t))) in
                ground (arith, same, rest)
          ],
    )
  where
    nonzero : (k : ℕ) → i ≤ k → s1 i ≢ 0 → (i + 1 ≤ k → s1 k ≢ 0) → s1 k ≢ 0
    nonzero k r nz later e = elim (Bool-cases (i == k)) [
      | inl q ↦ nz (ground arith)
      | inr q ↦ later (ground arith) e
    ]

-- On two strings of bytes `strncmp` returns 0 exactly when they agree on each of the first `n`
-- bytes that no zero of the first string comes before.
pub strncmp-zero_iff :
    (s1 s2 : Memory) (n : ℕ) → IsBytes s1 → IsBytes s2 → (strncmp s1 s2 n ≡ pos 0) ↔ Agree s1 s2 0 n
unfolding strncmp
strncmp-zero_iff s1 s2 n b1 b2 = strncmp_from_iff s1 s2 0 n b1 b2
