-- ===== src/Rtc/Frequency.antt =====
-- The hardware frequency: which are accepted, and the rate that is computed from them.
use orca_os.Base.{
  ℕ, ◌-◌, ◌^◌, ◌≤◌, ◌≡◌, ◌≢◌, refl, arith, pos, minus_one, bit_and, bit_or, Bool, true, false, not,
  ltb, ◌==◌, ◌||◌, ◌&&◌, ◌∷◌, all_below, all_below_sound, u8, Bool-cases, inl, inr, if_false,
}
use orca_os.Rtc.{Rtc, valid_freq, rate_of, rtc_set_freq}

power_entry : ℕ → Bool
power_entry k = (k == 0) || (valid_freq (2 ^ k) && (rate_of (2 ^ k) == 16 - k))

power_table : all_below 11 power_entry ≡ true
unfolding all_below power_entry valid_freq rate_of
power_table = refl

-- A frequency 2 ^ k with k from 1 to 10 is accepted: the index of register A is written twice, and
-- then the byte of its high four bits, as they were read, with the low ones of the rate 16 - k.
pub rtc_set_freq_power :
    (reg_a k : ℕ) (s : Rtc)
    → 1 ≤ k
    → k ≤ 10
    → ((rtc_set_freq reg_a (2 ^ k) s).1 ≡ pos 0)
      × ((rtc_set_freq reg_a (2 ^ k) s).0.ports
          ≡ (u8 (bit_or (bit_and reg_a 0xF0) (16 - k)), 0x71)
            ∷ (0x8A, 0x70)
            ∷ (0x8A, 0x70)
            ∷ s.ports)
unfolding rtc_set_freq power_entry
rtc_set_freq_power reg_a k s h1 h2 =
    let e = all_below_sound 11 power_entry k power_table (omega arith) in
    (ground (arith, e), ground (arith, e))

-- None of the eleven powers from 1 to 1024.
abbrev no_power : ℕ → Bool
no_power f =
    not (f == 1)
    && not (f == 2)
    && not (f == 4)
    && not (f == 8)
    && not (f == 16)
    && not (f == 32)
    && not (f == 64)
    && not (f == 128)
    && not (f == 256)
    && not (f == 512)
    && not (f == 1024)

refused_entry : ℕ → Bool
refused_entry f = not (no_power f) || not (valid_freq f)

refused_table : all_below 1025 refused_entry ≡ true
unfolding all_below refused_entry valid_freq
refused_table = refl

not_valid : (f : ℕ) → no_power f ≡ true → valid_freq f ≡ false
unfolding refused_entry
not_valid f h = elim (Bool-cases (ltb 1024 f)) [
  | inl e ↦ unfold valid_freq in ground (arith, e)
  | inr e ↦ ground (arith, all_below_sound 1025 refused_entry f refused_table)
]

no_power_of : (f : ℕ) → ((k : ℕ) → k ≤ 10 → f ≢ 2 ^ k) → no_power f ≡ true
no_power_of f h = ground (arith, h 0, h 1, h 2, h 3, h 4, h 5, h 6, h 7, h 8, h 9, h 10)

-- Any number that is no power of two from 1 to 1024 is refused, and only the index of register A
-- has been written.
pub rtc_set_freq_refused :
    (reg_a freq : ℕ) (s : Rtc)
    → ((k : ℕ) → k ≤ 10 → freq ≢ 2 ^ k)
    → rtc_set_freq reg_a freq s ≡ (record s { ports = (0x8A, 0x70) ∷ s.ports }, minus_one)
unfolding rtc_set_freq
rtc_set_freq_refused reg_a freq s h =
    if_false (valid_freq freq) _ _ (not_valid freq (no_power_of freq h))
