-- ===== src/Pic/Masks.antt =====
-- What `enable_irq` and `disable_irq` do to the sixteen lines that the two masks hold.
use orca_os.Base.{
  ℕ, ◌-◌, ◌/◌, ◌%◌, ◌^◌, ◌<◌, ◌≡◌, refl, arith, ltb, ◌==◌, if◌then◌else◌, Bool, true, false, not,
  all_below, all_below_sound,
}
use orca_os.Pic.{Pic, clear_bit, set_bit, enable_irq, disable_irq, send_eoi}

-- Whether bit `n` of `m` is set.
abbrev pub test_bit : ℕ → ℕ → Bool
test_bit m n = m / 2 ^ n % 2 == 1

-- Line `irq` is masked: bit `irq` of the master's mask, or bit `irq - 8` of the slave's.
pub masked : Pic → ℕ → Bool
masked s irq = if ltb irq 8 then test_bit s.master_mask irq else test_bit s.slave_mask (irq - 8)

same : Bool → Bool → Bool
same true b = b
same false b = not b

same_sound : (a b : Bool) → same a b ≡ true → a ≡ b
unfolding same
same_sound true true h = refl
same_sound true false h = ground arith
same_sound false true h = ground arith
same_sound false false h = refl

-- The bits of a changed mask, at every mask, line and bit.
clear_entry : ℕ → ℕ → ℕ → Bool
clear_entry m n j = same (test_bit (clear_bit m n) j) (if n == j then false else test_bit m j)

set_entry : ℕ → ℕ → ℕ → Bool
set_entry m n j = same (test_bit (set_bit m n) j) (if n == j then true else test_bit m j)

module _ (entry : ℕ → ℕ → ℕ → Bool) where
  table : Bool
  table = all_below 256 (λ m. all_below 8 (λ n. all_below 8 (entry m n)))

  table_sound : (m n j : ℕ) → table ≡ true → m < 256 → n < 8 → j < 8 → entry m n j ≡ true
  unfolding table
  table_sound m n j h hm hn hj =
      all_below_sound 8 _ j (all_below_sound 8 _ n (all_below_sound 256 _ m h hm) hn) hj

clear_table : table clear_entry ≡ true
unfolding table all_below clear_entry same
clear_table = refl

set_table : table set_entry ≡ true
unfolding table all_below set_entry same
set_table = refl

module _ (m n j : ℕ) (hm : m < 256) (hn : n < 8) (hj : j < 8) where
  pub test_bit-clear_bit : test_bit (clear_bit m n) j ≡ (if n == j then false else test_bit m j)
  unfolding clear_entry
  test_bit-clear_bit = same_sound _ _ (table_sound clear_entry m n j clear_table hm hn hj)

  pub test_bit-set_bit : test_bit (set_bit m n) j ≡ (if n == j then true else test_bit m j)
  unfolding set_entry
  test_bit-set_bit = same_sound _ _ (table_sound set_entry m n j set_table hm hn hj)

-- Both masks are bytes.
pub record IsPic (s : Pic) : Type 0 where
  pub master : s.master_mask < 256
  pub slave : s.slave_mask < 256

module _ {s : Pic} (v : IsPic s) (irq j : ℕ) (hi : irq < 16) (hj : j < 16) where
  -- `enable_irq` unmasks its own line and no other: line `j` of 16 is masked after it exactly
  -- when it was masked before and is not `irq`. The kept masks are bytes.
  pub masked-enable_irq : masked (enable_irq irq s) j ≡ (if irq == j then false else masked s j)
  unfolding masked enable_irq
  masked-enable_irq = ground (
    arith,
    v.master,
    v.slave,
    test_bit-clear_bit s.master_mask irq j,
    test_bit-clear_bit s.slave_mask (irq - 8) (j - 8),
  )

  -- `disable_irq` masks its own line and no other: line `j` of 16 is masked after it exactly when
  -- it was masked before or is `irq`. The kept masks are bytes.
  pub masked-disable_irq : masked (disable_irq irq s) j ≡ (if irq == j then true else masked s j)
  unfolding masked disable_irq
  masked-disable_irq = ground (
    arith,
    v.master,
    v.slave,
    test_bit-set_bit s.master_mask irq j,
    test_bit-set_bit s.slave_mask (irq - 8) (j - 8),
  )

-- The end of an interrupt leaves the masks alone.
pub masked-send_eoi : (n j : ℕ) (s : Pic) → masked (send_eoi n s) j ≡ masked s j
unfolding masked send_eoi
masked-send_eoi n j s = ground arith
