-- ===== src/Base/Words.antt =====
-- Byte-addressed memory, words in it, counted loops, and wrap-around of `uint32_t`.
use orca_os.Base.Tests.{ltb, leb, ◌==◌, if◌then◌else◌}
use mathlib.Core.Bool.{◌&&◌}
use orca_os.Base.Lists.{get_or}
use Prim.Native.Nat.{ℕ, zero, suc, ◌+◌, ◌-◌, ◌*◌, ◌%◌, ◌^◌, ◌≤◌, ◌<◌}
use mathlib.Core.Path.{◌≡◌, subst}
use mathlib.Core.List.{List, [], ◌∷◌}
use native.Mathlib.Omega.{arith}

-- The bytes from a pointer on, or of the whole memory.
abbrev pub Memory : Type 0
Memory = ℕ → ℕ

abbrev pub u8 : ℕ → ℕ
u8 n = n % 2 ^ 8

abbrev pub u32 : ℕ → ℕ
u32 n = n % 2 ^ 32

-- `uint32_t` subtraction: `-` on ℕ stops at 0.
abbrev pub sub32 : ℕ → ℕ → ℕ
sub32 a b = (a + 2 ^ 32 - b) % 2 ^ 32

-- `m[a] = v`
abbrev pub update {ℓ} : {A : Type ℓ} → (ℕ → A) → ℕ → A → ℕ → A
update m a v b = if a == b then v else m b

-- `*(uint32_t *)a`, little endian.
unfoldable pub load32 : Memory → ℕ → ℕ
load32 m a = m a + 256 * (m (a + 1) + 256 * (m (a + 2) + 256 * m (a + 3)))

-- The bytes of a list, and zeros behind it.
abbrev pub bytes_of : List ℕ → Memory
bytes_of s i = get_or s i 0

-- The `n` entries from `a` on.
unfoldable pub slice : Memory → ℕ → ℕ → List ℕ
slice m a zero = []
slice m a (suc n) = m a ∷ slice m (a + 1) n

-- A counted loop of `left` rounds from `first` on.
unfoldable pub for_range {ℓ} : {A : Type ℓ} → ℕ → ℕ → (ℕ → A → A) → A → A
for_range zero first round a = a
for_range (suc left) first round a = for_range left (first + 1) round (round first a)

-- What holds before a counted loop and is kept by each round holds after it.
pub for_range_inv {ℓ κ} :
    {A : Type ℓ} (Holds : ℕ → A → Type κ) (round : ℕ → A → A) (left first last : ℕ) (a : A)
    → ((k : ℕ) (b : A) → first ≤ k → k < last → Holds k b → Holds (k + 1) (round k b))
    → first + left ≡ last
    → Holds first a
    → Holds last (for_range left first round a)
unfolding for_range
for_range_inv Holds round zero first last a keep e h =
    let at_end : first ≡ last = omega arith in subst (λ k. Holds k a) at_end h
for_range_inv Holds round (suc left) first last a keep e h =
    for_range_inv Holds round left (first + 1) last (round first a)
      (λ k b p q. keep k b (omega arith) q) (omega arith)
      (keep first a (omega arith) (omega arith) h)

-- A counted loop that changes each entry of its range once.
pub for_range-update {ℓ} :
    {A : Type ℓ} (change : ℕ → A → A) (left first : ℕ) (f : ℕ → A) (j : ℕ)
    → for_range left first (λ i f. update f i (change i (f i))) f j
      ≡ (if leb first j && ltb j (first + left) then change j (f j) else f j)
unfolding for_range
for_range-update change zero first f j = ground arith
for_range-update change (suc left) first f j =
    ground
      (arith, for_range-update change left (first + 1) (update f first (change first (f first))) j)
