-- ===== src/Paging/Words.antt =====
-- An entry of a page table and its word: the two views of page_table_entry_t of
-- student-distrib/x86_desc.h.
use orca_os.Base.{ℕ, ◌+◌, ◌*◌, ◌^◌, ◌<◌, ◌≡◌, refl, arith}
use mathlib.Core.Equiv.{◌≃◌, iso_to_equiv}
use mathlib.Core.HLevel.{Σ_prop_path}
use native.Mathlib.Bridge.{le_prop}
use orca_os.Paging.{Pte, pte_of}

-- Each field within its bits.
abbrev pub IsPte : Pte → Type 0
IsPte p =
    (p.present < 2)
    × (p.rw < 2)
    × (p.us < 2)
    × (p.pwt < 2)
    × (p.pcd < 2)
    × (p.accessed < 2)
    × (p.dirty < 2)
    × (p.pat < 2)
    × (p.global < 2)
    × (p.avail < 8)
    × (p.address < 2 ^ 20)

abbrev pub Word : Type 0
Word = (v : ℕ) × (v < 2 ^ 32)

abbrev pub Entry : Type 0
Entry = (p : Pte) × IsPte p

-- The bits in their places.
unfoldable pub val : Pte → ℕ
val p =
    p.present
    + p.rw * 2
    + p.us * 2 ^ 2
    + p.pwt * 2 ^ 3
    + p.pcd * 2 ^ 4
    + p.accessed * 2 ^ 5
    + p.dirty * 2 ^ 6
    + p.pat * 2 ^ 7
    + p.global * 2 ^ 8
    + p.avail * 2 ^ 9
    + p.address * 2 ^ 12

pte_of-IsPte : (v : ℕ) → IsPte (pte_of v)
unfolding pte_of
pte_of-IsPte v = (
  omega arith,
  omega arith,
  omega arith,
  omega arith,
  omega arith,
  omega arith,
  omega arith,
  omega arith,
  omega arith,
  omega arith,
  omega arith,
)

val-pte_of : (v : ℕ) → v < 2 ^ 32 → val (pte_of v) ≡ v
unfolding val pte_of
val-pte_of v h = omega arith

val-small : (p : Pte) → IsPte p → val p < 2 ^ 32
unfolding val
val-small p h = omega (arith, h)

-- Entries with the same fields are the same.
Pte-ext :
    (p q : Pte)
    → p.present ≡ q.present
    → p.rw ≡ q.rw
    → p.us ≡ q.us
    → p.pwt ≡ q.pwt
    → p.pcd ≡ q.pcd
    → p.accessed ≡ q.accessed
    → p.dirty ≡ q.dirty
    → p.pat ≡ q.pat
    → p.global ≡ q.global
    → p.avail ≡ q.avail
    → p.address ≡ q.address
    → p ≡ q
Pte-ext p q a b c d e f g h j k l = λ i. record {
  present = a i;
  rw = b i;
  us = c i;
  pwt = d i;
  pcd = e i;
  accessed = f i;
  dirty = g i;
  pat = h i;
  global = j i;
  avail = k i;
  address = l i;
}

pte_of-val : (p : Pte) → IsPte p → pte_of (val p) ≡ p
unfolding val pte_of
pte_of-val p h =
    Pte-ext (pte_of (val p)) p (omega (arith, h)) (omega (arith, h)) (omega (arith, h))
      (omega (arith, h)) (omega (arith, h)) (omega (arith, h)) (omega (arith, h)) (omega (arith, h))
      (omega (arith, h)) (omega (arith, h)) (omega (arith, h))

-- The words of 32 bits are the entries whose fields keep to their bits: `pte_of` is an equivalence
-- between the two, whose inverse puts each field at its place: the nine flags at bits 0 to 8 in the
-- order of the fields, the three bits for the system at 9, the page's number at 12.
pub pte_of-Equiv :
    (e : Word ≃ Entry) × ((w : Word) → (e.0 w).0 ≡ pte_of w.0)
    × ((p : Entry) → (e.1 p).0.0.0 ≡ val p.0)
pte_of-Equiv = (
  iso_to_equiv (record {
    fun = λ (v, h). (pte_of v, pte_of-IsPte v);
    inv = λ (p, h). (val p, val-small p h);
    rinv = λ (p, h). Σ_prop_path (λ q. hlevel le_prop) (pte_of-val p h);
    linv = λ (v, h). Σ_prop_path (λ u. le_prop) (val-pte_of v h);
  }),
  λ w. refl,
  λ p. refl,
)
