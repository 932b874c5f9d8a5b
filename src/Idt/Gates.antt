-- ===== src/Idt/Gates.antt =====
-- Where the entries of the interrupt descriptor table lead, and who may use them.
use orca_os.Base.{
  sym, ==_iff, ◌++◌, ◌∙◌, ◌&&◌, ap, ℕ, ◌+◌, ◌*◌, ◌^◌, ◌<◌, ◌≡◌, refl, arith, ◌==◌, if◌then◌else◌,
  Bool-cases, false, inl, inr, List, [], ◌∷◌, Option, none, some,
}
use orca_os.Idt.{
  Gate, Linkage, system_call, pit, keyboard, rtc, kernel_cs, set_idt_entry, set_idt, install,
  install_all, exceptions, idt_init, boot_idt,
}

-- The processor's reading of an entry: the 32-bit address of its routine.
abbrev pub target : Gate → ℕ
target g = g.offset_31_16 * 2 ^ 16 + g.offset_15_00

abbrev later : Option Linkage → Option Linkage → Option Linkage
later o none = o
later o (some m) = some m

-- The last routine that the list has for vector `v`.
unfoldable pub routine : List (ℕ × Linkage) → ℕ → Option Linkage
routine [] v = none
routine ((i, l) ∷ rest) v = later (if i == v then some l else none) (routine rest v)

-- The vectors that are in use once the kernel has started.
abbrev pub vectors : List (ℕ × Linkage)
vectors = exceptions ++ (0x20, pit) ∷ (0x21, keyboard) ∷ (0x28, rtc) ∷ []

-- `g'` is a present 32-bit interrupt gate of the kernel's code segment that leads to `a`; its
-- privilege level is 3 for vector 0x80 and else that of `g`, as are the bits that are not set.
pub record Leads (a v : ℕ) (g g' : Gate) : Type 0 where
  pub address : target g' ≡ a
  pub segment : g'.seg_selector ≡ kernel_cs
  pub is_present : g'.present ≡ 1
  pub type_bits : g'.size * 8 + g'.reserved1 * 4 + g'.reserved2 * 2 + g'.reserved3 ≡ 0xE
  pub privilege : g'.dpl ≡ (if v == 0x80 then 3 else g.dpl)
  pub others : (g'.reserved0 ≡ g.reserved0) × (g'.reserved4 ≡ g.reserved4)

abbrev pub Entry : (Linkage → ℕ) → ℕ → Option Linkage → Gate → Gate → Type 0
Entry address v none g g' = g' ≡ g
Entry address v (some l) g g' = Leads (address l) v g g'

routine-system_call : routine vectors 0x80 ≡ some system_call
unfolding routine
routine-system_call = refl

none-some : {l : Linkage} → none ≡ some l → ⊥
none-some e = cc

not_system_call : (v : ℕ) → routine vectors v ≡ none → (v == 0x80) ≡ false
not_system_call v h = elim (Bool-cases (v == 0x80)) [
  | inl e ↦
      let found : routine vectors v ≡ some system_call =
        ap (routine vectors) ((==_iff v 0x80).0 e) ∙ routine-system_call in
      absurd (none-some (sym h ∙ found))
  | inr e ↦ e
]

install_other : (i v a : ℕ) (idt : ℕ → Gate) → (i == v) ≡ false → install i a idt v ≡ idt v
unfolding install
install_other i v a idt e = rw e

module _ (address : Linkage → ℕ) (fits : (l : Linkage) → address l < 2 ^ 32) where
  install-Leads :
      (i v : ℕ) (l : Linkage) (idt : ℕ → Gate)
      → i ≡ v
      → Leads (address l) v (idt v) (install i (address l) idt v)
  unfolding install set_idt set_idt_entry
  install-Leads i v l idt e = record {
    address = ground (arith, fits l);
    segment = ground arith;
    is_present = ground arith;
    type_bits = ground arith;
    privilege = ground arith;
    others = (ground arith, ground arith);
  }

  one-Entry :
      (i v : ℕ) (l : Linkage) (idt : ℕ → Gate)
      → Entry address v (if i == v then some l else none) (idt v) (install i (address l) idt v)
  one-Entry i v l idt = elim (Bool-cases (i == v)) [
    | inl e ↦ rw e (install-Leads i v l idt ((==_iff i v).0 e))
    | inr e ↦ rw e (install_other i v (address l) idt e)
  ]

  Entry-later :
      (v : ℕ) (o p : Option Linkage) (g h k : Gate)
      → Entry address v o g h
      → Entry address v p h k
      → Entry address v (later o p) g k
  Entry-later v o none g h k a b = rw b a
  Entry-later v none (some m) g h k a b = rw a at b
  Entry-later v (some l) (some m) g h k a b = record {
    address = b.address;
    segment = b.segment;
    is_present = b.is_present;
    type_bits = b.type_bits;
    privilege = ground (arith, a.privilege, b.privilege);
    others = (b.others.0 ∙ a.others.0, b.others.1 ∙ a.others.1);
  }

  install_all-Entry :
      (xs : List (ℕ × Linkage)) (v : ℕ) (idt : ℕ → Gate)
      → Entry address v (routine xs v) (idt v) (install_all address xs idt v)
  unfolding install_all routine
  install_all-Entry [] v idt = refl
  install_all-Entry ((i, l) ∷ rest) v idt =
      let idt1 = install i (address l) idt in
      Entry-later v _ (routine rest v) (idt v) (idt1 v) (install_all address rest idt1 v)
        (one-Entry i v l idt) (install_all-Entry rest v idt1)

  -- From a table of zeros: once the kernel has started, every vector in use has a present gate of
  -- the kernel's code segment that leads to its routine's 32-bit address, all other entries are
  -- as they were, and a program may raise vector 0x80 and no other.
  pub boot_idt-Entry :
      (idt : ℕ → Gate) (v : ℕ)
      → (idt v).present ≡ 0
      → (idt v).dpl ≡ 0
      → let g = boot_idt address idt v in
        Entry address v (routine vectors v) (idt v) g
        × (((g.present == 1) && (g.dpl == 3)) ≡ (v == 0x80))
  unfolding boot_idt idt_init install_all
  boot_idt-Entry idt v hp hd =
      let w : Entry address v (routine vectors v) (idt v) (boot_idt address idt v) =
        install_all-Entry vectors v idt in
      (w, raised (routine vectors v) (boot_idt address idt v) w (not_system_call v))
    where
      raised :
          (o : Option Linkage) (g : Gate)
          → Entry address v o (idt v) g
          → (o ≡ none → (v == 0x80) ≡ false)
          → ((g.present == 1) && (g.dpl == 3)) ≡ (v == 0x80)
      raised none g w h = ground (arith, w, hp, hd, h refl)
      raised (some l) g w h = ground (arith, w.is_present, w.privilege, hd)
