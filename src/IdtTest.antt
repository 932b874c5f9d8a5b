-- ===== src/IdtTest.antt =====
-- The one test of student-distrib/tests.c that is compiled besides its entry point: idt_test, with
-- TEST_HEADER and assertion_failure; and launch_tests as far as it is no assembly.
use orca_os.Base.{
  none, true, false, inl, inr, ap, sym, Option, Option-cases, all_below, all_below_sound, some,
  subst, ℕ, zero, suc, ◌+◌, ◌^◌, ◌<◌, ◌≤◌, ◌≡◌, refl, arith, Bool, ◌==◌, ◌&&◌, if◌then◌else◌,
  if_false, List, [], ◌∷◌, codes, ◌∙◌,
}
use orca_os.Screen.{Screen}
use orca_os.Multiboot.{say}
use orca_os.Idt.{Gate, Linkage, boot_idt}
use orca_os.Idt.Gates.{target, routine, vectors, Entry, boot_idt-Entry}

-- A test returns PASS (1) or FAIL (0), or its assertion raises interrupt 15, for which the kernel
-- has no routine, so that the handler of an exception loops.
pub data Tested : Type 0 where
  returns : Screen → ℕ → Tested
  fails : Screen → Tested

-- `TEST_HEADER`, with the addresses of the names of the function and the file, and the line.
unfoldable pub test_header : (ℕ → List ℕ) → ℕ → ℕ → ℕ → Screen → Screen
test_header text function file line =
    say text (codes "[TEST %s] Running %s at %s:%d\n") (function ∷ function ∷ file ∷ line ∷ [])

-- The loop, with `left` rounds from entry `i` on.
unfoldable pub check_entries : (ℕ → Gate) → ℕ → ℕ → Screen → Tested
check_entries idt i zero s = returns s 1
check_entries idt i (suc left) s =
    let rest = check_entries idt (i + 1) left s in
    if ((idt i).offset_15_00 == 0) && ((idt i).offset_31_16 == 0) then fails s else rest

unfoldable pub idt_test : (ℕ → List ℕ) → ℕ → ℕ → (ℕ → Gate) → Screen → Tested
idt_test text function file idt s = check_entries idt 0 10 (test_header text function file 37 s)

check_entries-pass :
    (idt : ℕ → Gate) (i left : ℕ) (s : Screen)
    → ((v : ℕ) → i ≤ v → v < i + left → 0 < target (idt v))
    → check_entries idt i left s ≡ returns s 1
unfolding check_entries
check_entries-pass idt i zero s h = refl
check_entries-pass idt i (suc left) s h =
    if_false _ (fails s) (check_entries idt (i + 1) left s)
      (ground (arith, h i (omega arith) (omega arith)))
    ∙ check_entries-pass idt (i + 1) left s (λ v p q. h v (omega arith) (omega arith))

abbrev is_some : Option Linkage → Bool
is_some none = false
is_some (some l) = true

in_use : ℕ → Bool
in_use v = is_some (routine vectors v)

false-true : false ≡ true → ⊥
false-true e = cc

ten_in_use : all_below 10 in_use ≡ true
unfolding all_below in_use routine
ten_in_use = refl

module _ (address : Linkage → ℕ) (fits : (l : Linkage) → address l < 2 ^ 32)
    (placed : (l : Linkage) → 0 < address l) (idt : ℕ → Gate)
    (absent : (v : ℕ) → (idt v).present ≡ 0) (level : (v : ℕ) → (idt v).dpl ≡ 0) where
  leads : (v : ℕ) (l : Linkage) → routine vectors v ≡ some l → 0 < target (boot_idt address idt v)
  leads v l e =
      let w =
        subst (λ o. Entry address v o (idt v) (boot_idt address idt v)) e
          (boot_idt-Entry address fits idt v (absent v) (level v)).0 in
      omega (arith, w.address, placed l)

  ten_lead : (v : ℕ) → v < 10 → 0 < target (boot_idt address idt v)
  unfolding in_use
  ten_lead v h = elim (Option-cases (routine vectors v)) [
    | inl e ↦ absurd (false-true (sym (ap is_some e) ∙ all_below_sound 10 in_use v ten_in_use h))
    | inr (l, e) ↦ leads v l e
  ]

  -- On the table that the kernel starts with, made from one of zeros, with no routine at address 0,
  -- the test passes.
  idt_test-boot_idt :
      (text : ℕ → List ℕ) (function file : ℕ) (s : Screen)
      → idt_test text function file (boot_idt address idt) s
        ≡ returns (test_header text function file 37 s) 1
  unfolding idt_test
  idt_test-boot_idt text function file s =
      check_entries-pass (boot_idt address idt) 0 10 _ (λ v p q. ten_lead v q)
