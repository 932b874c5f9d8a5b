-- ===== src/Paging/Translate.antt =====
-- The addresses that the page tables give, read as the processor reads them.
use orca_os.Base.{
  ℕ, ◌+◌, ◌-◌, ◌*◌, ◌/◌, ◌%◌, ◌^◌, ◌<◌, ◌≡◌, ◌≢◌, refl, ap, ◌∙◌, arith, false, Bool-cases, inl, inr,
  ltb, leb, true, ◌≤◌, ◌==◌, ◌&&◌, ◌||◌, Bool, if◌then◌else◌, Option, none, some, if_true,
}
use orca_os.Paging.{or_value, Pte, Pages, page_init, map_program, system_call_vidmap}
use orca_os.Paging.Entries.{
  table_at, IsBlank, IsLinked, Target, nothing, large, small, Maps, Points, whole, directory_entry,
  init_table,
}

-- The table at an address.
abbrev pub table : Pages → ℕ → Option (ℕ → Pte)
table p a =
    if a == p.first_at
    then some p.first_page_table
    else if a == p.vid_at
    then some p.vid_page_table
    else none

abbrev pub through : Option (ℕ → Pte) → ℕ → Option ℕ
through none a = none
through (some t) a =
    let e = t (a / 2 ^ 12 % 1024) in
    if e.present == 1 then some (e.address * 2 ^ 12 + a % 2 ^ 12) else none

-- The physical address that the processor makes of a 32-bit address; `none` is a page fault.
unfoldable pub translate : Pages → ℕ → Option ℕ
translate p a =
    let e = p.directory (a / 2 ^ 22) in
    if e.present == 1
    then (if e.page_size == 1
        then some (e.upper_address * 2 ^ 22 + a % 2 ^ 22)
        else through (table p (table_at e)) a)
    else none

-- Whether the entry of a table lets programs read and write.
abbrev opens_page : Option (ℕ → Pte) → ℕ → Bool
opens_page none a = false
opens_page (some t) a =
    let e = t (a / 2 ^ 12 % 1024) in (e.present == 1) && (e.us == 1) && (e.rw == 1)

-- Whether a program may read and write at an address: every entry on the way lets it.
unfoldable pub may_write : Pages → ℕ → Bool
may_write p a =
    let e = p.directory (a / 2 ^ 22) in
    (e.present == 1)
    && (e.us == 1)
    && (e.rw == 1)
    && ((e.page_size == 1) || opens_page (table p (table_at e)) a)

-- What an entry of the directory makes of an address.
abbrev reach : Pages → Target → ℕ → Option ℕ
reach p nothing a = none
reach p (large m) a = some (m * 2 ^ 22 + a % 2 ^ 22)
reach p (small at) a = through (table p at) a

translate-reach :
    (p : Pages) (a : ℕ) (t : Target)
    → Maps (p.directory (a / 2 ^ 22)) t
    → translate p a ≡ reach p t a
unfolding translate
translate-reach p a nothing m = rw m refl
translate-reach p a (large n) (m1, m2, m3) = rw (m1, m2, m3) refl
translate-reach p a (small at) (m1, m2, m3) = rw (m1, m2, m3) refl

through-Points :
    (t : ℕ → Pte) (a page : ℕ)
    → Points (t (a / 2 ^ 12 % 1024)) page
    → through (some t) a ≡ some (page * 2 ^ 12 + a % 2 ^ 12)
through-Points t a page (h, e) = rw (h, e) refl

through-absent :
    (t : ℕ → Pte) (a : ℕ) → (t (a / 2 ^ 12 % 1024)).present ≡ 0 → through (some t) a ≡ none
through-absent t a h = rw h refl

table-first : (p : Pages) → table p p.first_at ≡ some p.first_page_table
table-first p = if_true (p.first_at == p.first_at) _ _ (ground arith)

table-vid : (p : Pages) → p.first_at ≢ p.vid_at → table p p.vid_at ≡ some p.vid_page_table
table-vid p h = ground arith

-- Where a running program numbered `n` and the kernel find what they address: the first eight
-- megabytes are mapped to themselves but for page 0xB7, which shows page 0xB8; the program's four
-- megabytes from 128 MB on are the physical ones from 8 MB + 4 MB * n on; the page at 132 MB is the
-- screen; nothing else is mapped.
unfoldable pub physical : ℕ → ℕ → Option ℕ
physical n a =
    if ltb a 0x400000
    then some (if a / 0x1000 == 0xB7 then a + 0x1000 else a)
    else if ltb a 0x800000
    then some a
    else if leb 0x8000000 a && ltb a 0x8400000
    then some (0x800000 + 0x400000 * n + (a - 0x8000000))
    else if leb 0x8400000 a && ltb a 0x8401000
    then some (0xB8000 + (a - 0x8400000))
    else none

module _ (p : Pages) (b : IsBlank p) (l : IsLinked p) (n a : ℕ) (hn : n < 1022)
    (ha : a < 2 ^ 32) where
  reach-screen : a / 2 ^ 22 ≡ 33 → reach (whole n p) (small p.vid_at) a ≡ physical n a
  unfolding physical system_call_vidmap map_program page_init
  reach-screen h =
      let k = a / 2 ^ 12 % 1024 in
      let q = whole n p in
      ap (λ o. through o a) (table-vid q l.apart) ∙ (elim (Bool-cases (0 == k)) [
        | inl e ↦ through-Points q.vid_page_table a 0xB8 (rw e (refl, refl)) ∙ ground arith
        | inr e ↦ through-absent q.vid_page_table a (rw e (b.no_page k)) ∙ ground arith
      ])

  reach-kernel : a / 2 ^ 22 ≡ 0 → reach (whole n p) (small p.first_at) a ≡ physical n a
  unfolding physical system_call_vidmap map_program page_init
  reach-kernel h =
      let k = a / 2 ^ 12 % 1024 in
      let q = whole n p in
      ap (λ o. through o a) (table-first q)
      ∙ through-Points q.first_page_table a (if k == 0xB7 then 0xB8 else k)
          (init_table p k (omega arith))
      ∙ ground arith

  reach-program : a / 2 ^ 22 ≡ 32 → reach (whole n p) (large ((2 + n) % 2 ^ 10)) a ≡ physical n a
  unfolding physical
  reach-program h = ground arith

  reach-large : a / 2 ^ 22 ≡ 1 → reach (whole n p) (large 1) a ≡ physical n a
  unfolding physical
  reach-large h = ground arith

  reach-nothing :
      (33 == (a / 2 ^ 22)) ≡ false
      → (32 == (a / 2 ^ 22)) ≡ false
      → (1 == (a / 2 ^ 22)) ≡ false
      → (0 == (a / 2 ^ 22)) ≡ false
      → none ≡ physical n a
  unfolding physical
  reach-nothing e f g i = ground arith

  -- From blank tables that lie apart: once the kernel has started, a program with a number below
  -- 1022 has been mapped and has asked for the screen, every 32-bit address is translated as
  -- `physical` says.
  pub translate-whole : translate (whole n p) a ≡ physical n a
  translate-whole =
      let j = a / 2 ^ 22 in
      let q = whole n p in
      let d = directory_entry p b l n j (omega arith) in
      elim (Bool-cases (33 == j)) [
        | inl e ↦ translate-reach q a (small p.vid_at) (rw e at d) ∙ reach-screen (ground arith)
        | inr e ↦ elim (Bool-cases (32 == j)) [
          | inl f ↦
              translate-reach q a (large ((2 + n) % 2 ^ 10)) (rw (e, f) at d)
              ∙ reach-program (ground arith)
          | inr f ↦ elim (Bool-cases (1 == j)) [
            | inl g ↦ translate-reach q a (large 1) (rw (e, f, g) at d) ∙ reach-large (ground arith)
            | inr g ↦ elim (Bool-cases (0 == j)) [
              | inl i ↦
                  translate-reach q a (small p.first_at) (rw (e, f, g, i) at d)
                  ∙ reach-kernel (ground arith)
              | inr i ↦ translate-reach q a nothing (rw (e, f, g, i) at d) ∙ reach-nothing e f g i
            ]
          ]
        ]
      ]

  -- A program may write to the page that shows it the screen.
  pub may_write-screen : 0x8400000 ≤ a → a < 0x8401000 → may_write (whole n p) a ≡ true
  unfolding may_write or_value system_call_vidmap map_program page_init
  may_write-screen lo hi =
      let q = whole n p in
      let j : a / 2 ^ 22 ≡ 33 = omega arith in
      let k : a / 2 ^ 12 % 1024 ≡ 0 = omega arith in
      let bit0 : p.vid_at % 2 ≡ 0 = omega (arith, l.vid_aligned) in
      let bit1 : p.vid_at / 2 ^ 1 % 2 ≡ 0 = omega (arith, l.vid_aligned) in
      let (d1, d2, d3) = directory_entry p b l n 33 (omega arith) in
      let opens : opens_page (some q.vid_page_table) a ≡ true = rw k refl in
      let at : opens_page (table q (table_at (q.directory 33))) a ≡ true =
        ap (λ t. opens_page (table q t) a) d3
        ∙ (ap (λ o. opens_page o a) (table-vid q l.apart) ∙ opens) in
      rw j (ground (arith, d1, at, bit1))
