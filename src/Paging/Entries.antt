-- ===== src/Paging/Entries.antt =====
-- The entries of the directory and the tables that student-distrib/paging.c sets.
use Prim.Native.Nat.{bit_or-bitwise}
use orca_os.Base.{
  ℕ, ◌+◌, ◌*◌, ◌/◌, ◌%◌, ◌^◌, ◌<◌, ◌≡◌, ◌≢◌, refl, ap, ◌∙◌, arith, Bool-cases, inl, inr, ltb, leb,
  ◌==◌, ◌&&◌, if◌then◌else◌, bit_or, update, for_range, for_range-update, u32, if_true,
}
use orca_os.Paging.{
  Pde, Pte, Pages, or_value, pte_of, map_page, page_init, map_program, system_call_vidmap,
}

-- Where an entry of the directory says that its table is.
abbrev pub table_at : Pde → ℕ
table_at e = e.upper_address * 2 ^ 22 + e.lower_address * 2 ^ 12

bit_or-zero : (b : ℕ) → bit_or 0 b ≡ b
bit_or-zero b = λ i. bit_or-bitwise 0 b i

-- The fields that say where a page is.
abbrev pub Points : Pte → ℕ → Type 0
Points e page = (e.present ≡ 1) × (e.address ≡ page)

first_entry :
    (t : ℕ → Pte) (j : ℕ)
    → j < 1024
    → Points (for_range 1024 0 (λ i t. map_page i (u32 (i * 0x1000)) t) t j) j
unfolding pte_of
first_entry t j h =
    let e =
      for_range-update (λ i (e : Pte). record (pte_of (u32 (i * 0x1000))) { present = 1; rw = 1 })
        1024 0 t j
      ∙ if_true (leb 0 j && ltb j (0 + 1024)) _ (t j) (ground arith) in
    (ap (λ (e : Pte). e.present) e, ap (λ (e : Pte). e.address) e ∙ omega arith)

map_page-Points :
    (i v : ℕ) (t : ℕ → Pte) (j q : ℕ)
    → Points (t j) q
    → Points (map_page i v t j) (if i == j then v / 2 ^ 12 % 2 ^ 20 else q)
unfolding pte_of
map_page-Points i v t j q (h, e) = elim (Bool-cases (i == j)) [
  | inl s ↦ rw s (refl, refl)
  | inr s ↦ rw s (h, e)
]

pub init_table :
    (p : Pages) (j : ℕ)
    → j < 1024
    → Points ((page_init p).first_page_table j) (if j == 0xB7 then 0xB8 else j)
unfolding page_init
init_table p j h =
    let t0 = for_range 1024 0 (λ i t. map_page i (u32 (i * 0x1000)) t) p.first_page_table in
    let t1 = map_page 0xB7 0xB8000 t0 in
    let t2 = map_page 0xB8 0xB8000 t1 in
    let t3 = map_page 0xB9 0xB9000 t2 in
    let t4 = map_page 0xBA 0xBA000 t3 in
    let w1 = map_page-Points 0xB7 0xB8000 t0 j j (first_entry p.first_page_table j h) in
    let w2 = map_page-Points 0xB8 0xB8000 t1 j (if 0xB7 == j then 0xB8 else j) w1 in
    let w3 =
      map_page-Points 0xB9 0xB9000 t2 j (if 0xB8 == j then 0xB8 else if 0xB7 == j then 0xB8 else j)
        w2 in
    let w4 =
      map_page-Points 0xBA 0xBA000 t3 j
        (if 0xB9 == j then 0xB9 else if 0xB8 == j then 0xB8 else if 0xB7 == j then 0xB8 else j)
        w3 in
    let w5 =
      map_page-Points 0xBB 0xBB000 t4 j
        (if 0xBA == j
          then 0xBA
          else if 0xB9 == j
          then 0xB9
          else if 0xB8 == j
          then 0xB8
          else if 0xB7 == j
          then 0xB8
          else j)
        w4 in
    (w5.0, w5.1 ∙ ground arith)

-- The directory and the table for the screen hold zeros in the fields that matter.
pub record IsBlank (p : Pages) : Type 0 where
  pub absent : (i : ℕ) → (p.directory i).present ≡ 0
  pub small_pages : (i : ℕ) → (p.directory i).page_size ≡ 0
  pub no_lower : (i : ℕ) → (p.directory i).lower_address ≡ 0
  pub no_upper : (i : ℕ) → (p.directory i).upper_address ≡ 0
  pub no_page : (i : ℕ) → (p.vid_page_table i).present ≡ 0

-- The two tables are pages of the 32-bit address space, and not the same.
pub record IsLinked (p : Pages) : Type 0 where
  pub first_fits : p.first_at < 2 ^ 32
  pub first_aligned : p.first_at % 4096 ≡ 0
  pub vid_fits : p.vid_at < 2 ^ 32
  pub vid_aligned : p.vid_at % 4096 ≡ 0
  pub apart : p.first_at ≢ p.vid_at

-- What a directory's entry leads to: nothing, four megabytes, or a table.
pub data Target : Type 0 where
  nothing : Target
  large : ℕ → Target
  small : ℕ → Target

abbrev pub Maps : Pde → Target → Type 0
Maps e nothing = e.present ≡ 0
Maps e (large n) = (e.present ≡ 1) × (e.page_size ≡ 1) × (e.upper_address ≡ n)
Maps e (small a) = (e.present ≡ 1) × (e.page_size ≡ 0) × (table_at e ≡ a)

-- The directory once the kernel has started, a program runs and has asked for the screen.
abbrev pub whole : ℕ → Pages → Pages
whole n p = system_call_vidmap (map_program n (page_init p))

update-Maps :
    (d : ℕ → Pde) (i j : ℕ) (e : Pde) (t u : Target)
    → Maps e u
    → Maps (d j) t
    → Maps (update d i e j) (if i == j then u else t)
update-Maps d i j e t u m w = elim (Bool-cases (i == j)) [ inl s ↦ rw s m | inr s ↦ rw s w ]

-- Nothing in the fields that matter.
abbrev Clear : Pde → Type 0
Clear e = (e.present ≡ 0) × (e.page_size ≡ 0) × (e.lower_address ≡ 0) × (e.upper_address ≡ 0)

-- An entry that gets the address of a table.
or_value-Maps :
    (a : ℕ) (e : Pde)
    → Clear e
    → a < 2 ^ 32
    → a % 4096 ≡ 0
    → Maps (or_value a (record e { present = 1; rw = 1 })) (small a)
unfolding or_value
or_value-Maps a e (c1, c2, c3, c4) fits aligned =
    let zero_bit : a % 2 ≡ 0 = omega arith in
    let seven : a / 2 ^ 7 % 2 ≡ 0 = omega arith in
    (
      rw (zero_bit) refl,
      rw (c2, seven) refl,
      rw (c3, c4, bit_or-zero (a / 2 ^ 22 % 2 ^ 10), bit_or-zero (a / 2 ^ 12 % 2 ^ 10))
          (omega arith),
    )

module _ (p : Pages) (b : IsBlank p) (l : IsLinked p) (n : ℕ) where
  abbrev blank_directory : ℕ → Pde
  blank_directory = for_range 1024 0 (λ i d. update d i (record (d i) { rw = 1 })) p.directory

  blank_directory-Clear : (j : ℕ) → j < 1024 → Clear (blank_directory j)
  blank_directory-Clear j h =
      let e =
        for_range-update (λ i (e : Pde). record e { rw = 1 }) 1024 0 p.directory j
        ∙ if_true (leb 0 j && ltb j (0 + 1024)) _ (p.directory j) (ground arith) in
      (
        ap (λ (e : Pde). e.present) e ∙ b.absent j,
        ap (λ (e : Pde). e.page_size) e ∙ b.small_pages j,
        ap (λ (e : Pde). e.lower_address) e ∙ b.no_lower j,
        ap (λ (e : Pde). e.upper_address) e ∙ b.no_upper j,
      )

  pub directory_entry :
      (j : ℕ)
      → j < 1024
      → Maps ((whole n p).directory j) (
          if 33 == j
          then small p.vid_at
          else if 32 == j
          then large ((2 + n) % 2 ^ 10)
          else if 1 == j
          then large 1
          else if 0 == j
          then small p.first_at
          else nothing)
  unfolding system_call_vidmap map_program page_init
  directory_entry j h =
      let d0 = blank_directory in
      let c = blank_directory-Clear in
      let e0 = or_value p.first_at (record (d0 0) { present = 1; rw = 1 }) in
      let d1 = update d0 0 e0 in
      let e1 = record (d1 1) { upper_address = 1; present = 1; rw = 1; pcd = 1; page_size = 1 } in
      let d2 = update d1 1 e1 in
      let e2 = record (d2 32) {
        upper_address = (2 + n) % 2 ^ 10;
        present = 1;
        rw = 1;
        us = 1;
        pcd = 1;
        page_size = 1;
      } in
      let d3 = update d2 32 e2 in
      let v = or_value p.vid_at (record (d3 33) { present = 1; rw = 1 }) in
      let e3 = record v { us = 1; pcd = 0; page_size = 0 } in
      let t0 = if 0 == j then small p.first_at else nothing in
      let t1 = if 1 == j then large 1 else t0 in
      let t2 = if 32 == j then large ((2 + n) % 2 ^ 10) else t1 in
      let w0 =
        update-Maps d0 0 j e0 nothing (small p.first_at)
          (or_value-Maps p.first_at (d0 0) (c 0 (omega arith)) l.first_fits l.first_aligned)
          (c j h).0 in
      let w1 = update-Maps d1 1 j e1 t0 (large 1) (refl, refl, refl) w0 in
      let w2 = update-Maps d2 32 j e2 t1 (large ((2 + n) % 2 ^ 10)) (refl, refl, refl) w1 in
      let vid = or_value-Maps p.vid_at (d3 33) (c 33 (omega arith)) l.vid_fits l.vid_aligned in
      update-Maps d3 33 j e3 t2 (small p.vid_at) (vid.0, refl, vid.2) w2
