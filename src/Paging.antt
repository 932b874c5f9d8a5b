-- ===== src/Paging.antt =====
-- Paging: student-distrib/paging.c, with the entries and tables of student-distrib/x86_desc.h. An
-- entry is a word that is also read by its fields, so writing `val` sets each of them. That the
-- translation buffer is flushed is not part of the state.
pub mod Entries
pub mod Translate
pub mod Words
use orca_os.Base.{ℕ, ◌+◌, ◌*◌, ◌/◌, ◌%◌, ◌^◌, bit_or, update, for_range, u32}

pub record Pde : Type 0 where
  pub present : ℕ
  pub rw : ℕ
  pub us : ℕ
  pub pwt : ℕ
  pub pcd : ℕ
  pub accessed : ℕ
  pub differs : ℕ
  pub page_size : ℕ
  pub global : ℕ
  pub avail : ℕ
  pub lower_address : ℕ
  pub upper_address : ℕ

pub record Pte : Type 0 where
  pub present : ℕ
  pub rw : ℕ
  pub us : ℕ
  pub pwt : ℕ
  pub pcd : ℕ
  pub accessed : ℕ
  pub dirty : ℕ
  pub pat : ℕ
  pub global : ℕ
  pub avail : ℕ
  pub address : ℕ

-- The directory, the two tables, and where the linker puts the tables.
pub record Pages : Type 0 where
  pub directory : ℕ → Pde
  pub first_page_table : ℕ → Pte
  pub vid_page_table : ℕ → Pte
  pub first_at : ℕ
  pub vid_at : ℕ

-- `e.val |= v`
unfoldable pub or_value : ℕ → Pde → Pde
or_value v e = record {
  present = bit_or e.present (v % 2);
  rw = bit_or e.rw (v / 2 ^ 1 % 2);
  us = bit_or e.us (v / 2 ^ 2 % 2);
  pwt = bit_or e.pwt (v / 2 ^ 3 % 2);
  pcd = bit_or e.pcd (v / 2 ^ 4 % 2);
  accessed = bit_or e.accessed (v / 2 ^ 5 % 2);
  differs = bit_or e.differs (v / 2 ^ 6 % 2);
  page_size = bit_or e.page_size (v / 2 ^ 7 % 2);
  global = bit_or e.global (v / 2 ^ 8 % 2);
  avail = bit_or e.avail (v / 2 ^ 9 % 8);
  lower_address = bit_or e.lower_address (v / 2 ^ 12 % 2 ^ 10);
  upper_address = bit_or e.upper_address (v / 2 ^ 22 % 2 ^ 10);
}

-- `e.val = v`
unfoldable pub pte_of : ℕ → Pte
pte_of v = record {
  present = v % 2;
  rw = v / 2 ^ 1 % 2;
  us = v / 2 ^ 2 % 2;
  pwt = v / 2 ^ 3 % 2;
  pcd = v / 2 ^ 4 % 2;
  accessed = v / 2 ^ 5 % 2;
  dirty = v / 2 ^ 6 % 2;
  pat = v / 2 ^ 7 % 2;
  global = v / 2 ^ 8 % 2;
  avail = v / 2 ^ 9 % 8;
  address = v / 2 ^ 12 % 2 ^ 20;
}

-- `val = v; present = 1; rw = 1` for entry `i` of the first table.
abbrev pub map_page : ℕ → ℕ → (ℕ → Pte) → ℕ → Pte
map_page i v t = update t i (record (pte_of v) { present = 1; rw = 1 })

abbrev pub set_entry : ℕ → Pde → Pages → Pages
set_entry i e p = record p { directory = update p.directory i e }

unfoldable pub page_init : Pages → Pages
page_init p =
    let d0 = for_range 1024 0 (λ i d. update d i (record (d i) { rw = 1 })) p.directory in
    let d1 = update d0 0 (or_value p.first_at (record (d0 0) { present = 1; rw = 1 })) in
    let d2 =
      update d1 1
        (record (d1 1) { upper_address = 1; present = 1; rw = 1; pcd = 1; page_size = 1 }) in
    let t0 = for_range 1024 0 (λ i t. map_page i (u32 (i * 0x1000)) t) p.first_page_table in
    let t1 = map_page 0xB7 0xB8000 t0 in
    let t2 = map_page 0xB8 0xB8000 t1 in
    let t3 = map_page 0xB9 0xB9000 t2 in
    let t4 = map_page 0xBA 0xBA000 t3 in
    let t5 = map_page 0xBB 0xBB000 t4 in record p { directory = d2; first_page_table = t5 }

-- What system_call_paging and scheduler_paging do for a process number; the upper address has ten
-- bits.
unfoldable pub map_program : ℕ → Pages → Pages
map_program process_num p =
    set_entry 32
      (record (p.directory 32) {
        upper_address = (2 + process_num) % 2 ^ 10;
        present = 1;
        rw = 1;
        us = 1;
        pcd = 1;
        page_size = 1;
      })
      p

unfoldable pub scheduler_paging : ℕ → Pages → Pages
scheduler_paging process_num p = map_program process_num p

unfoldable pub system_call_vidmap : Pages → Pages
system_call_vidmap p =
    let e = or_value p.vid_at (record (p.directory 33) { present = 1; rw = 1 }) in
    let p1 = set_entry 33 (record e { us = 1; pcd = 0; page_size = 0 }) p in
    record p1 {
      vid_page_table =
          update p.vid_page_table 0
            (record (p.vid_page_table 0) { address = 0xB8; present = 1; rw = 1; us = 1 });
    }
