-- ===== src/Segments.antt =====
-- The two descriptors of the global descriptor table that `entry` of student-distrib/kernel.c
-- makes, with `seg_desc_t`, `SET_LDT_PARAMS` and `SET_TSS_PARAMS` of student-distrib/x86_desc.h.
use orca_os.Base.{ℕ, ◌+◌, ◌*◌, ◌/◌, ◌%◌, ◌^◌, ◌<◌, ◌≡◌, arith}

pub record Segment : Type 0 where
  pub seg_lim_15_00 : ℕ
  pub base_15_00 : ℕ
  pub base_23_16 : ℕ
  pub type : ℕ
  pub sys : ℕ
  pub dpl : ℕ
  pub present : ℕ
  pub seg_lim_19_16 : ℕ
  pub avail : ℕ
  pub reserved : ℕ
  pub opsize : ℕ
  pub granularity : ℕ
  pub base_31_24 : ℕ

abbrev pub kernel_ds : ℕ
kernel_ds = 0x18

abbrev pub kernel_tss : ℕ
kernel_tss = 0x30

abbrev pub kernel_ldt : ℕ
kernel_ldt = 0x38

-- `SET_LDT_PARAMS` and `SET_TSS_PARAMS` are the same.
unfoldable pub set_params : ℕ → ℕ → Segment → Segment
set_params addr lim s = record s {
  base_31_24 = addr / 2 ^ 24 % 2 ^ 8;
  base_23_16 = addr / 2 ^ 16 % 2 ^ 8;
  base_15_00 = addr % 2 ^ 16;
  seg_lim_19_16 = lim / 2 ^ 16 % 2 ^ 4;
  seg_lim_15_00 = lim % 2 ^ 16;
}

-- The fields that the code sets one by one; the parameters are set afterwards.
unfoldable pub ldt_segment : ℕ → ℕ → Segment
ldt_segment addr lim = set_params addr lim (record {
  granularity = 0;
  opsize = 1;
  reserved = 0;
  avail = 0;
  present = 1;
  dpl = 0;
  sys = 0;
  type = 2;
  seg_lim_15_00 = 0;
  seg_lim_19_16 = 0;
  base_15_00 = 0;
  base_23_16 = 0;
  base_31_24 = 0;
})

unfoldable pub tss_segment : ℕ → ℕ → Segment
tss_segment addr lim = set_params addr lim (record {
  granularity = 0;
  opsize = 0;
  reserved = 0;
  avail = 0;
  seg_lim_19_16 = 0;
  present = 1;
  dpl = 0;
  sys = 0;
  type = 9;
  seg_lim_15_00 = 104;
  base_15_00 = 0;
  base_23_16 = 0;
  base_31_24 = 0;
})

-- What the processor reads from a descriptor.
abbrev pub base_of : Segment → ℕ
base_of s = s.base_15_00 + s.base_23_16 * 2 ^ 16 + s.base_31_24 * 2 ^ 24

abbrev pub limit_of : Segment → ℕ
limit_of s = s.seg_lim_15_00 + s.seg_lim_19_16 * 2 ^ 16

base_limit-set_params :
    (addr lim : ℕ) (s : Segment)
    → addr < 2 ^ 32
    → lim < 2 ^ 20
    → (base_of (set_params addr lim s) ≡ addr) × (limit_of (set_params addr lim s) ≡ lim)
unfolding set_params
base_limit-set_params addr lim s ha hl = (omega arith, omega arith)

pub ldt_segment_lem :
    (addr lim : ℕ)
    → addr < 2 ^ 32
    → lim < 2 ^ 20
    → (base_of (ldt_segment addr lim) ≡ addr) × (limit_of (ldt_segment addr lim) ≡ lim)
unfolding ldt_segment
ldt_segment_lem addr lim ha hl = base_limit-set_params addr lim _ ha hl

pub tss_segment_lem :
    (addr lim : ℕ)
    → addr < 2 ^ 32
    → lim < 2 ^ 20
    → (base_of (tss_segment addr lim) ≡ addr) × (limit_of (tss_segment addr lim) ≡ lim)
unfolding tss_segment
tss_segment_lem addr lim ha hl = base_limit-set_params addr lim _ ha hl
