-- ===== src/Idt.antt =====
-- The interrupt descriptor table: student-distrib/idt.c, `idt_desc_t` and `SET_IDT_ENTRY` of
-- student-distrib/x86_desc.h, and the entries that pit_init, keyboard_init and rtc_init set. The
-- assembly routines that the entries lead to are known by their addresses.
pub mod Gates
use orca_os.Base.{ℕ, ◌/◌, ◌%◌, ◌^◌, ◌==◌, if◌then◌else◌, List, [], ◌∷◌, update}

pub record Gate : Type 0 where
  pub offset_15_00 : ℕ
  pub seg_selector : ℕ
  pub reserved4 : ℕ
  pub reserved3 : ℕ
  pub reserved2 : ℕ
  pub reserved1 : ℕ
  pub size : ℕ
  pub reserved0 : ℕ
  pub dpl : ℕ
  pub present : ℕ
  pub offset_31_16 : ℕ

-- The routines that are set as handlers, without the ending `_linkage`.
pub data Linkage : Type 0 where
  divide_zero single_step nmi breakpoint overflow bound_range invalid_opcode : Linkage
  coprocessor_missing double_fault coprocessor_seg invalid_task segment_missing : Linkage
  stack_segment_fault general_protection_fault page_fault x87_floating_point : Linkage
  alignment_check machine_check simd_floating_point virtualization control_protection : Linkage
  hypervisor_injection vmm_communication security system_call pit keyboard rtc : Linkage

abbrev pub kernel_cs : ℕ
kernel_cs = 0x10

-- `SET_IDT_ENTRY`
unfoldable pub set_idt_entry : ℕ → Gate → Gate
set_idt_entry handler g = record g {
  offset_31_16 = handler / 2 ^ 16 % 2 ^ 16;
  offset_15_00 = handler % 2 ^ 16;
}

unfoldable pub set_idt : ℕ → Gate → Gate
set_idt i g = record g {
  present = 1;
  size = 1;
  reserved1 = 1;
  reserved2 = 1;
  reserved3 = 0;
  dpl = if i == 0x80 then 3 else g.dpl;
  seg_selector = kernel_cs;
}

-- `SET_IDT_ENTRY(idt[i], handler); set_idt(i);`
unfoldable pub install : ℕ → ℕ → (ℕ → Gate) → ℕ → Gate
install i handler idt = update idt i (set_idt i (set_idt_entry handler (idt i)))

unfoldable pub install_all : (Linkage → ℕ) → List (ℕ × Linkage) → (ℕ → Gate) → ℕ → Gate
install_all address [] idt = idt
install_all address ((i, l) ∷ rest) idt = install_all address rest (install i (address l) idt)

-- What `idt_init` sets, in its order.
abbrev pub exceptions : List (ℕ × Linkage)
exceptions =
    (0x00, divide_zero)
    ∷ (0x01, single_step)
    ∷ (0x02, nmi)
    ∷ (0x03, breakpoint)
    ∷ (0x04, overflow)
    ∷ (0x05, bound_range)
    ∷ (0x06, invalid_opcode)
    ∷ (0x07, coprocessor_missing)
    ∷ (0x08, double_fault)
    ∷ (0x09, coprocessor_seg)
    ∷ (0x0A, invalid_task)
    ∷ (0x0B, segment_missing)
    ∷ (0x0C, stack_segment_fault)
    ∷ (0x0D, general_protection_fault)
    ∷ (0x0E, page_fault)
    ∷ (0x10, x87_floating_point)
    ∷ (0x11, alignment_check)
    ∷ (0x12, machine_check)
    ∷ (0x13, simd_floating_point)
    ∷ (0x14, virtualization)
    ∷ (0x15, control_protection)
    ∷ (0x1C, hypervisor_injection)
    ∷ (0x1D, vmm_communication)
    ∷ (0x1E, security)
    ∷ (0x80, system_call)
    ∷ []

unfoldable pub idt_init : (Linkage → ℕ) → (ℕ → Gate) → ℕ → Gate
idt_init address idt = install_all address exceptions idt

-- What `entry` of kernel.c does to the table: idt_init, then the entries set by pit_init,
-- keyboard_init and rtc_init.
unfoldable pub boot_idt : (Linkage → ℕ) → (ℕ → Gate) → ℕ → Gate
boot_idt address idt =
    install 0x28 (address rtc)
      (install 0x21 (address keyboard) (install 0x20 (address pit) (idt_init address idt)))
