-- ===== src/Interrupts.antt =====
-- The handlers of exceptions: student-distrib/interrupts.c. Each prints its message and then loops
-- for ever, so what it leaves is the screen that it loops on.
use orca_os.Base.{ℕ, List, codes, Option, none, some}
use orca_os.Screen.{Screen}
use orca_os.Printf.{printf}
use orca_os.Idt.{
  Linkage, divide_zero, single_step, nmi, breakpoint, overflow, bound_range, invalid_opcode,
  coprocessor_missing, double_fault, coprocessor_seg, invalid_task, segment_missing,
  stack_segment_fault, general_protection_fault, page_fault, x87_floating_point, alignment_check,
  machine_check, simd_floating_point, virtualization, control_protection, hypervisor_injection,
  vmm_communication, security,
}

-- The message of the handler that a routine calls; the last four are no exceptions.
unfoldable pub message : Linkage → Option (List ℕ)
message divide_zero = some (codes "Exception: Divide by Zero")
message single_step = some (codes "Exception: Single-step interrupt")
message nmi = some (codes "Exception: NMI Exception")
message breakpoint = some (codes "Exception: Breakpoint Exception")
message overflow = some (codes "Exception: Overflow Exception")
message bound_range = some (codes "Exception: Bound Range exceeded")
message invalid_opcode = some (codes "Exception: Invalid Opcode")
message coprocessor_missing = some (codes "Exception: Coprocessor not available")
message double_fault = some (codes "Exception: Double Fault Exception")
message coprocessor_seg = some (codes "Exception: Coprocessor Segment Overrun")
message invalid_task = some (codes "Exception: Invalid Task State Segment")
message segment_missing = some (codes "Exception: Segment Not Present")
message stack_segment_fault = some (codes "Exception: Stack-Segment Fault")
message general_protection_fault = some (codes "Exception: General Protection Fault")
message page_fault = some (codes "Exception: Page Fault")
message x87_floating_point = some (codes "Exception: x87 Floating-Point Exception")
message alignment_check = some (codes "Exception: Alignment Check")
message machine_check = some (codes "Exception: Machine Check")
message simd_floating_point = some (codes "Exception: SIMD Floating-Point Exception")
message virtualization = some (codes "Exception: Virtualization Exception")
message control_protection = some (codes "Exception: Control Protection Exception")
message hypervisor_injection = some (codes "Exception: Hypervisor Injection Exception")
message vmm_communication = some (codes "Exception: VMM Communication Exception")
message security = some (codes "Exception: Security Exception")
message _ = none

abbrev screen_of : Option (Screen × ℕ) → Option Screen
screen_of (some (s, n)) = some s
screen_of none = none

-- The screen on which the handler of a routine loops.
unfoldable pub exception_handler : (ℕ → List ℕ) → (ℕ → ℕ) → Linkage → Screen → Option Screen
exception_handler text words l s = elim (message l) [
  | none ↦ none
  | some format ↦ screen_of (printf text words format s)
]
