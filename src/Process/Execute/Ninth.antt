-- ===== src/Process/Execute/Ninth.antt =====
-- Where the check of sys_close in student-distrib/system_call.c, which lets descriptor 8 pass, sends
-- the kernel in a program that sys_execute has started.
use orca_os.Base.{
  ℕ, ◌+◌, ◌≤◌, ◌<◌, ◌≡◌, ◌≢◌, arith, ◌∙◌, ℤ, pos, ltb, if◌then◌else◌, some, Memory, load32,
}
use orca_os.Files.{Dentry}
use orca_os.Process.{Kernel, below}
use orca_os.Process.Calls.{Events, jumps, sys_close, ninth_flags, ninth_close}
use orca_os.Process.Execute.{sys_execute}
use orca_os.Process.Execute.Command.{IsCommand}
use orca_os.Process.Execute.Started.{IsProgram, Started, sys_execute_lem}

-- A word that lies within the arguments of the command.
argument_word :
    (command args : Memory) (i len at : ℕ)
    → ((x : ℕ) → x < 127 → args x ≡ (if ltb x len then command (i + x) else 0))
    → at + 4 ≤ len
    → len ≤ 126
    → load32 args at ≡ load32 command (i + at)
unfolding load32
argument_word command args i len at h fits short =
    let byte : (j : ℕ) → j < 4 → args (at + j) ≡ command (i + at + j) =
      λ j l. h (at + j) (omega arith) ∙ ground arith in
    ground
      (arith, h at (omega arith), byte 1 (omega arith), byte 2 (omega arith), byte 3 (omega arith))

-- Its first byte is not zero.
word_not_zero : (m : Memory) (a : ℕ) → m a ≢ 0 → load32 m a ≢ 0
unfolding load32
word_not_zero m a h = λ e. h (omega arith)

-- A program started by a command with 24 to 126 bytes of arguments calls `sys_close(8)`: control
-- goes to the address that the bytes 8 to 11 of those arguments make, which may be any bytes but
-- zeros. That the command starts the program is as for `sys_execute_lem`.
pub sys_close_eight :
    (command stack : Memory) (n i len fuel : ℕ) (k : Kernel) (e : Dentry) (ev : Events)
    → IsCommand command n i len
    → 0 < n
    → 24 ≤ len
    → len ≤ 126
    → i + len < fuel
    → k.process_number < 6
    → ((k.pcbs (below (k.process_number + 1))).file_array 2).flags ≡ 0
    → IsProgram command k e
    → (k' : Kernel) × (r : ℤ) × (sys_execute fuel (some command) stack k ≡ some (k', r))
      × (sys_close ev (pos 8) k' ≡ jumps (load32 command (i + 8)))
unfolding sys_close
sys_close_eight command stack n i len fuel k e ev c named long short enough h free p =
    let x = sys_execute_lem command stack n i len fuel k e c named short enough h free p in
    let w : Started command i len k e x.0 x.1 = x.3 in
    let args = (x.0.pcbs x.0.current_pcb).arguments in
    let close : ninth_close x.0 ≡ load32 command (i + 8) =
      argument_word command args i len 8 w.arguments (omega arith) short in
    let flags : ninth_flags x.0 ≡ load32 command (i + 20) =
      argument_word command args i len 20 w.arguments (omega arith) short in
    let used : ninth_flags x.0 ≢ 0 = λ z.
      word_not_zero command (i + 20) (c.bytes (i + 20) (omega arith) (omega arith))
        (omega (arith, flags, z)) in
    (x.0, x.1, x.2, ground (arith, used, close))
