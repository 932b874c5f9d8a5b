-- ===== src/Process/Execute/Handover.antt =====
-- The arguments of a command, as the program that it starts gets them.
use orca_os.Base.{
  ℕ, zero, suc, ◌+◌, ◌^◌, ◌≤◌, ◌<◌, ◌≡◌, ◌≢◌, refl, ap, ◌∙◌, arith, ℤ, pos, ltb, ◌==◌,
  if◌then◌else◌, some, Memory,
}
use orca_os.Files.{Dentry}
use orca_os.Process.{Kernel, below}
use orca_os.Process.Calls.{sys_getargs}
use orca_os.Process.Calls.Arguments.{run_length, sys_getargs_lem}
use orca_os.Process.Execute.{sys_execute}
use orca_os.Process.Execute.Command.{IsCommand}
use orca_os.Process.Execute.Started.{IsProgram, Started, sys_execute_lem}

run_length_of :
    (args : Memory) (a len n : ℕ)
    → ((x : ℕ) → a ≤ x → x < a + len → args x ≢ 0)
    → args (a + len) ≡ 0
    → len ≤ n
    → run_length args a n ≡ len
unfolding run_length
run_length_of args a zero zero h z le = refl
run_length_of args a zero (suc n) h z le = ground (arith, z)
run_length_of args a (suc len) zero h z le = absurd (omega arith)
run_length_of args a (suc len) (suc n) h z le = ground (
  arith,
  h a (omega arith) (omega arith),
  run_length_of args (a + 1) len n (λ x l l'. h x (omega arith) (omega arith)) (ground (arith, z))
      (omega arith),
)

hands_over :
    (command : Memory) (i len count : ℕ) (buf : Memory) (k : Kernel)
    → (k.pcbs k.current_pcb).arg_position ≡ 0
    → ((x : ℕ)
        → x < 127
        → (k.pcbs k.current_pcb).arguments x ≡ (if ltb x len then command (i + x) else 0))
    → ((j : ℕ) → j < len → command (i + j) ≢ 0)
    → len ≤ 126
    → 0 < len
    → len ≤ count
    → count < 2 ^ 31
    → let (k2, out, r2) = sys_getargs buf (pos count) k in
      ((j : ℕ) → out j ≡ (if ltb j len then command (i + j) else if j == len then 0 else buf j))
      × (r2 ≡ pos 0)
hands_over command i len count buf k first args bytes short some_args room small =
    let p = k.pcbs k.current_pcb in
    let w = sys_getargs_lem buf count k (omega arith) in
    let run : run_length p.arguments p.arg_position count ≡ len =
      ap (λ a. run_length p.arguments a count) first
      ∙ run_length_of p.arguments 0 len count (λ x l l'. ground (arith, args x, bytes x))
          (ground (arith, args len)) room in
    (λ j. ground (arith, w.0 j, run, first, args j), ground (arith, w.2, run))

-- Where a command with a program's name and 1 to 126 bytes of arguments starts the program, the
-- first `sys_getargs` of that program, with a count that they fit and a buffer for one byte more,
-- returns 0 and fills the buffer with exactly the command's arguments and a zero.
pub sys_getargs-sys_execute :
    (command stack : Memory) (n i len fuel : ℕ) (k : Kernel) (e : Dentry)
    → IsCommand command n i len
    → 0 < n
    → len ≤ 126
    → i + len < fuel
    → k.process_number < 6
    → ((k.pcbs (below (k.process_number + 1))).file_array 2).flags ≡ 0
    → IsProgram command k e
    → (buf : Memory) (count : ℕ) → 0 < len
    → len ≤ count
    → count < 2 ^ 31
    → (k' : Kernel) × (r : ℤ) × (sys_execute fuel (some command) stack k ≡ some (k', r))
      × (let (k2, out, r2) = sys_getargs buf (pos count) k' in
          ((j : ℕ) → out j ≡ (if ltb j len then command (i + j) else if j == len then 0 else buf j))
          × (r2 ≡ pos 0))
sys_getargs-sys_execute command stack n i len fuel k e c named short enough h free p buf count
      some_args room small =
    let x = sys_execute_lem command stack n i len fuel k e c named short enough h free p in
    let w : Started command i len k e x.0 x.1 = x.3 in
    let given =
      hands_over command i len count buf x.0 w.position w.arguments
        (λ j l. c.bytes (i + j) (omega arith) (omega arith)) short some_args room small in
    (x.0, x.1, x.2, given)
