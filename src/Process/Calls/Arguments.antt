-- ===== src/Process/Calls/Arguments.antt =====
-- What `sys_getargs` hands over.
use orca_os.Base.{
  ℕ, zero, suc, ◌+◌, ◌^◌, ◌≤◌, ◌<◌, ◌≡◌, ap, arith, pos, minus_one, ltb, leb, ◌==◌, ◌&&◌,
  if◌then◌else◌, Memory, update, u32,
}
use orca_os.Process.{Kernel}
use orca_os.Process.Calls.{copy_args, sys_getargs}

-- How many bytes from `a` on, at most `left`, come before the first zero.
unfoldable pub run_length : Memory → ℕ → ℕ → ℕ
run_length args a zero = 0
run_length args a (suc left) = if args a == 0 then 0 else suc (run_length args (a + 1) left)

run_length_bound : (args : Memory) (a left : ℕ) → run_length args a left ≤ left
unfolding run_length
run_length_bound args a zero = omega arith
run_length_bound args a (suc left) = ground (arith, run_length_bound args (a + 1) left)

copy_args_lem :
    (args : Memory) (at n left : ℕ) (buf : Memory)
    → at + n + left < 2 ^ 32
    → let r = copy_args args at n left buf in
      let len = run_length args (at + n) left in
      (r.0 ≡ n + len)
      × ((j : ℕ) → r.1 j ≡ (if leb n j && ltb j (n + len) then args (at + j) else buf j))
unfolding copy_args run_length
copy_args_lem args at n zero buf h = (omega arith, λ j. ground arith)
copy_args_lem args at n (suc left) buf h =
    let here : u32 (at + n) ≡ at + n = omega arith in
    let next : at + (n + 1) ≡ at + n + 1 = omega arith in
    let ih =
      copy_args_lem args at (n + 1) left (update buf n (args (u32 (at + n)))) (omega arith) in
    let byte = ap args here in
    let len = ap (λ a. run_length args a left) next in
    (ground (arith, ih.0, byte, len), λ j. ground (arith, ih.1 j, byte, len))

-- Where the argument's position and the count add up to less than 2 ^ 32: the buffer gets the bytes
-- of the arguments from the position on, up to the first zero and at most the count, and a zero
-- behind them, which with a count that is used up is the byte behind the count, and is else
-- unchanged; the position moves on by their number; the result is -1 if there are none and else 0.
pub sys_getargs_lem :
    (buf : Memory) (n : ℕ) (k : Kernel)
    → (k.pcbs k.current_pcb).arg_position + n < 2 ^ 32
    → let p = k.pcbs k.current_pcb in
      let len = run_length p.arguments p.arg_position n in
      let (k', out, r) = sys_getargs buf (pos n) k in
      ((j : ℕ)
        → out j
          ≡ (if ltb j len then p.arguments (p.arg_position + j) else if j == len then 0 else buf j))
      × ((k'.pcbs k.current_pcb).arg_position ≡ p.arg_position + len)
      × (r ≡ (if len == 0 then minus_one else pos 0))
unfolding sys_getargs
sys_getargs_lem buf n k h =
    let p = k.pcbs k.current_pcb in
    let w = copy_args_lem p.arguments p.arg_position 0 n buf (omega arith) in
    let bound = run_length_bound p.arguments p.arg_position n in
    let start : run_length p.arguments (p.arg_position + 0) n
        ≡ run_length p.arguments p.arg_position n =
      ap (λ a. run_length p.arguments a n)
        (let e : p.arg_position + 0 ≡ p.arg_position = omega arith in e) in
    (
      λ j. ground (arith, w.0, w.1 j, start),
      ground (arith, w.0, start, bound),
      ground (arith, w.0, start),
    )
