-- ===== src/Keyboard/Read.antt =====
-- `terminal_read` of student-distrib/keyboard.c. The loop that spins on `enter` is driven by the
-- scan codes that the keyboard sends while it waits; when they run out it is still waiting, and
-- the result is `none`. What the handler does before the loop's first store to
-- `line_run_over_flag` is not told apart from what it does after it.
pub mod Copy
pub mod Press
pub mod Line
use orca_os.Base.{
  ℕ, zero, suc, ◌+◌, ◌-◌, ℤ, pos, pos_part, Bool, true, false, ltb, leb, if◌then◌else◌, List, [],
  ◌∷◌, Option, none, some, Memory, update, for_range,
}
use orca_os.Console.{Console, on_keys}
use orca_os.Keyboard.{keyboard_handler}

-- `while (!enter) line_run_over_flag = 1;`, with what is left of the scan codes.
unfoldable pub wait_enter : List ℕ → Console → Option (Console × List ℕ)
wait_enter [] c = none
wait_enter (code ∷ codes) c =
    let c1 = keyboard_handler code c in
    let rest = wait_enter codes c1 in if c1.keys.enter then some (c1, codes) else rest

-- The first loop of the copy, with `left` rounds until `i` is `nbytes - 1`: where `i` ends, and
-- the buffer.
unfoldable pub copy_line : (ℕ → ℕ) → ℕ → ℕ → ℕ → Memory → ℕ × Memory
copy_line line idx zero i buf = (i, buf)
copy_line line idx (suc left) i buf =
    let rest = copy_line line idx left (i + 1) (update buf i (line i)) in
    if leb idx i then (i, buf) else rest

-- What is done once Enter has been pressed.
unfoldable pub take_line : Memory → ℤ → Console → Console × Memory × ℤ
take_line buf nbytes c =
    let t = c.on_display in
    let n = pos_part nbytes in
    let (i, buf1) = copy_line (λ i. c.terminal.buffer i t) (c.terminal.idxs t) (n - 1) 0 buf in
    let buf2 = for_range (n - i) i (λ j b. update b j 0) (update buf1 i 0) in
    (
      record c { terminal = record (c.terminal) { idxs = update c.terminal.idxs t 0 } },
      buf2,
      pos (i + 1),
    )

-- What follows the wait, if it ends: the result is the console, the scan codes that are left, the
-- buffer and the returned number.
unfoldable pub after_wait :
    Memory → ℤ → Option (Console × List ℕ) → Option (Console × List ℕ × Memory × ℤ)
after_wait buf nbytes none = none
after_wait buf nbytes (some (c, rest)) =
    let c1 = on_keys (λ k. record k { line_run_over_flag = false }) c in
    let (c2, out, r) = take_line buf nbytes c1 in some (c2, rest, out, r)

unfoldable pub terminal_read :
    List ℕ → Memory → ℤ → Console → Option (Console × List ℕ × Memory × ℤ)
terminal_read codes buf nbytes c =
    after_wait buf nbytes
      (wait_enter codes (on_keys (λ k. record k { enter = false; line_run_over_flag = true }) c))
