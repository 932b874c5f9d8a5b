-- ===== src/Terminal.antt =====
-- The terminal driver: terminal_open, terminal_close and terminal_write of
-- student-distrib/keyboard.c, and write_string_to_screen of student-distrib/lib.c, which it calls.
-- `terminal_read` stands in Keyboard/Read, since it waits for the keyboard. Masking of interrupts
-- (cli, sti) is not part of the state.
pub mod Frame
use orca_os.Base.{ℕ, ◌+◌, ℤ, pos, pos_part, Memory, update, for_range, ◌==◌, if◌then◌else◌}
use orca_os.Screen.{shift_rows_up, putc, putc_line_runover, update_cursor, newline, space}
use orca_os.Console.{Terminal, Console, on_screen}

-- `terminal_buffer[i][t] = v`
abbrev pub set_buffer : ℕ → ℕ → ℕ → (ℕ → ℕ → ℕ) → ℕ → ℕ → ℕ
set_buffer i t v b = update b i (update (b i) t v)

unfoldable pub wipe : ℕ → Terminal → Terminal
wipe t s = record {
  buffer = for_range 127 0 (λ i b. set_buffer i t 0 b) s.buffer;
  idxs = update s.idxs t 0;
}

-- The file name is not used.
unfoldable pub terminal_open : Console → Console × ℤ
terminal_open c = (record c { terminal = wipe c.on_display c.terminal }, pos 0)

-- The file descriptor is not used.
unfoldable pub terminal_close : Console → Console × ℤ
terminal_close c = (record c { terminal = wipe c.on_display c.terminal }, pos 0)

-- A zero is printed as a space first, and then as itself.
unfoldable pub spaced : ℕ → Console → Console
spaced ch c = if ch == 0 then on_screen (putc space) c else c

-- One round of the loop of `write_string_to_screen`, for the character `ch`.
unfoldable pub write_char : ℕ → Console → Console
write_char ch c =
    if ch == newline
    then on_screen (λ s. update_cursor (putc newline (shift_rows_up s))) (spaced ch c)
    else on_screen (putc_line_runover ch) (spaced ch c)

-- A count below one makes no round.
unfoldable pub write_string_to_screen : Memory → ℤ → Console → Console × ℤ
write_string_to_screen s nbytes c =
    let n = pos_part nbytes in
    let c1 = (terminal_open c).0 in
    let c2 = for_range n 0 (λ i. write_char (s i)) c1 in ((terminal_close c2).0, pos n)

unfoldable pub terminal_write : Memory → ℤ → Console → Console × ℤ
terminal_write buf nbytes c = write_string_to_screen buf nbytes c
