-- ===== src/System/Consoles.antt =====
-- The terminal's calls, and the validity of the console.
use orca_os.Base.{
  ℕ, zero, suc, ◌+◌, ◌≡◌, arith, ℤ, pos_part, if_cases, Option, none, some, List, [], ◌∷◌, Memory,
  for_range, true, false,
}
use orca_os.Console.{Keys, Console, on_screen, on_keys}
use orca_os.Terminal.{
  wipe, terminal_open, terminal_close, spaced, write_char, write_string_to_screen, terminal_write,
}
use orca_os.Terminal.Frame.{write_char-Keeps}
use orca_os.Keyboard.{keyboard_handler}
use orca_os.Keyboard.Modifiers.{IsKeys}
use orca_os.Keyboard.Frame.{IsConsole, on_screen-IsConsole}
use orca_os.Keyboard.Handler.{keyboard_handler-IsConsole}
use orca_os.Keyboard.Read.{wait_enter, take_line, after_wait, terminal_read}

-- Shorter lines, and other flags that agree on shift.
wiped-IsConsole : (c : Console) → IsConsole c → IsConsole (terminal_open c).0
unfolding terminal_open wipe
wiped-IsConsole c v = record {
  shown = v.shown;
  fits = λ t. ground (arith, v.fits t);
  cursor = v.cursor;
  saved_columns = v.saved_columns;
  saved_rows = v.saved_rows;
  flags = v.flags;
}

pub terminal_close-IsConsole : (c : Console) → IsConsole c → IsConsole (terminal_close c).0
unfolding terminal_close wipe
terminal_close-IsConsole c v = record {
  shown = v.shown;
  fits = λ t. ground (arith, v.fits t);
  cursor = v.cursor;
  saved_columns = v.saved_columns;
  saved_rows = v.saved_rows;
  flags = v.flags;
}

-- A character changes only the screen.
write_char-screen :
    (ch : ℕ) (c : Console) → write_char ch c ≡ on_screen (λ s. (write_char ch c).screen) c
unfolding write_char spaced
write_char-screen ch c = ground arith

write_char-IsConsole : (ch : ℕ) (c : Console) → IsConsole c → IsConsole (write_char ch c)
write_char-IsConsole ch c v =
    rw (write_char-screen ch c)
      (on_screen-IsConsole (λ s. (write_char ch c).screen) c v (write_char-Keeps ch c v.cursor))

write_loop-IsConsole :
    (s : Memory) (n i : ℕ) (c : Console)
    → IsConsole c
    → IsConsole (for_range n i (λ i. write_char (s i)) c)
unfolding for_range
write_loop-IsConsole s zero i c v = v
write_loop-IsConsole s (suc n) i c v =
    write_loop-IsConsole s n (i + 1) (write_char (s i) c) (write_char-IsConsole (s i) c v)

pub terminal_write-IsConsole :
    (buf : Memory) (n : ℤ) (c : Console) → IsConsole c → IsConsole (terminal_write buf n c).0
unfolding terminal_write write_string_to_screen
terminal_write-IsConsole buf n c v =
    terminal_close-IsConsole _
      (write_loop-IsConsole buf (pos_part n) 0 (terminal_open c).0 (wiped-IsConsole c v))

-- What a wait comes to is valid, if it ends.
abbrev Waited : Option (Console × List ℕ) → Type 0
Waited none = Unit {0}
Waited (some (c, rest)) = IsConsole c

wait_enter-IsConsole : (codes : List ℕ) (c : Console) → IsConsole c → Waited (wait_enter codes c)
unfolding wait_enter
wait_enter-IsConsole [] c v = tt
wait_enter-IsConsole (code ∷ codes) c v =
    let c1 = keyboard_handler code c in
    let w = keyboard_handler-IsConsole code c v in
    if_cases Waited c1.keys.enter (λ e. w) (λ e. wait_enter-IsConsole codes c1 w)

-- The same console with other flags, which agree on shift.
with_flags-IsConsole :
    (f : Keys → Keys) (c : Console) → IsKeys (f c.keys) → IsConsole c → IsConsole (on_keys f c)
with_flags-IsConsole f c h v = record {
  shown = v.shown;
  fits = v.fits;
  cursor = v.cursor;
  saved_columns = v.saved_columns;
  saved_rows = v.saved_rows;
  flags = h;
}

take_line-IsConsole :
    (buf : Memory) (n : ℤ) (c : Console) → IsConsole c → IsConsole (take_line buf n c).0
unfolding take_line
take_line-IsConsole buf n c v = record {
  shown = v.shown;
  fits = λ t. ground (arith, v.fits t);
  cursor = v.cursor;
  saved_columns = v.saved_columns;
  saved_rows = v.saved_rows;
  flags = v.flags;
}

abbrev pub Read : Option (Console × List ℕ × Memory × ℤ) → Type 0
Read none = Unit {0}
Read (some (c, rest, out, r)) = IsConsole c

after_wait-IsConsole :
    (buf : Memory) (n : ℤ) (o : Option (Console × List ℕ)) → Waited o → Read (after_wait buf n o)
unfolding after_wait
after_wait-IsConsole buf n none w = tt
after_wait-IsConsole buf n (some (c, rest)) w = take_line-IsConsole buf n _ (
    with_flags-IsConsole (λ k. record k { line_run_over_flag = false }) c
      (record { either = w.flags.either; not_both = w.flags.not_both }) w)

pub terminal_read-IsConsole :
    (codes : List ℕ) (buf : Memory) (n : ℤ) (c : Console)
    → IsConsole c
    → Read (terminal_read codes buf n c)
unfolding terminal_read
terminal_read-IsConsole codes buf n c v =
    let c1 = on_keys (λ k. record k { enter = false; line_run_over_flag = true }) c in
    after_wait-IsConsole buf n (wait_enter codes c1) (
      wait_enter-IsConsole codes c1 (
        with_flags-IsConsole (λ k. record k { enter = false; line_run_over_flag = true }) c
          (record { either = v.flags.either; not_both = v.flags.not_both }) v))
