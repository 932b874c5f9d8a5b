-- ===== src/Keyboard/Handler.antt =====
-- The handler as a whole keeps the console valid, the part after the scan code step by step.
use orca_os.Base.{pos_part, ℕ, ◌≤◌, ◌≢◌, arith, ◌&&◌, ℤ, pos, if_cases, ltb, ◌==◌, u8}
use orca_os.Screen.{clear, set_pos, update_cursor, putc_line_runover, switch_terminal_cursors}
use orca_os.Screen.Frame.{putc_line_runover-Keeps_return, clear-Keeps}
use orca_os.Console.{Keys, Console, on_screen}
use orca_os.Terminal.{terminal_open, wipe}
use orca_os.Switch.{switch_terminal, show_terminal}
use orca_os.Keyboard.{
  scan_code_to_ascii, clear_screen, switch_by_key, capital, type_key, handle_key, keyboard_handler,
}
use orca_os.Keyboard.Table.{char_key_ascii}
use orca_os.Keyboard.Frame.{
  IsConsole, on_screen-IsConsole, store-IsConsole, update_cursor-IsConsole,
  scan_code_to_ascii-IsConsole,
}

clear_screen-IsConsole : (c : Console) → IsConsole c → IsConsole (clear_screen c)
unfolding clear_screen terminal_open wipe
clear_screen-IsConsole c v =
    let k = clear-Keeps c.screen in
    let w =
      update_cursor-IsConsole (record c { screen = set_pos 0 0 (clear c.screen) })
        (on_screen-IsConsole (λ s. set_pos 0 0 (clear s)) c v k) in
    record {
      shown = w.shown;
      fits = λ t. ground (arith, w.fits t);
      cursor = w.cursor;
      saved_columns = w.saved_columns;
      saved_rows = w.saved_rows;
      flags = w.flags;
    }

pub show_terminal-IsConsole :
    (t : ℕ) (c : Console) → t ≤ 2 → IsConsole c → IsConsole (show_terminal t c)
unfolding show_terminal switch_terminal_cursors update_cursor
show_terminal-IsConsole t c h v = record {
  shown = h;
  fits = v.fits;
  cursor = record {
    column = ground (arith, v.saved_columns t h);
    row = ground (arith, v.saved_rows t h);
  };
  saved_columns = λ u p. ground (arith, v.saved_columns u p);
  saved_rows = λ u p. ground (arith, v.saved_rows u p);
  flags = v.flags;
}

pub switch_terminal-IsConsole :
    (t : ℤ) (c : Console) → IsConsole c → IsConsole (switch_terminal t c)
unfolding switch_terminal
switch_terminal-IsConsole t c v =
    if_cases IsConsole _ (λ e. v) (λ e. show_terminal-IsConsole (pos_part t) c (ground arith) v)

switch_by_key-IsConsole : (key : ℕ) (c : Console) → IsConsole c → IsConsole (switch_by_key key c)
unfolding switch_by_key
switch_by_key-IsConsole key c v =
    if_cases IsConsole (key == 0x3B) (λ e. switch_terminal-IsConsole (pos 0) c v)
      (λ e.
        if_cases IsConsole (key == 0x3C) (λ f. switch_terminal-IsConsole (pos 1) c v)
          (λ f.
            if_cases IsConsole (key == 0x3D) (λ g. switch_terminal-IsConsole (pos 2) c v) (λ g. v)))

capital-ne : (key : ℕ) (k : Keys) → key ≢ 10 → capital key k ≢ 10
unfolding capital
capital-ne key k h = ground arith

type_key-IsConsole : (key : ℕ) (c : Console) → key ≢ 10 → IsConsole c → IsConsole (type_key key c)
unfolding type_key
type_key-IsConsole key c h v =
    let ch = capital key c.keys in
    if_cases IsConsole _
      (λ e. update_cursor-IsConsole _ (
        if_cases IsConsole (ltb (c.terminal.idxs c.on_display) 127)
          (λ f. store-IsConsole ch (on_screen (putc_line_runover ch) c) (ground arith) (
            on_screen-IsConsole (putc_line_runover ch) c v
              (putc_line_runover-Keeps_return ch c.screen (capital-ne key c.keys h) v.cursor)))
          (λ f. v)))
      (λ e. v)

handle_key-IsConsole :
    (key : ℕ) (c : Console) → key ≢ 10 → IsConsole c → IsConsole (handle_key key c)
unfolding handle_key
handle_key-IsConsole key c h v =
    let v1 =
      if_cases IsConsole (c.keys.ctrl && (key == 0x6C)) (λ e. clear_screen-IsConsole c v)
        (λ e. v) in
    let v2 = if_cases IsConsole _ (λ e. switch_by_key-IsConsole key _ v1) (λ e. v1) in
    if_cases IsConsole _ (λ e. type_key-IsConsole key _ h v2) (λ e. v2)

scanned-ne : (code : ℕ) (c : Console) → u8 (scan_code_to_ascii code c).0 ≢ 10
unfolding scan_code_to_ascii
scanned-ne code c = ground (arith, char_key_ascii c.keys.shift code)

-- Whatever byte the keyboard sends, the handler keeps the console valid: one of the three terminals
-- is on display, no terminal's line has more than 127 bytes, the cursor and the three saved ones
-- are on the screen, and the flag for shift is set just when one of the two keys' flags is, which
-- are never both set.
pub keyboard_handler-IsConsole :
    (code : ℕ) (c : Console) → IsConsole c → IsConsole (keyboard_handler code c)
unfolding keyboard_handler
keyboard_handler-IsConsole code c v =
    let w =
      handle_key-IsConsole (u8 (scan_code_to_ascii code c).0) (scan_code_to_ascii code c).1
        (scanned-ne code c) (scan_code_to_ascii-IsConsole code c v) in
    record {
      shown = w.shown;
      fits = w.fits;
      cursor = w.cursor;
      saved_columns = w.saved_columns;
      saved_rows = w.saved_rows;
      flags = w.flags;
    }
