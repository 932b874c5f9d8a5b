-- ===== src/Tests/Consoles.antt =====
-- Examples on the screen, the keyboard and the terminals.
use orca_os.Base.{
  ℕ, ◌+◌, ◌*◌, ◌≡◌, refl, arith, ltb, if◌then◌else◌, pos, [], ◌∷◌, get_or, some, Memory,
}
use orca_os.Screen.{Screen, video, space, put_cell, putc, putc_line_runover, backspace_to_prev}
use orca_os.Screen.Frame.{IsOnScreen, Keeps}
use orca_os.Screen.Cursor.{newlines, backspace-putc_line_runover, putc-newlines_past_screen}
use orca_os.Console.{Console}
use orca_os.Terminal.{terminal_write}
use orca_os.Terminal.Frame.{terminal_write-Keeps}
use orca_os.Switch.{switch_terminal, show_terminal}
use orca_os.Switch.Pages.{switch_terminal_back}
use orca_os.Keyboard.{keyboard_handler, enter_code, f1_code, f3_code}
use orca_os.Keyboard.Table.{char_key}
use orca_os.Keyboard.Frame.{IsConsole}
use orca_os.Keyboard.Handler.{keyboard_handler-IsConsole}
use orca_os.Keyboard.Modifiers.{function_keys_confused}
use orca_os.Keyboard.Read.{terminal_read}
use orca_os.Keyboard.Read.Line.{terminal_read_line}
use orca_os.Keyboard.Read.Press.{typed}
use orca_os.Tests.{blank, some_screen, some_console}

some_screen-IsOnScreen : IsOnScreen some_screen
some_screen-IsOnScreen = record { column = omega arith; row = omega arith }

some_console-IsConsole : IsConsole some_console
some_console-IsConsole = record {
  shown = omega arith;
  fits = λ t. omega arith;
  cursor = some_screen-IsOnScreen;
  saved_columns = λ t h. omega arith;
  saved_rows = λ t h. omega arith;
  flags = record { either = refl; not_both = refl };
}

keyboard_handler_example : IsConsole (keyboard_handler 0x1E some_console)
keyboard_handler_example = keyboard_handler-IsConsole 0x1E some_console some_console-IsConsole

terminal_read_example :
    (d : Console) × (out : Memory) × (terminal_read
        (0x1E ∷ enter_code ∷ [])
        blank
        (pos 4)
        some_console
      ≡ some (d, [], out, pos 2))
    × ((j : ℕ)
        → out j ≡ (
            if ltb j 1
            then typed some_console.keys (get_or (0x1E ∷ []) j 0)
            else if ltb j 4
            then 0
            else 0))
    × (d.terminal.idxs 0 ≡ 0)
unfolding char_key
terminal_read_example =
    terminal_read_line (0x1E ∷ []) [] blank 4 some_console refl refl refl
      ((omega arith, λ e. absurd (omega arith)), tt) (omega arith) (omega arith)

function_keys_example :
    (keyboard_handler f1_code some_console ≡ keyboard_handler 0x27 some_console)
    × (keyboard_handler f3_code some_console ≡ keyboard_handler 0x0D some_console)
function_keys_example = function_keys_confused some_console refl

terminal_write_example :
    Keeps some_screen (terminal_write (λ i. 10) (pos 3) some_console).0.screen
    × ((terminal_write (λ i. 10) (pos 3) some_console).1 ≡ pos 3)
terminal_write_example = terminal_write-Keeps (λ i. 10) (pos 3) some_console some_screen-IsOnScreen

backspace_example :
    let t = backspace_to_prev (putc_line_runover 97 some_screen) in
    (t.x ≡ 3) × (t.y ≡ 24) × ((a : ℕ) → t.mem a ≡ put_cell (80 * 24 + 3) space blank a)
backspace_example =
    backspace-putc_line_runover 97 some_screen (λ e. absurd (omega arith))
      (λ e. absurd (omega arith)) (omega arith) (omega arith)

abbrev left_column : Screen
left_column = record some_screen { x = 0 }

newlines_example :
    let t = putc 97 (newlines 1 left_column) in
    (t.mem (video + 160 * (24 + 1)) ≡ 97) × (t.mem video ≡ 0)
newlines_example =
    putc-newlines_past_screen 97 1 video left_column (omega arith) (λ e. absurd (omega arith))
      (λ e. absurd (omega arith)) refl (omega arith)

switch_terminal_example :
    let e = switch_terminal (pos 0) (switch_terminal (pos 1) some_console) in
    (e.screen.mem video ≡ 0) × (e.screen.x ≡ 3) × (e.screen.y ≡ 24) × (e.on_display ≡ 0)
unfolding switch_terminal show_terminal
switch_terminal_example =
    switch_terminal_back 1 some_console (switch_terminal (pos 1) some_console) video (omega arith)
      (omega arith) (omega arith) (omega arith) (λ e. absurd (omega arith)) refl (λ b h. refl) refl
      refl
