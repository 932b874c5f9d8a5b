-- ===== src/Keyboard.antt =====
-- The keyboard: scan_code_to_ascii and keyboard_handler of student-distrib/keyboard.c. The byte
-- that `inb` reads from the keyboard's data port is an argument.
pub mod Codes
pub mod Characters
pub mod Table
pub mod Modifiers
pub mod Frame
pub mod Handler
pub mod Read
use orca_os.Base.{
  ℕ, ◌+◌, ◌-◌, ◌%◌, ◌*◌, pos, Bool, true, false, not, xor, ltb, leb, ◌==◌, ◌&&◌, if◌then◌else◌,
  update, for_range, u8,
}
use orca_os.Pic
use orca_os.Screen.{
  newline, space, clear, set_pos, update_cursor, shift_rows_up, putc, putc_line_runover,
  backspace_to_prev,
}
use orca_os.Console.{Terminal, Keys, Console, on_screen, on_keys}
use orca_os.Terminal.{set_buffer, terminal_open}
use orca_os.Switch.{switch_terminal}
use Codes.{
  shift_l_scan_code, shift_l_scan_code_r, shift_r_scan_code, shift_r_scan_code_r,
  caps_lock_scan_code, control_l_scan_code, control_l_scan_code_r, alt_l_scan_code,
  alt_l_scan_code_r, tab_scan_code, backspace_scan_code,
}
use Table.{char_key}

abbrev pub f1_code : ℕ
f1_code = 0x3B

abbrev pub f2_code : ℕ
f2_code = 0x3C

abbrev pub f3_code : ℕ
f3_code = 0x3D

abbrev pub enter_code : ℕ
enter_code = 0x1C

-- The cases of the modifier keys; any other code leaves the flags as they are.
unfoldable pub modify : ℕ → Keys → Keys
modify code k =
    if code == shift_l_scan_code
    then (if k.shift_r then k else record k { shift = true; shift_l = true })
    else if code == shift_l_scan_code_r
    then (if k.shift_l then record k { shift = false; shift_l = false } else k)
    else if code == shift_r_scan_code
    then (if k.shift_l then k else record k { shift = true; shift_r = true })
    else if code == shift_r_scan_code_r
    then (if k.shift_r then record k { shift = false; shift_r = false } else k)
    else if code == caps_lock_scan_code
    then record k { caps_lock = not k.caps_lock }
    else if code == control_l_scan_code
    then record k { ctrl = true }
    else if code == control_l_scan_code_r
    then record k { ctrl = false }
    else if code == alt_l_scan_code
    then record k { alt = true }
    else if code == alt_l_scan_code_r
    then record k { alt = false }
    else k

abbrev pub is_modifier : ℕ → Bool
is_modifier code =
    if code == shift_l_scan_code
    then true
    else if code == shift_l_scan_code_r
    then true
    else if code == shift_r_scan_code
    then true
    else if code == shift_r_scan_code_r
    then true
    else if code == caps_lock_scan_code
    then true
    else if code == control_l_scan_code
    then true
    else if code == control_l_scan_code_r
    then true
    else if code == alt_l_scan_code
    then true
    else code == alt_l_scan_code_r

-- How a character is echoed: by `putc_line_runover` while a read is waiting, else by `putc`.
abbrev pub echo : Bool → ℕ → Console → Console
echo true c k = on_screen (putc_line_runover c) k
echo false c k = on_screen (putc c) k

-- The buffer of the terminal on display gets one more byte.
abbrev pub store : ℕ → Console → Console
store v c =
    let t = c.on_display in
    let i = c.terminal.idxs t in
    record c {
      terminal = record {
        buffer = set_buffer i t v c.terminal.buffer;
        idxs = update c.terminal.idxs t (i + 1);
      };
    }

unfoldable pub tab_round : Console → Console
tab_round c =
    if ltb (c.terminal.idxs c.on_display) 127
    then store space (echo c.keys.line_run_over_flag space c)
    else c

unfoldable pub press_tab : Console → Console
press_tab c = on_screen update_cursor (for_range 5 0 (λ i. tab_round) c)

unfoldable pub press_backspace : Console → Console
press_backspace c =
    let t = c.on_display in
    let i = c.terminal.idxs t in
    if i == 0
    then c
    else if c.keys.line_run_over_flag
    then on_screen backspace_to_prev
        (record c { terminal = record (c.terminal) { idxs = update c.terminal.idxs t (i - 1) } })
    else on_screen backspace_to_prev c

unfoldable pub press_enter : Console → Console
press_enter c =
    on_keys (λ k. record k { enter = true })
      (on_screen update_cursor (echo c.keys.line_run_over_flag newline (on_screen shift_rows_up c)))

-- The result is an `int8_t`; every value here is below 128.
unfoldable pub scan_code_to_ascii : ℕ → Console → ℕ × Console
scan_code_to_ascii code c =
    if code == f1_code
    then (f1_code, c)
    else if code == f2_code
    then (f2_code, c)
    else if code == f3_code
    then (f3_code, c)
    else if is_modifier code
    then (0, on_keys (modify code) c)
    else if code == tab_scan_code
    then (0, press_tab c)
    else if code == backspace_scan_code
    then (0, press_backspace c)
    else if code == enter_code
    then (0, press_enter c)
    else (char_key c.keys.shift code, c)

-- Control and L: the screen and the line are cleared.
unfoldable pub clear_screen : Console → Console
clear_screen c = (terminal_open (on_screen (λ s. update_cursor (set_pos 0 0 (clear s))) c)).0

-- Alt and a function key.
unfoldable pub switch_by_key : ℕ → Console → Console
switch_by_key key c =
    if key == f1_code
    then switch_terminal (pos 0) c
    else if key == f2_code
    then switch_terminal (pos 1) c
    else if key == f3_code
    then switch_terminal (pos 2) c
    else c

-- A letter is made a capital by shift or caps lock, and not by both.
unfoldable pub capital : ℕ → Keys → ℕ
capital key k =
    if (leb 0x61 key && leb key 0x7A) && xor k.shift k.caps_lock then key - 0x20 else key

-- The last part of the handler, while a read is waiting.
unfoldable pub type_key : ℕ → Console → Console
type_key key c =
    let ch = capital key c.keys in
    if not (ch == 0) && not c.keys.ctrl
    then on_screen update_cursor (
        if ltb (c.terminal.idxs c.on_display) 127
        then store ch (on_screen (putc_line_runover ch) c)
        else c)
    else c

-- The three parts of the handler between the key's code and the end of interrupt.
unfoldable pub handle_key : ℕ → Console → Console
handle_key key c =
    let c1 = if c.keys.ctrl && (key == 0x6C) then clear_screen c else c in
    let c2 = if c1.keys.alt then switch_by_key key c1 else c1 in
    if c2.keys.line_run_over_flag && not c2.keys.alt then type_key key c2 else c2

unfoldable pub keyboard_handler : ℕ → Console → Console
keyboard_handler code c =
    let (key, c1) = scan_code_to_ascii code c in
    let c2 = handle_key (u8 key) c1 in record c2 { pic = Pic.send_eoi 1 c2.pic }
