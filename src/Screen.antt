-- ===== src/Screen.antt =====
-- The text screen: the cursor and video memory part of student-distrib/lib.c. `mem` is memory by
-- absolute address (the pages from 0xB8000 on are mapped to themselves), `x` and `y` are
-- `screen_x` and `screen_y`, signed integers of 32 bits which no call makes negative: the row can
-- leave their range only by 2 ^ 31 line breaks in putc, an overflow that C leaves undefined and that
-- is not modelled; and `ports` logs `outb`, the latest
-- first. `correct_video_mem` always returns `video_mem`.
pub mod Term
pub mod Frame
pub mod Fill
pub mod Cursor
use orca_os.Base.{
  ℕ, ◌+◌, ◌-◌, ◌*◌, ◌/◌, ◌%◌, ◌^◌, List, ◌∷◌, Memory, update, for_range, u8, Bool, ltb, leb, ◌==◌,
  ◌&&◌, ◌||◌, if◌then◌else◌,
}

pub record Screen : Type 0 where
  pub mem : Memory
  pub x : ℕ
  pub y : ℕ
  pub saved_x : ℕ → ℕ
  pub saved_y : ℕ → ℕ
  pub ports : List (ℕ × ℕ)

abbrev pub video : ℕ
video = 0xB8000

abbrev pub num_cols : ℕ
num_cols = 80

abbrev pub num_rows : ℕ
num_rows = 25

abbrev pub attrib : ℕ
attrib = 0x7

abbrev pub space : ℕ
space = 0x20

-- The character `c` and the attribute, at cell `i` of the screen.
abbrev pub put_cell : ℕ → ℕ → Memory → Memory
put_cell i c m = update (update m (video + i * 2) c) (video + i * 2 + 1) attrib

abbrev blank_round : ℕ → Memory → Memory
blank_round i m = put_cell i space m

unfoldable pub clear : Screen → Screen
clear s = record s { mem = for_range (num_rows * num_cols) 0 blank_round s.mem }

unfoldable pub cursor_init : Screen → Screen
cursor_init s = record s {
  saved_x = for_range 3 0 (λ i f. update f i 0) s.saved_x;
  saved_y = for_range 3 0 (λ i f. update f i 0) s.saved_y;
}

abbrev outb : ℕ → ℕ → List (ℕ × ℕ) → List (ℕ × ℕ)
outb v p l = (v, p) ∷ l

-- The position goes to the controller in two bytes, as a `uint16_t`.
unfoldable pub update_cursor : Screen → Screen
update_cursor s =
    let p = (s.y * num_cols + s.x) % 2 ^ 16 in
    record s {
      ports =
          outb (u8 (p / 2 ^ 8)) 0x3D5
            (outb 0x0E 0x3D4 (outb (u8 p) 0x3D5 (outb 0x0F 0x3D4 s.ports)));
    }

unfoldable pub switch_terminal_cursors : ℕ → ℕ → Screen → Screen
switch_terminal_cursors old new s =
    let sx = update s.saved_x old s.x in
    let sy = update s.saved_y old s.y in
    update_cursor (record s { saved_x = sx; saved_y = sy; x = sx new; y = sy new })

-- Cell `i` gets the two bytes of the cell one row below.
abbrev scroll_round : ℕ → Memory → Memory
scroll_round i m =
    let m1 = update m (video + i * 2) (m (video + (i + num_cols) * 2)) in
    update m1 (video + i * 2 + 1) (m1 (video + (i + num_cols) * 2 + 1))

unfoldable pub shift_rows_up : Screen → Screen
shift_rows_up s =
    if leb (num_rows - 1) s.y
    then record s {
      y = num_rows - 2;
      mem =
          for_range num_cols ((num_rows - 1) * num_cols) blank_round
            (for_range ((num_rows - 1) * num_cols) 0 scroll_round s.mem);
    }
    else s

unfoldable pub set_pos : ℕ → ℕ → Screen → Screen
set_pos x y s = record s { x = x; y = y }

-- `screen_x >= 0` always holds here.
unfoldable pub backspace_on_screen : Screen → Screen
backspace_on_screen s =
    let x = if s.x == 0 then s.x else s.x - 1 in
    update_cursor (record s {
      mem = put_cell (num_cols * s.y + x) space s.mem;
      x = x % num_cols;
      y = (s.y + x % num_cols / num_cols) % num_rows;
    })

unfoldable pub backspace_to_prev : Screen → Screen
backspace_to_prev s =
    if (s.x == 0) && ltb 0 s.y
    then record s {
      mem = put_cell (num_cols * (s.y - 1) + (num_cols - 1)) space s.mem;
      x = (num_cols - 1) % num_cols;
      y = (s.y - 1 + (num_cols - 1) % num_cols / num_cols) % num_rows;
    }
    else backspace_on_screen s

abbrev pub newline : ℕ
newline = 10

abbrev pub carriage_return : ℕ
carriage_return = 13

unfoldable pub putc : ℕ → Screen → Screen
putc c s =
    if (c == newline) || (c == carriage_return) then record s { y = s.y + 1; x = 0 } else record s {
      mem = put_cell (num_cols * s.y + s.x) c s.mem;
      x = (s.x + 1) % num_cols;
      y = (s.y + (s.x + 1) % num_cols / num_cols) % num_rows;
    }

-- The move to the next line, after a shift on the last one, at the last column.
unfoldable pub run_over : Screen → Screen
run_over s =
    if leb (num_cols - 1) s.x
    then putc newline (if s.y == num_rows - 1 then shift_rows_up s else s)
    else s

-- The rest of the branch for a character: the row is clamped, then the cell is written.
unfoldable pub put_clamped : ℕ → Screen → Screen
put_clamped c s =
    let y = if leb (num_rows - 1) s.y then num_rows - 1 else s.y in
    update_cursor
      (record s { mem = put_cell (num_cols * y + s.x) c s.mem; x = (s.x + 1) % num_cols; y = y })

unfoldable pub putc_line_runover : ℕ → Screen → Screen
putc_line_runover c s =
    if (c == newline) || (c == carriage_return)
    then (if c == newline then record s { x = 0; y = s.y + 1 } else s)
    else put_clamped c (run_over s)
