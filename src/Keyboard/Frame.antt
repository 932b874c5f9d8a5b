-- ===== src/Keyboard/Frame.antt =====
-- What every key press keeps: the cursor and the saved cursors on the screen, the lines within
-- their buffers, the terminal shown one of three, the shift flags in step.
use orca_os.Base.{
  ℕ, ◌-◌, ◌≤◌, ◌<◌, ◌≡◌, ◌≢◌, refl, ap, arith, update, Bool, true, false, if_cases, ltb, ◌==◌,
  for_range_inv,
}
use orca_os.Screen.{
  Screen, space, newline, update_cursor, shift_rows_up, putc, putc_line_runover, backspace_to_prev,
}
use orca_os.Screen.Frame.{
  IsOnScreen, Keeps, putc-Keeps, putc_line_runover-Keeps_return, putc_newline-Keeps,
  putc_line_runover_newline-Keeps, update_cursor-Keeps, backspace_to_prev-Keeps,
}
use orca_os.Console.{Keys, Console, on_screen}
use orca_os.Keyboard.{
  modify, echo, store, tab_round, press_tab, press_backspace, press_enter, scan_code_to_ascii,
}
use orca_os.Keyboard.Modifiers.{IsKeys, modify-IsKeys}

pub record IsConsole (c : Console) : Type 0 where
  pub shown : c.on_display ≤ 2
  pub fits : (t : ℕ) → c.terminal.idxs t ≤ 127
  pub cursor : IsOnScreen c.screen
  pub saved_columns : (t : ℕ) → t ≤ 2 → c.screen.saved_x t < 80
  pub saved_rows : (t : ℕ) → t ≤ 2 → c.screen.saved_y t < 25
  pub flags : IsKeys c.keys

-- A change of the screen that keeps it.
pub on_screen-IsConsole :
    (f : Screen → Screen) (c : Console)
    → IsConsole c
    → Keeps c.screen (f c.screen)
    → IsConsole (on_screen f c)
on_screen-IsConsole f c v k = record {
  shown = v.shown;
  fits = v.fits;
  cursor = k.on_screen;
  saved_columns = λ t h. ground (arith, v.saved_columns t h, ap (λ (g : ℕ → ℕ). g t) k.saved_x);
  saved_rows = λ t h. ground (arith, v.saved_rows t h, ap (λ (g : ℕ → ℕ). g t) k.saved_y);
  flags = v.flags;
}

pub store-IsConsole :
    (x : ℕ) (c : Console) → c.terminal.idxs c.on_display < 127 → IsConsole c → IsConsole (store x c)
store-IsConsole x c h v = record {
  shown = v.shown;
  fits = λ t. ground (arith, v.fits t);
  cursor = v.cursor;
  saved_columns = v.saved_columns;
  saved_rows = v.saved_rows;
  flags = v.flags;
}

echo-IsConsole :
    (b : Bool) (x : ℕ) (c : Console) → x ≢ 10 → x ≢ 13 → IsConsole c → IsConsole (echo b x c)
echo-IsConsole true x c n r v =
    on_screen-IsConsole (putc_line_runover x) c v
      (putc_line_runover-Keeps_return x c.screen n v.cursor)
echo-IsConsole false x c n r v =
    on_screen-IsConsole (putc x) c v (putc-Keeps x c.screen n r v.cursor)

pub update_cursor-IsConsole : (c : Console) → IsConsole c → IsConsole (on_screen update_cursor c)
update_cursor-IsConsole c v =
    on_screen-IsConsole update_cursor c v (update_cursor-Keeps c.screen v.cursor)

echo_keeps :
    (b : Bool) (x t : ℕ) (c : Console)
    → ((echo b x c).terminal.idxs t ≡ c.terminal.idxs t) × ((echo b x c).on_display ≡ c.on_display)
echo_keeps true x t c = (refl, refl)
echo_keeps false x t c = (refl, refl)

tab_round-IsConsole : (c : Console) → IsConsole c → IsConsole (tab_round c)
unfolding tab_round
tab_round-IsConsole c v =
    let b = c.keys.line_run_over_flag in
    if_cases IsConsole (ltb (c.terminal.idxs c.on_display) 127)
      (λ e.
        store-IsConsole space (echo b space c) (ground (arith, echo_keeps b space c.on_display c))
          (echo-IsConsole b space c (omega arith) (omega arith) v))
      (λ e. v)

press_tab-IsConsole : (c : Console) → IsConsole c → IsConsole (press_tab c)
unfolding press_tab
press_tab-IsConsole c v = update_cursor-IsConsole _ (
    for_range_inv (λ k d. IsConsole d) (λ i d. tab_round d) 5 0 5 c
      (λ k d p q w. tab_round-IsConsole d w) (omega arith) v)

-- The line of the terminal on display with another length.
abbrev with_idx : ℕ → Console → Console
with_idx i c = record c {
  terminal = record (c.terminal) { idxs = update c.terminal.idxs c.on_display i };
}

with_idx-IsConsole : (i : ℕ) (c : Console) → i ≤ 127 → IsConsole c → IsConsole (with_idx i c)
with_idx-IsConsole i c h v = record {
  shown = v.shown;
  fits = λ t. ground (arith, v.fits t);
  cursor = v.cursor;
  saved_columns = v.saved_columns;
  saved_rows = v.saved_rows;
  flags = v.flags;
}

press_backspace-IsConsole : (c : Console) → IsConsole c → IsConsole (press_backspace c)
unfolding press_backspace
press_backspace-IsConsole c v =
    let i = c.terminal.idxs c.on_display in
    let k = backspace_to_prev-Keeps c.screen v.cursor in
    if_cases IsConsole (i == 0) (λ e. v)
      (λ e.
        if_cases IsConsole c.keys.line_run_over_flag
          (λ f.
            on_screen-IsConsole backspace_to_prev (with_idx (i - 1) c)
              (with_idx-IsConsole (i - 1) c (omega (arith, v.fits c.on_display)) v) k)
          (λ f. on_screen-IsConsole backspace_to_prev c v k))

with_keys-IsConsole :
    (k : Keys) (c : Console) → IsKeys k → IsConsole c → IsConsole (record c { keys = k })
with_keys-IsConsole k c h v = record {
  shown = v.shown;
  fits = v.fits;
  cursor = v.cursor;
  saved_columns = v.saved_columns;
  saved_rows = v.saved_rows;
  flags = h;
}

break_line-Keeps :
    (b : Bool) (c : Console)
    → IsConsole c
    → Keeps c.screen (echo b newline (on_screen shift_rows_up c)).screen
break_line-Keeps true c v = putc_line_runover_newline-Keeps c.screen v.cursor
break_line-Keeps false c v = putc_newline-Keeps c.screen v.cursor

break_line-IsConsole :
    (b : Bool) (c : Console) → IsConsole c → IsConsole (echo b newline (on_screen shift_rows_up c))
break_line-IsConsole true c v =
    on_screen-IsConsole (λ s. putc_line_runover newline (shift_rows_up s)) c v
      (break_line-Keeps true c v)
break_line-IsConsole false c v =
    on_screen-IsConsole (λ s. putc newline (shift_rows_up s)) c v (break_line-Keeps false c v)

press_enter-IsConsole : (c : Console) → IsConsole c → IsConsole (press_enter c)
unfolding press_enter
press_enter-IsConsole c v =
    let b = c.keys.line_run_over_flag in
    let d = on_screen update_cursor (echo b newline (on_screen shift_rows_up c)) in
    let w = update_cursor-IsConsole _ (break_line-IsConsole b c v) in
    with_keys-IsConsole (record (d.keys) { enter = true }) d
      (record { either = w.flags.either; not_both = w.flags.not_both }) w

pub scan_code_to_ascii-IsConsole :
    (code : ℕ) (c : Console) → IsConsole c → IsConsole (scan_code_to_ascii code c).1
unfolding scan_code_to_ascii
scan_code_to_ascii-IsConsole code c v = ground (
  arith,
  v,
  with_keys-IsConsole (modify code c.keys) c (modify-IsKeys code c.keys v.flags) v,
  press_tab-IsConsole c v,
  press_backspace-IsConsole c v,
  press_enter-IsConsole c v,
)
