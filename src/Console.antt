-- ===== src/Console.antt =====
-- The state that the terminal driver, the keyboard handler and the terminal switch share:
-- `terminal_buffer` and `terminal_buffer_idxs` (student-distrib/keyboard.h), the flags of
-- student-distrib/keyboard.c, `terminal_on_display` (student-distrib/scheduling.h), the screen
-- and the interrupt controllers. A flag is a `uint8_t` that is only 0 or 1, hence a Boolean.
use orca_os.Base.{ℕ, Bool}
use orca_os.Pic.{Pic}
use orca_os.Screen.{Screen}

-- `buffer i t` is `terminal_buffer[i][t]`.
pub record Terminal : Type 0 where
  pub buffer : ℕ → ℕ → ℕ
  pub idxs : ℕ → ℕ

pub record Keys : Type 0 where
  pub shift : Bool
  pub shift_l : Bool
  pub shift_r : Bool
  pub caps_lock : Bool
  pub ctrl : Bool
  pub alt : Bool
  pub enter : Bool
  pub line_run_over_flag : Bool

pub record Console : Type 0 where
  pub screen : Screen
  pub terminal : Terminal
  pub keys : Keys
  pub on_display : ℕ
  pub pic : Pic

abbrev pub on_screen : (Screen → Screen) → Console → Console
on_screen f c = record c { screen = f c.screen }

abbrev pub on_keys : (Keys → Keys) → Console → Console
on_keys f c = record c { keys = f c.keys }
