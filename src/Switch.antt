-- ===== src/Switch.antt =====
-- `switch_terminal` of student-distrib/scheduling.c: the screen is saved in the page of the
-- terminal that was shown, and the page of the new one is copied to the screen.
pub mod Pages
use orca_os.Base.{
  ℕ, ◌+◌, ◌*◌, ℤ, pos, pos_part, ltb_ℤ, Memory, update, for_range, ◌||◌, if◌then◌else◌,
}
use orca_os.Screen.{video, switch_terminal_cursors}
use orca_os.Console.{Console}

abbrev pub four_kb : ℕ
four_kb = 0x1000

-- The page that keeps terminal `t` while another is shown.
abbrev pub page : ℕ → ℕ
page t = video + (t + 1) * four_kb

-- `*(dst + i) = *(src + i)`
abbrev pub copy_round : ℕ → ℕ → ℕ → Memory → Memory
copy_round dst src i m = update m (dst + i) (m (src + i))

unfoldable pub show_terminal : ℕ → Console → Console
show_terminal t c =
    let m1 = for_range four_kb 0 (copy_round (page c.on_display) video) c.screen.mem in
    let m2 = for_range four_kb 0 (copy_round video (page t)) m1 in
    record c {
      screen = switch_terminal_cursors c.on_display t (record c.screen { mem = m2 });
      on_display = t;
    }

unfoldable pub switch_terminal : ℤ → Console → Console
switch_terminal t c = if ltb_ℤ t (pos 0) || ltb_ℤ (pos 2) t then c else show_terminal (pos_part t) c
