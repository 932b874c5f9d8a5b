-- ===== src/Screen/Cursor.antt =====
-- How printing and erasing move the cursor, and what a line break on the last row leads to.
use orca_os.Base.{ℕ, zero, suc, ◌+◌, ◌*◌, ◌≤◌, ◌<◌, ◌≡◌, ◌≢◌, refl, ap, arith, Memory}
use orca_os.Screen.{
  Screen, video, space, newline, put_cell, putc, putc_line_runover, run_over, put_clamped,
  update_cursor, backspace_to_prev, backspace_on_screen,
}

-- Echo of a character that is no newline and no carriage return, then backspace: with the cursor
-- on the screen before the last column, the cursor returns to where it was, its cell is blank, and
-- every other byte of memory is as it was before the character was typed.
pub backspace-putc_line_runover :
    (c : ℕ) (s : Screen)
    → c ≢ 10
    → c ≢ 13
    → s.x < 79
    → s.y < 25
    → let t = backspace_to_prev (putc_line_runover c s) in
      (t.x ≡ s.x) × (t.y ≡ s.y) × ((a : ℕ) → t.mem a ≡ put_cell (80 * s.y + s.x) space s.mem a)
unfolding backspace_to_prev backspace_on_screen putc_line_runover run_over put_clamped update_cursor
backspace-putc_line_runover c s n r hx hy = (ground arith, ground arith, λ a. ground arith)

-- `n` line breaks printed by `putc` alone.
pub newlines : ℕ → Screen → Screen
newlines zero s = s
newlines (suc n) s = newlines n (putc newline s)

newlines-y : (n : ℕ) (s : Screen) → (newlines n s).y ≡ s.y + n
unfolding newlines putc
newlines-y zero s = omega arith
newlines-y (suc n) s = omega (arith, newlines-y n (putc newline s))

newlines-mem : (n : ℕ) (s : Screen) → (newlines n s).mem ≡ s.mem
unfolding newlines putc
newlines-mem zero s = refl
newlines-mem (suc n) s = newlines-mem n (putc newline s)

newlines-x : (n : ℕ) (s : Screen) → s.x ≡ 0 → (newlines n s).x ≡ 0
unfolding newlines putc
newlines-x zero s h = h
newlines-x (suc n) s h = newlines-x n (putc newline s) refl

-- `putc` never scrolls: once line breaks have taken the cursor from column 0 below the last row,
-- the next character (no newline and no carriage return) is written behind the screen's 4000 bytes, at the first cell
-- of that row, and all that the screen shows stays as it was.
pub putc-newlines_past_screen :
    (c n a : ℕ) (s : Screen)
    → a < video + 4000
    → c ≢ 10
    → c ≢ 13
    → s.x ≡ 0
    → 25 ≤ s.y + n
    → let t = putc c (newlines n s) in (t.mem (video + 160 * (s.y + n)) ≡ c) × (t.mem a ≡ s.mem a)
unfolding putc
putc-newlines_past_screen c n a s p hn hr hx hy = (
  ground (arith, newlines-y n s, newlines-x n s hx),
  ground (arith, newlines-y n s, newlines-x n s hx, ap (λ (m : Memory). m a) (newlines-mem n s)),
)
