-- ===== src/Screen/Frame.antt =====
-- The cursor stays on the screen, and printing writes nowhere else.
use orca_os.Base.{
  ℕ, ◌+◌, ◌≤◌, ◌<◌, ◌≡◌, ◌≢◌, ◌⊎◌, inl, inr, refl, ◌∙◌, arith, leb, ◌==◌, if◌then◌else◌, Bool-cases,
  ==_iff,
}
use orca_os.Screen.{
  Screen, video, newline, putc, putc_line_runover, run_over, put_clamped, shift_rows_up,
  update_cursor, backspace_to_prev, backspace_on_screen, clear, set_pos,
}
use orca_os.Screen.Fill.{mem-clear, mem-shift_rows_up}

-- The cursor is at one of the 80 columns of one of the 25 rows.
pub record IsOnScreen (s : Screen) : Type 0 where
  pub column : s.x < 80
  pub row : s.y < 25

-- Outside the 4000 bytes of the screen the two memories agree.
abbrev pub SameOutside : Screen → Screen → Type 0
SameOutside s t = (a : ℕ) → (a < video) ⊎ (video + 4000 ≤ a) → t.mem a ≡ s.mem a

pub SameOutside-trans : (s t u : Screen) → SameOutside s t → SameOutside t u → SameOutside s u
SameOutside-trans s t u p q a h = q a h ∙ p a h

-- `t` has its cursor on the screen, and agrees with `s` outside the screen and on the saved cursors.
pub record Keeps (s t : Screen) : Type 0 where
  pub on_screen : IsOnScreen t
  pub outside : SameOutside s t
  pub saved_x : t.saved_x ≡ s.saved_x
  pub saved_y : t.saved_y ≡ s.saved_y

pub shift_rows_up-outside : (s : Screen) → SameOutside s (shift_rows_up s)
shift_rows_up-outside s a h = ground (arith, mem-shift_rows_up s a)

pub shift_rows_up_cursor :
    (s : Screen)
    → ((shift_rows_up s).x ≡ s.x) × ((shift_rows_up s).y ≡ (if leb 24 s.y then 23 else s.y))
unfolding shift_rows_up
shift_rows_up_cursor s = ground arith

pub shift_rows_up-saved_x : (s : Screen) → (shift_rows_up s).saved_x ≡ s.saved_x
unfolding shift_rows_up
shift_rows_up-saved_x s = ground arith

pub shift_rows_up-saved_y : (s : Screen) → (shift_rows_up s).saved_y ≡ s.saved_y
unfolding shift_rows_up
shift_rows_up-saved_y s = ground arith

pub Keeps-refl : (s : Screen) → IsOnScreen s → Keeps s s
Keeps-refl s v = record { on_screen = v; outside = λ a p. refl; saved_x = refl; saved_y = refl }

putc-newline : (s : Screen) → putc newline s ≡ record s { x = 0; y = s.y + 1 }
unfolding putc
putc-newline s = refl

run_over-column : (s : Screen) → s.x < 80 → (run_over s).x < 79
unfolding run_over
run_over-column s h = ground (arith, putc-newline s, putc-newline (shift_rows_up s))

run_over-outside : (s : Screen) → SameOutside s (run_over s)
unfolding run_over
run_over-outside s a h =
    ground (arith, putc-newline s, putc-newline (shift_rows_up s), shift_rows_up-outside s a h)

run_over-saved_x : (s : Screen) → (run_over s).saved_x ≡ s.saved_x
unfolding run_over putc
run_over-saved_x s = ground (arith, shift_rows_up-saved_x s)

run_over-saved_y : (s : Screen) → (run_over s).saved_y ≡ s.saved_y
unfolding run_over putc
run_over-saved_y s = ground (arith, shift_rows_up-saved_y s)

put_clamped-Keeps : (c : ℕ) (s : Screen) → s.x < 80 → Keeps s (put_clamped c s)
unfolding put_clamped update_cursor
put_clamped-Keeps c s h = record {
  on_screen = ground arith;
  outside = λ a p. ground arith;
  saved_x = refl;
  saved_y = refl;
}

putc_line_runover_char :
    (c : ℕ) (s : Screen) → c ≢ 10 → c ≢ 13 → putc_line_runover c s ≡ put_clamped c (run_over s)
unfolding putc_line_runover
putc_line_runover_char c s n r = ground arith

putc_line_runover_return : (c : ℕ) (s : Screen) → c ≡ 13 → putc_line_runover c s ≡ s
unfolding putc_line_runover
putc_line_runover_return c s e = ground arith

-- From any column of the screen, whatever the row, a character that is no newline and no carriage
-- return is written with no change outside the screen or of the saved cursors, and the cursor is
-- then on the screen.
pub putc_line_runover-Keeps :
    (c : ℕ) (s : Screen) → c ≢ 10 → c ≢ 13 → s.x < 80 → Keeps s (putc_line_runover c s)
putc_line_runover-Keeps c s n r h = rw (putc_line_runover_char c s n r) (record {
  on_screen = kept.on_screen;
  outside =
      SameOutside-trans s (run_over s) (put_clamped c (run_over s)) (run_over-outside s)
        kept.outside;
  saved_x = kept.saved_x ∙ run_over-saved_x s;
  saved_y = kept.saved_y ∙ run_over-saved_y s;
})
  where
    kept : Keeps (run_over s) (put_clamped c (run_over s))
    kept = put_clamped-Keeps c (run_over s) (omega (arith, run_over-column s h))

-- The same for every character but the newline: a carriage return changes nothing.
pub putc_line_runover-Keeps_return :
    (c : ℕ) (s : Screen) → c ≢ 10 → IsOnScreen s → Keeps s (putc_line_runover c s)
putc_line_runover-Keeps_return c s n v = elim (Bool-cases (c == 13)) [
  | inl e ↦ rw (putc_line_runover_return c s ((==_iff c 13).0 e)) (Keeps-refl s v)
  | inr e ↦ putc_line_runover-Keeps c s n (ground arith) v.column
]

-- A printed character, other than a line break, keeps a cursor on the screen there and changes
-- nothing outside.
pub putc-Keeps : (c : ℕ) (s : Screen) → c ≢ 10 → c ≢ 13 → IsOnScreen s → Keeps s (putc c s)
unfolding putc
putc-Keeps c s n r v = record {
  on_screen = ground arith;
  outside = λ a p. ground arith;
  saved_x = ground arith;
  saved_y = ground arith;
}

-- A line break after `shift_rows_up`, as the callers print it.
pub putc_newline-Keeps : (s : Screen) → IsOnScreen s → Keeps s (putc 10 (shift_rows_up s))
unfolding putc
putc_newline-Keeps s v = record {
  on_screen = ground (arith, putc-newline (shift_rows_up s), shift_rows_up_cursor s);
  outside = λ a p. ground (arith, putc-newline (shift_rows_up s), shift_rows_up-outside s a p);
  saved_x = shift_rows_up-saved_x s;
  saved_y = shift_rows_up-saved_y s;
}

pub update_cursor-Keeps : (s : Screen) → IsOnScreen s → Keeps s (update_cursor s)
unfolding update_cursor
update_cursor-Keeps s v = record {
  on_screen = ground arith;
  outside = λ a p. refl;
  saved_x = refl;
  saved_y = refl;
}

backspace_on_screen-Keeps : (s : Screen) → IsOnScreen s → Keeps s (backspace_on_screen s)
unfolding backspace_on_screen update_cursor
backspace_on_screen-Keeps s v = record {
  on_screen = ground arith;
  outside = λ a p. ground arith;
  saved_x = refl;
  saved_y = refl;
}

pub backspace_to_prev-Keeps : (s : Screen) → IsOnScreen s → Keeps s (backspace_to_prev s)
unfolding backspace_to_prev
backspace_to_prev-Keeps s v = record {
  on_screen = ground (arith, (backspace_on_screen-Keeps s v).on_screen);
  outside = λ a p. ground (arith, (backspace_on_screen-Keeps s v).outside a p);
  saved_x = ground (arith, (backspace_on_screen-Keeps s v).saved_x);
  saved_y = ground (arith, (backspace_on_screen-Keeps s v).saved_y);
}

pub Keeps-trans : (s t u : Screen) → Keeps s t → Keeps t u → Keeps s u
Keeps-trans s t u p q = record {
  on_screen = q.on_screen;
  outside = SameOutside-trans s t u p.outside q.outside;
  saved_x = q.saved_x ∙ p.saved_x;
  saved_y = q.saved_y ∙ p.saved_y;
}

-- The same by `putc_line_runover`.
pub putc_line_runover_newline-Keeps :
    (s : Screen) → IsOnScreen s → Keeps s (putc_line_runover 10 (shift_rows_up s))
unfolding putc_line_runover
putc_line_runover_newline-Keeps s v = record {
  on_screen = ground (arith, shift_rows_up_cursor s);
  outside = λ a p. shift_rows_up-outside s a p;
  saved_x = shift_rows_up-saved_x s;
  saved_y = shift_rows_up-saved_y s;
}

pub clear-Keeps : (s : Screen) → Keeps s (set_pos 0 0 (clear s))
unfolding set_pos clear
clear-Keeps s = record {
  on_screen = ground arith;
  outside = λ a p. ground (arith, mem-clear s a);
  saved_x = refl;
  saved_y = refl;
}
