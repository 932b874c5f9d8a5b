-- ===== src/Terminal/Frame.antt =====
-- Writing to the terminal keeps the cursor on the screen and touches no other video memory.
use orca_os.Base.{
  ℕ, zero, suc, ◌+◌, ◌≡◌, refl, arith, Bool-cases, inl, inr, ℤ, pos, pos_part, Memory, for_range,
  ◌==◌,
}
use orca_os.Screen.{Screen, putc, shift_rows_up, update_cursor}
use orca_os.Screen.Frame.{
  IsOnScreen, Keeps, Keeps-refl, Keeps-trans, putc-Keeps, putc_line_runover-Keeps_return,
  putc_newline-Keeps, update_cursor-Keeps,
}
use orca_os.Console.{Console}
use orca_os.Terminal.{
  terminal_open, terminal_close, spaced, write_char, write_string_to_screen, terminal_write,
}

space_first : (ch : ℕ) (c : Console) → IsOnScreen c.screen → Keeps c.screen (spaced ch c).screen
unfolding spaced
space_first ch c v = elim (Bool-cases (ch == 0)) [
  | inl e ↦ rw e (putc-Keeps 0x20 c.screen (omega arith) (omega arith) v)
  | inr e ↦ rw e (Keeps-refl c.screen v)
]

newline_row : (s : Screen) → IsOnScreen s → Keeps s (update_cursor (putc 10 (shift_rows_up s)))
newline_row s v =
    let k = putc_newline-Keeps s v in
    Keeps-trans s (putc 10 (shift_rows_up s)) _ k (update_cursor-Keeps _ k.on_screen)

pub write_char-Keeps :
    (ch : ℕ) (c : Console) → IsOnScreen c.screen → Keeps c.screen (write_char ch c).screen
unfolding write_char
write_char-Keeps ch c v =
    let k = space_first ch c v in
    elim (Bool-cases (ch == 10)) [
      | inl e ↦ rw e (Keeps-trans c.screen (spaced ch c).screen _ k (newline_row _ k.on_screen))
      | inr e ↦ rw e (
          Keeps-trans c.screen (spaced ch c).screen _ k
            (putc_line_runover-Keeps_return ch (spaced ch c).screen (ground arith) k.on_screen))
    ]

write_loop-Keeps :
    (s : Memory) (n i : ℕ) (c : Console)
    → IsOnScreen c.screen
    → Keeps c.screen (for_range n i (λ i. write_char (s i)) c).screen
unfolding for_range
write_loop-Keeps s zero i c v = Keeps-refl c.screen v
write_loop-Keeps s (suc n) i c v =
    let k = write_char-Keeps (s i) c v in
    Keeps-trans c.screen (write_char (s i) c).screen _ k
      (write_loop-Keeps s n (i + 1) (write_char (s i) c) k.on_screen)

-- Whatever bytes are written, and however many, with the cursor on the screen: the cursor is on
-- the screen afterwards, no byte outside the screen's 4000 and no saved cursor has changed, and the
-- result is the number of bytes, 0 for a negative count.
pub terminal_write-Keeps :
    (buf : Memory) (nbytes : ℤ) (c : Console)
    → IsOnScreen c.screen
    → Keeps c.screen (terminal_write buf nbytes c).0.screen
      × ((terminal_write buf nbytes c).1 ≡ pos (pos_part nbytes))
unfolding terminal_write write_string_to_screen terminal_open terminal_close
terminal_write-Keeps buf nbytes c v =
    (write_loop-Keeps buf (pos_part nbytes) 0 (terminal_open c).0 v, refl)
