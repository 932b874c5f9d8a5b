-- ===== src/Screen/Term.antt =====
-- The variants of student-distrib/lib.c that write at 0xB7000, and test_interrupts. The page of
-- 0xB7000 is mapped to the physical one of 0xB8000 (page_init of student-distrib/paging.c), which is
-- the screen, so that is where they write.
use orca_os.Base.{
  ℕ, ◌+◌, ◌-◌, ◌*◌, ◌%◌, leb, ◌==◌, ◌||◌, if◌then◌else◌, Memory, update, for_range, u8,
}
use orca_os.Screen.{
  Screen, video, num_cols, num_rows, attrib, space, newline, carriage_return, putc, shift_rows_up,
  update_cursor,
}

-- What the address 0xB7000 stands for.
abbrev pub term : ℕ
term = video

abbrev put_term : ℕ → ℕ → Memory → Memory
put_term i c m = update (update m (term + i * 2) c) (term + i * 2 + 1) attrib

abbrev scroll_term : ℕ → Memory → Memory
scroll_term i m =
    let m1 = update m (term + i * 2) (m (term + (i + num_cols) * 2)) in
    update m1 (term + i * 2 + 1) (m1 (term + (i + num_cols) * 2 + 1))

unfoldable pub shift_rows_up_term : Screen → Screen
shift_rows_up_term s =
    if leb (num_rows - 1) s.y
    then record s {
      y = num_rows - 2;
      mem =
          for_range num_cols ((num_rows - 1) * num_cols) (λ i m. put_term i space m)
            (for_range ((num_rows - 1) * num_cols) 0 scroll_term s.mem);
    }
    else s

-- The line break at the last column goes by `putc` and scrolls the screen itself.
unfoldable pub putc_line_runover_term : ℕ → Screen → Screen
putc_line_runover_term c s =
    let s1 =
      if leb (num_cols - 1) s.x
      then putc newline (if s.y == num_rows - 1 then shift_rows_up s else s)
      else s in
    let y = if leb (num_rows - 1) s1.y then num_rows - 1 else s1.y in
    if (c == newline) || (c == carriage_return)
    then (if c == newline then record s { x = 0; y = s.y + 1 } else s)
    else update_cursor (record s1 {
      mem = put_term (num_cols * y + s1.x) c s1.mem;
      x = (s1.x + 1) % num_cols;
      y = y;
    })

-- The character of each cell goes up by one.
unfoldable pub test_interrupts : Screen → Screen
test_interrupts s = record s {
  mem =
      for_range (num_rows * num_cols) 0
        (λ i m. update m (video + i * 2) (u8 (m (video + i * 2) + 1))) s.mem;
}
