-- ===== src/Screen/Fill.antt =====
-- What the loops over video memory leave in each byte.
use orca_os.Base.{
  ℕ, zero, suc, ◌+◌, ◌-◌, ◌*◌, ◌%◌, ◌≡◌, arith, ltb, leb, ◌==◌, ◌&&◌, if◌then◌else◌, Memory,
  for_range,
}
use orca_os.Screen.{
  Screen, video, num_cols, space, attrib, blank_round, scroll_round, clear, shift_rows_up,
}

-- The byte at address `a` of a blank cell: the space, or the attribute behind it.
abbrev pub blank_byte : ℕ → ℕ
blank_byte a = if (a - video) % 2 == 0 then space else attrib

blank_loop :
    (n i : ℕ) (m : Memory) (a : ℕ)
    → for_range n i blank_round m a
      ≡ (if leb (video + i * 2) a && ltb a (video + (i + n) * 2) then blank_byte a else m a)
unfolding for_range
blank_loop zero i m a = ground arith
blank_loop (suc n) i m a = ground (arith, blank_loop n (i + 1) (blank_round i m) a)

scroll_loop :
    (n i : ℕ) (m : Memory) (a : ℕ)
    → for_range n i scroll_round m a
      ≡ (if leb (video + i * 2) a && ltb a (video + (i + n) * 2) then m (a + num_cols * 2) else m a)
unfolding for_range
scroll_loop zero i m a = ground arith
scroll_loop (suc n) i m a = ground (arith, scroll_loop n (i + 1) (scroll_round i m) a)

-- `clear` blanks the 2000 cells of the screen and changes no other byte of memory.
pub mem-clear :
    (s : Screen) (a : ℕ)
    → (clear s).mem a ≡ (if leb video a && ltb a (video + 4000) then blank_byte a else s.mem a)
unfolding clear
mem-clear s a = ground (arith, blank_loop 2000 0 s.mem a)

-- On the last row or below, `shift_rows_up` moves each row of the screen one up, blanks the last
-- and changes no byte outside the screen; above it nothing changes.
pub mem-shift_rows_up :
    (s : Screen) (a : ℕ)
    → (shift_rows_up s).mem a ≡ (
        if leb 24 s.y && leb video a && ltb a (video + 4000)
        then (if ltb a (video + 3840) then s.mem (a + 160) else blank_byte a)
        else s.mem a)
unfolding shift_rows_up
mem-shift_rows_up s a =
    ground (
      arith,
      scroll_loop 1920 0 s.mem a,
      blank_loop 80 1920 (for_range 1920 0 scroll_round s.mem) a,
    )
