-- ===== src/Switch/Pages.antt =====
-- What a terminal switch does to the screen, the saved pages and the cursors.
use orca_os.Base.{
  ℕ, zero, suc, ◌+◌, ◌-◌, ◌≤◌, ◌<◌, ◌≡◌, ◌≢◌, ◌⊎◌, refl, arith, pos, negsuc, Memory, for_range, ltb,
  leb, ◌==◌, ◌&&◌, if◌then◌else◌,
}
use orca_os.Screen.{video, update_cursor, switch_terminal_cursors}
use orca_os.Console.{Console}
use orca_os.Switch.{page, copy_round, show_terminal, switch_terminal}

-- A copy between two areas that do not overlap.
copy_loop :
    (dst src n i : ℕ) (m : Memory) (a : ℕ)
    → (dst + i + n ≤ src) ⊎ (src + i + n ≤ dst)
    → for_range n i (copy_round dst src) m a
      ≡ (if leb (dst + i) a && ltb a (dst + i + n) then m (a + src - dst) else m a)
unfolding for_range
copy_loop dst src zero i m a h = ground arith
copy_loop dst src (suc n) i m a h =
    ground (arith, copy_loop dst src n (i + 1) (copy_round dst src i m) a)

screen_mem :
    (old new : ℕ) (c : Console) (a : ℕ)
    → (switch_terminal_cursors old new c.screen).mem a ≡ c.screen.mem a
unfolding switch_terminal_cursors update_cursor
screen_mem old new c a = refl

-- Every byte after a switch: the screen holds the page of the new terminal (or is unchanged, if
-- that was shown already), the page of the old one holds the screen, all else is unchanged.
pub mem-show_terminal :
    (t : ℕ) (c : Console) (a : ℕ)
    → (show_terminal t c).screen.mem a ≡ (
        if leb video a && ltb a (video + 0x1000)
        then (if t == c.on_display then c.screen.mem a else c.screen.mem (a + page t - video))
        else if leb (page c.on_display) a && ltb a (page c.on_display + 0x1000)
        then c.screen.mem (a + video - page c.on_display)
        else c.screen.mem a)
unfolding show_terminal switch_terminal_cursors update_cursor
mem-show_terminal t c a =
    let m1 = for_range 0x1000 0 (copy_round (page c.on_display) video) c.screen.mem in
    ground (
      arith,
      copy_loop video (page t) 0x1000 0 m1 a,
      copy_loop (page c.on_display) video 0x1000 0 c.screen.mem a,
      copy_loop (page c.on_display) video 0x1000 0 c.screen.mem (a + page t - video),
    )

cursor-show_terminal :
    (t : ℕ) (c : Console)
    → let s = (show_terminal t c).screen in
      (s.x ≡ (if c.on_display == t then c.screen.x else c.screen.saved_x t))
      × (s.y ≡ (if c.on_display == t then c.screen.y else c.screen.saved_y t))
      × (s.saved_x c.on_display ≡ c.screen.x)
      × (s.saved_y c.on_display ≡ c.screen.y)
unfolding show_terminal switch_terminal_cursors update_cursor
cursor-show_terminal t c = ground arith

pub on_display-show_terminal : (t : ℕ) (c : Console) → (show_terminal t c).on_display ≡ t
unfolding show_terminal
on_display-show_terminal t c = refl

pub switch_terminal_valid :
    (t : ℕ) (c : Console) → t ≤ 2 → switch_terminal (pos t) c ≡ show_terminal t c
unfolding switch_terminal
switch_terminal_valid t c h = ground arith

-- Switch from the terminal on display to another of the three, let it run (`d` is any later state
-- in which it is still on display and that has left the saved pages and the old terminal's saved
-- cursor alone), and switch back: the first terminal is on display again, with every byte of its
-- screen and its cursor as they were.
pub switch_terminal_back :
    (t : ℕ) (c d : Console) (a : ℕ)
    → video ≤ a
    → a < video + 0x1000
    → c.on_display ≤ 2
    → t ≤ 2
    → t ≢ c.on_display
    → d.on_display ≡ t
    → ((b : ℕ) → video + 0x1000 ≤ b → d.screen.mem b ≡ (switch_terminal (pos t) c).screen.mem b)
    → d.screen.saved_x c.on_display ≡ (switch_terminal (pos t) c).screen.saved_x c.on_display
    → d.screen.saved_y c.on_display ≡ (switch_terminal (pos t) c).screen.saved_y c.on_display
    → let e = switch_terminal (pos c.on_display) d in
      (e.screen.mem a ≡ c.screen.mem a)
      × (e.screen.x ≡ c.screen.x)
      × (e.screen.y ≡ c.screen.y)
      × (e.on_display ≡ c.on_display)
switch_terminal_back t c d a p q hc ht ne hd pages sx sy =
    let there = switch_terminal_valid t c ht in
    let back = switch_terminal_valid c.on_display d hc in
    (
      ground (
        arith,
        there,
        back,
        mem-show_terminal c.on_display d a,
        pages (a + page c.on_display - video),
        mem-show_terminal t c (a + page c.on_display - video),
      ),
      ground
          (arith, there, back, cursor-show_terminal c.on_display d, cursor-show_terminal t c, sx),
      ground
          (arith, there, back, cursor-show_terminal c.on_display d, cursor-show_terminal t c, sy),
      ground (arith, back, on_display-show_terminal c.on_display d),
    )

-- A number that is no terminal changes nothing.
pub switch_terminal_invalid :
    (c : Console) (n : ℕ)
    → (switch_terminal (negsuc n) c ≡ c) × (switch_terminal (pos (n + 3)) c ≡ c)
unfolding switch_terminal
switch_terminal_invalid c n = ground arith
