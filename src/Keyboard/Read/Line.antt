-- ===== src/Keyboard/Read/Line.antt =====
-- A line typed at the keyboard, up to what the reading program gets.
use orca_os.Base.{
  ℕ, zero, suc, ◌+◌, ◌-◌, ◌≤◌, ◌<◌, ◌≡◌, refl, ap, ◌∙◌, arith, pos, Bool, true, false, ◌&&◌, ltb,
  leb, ◌==◌, if◌then◌else◌, if_false, List, [], ◌∷◌, ◌++◌, length, get_or, Option, some, Memory,
}
use orca_os.Screen.{shift_rows_up}
use orca_os.Console.{Terminal, Console, on_screen, on_keys}
use orca_os.Keyboard.{enter_code, echo, scan_code_to_ascii, press_enter, capital, keyboard_handler}
use orca_os.Keyboard.Read.{wait_enter, after_wait, after_wait, terminal_read, take_line}
use orca_os.Keyboard.Read.Copy.{take_line_lem}
use orca_os.Keyboard.Read.Press.{
  IsReady, typed, IsChar, press_char-Appends, handle_key-zero, enter_pressed,
}

abbrev pub AllChars : Bool → List ℕ → Type 0
AllChars shift [] = Unit {0}
AllChars shift (code ∷ codes) = IsChar shift code × AllChars shift codes

enter-terminal : (c : Console) → (keyboard_handler enter_code c).terminal ≡ c.terminal
unfolding keyboard_handler scan_code_to_ascii press_enter
enter-terminal c = rw (handle_key-zero (press_enter c)) (echoed c.keys.line_run_over_flag)
  where
    echoed : (b : Bool) → (echo b 10 (on_screen shift_rows_up c)).terminal ≡ c.terminal
    echoed true = refl
    echoed false = refl

enter-shown : (c : Console) → (keyboard_handler enter_code c).on_display ≡ c.on_display
unfolding keyboard_handler scan_code_to_ascii press_enter
enter-shown c = rw (handle_key-zero (press_enter c)) (echoed c.keys.line_run_over_flag)
  where
    echoed : (b : Bool) → (echo b 10 (on_screen shift_rows_up c)).on_display ≡ c.on_display
    echoed true = refl
    echoed false = refl

get_or-cons :
    (x : ℕ) (xs : List ℕ) (i : ℕ)
    → get_or (x ∷ xs) i 0 ≡ (if i == 0 then x else get_or xs (i - 1) 0)
get_or-cons x xs zero = refl
get_or-cons x xs (suc i) = ground (arith, ap (λ k. get_or xs k 0) (sub-suc i))
  where
    sub-suc : (i : ℕ) → suc i - 1 ≡ i
    sub-suc i = omega arith

-- `d` is `c` after the characters of `codes` and Enter, `post` being what follows on the keyboard.
record Entered (codes post : List ℕ) (c : Console) (w : Option (Console × List ℕ)) : Type 0 where
  last : Console
  returns : w ≡ some (last, post)
  shown : last.on_display ≡ c.on_display
  longer : last.terminal.idxs c.on_display ≡ c.terminal.idxs c.on_display + length codes
  line :
      (j : ℕ)
      → last.terminal.buffer j c.on_display ≡ (
          if leb (c.terminal.idxs c.on_display) j
            && ltb j (c.terminal.idxs c.on_display + length codes)
          then typed c.keys (get_or codes (j - c.terminal.idxs c.on_display) 0)
          else c.terminal.buffer j c.on_display)

wait_enter-Entered :
    (codes post : List ℕ) (c : Console)
    → AllChars c.keys.shift codes
    → IsReady c.keys
    → c.terminal.idxs c.on_display + length codes ≤ 127
    → Entered codes post c (wait_enter (codes ++ enter_code ∷ post) c)
unfolding wait_enter
wait_enter-Entered [] post c a r h = record {
  last = keyboard_handler enter_code c;
  returns = rw (enter_pressed c);
  shown = enter-shown c;
  longer = ground (arith, ap (λ (t : Terminal). t.idxs c.on_display) (enter-terminal c));
  line = λ j. ground (arith, ap (λ (t : Terminal). t.buffer j c.on_display) (enter-terminal c));
}
wait_enter-Entered (code ∷ codes) post c (a, as_) r h =
    let d = keyboard_handler code c in
    let p = press_char-Appends code c a r (omega arith) in
    let w =
      wait_enter-Entered codes post d (rw p.keys as_) (rw p.keys r)
        (rw p.shown (omega (arith, p.longer))) in
    let e : d.keys.enter ≡ false = rw p.keys r.no_enter in
    record {
      last = w.last;
      returns = if_false d.keys.enter _ _ e ∙ w.returns;
      shown = w.shown ∙ p.shown;
      longer = grind (arith, w.longer, p.longer, p.shown);
      line = λ j. ground (
        arith,
        w.line j,
        p.line j,
        p.longer,
        p.shown,
        p.keys,
        get_or-cons code codes (j - c.terminal.idxs c.on_display),
      );
    }

-- A program reads a line: with an empty line, no control and no alt held, the keys of at most 127
-- characters are pressed, then Enter. The read returns; with room for the line and a zero, the
-- buffer holds exactly the typed characters, zeros up to `n`, and is unchanged behind; the result
-- counts the characters and one zero; the line is empty again.
pub terminal_read_line :
    (codes post : List ℕ) (buf : Memory) (n : ℕ) (c : Console)
    → c.terminal.idxs c.on_display ≡ 0
    → c.keys.ctrl ≡ false
    → c.keys.alt ≡ false
    → AllChars c.keys.shift codes
    → length codes ≤ 127
    → length codes < n
    → (d : Console) × (out : Memory) × (terminal_read (codes ++ enter_code ∷ post) buf (pos n) c
        ≡ some (d, post, out, pos (length codes + 1)))
      × ((j : ℕ)
          → out j ≡ (
              if ltb j (length codes)
              then typed c.keys (get_or codes j 0)
              else if ltb j n
              then 0
              else buf j))
      × (d.terminal.idxs c.on_display ≡ 0)
unfolding terminal_read after_wait typed capital
terminal_read_line codes post buf n c empty nc na a h room =
    let k = record (c.keys) { enter = false; line_run_over_flag = true } in
    let w =
      wait_enter-Entered codes post (record c { keys = k }) a
        (record { no_ctrl = nc; no_alt = na; waiting = refl; no_enter = refl }) (omega arith) in
    let c3 = on_keys (λ k. record k { line_run_over_flag = false }) w.last in
    let t = take_line_lem buf n c3 (omega arith) in
    (
      (take_line buf (pos n) c3).0,
      (take_line buf (pos n) c3).1,
      ap (after_wait buf (pos n)) w.returns ∙ ground (arith, t.0, w.shown, w.longer),
      λ j. ground (arith, t.1 j, w.shown, w.longer, w.line j),
      ground (arith, t.2, w.shown),
    )
