-- ===== src/Keyboard/Read/Press.antt =====
-- What the press of one key does to the line, while a read waits.
use orca_os.Base.{
  ℕ, ◌+◌, ◌<◌, ◌≡◌, ◌≢◌, refl, arith, Bool, true, false, not, ◌&&◌, ◌||◌, ◌==◌, if◌then◌else◌,
  all_below, all_below_sound, u8,
}
use orca_os.Console.{Keys, Console}
use orca_os.Keyboard.{
  f1_code, f2_code, f3_code, enter_code, is_modifier, scan_code_to_ascii, press_enter, handle_key,
  type_key, switch_by_key, capital, keyboard_handler,
}
use orca_os.Keyboard.Table.{char_key, char_key_ascii}

-- The codes that `scan_code_to_ascii` treats before the characters.
abbrev is_special : ℕ → Bool
is_special code =
    if code == f1_code
    then true
    else if code == f2_code
    then true
    else if code == f3_code
    then true
    else if is_modifier code
    then true
    else if code == 0x0F
    then true
    else if code == 0x0E
    then true
    else code == enter_code

special_entry : ℕ → Bool
special_entry code =
    not (is_special code) || ((char_key true code == 0) && (char_key false code == 0))

special_table : all_below 256 special_entry ≡ true
unfolding all_below special_entry char_key
special_table = refl

not_special :
    (shift : Bool) (code : ℕ) → code < 256 → char_key shift code ≢ 0 → is_special code ≡ false
unfolding special_entry
not_special true code h n = ground (arith, all_below_sound 256 special_entry code special_table h)
not_special false code h n = ground (arith, all_below_sound 256 special_entry code special_table h)

scan_char :
    (code : ℕ) (c : Console)
    → is_special code ≡ false
    → scan_code_to_ascii code c ≡ (char_key c.keys.shift code, c)
unfolding scan_code_to_ascii
scan_char code c h = ground arith

pub handle_key-zero : (c : Console) → handle_key 0 c ≡ c
unfolding handle_key switch_by_key type_key capital
handle_key-zero c = ground arith

-- Enter ends the wait.
pub enter_pressed : (c : Console) → (keyboard_handler enter_code c).keys.enter ≡ true
unfolding keyboard_handler scan_code_to_ascii press_enter
enter_pressed c = rw (handle_key-zero (press_enter c)) refl

-- Neither control nor alt is held, and a read is waiting.
pub record IsReady (k : Keys) : Type 0 where
  pub no_ctrl : k.ctrl ≡ false
  pub no_alt : k.alt ≡ false
  pub waiting : k.line_run_over_flag ≡ true
  pub no_enter : k.enter ≡ false

-- The character that the key with scan code `code` types.
unfoldable pub typed : Keys → ℕ → ℕ
typed k code = capital (char_key k.shift code) k

-- A key that has a character.
abbrev pub IsChar : Bool → ℕ → Type 0
IsChar shift code = (code < 256) × (char_key shift code ≢ 0)

-- `d` is `c` with one more character on the line of the terminal on display.
pub record Appends (ch : ℕ) (c d : Console) : Type 0 where
  pub keys : d.keys ≡ c.keys
  pub shown : d.on_display ≡ c.on_display
  pub longer : d.terminal.idxs c.on_display ≡ c.terminal.idxs c.on_display + 1
  pub line :
      (j : ℕ)
      → d.terminal.buffer j c.on_display
        ≡ (if c.terminal.idxs c.on_display == j then ch else c.terminal.buffer j c.on_display)

type_key-Appends :
    (key : ℕ) (c : Console)
    → capital key c.keys ≢ 0
    → IsReady c.keys
    → c.terminal.idxs c.on_display < 127
    → Appends (capital key c.keys) c (type_key key c)
unfolding type_key
type_key-Appends key c n r h = record {
  keys = ground arith;
  shown = ground arith;
  longer = ground arith;
  line = λ j. ground arith;
}

handle_key-ready : (key : ℕ) (c : Console) → IsReady c.keys → handle_key key c ≡ type_key key c
unfolding handle_key
handle_key-ready key c r = ground arith

capital-ne_zero : (key : ℕ) (k : Keys) → key ≢ 0 → capital key k ≢ 0
unfolding capital
capital-ne_zero key k n = ground arith

pub press_char-Appends :
    (code : ℕ) (c : Console)
    → IsChar c.keys.shift code
    → IsReady c.keys
    → c.terminal.idxs c.on_display < 127
    → Appends (typed c.keys code) c (keyboard_handler code c)
unfolding typed keyboard_handler
press_char-Appends code c (lt, n) r h =
    let ch = char_key c.keys.shift code in
    let e : u8 ch ≡ ch = omega (arith, char_key_ascii c.keys.shift code) in
    rw (scan_char code c (not_special c.keys.shift code lt n), e, handle_key-ready ch c r)
      (let w = type_key-Appends ch c (capital-ne_zero ch c.keys n) r h in
        record { keys = w.keys; shown = w.shown; longer = w.longer; line = w.line })
