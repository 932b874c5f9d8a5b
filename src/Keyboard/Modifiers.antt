-- ===== src/Keyboard/Modifiers.antt =====
-- The modifier keys, and the codes of the function keys.
use orca_os.Base.{ℕ, ◌≡◌, arith, true, false, ◌&&◌, ◌||◌}
use orca_os.Console.{Keys, Console}
use orca_os.Keyboard.{f1_code, f2_code, f3_code, modify, scan_code_to_ascii, keyboard_handler}
use orca_os.Keyboard.Table.{char_key}

-- `shift` says whether one of the two shift keys counts as held, and both never do.
pub record IsKeys (k : Keys) : Type 0 where
  pub either : k.shift ≡ (k.shift_l || k.shift_r)
  pub not_both : (k.shift_l && k.shift_r) ≡ false

pub modify-IsKeys : (code : ℕ) (k : Keys) → IsKeys k → IsKeys (modify code k)
unfolding modify
modify-IsKeys code k v = ground arith

module _ (c : Console) where
  scan_f1 : c.keys.shift ≡ false → scan_code_to_ascii f1_code c ≡ scan_code_to_ascii 0x27 c
  unfolding scan_code_to_ascii char_key
  scan_f1 h = rw h

  scan_f2 : c.keys.shift ≡ true → scan_code_to_ascii f2_code c ≡ scan_code_to_ascii 0x33 c
  unfolding scan_code_to_ascii char_key
  scan_f2 h = rw h

  scan_f3 : c.keys.shift ≡ false → scan_code_to_ascii f3_code c ≡ scan_code_to_ascii 0x0D c
  unfolding scan_code_to_ascii char_key
  scan_f3 h = rw h

-- While shift does not count as held, the handler does for F1 in every state exactly what it does
-- for the semicolon's key, and for F3 what it does for the key `=`.
pub function_keys_confused :
    (c : Console)
    → c.keys.shift ≡ false
    → (keyboard_handler f1_code c ≡ keyboard_handler 0x27 c)
      × (keyboard_handler f3_code c ≡ keyboard_handler 0x0D c)
unfolding keyboard_handler
function_keys_confused c h = (rw (scan_f1 c h), rw (scan_f3 c h))
