-- ===== src/Printf.antt =====
-- `puts` and `printf` of student-distrib/lib.c. The words on the stack behind the format are a
-- function of the index, and `text` gives the string at an address. A list of bytes is a string
-- without its zero.
pub mod Formats
use orca_os.Base.{
  ℕ, zero, suc, ◌+◌, ◌-◌, ◌^◌, Bool, true, false, ltb, leb, ◌==◌, if◌then◌else◌, List, [], ◌∷◌,
  length, get_or, slice, for_range, update, Memory, Option, none, some, u8, u32, codes,
}
use orca_os.Strings.{strlen, itoa}
use orca_os.Screen.{Screen, putc}

unfoldable pub puts : List ℕ → Screen → Screen
puts [] s = s
puts (c ∷ text) s = puts text (putc c s)

-- `%#x`: the digits go to `conv_buf[8]` and on, zeros before them; what is printed starts at the
-- index of their number, and its zero is eight characters behind, for there are at most eight.
unfoldable pub pad_hex : List ℕ → List ℕ
pad_hex digits =
    let n = strlen digits in
    let conv_buf : Memory = λ j. get_or digits (j - 8) 0 in
    slice (for_range (8 - n) n (λ i b. update b i 48) conv_buf) n 8

unfoldable pub format_hex : Bool → ℕ → List ℕ
format_hex alternate w = if alternate then pad_hex (itoa w 16) else itoa w 16

-- `-value` of an `int32_t` below 0.
unfoldable pub format_signed : ℕ → List ℕ
format_signed w = if leb (2 ^ 31) w then 45 ∷ itoa (2 ^ 32 - w) 10 else itoa w 10

-- Where the loop stands in the format: at a plain character, or behind a `%`, with `alternate`.
pub data Mode : Type 0 where
  plain : Mode
  spec : Bool → Mode

-- Where it stands, which word is the next one, and the screen.
pub record State : Type 0 where
  pub mode : Mode
  pub esp : ℕ
  pub screen : Screen

module _ (text : ℕ → List ℕ) (words : ℕ → ℕ) where
  abbrev pub took : List ℕ → State → State
  took out s = record { mode = plain; esp = s.esp + 1; screen = puts out s.screen }

  -- A conversion, but for `#`.
  unfoldable pub convert : Bool → ℕ → State → State
  convert alternate c s =
      let w = words s.esp in
      if c == 0x25
      then record s { mode = plain; screen = putc 0x25 s.screen }
      else if c == 0x78
      then took (format_hex alternate w) s
      else if c == 0x75
      then took (itoa w 10) s
      else if c == 0x64
      then took (format_signed w) s
      else if c == 0x63
      then record { mode = plain; esp = s.esp + 1; screen = putc (u8 w) s.screen }
      else if c == 0x73
      then took (text w) s
      else record s { mode = plain }

  -- One character of the format.
  unfoldable pub format_char : ℕ → State → State
  format_char c s = elim s.mode [
    | plain ↦
        if c == 0x25 then record s { mode = spec false } else record s { screen = putc c s.screen }
    | spec alternate ↦ if c == 0x23 then record s { mode = spec true } else convert alternate c s
  ]

  unfoldable pub format_loop : List ℕ → State → State
  format_loop [] s = s
  format_loop (c ∷ format) s = format_loop format (format_char c s)

  -- A format that ends behind a `%` goes on behind its zero, hence `none`; else what is returned is
  -- the format's length.
  abbrev pub ended : ℕ → Mode → Screen → Option (Screen × ℕ)
  ended n plain s = some (s, n)
  ended n (spec alternate) s = none

  unfoldable pub printf : List ℕ → Screen → Option (Screen × ℕ)
  printf format s =
      let t = format_loop format (record { mode = plain; esp = 0; screen = s }) in
      ended (length format) t.mode t.screen
