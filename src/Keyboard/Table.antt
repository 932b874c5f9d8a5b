-- ===== src/Keyboard/Table.antt =====
-- The character keys of `scan_code_to_ascii` (student-distrib/keyboard.c), with the codes of
-- student-distrib/keyboard.h: number row, letters by row, symbols, space.
use orca_os.Base.{
  ℕ, ◌<◌, ◌≡◌, ◌≢◌, refl, arith, Bool, true, not, ltb, ◌&&◌, List, [], ◌∷◌, ◌==◌, if◌then◌else◌,
}
use orca_os.Keyboard.Codes.{
  one_scan_code, two_scan_code, three_scan_code, four_scan_code, five_scan_code, six_scan_code,
  seven_scan_code, eight_scan_code, nine_scan_code, zero_scan_code, sub_scan_code, equal_scan_code,
  q_scan_code, w_scan_code, e_scan_code, r_scan_code, t_scan_code, y_scan_code, u_scan_code,
  i_scan_code, o_scan_code, p_scan_code, s_bracket_l_scan_code, s_bracket_r_scan_code, a_scan_code,
  s_scan_code, d_scan_code, f_scan_code, g_scan_code, h_scan_code, j_scan_code, k_scan_code,
  l_scan_code, semicolon_scan_code, single_quote_scan_code, back_tick_scan_code, slash_r_scan_code,
  z_scan_code, x_scan_code, c_scan_code, v_scan_code, b_scan_code, n_scan_code, m_scan_code,
  comma_scan_code, dot_scan_code, slash_l_scan_code, space_scan_code,
}
use orca_os.Keyboard.Characters.{
  space_ascii, one_ascii, two_ascii, three_ascii, four_ascii, five_ascii, six_ascii, seven_ascii,
  eight_ascii, nine_ascii, zero_ascii, sub_ascii, equal_ascii, q_ascii, w_ascii, e_ascii, r_ascii,
  t_ascii, y_ascii, u_ascii, i_ascii, o_ascii, p_ascii, s_bracket_l_ascii, s_bracket_r_ascii,
  a_ascii, s_ascii, d_ascii, f_ascii, g_ascii, h_ascii, j_ascii, k_ascii, l_ascii, semicolon_ascii,
  single_quote_ascii, back_tick_ascii, slash_r_ascii, z_ascii, x_ascii, c_ascii, v_ascii, b_ascii,
  n_ascii, m_ascii, comma_ascii, dot_ascii, slash_l_ascii, exclamatory_ascii, at_ascii,
  number_sign_ascii, dollar_ascii, percent_ascii, caret_ascii, and_ascii, star_ascii,
  parentheses_l_ascii, parentheses_r_ascii, underline_ascii, add_ascii, a_bracket_l_ascii,
  a_bracker_r_ascii, bar_ascii, colon_ascii, double_quote_ascii, less_ascii, greater_ascii,
  question_ascii, tilde_ascii,
}

-- A case of the switch: its scan code, and what it returns without and with shift.
pub record Key : Type 0 where
  pub scan : ℕ
  pub plain : ℕ
  pub shifted : ℕ

abbrev key : ℕ → ℕ → ℕ → Key
key s p q = record { scan = s; plain = p; shifted = q }

-- The cases in the order of the source; a letter returns the same with shift.
unfoldable pub char_keys : List Key
char_keys =
    key one_scan_code one_ascii exclamatory_ascii
    ∷ key two_scan_code two_ascii at_ascii
    ∷ key three_scan_code three_ascii number_sign_ascii
    ∷ key four_scan_code four_ascii dollar_ascii
    ∷ key five_scan_code five_ascii percent_ascii
    ∷ key six_scan_code six_ascii caret_ascii
    ∷ key seven_scan_code seven_ascii and_ascii
    ∷ key eight_scan_code eight_ascii star_ascii
    ∷ key nine_scan_code nine_ascii parentheses_l_ascii
    ∷ key zero_scan_code zero_ascii parentheses_r_ascii
    ∷ key q_scan_code q_ascii q_ascii
    ∷ key w_scan_code w_ascii w_ascii
    ∷ key e_scan_code e_ascii e_ascii
    ∷ key r_scan_code r_ascii r_ascii
    ∷ key t_scan_code t_ascii t_ascii
    ∷ key y_scan_code y_ascii y_ascii
    ∷ key u_scan_code u_ascii u_ascii
    ∷ key i_scan_code i_ascii i_ascii
    ∷ key o_scan_code o_ascii o_ascii
    ∷ key p_scan_code p_ascii p_ascii
    ∷ key a_scan_code a_ascii a_ascii
    ∷ key s_scan_code s_ascii s_ascii
    ∷ key d_scan_code d_ascii d_ascii
    ∷ key f_scan_code f_ascii f_ascii
    ∷ key g_scan_code g_ascii g_ascii
    ∷ key h_scan_code h_ascii h_ascii
    ∷ key j_scan_code j_ascii j_ascii
    ∷ key k_scan_code k_ascii k_ascii
    ∷ key l_scan_code l_ascii l_ascii
    ∷ key z_scan_code z_ascii z_ascii
    ∷ key x_scan_code x_ascii x_ascii
    ∷ key c_scan_code c_ascii c_ascii
    ∷ key v_scan_code v_ascii v_ascii
    ∷ key b_scan_code b_ascii b_ascii
    ∷ key n_scan_code n_ascii n_ascii
    ∷ key m_scan_code m_ascii m_ascii
    ∷ key sub_scan_code sub_ascii underline_ascii
    ∷ key equal_scan_code equal_ascii add_ascii
    ∷ key s_bracket_l_scan_code s_bracket_l_ascii a_bracket_l_ascii
    ∷ key s_bracket_r_scan_code s_bracket_r_ascii a_bracker_r_ascii
    ∷ key slash_r_scan_code slash_r_ascii bar_ascii
    ∷ key semicolon_scan_code semicolon_ascii colon_ascii
    ∷ key single_quote_scan_code single_quote_ascii double_quote_ascii
    ∷ key comma_scan_code comma_ascii less_ascii
    ∷ key dot_scan_code dot_ascii greater_ascii
    ∷ key slash_l_scan_code slash_l_ascii question_ascii
    ∷ key back_tick_scan_code back_tick_ascii tilde_ascii
    ∷ key space_scan_code space_ascii space_ascii
    ∷ []

-- The switch over the cases, and its default.
unfoldable pub lookup_key : Bool → ℕ → List Key → ℕ
lookup_key shift code [] = 0
lookup_key shift code (k ∷ ks) =
    if code == k.scan then (if shift then k.shifted else k.plain) else lookup_key shift code ks

unfoldable pub char_key : Bool → ℕ → ℕ
unfolding lookup_key char_keys
char_key shift code = lookup_key shift code char_keys

all_keys : (ℕ → Bool) → List Key → Bool
all_keys p [] = true
all_keys p (k ∷ ks) = p k.plain && p k.shifted && all_keys p ks

all_keys_sound :
    (p : ℕ → Bool) (shift : Bool) (code : ℕ) (ks : List Key)
    → all_keys p ks ≡ true
    → p 0 ≡ true
    → p (lookup_key shift code ks) ≡ true
unfolding all_keys lookup_key
all_keys_sound p shift code [] h z = z
all_keys_sound p shift code (k ∷ ks) h z = ground (arith, all_keys_sound p shift code ks)

abbrev is_ascii : ℕ → Bool
is_ascii c = ltb c 128 && not (c == 10)

char_keys_ascii : all_keys is_ascii char_keys ≡ true
unfolding all_keys char_keys
char_keys_ascii = refl

-- A key's character is below 128, and none is a newline.
pub char_key_ascii :
    (shift : Bool) (code : ℕ) → (char_key shift code < 128) × (char_key shift code ≢ 10)
unfolding char_key
char_key_ascii shift code =
    ground (arith, all_keys_sound is_ascii shift code char_keys char_keys_ascii)
