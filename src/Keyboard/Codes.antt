-- ===== src/Keyboard/Codes.antt =====
-- The scan codes of student-distrib/keyboard.h that the handler tells apart, but for those of Enter
-- and of the function keys.
use orca_os.Base.{ℕ}

abbrev pub shift_l_scan_code_r : ℕ
shift_l_scan_code_r = 0xAA

abbrev pub shift_r_scan_code_r : ℕ
shift_r_scan_code_r = 0xB6

abbrev pub control_l_scan_code_r : ℕ
control_l_scan_code_r = 0x9D

abbrev pub one_scan_code : ℕ
one_scan_code = 0x02

abbrev pub two_scan_code : ℕ
two_scan_code = 0x03

abbrev pub three_scan_code : ℕ
three_scan_code = 0x04

abbrev pub four_scan_code : ℕ
four_scan_code = 0x05

abbrev pub five_scan_code : ℕ
five_scan_code = 0x06

abbrev pub six_scan_code : ℕ
six_scan_code = 0x07

abbrev pub seven_scan_code : ℕ
seven_scan_code = 0x08

abbrev pub eight_scan_code : ℕ
eight_scan_code = 0x09

abbrev pub nine_scan_code : ℕ
nine_scan_code = 0x0A

abbrev pub zero_scan_code : ℕ
zero_scan_code = 0x0B

abbrev pub sub_scan_code : ℕ
sub_scan_code = 0x0C

abbrev pub equal_scan_code : ℕ
equal_scan_code = 0x0D

abbrev pub backspace_scan_code : ℕ
backspace_scan_code = 0x0E

abbrev pub tab_scan_code : ℕ
tab_scan_code = 0x0F

abbrev pub q_scan_code : ℕ
q_scan_code = 0x10

abbrev pub w_scan_code : ℕ
w_scan_code = 0x11

abbrev pub e_scan_code : ℕ
e_scan_code = 0x12

abbrev pub r_scan_code : ℕ
r_scan_code = 0x13

abbrev pub t_scan_code : ℕ
t_scan_code = 0x14

abbrev pub y_scan_code : ℕ
y_scan_code = 0x15

abbrev pub u_scan_code : ℕ
u_scan_code = 0x16

abbrev pub i_scan_code : ℕ
i_scan_code = 0x17

abbrev pub o_scan_code : ℕ
o_scan_code = 0x18

abbrev pub p_scan_code : ℕ
p_scan_code = 0x19

abbrev pub s_bracket_l_scan_code : ℕ
s_bracket_l_scan_code = 0x1A

abbrev pub s_bracket_r_scan_code : ℕ
s_bracket_r_scan_code = 0x1B

abbrev pub control_l_scan_code : ℕ
control_l_scan_code = 0x1D

abbrev pub a_scan_code : ℕ
a_scan_code = 0x1E

abbrev pub s_scan_code : ℕ
s_scan_code = 0x1F

abbrev pub d_scan_code : ℕ
d_scan_code = 0x20

abbrev pub f_scan_code : ℕ
f_scan_code = 0x21

abbrev pub g_scan_code : ℕ
g_scan_code = 0x22

abbrev pub h_scan_code : ℕ
h_scan_code = 0x23

abbrev pub j_scan_code : ℕ
j_scan_code = 0x24

abbrev pub k_scan_code : ℕ
k_scan_code = 0x25

abbrev pub l_scan_code : ℕ
l_scan_code = 0x26

abbrev pub semicolon_scan_code : ℕ
semicolon_scan_code = 0x27

abbrev pub single_quote_scan_code : ℕ
single_quote_scan_code = 0x28

abbrev pub back_tick_scan_code : ℕ
back_tick_scan_code = 0x29

abbrev pub shift_l_scan_code : ℕ
shift_l_scan_code = 0x2A

abbrev pub slash_r_scan_code : ℕ
slash_r_scan_code = 0x2B

abbrev pub z_scan_code : ℕ
z_scan_code = 0x2C

abbrev pub x_scan_code : ℕ
x_scan_code = 0x2D

abbrev pub c_scan_code : ℕ
c_scan_code = 0x2E

abbrev pub v_scan_code : ℕ
v_scan_code = 0x2F

abbrev pub b_scan_code : ℕ
b_scan_code = 0x30

abbrev pub n_scan_code : ℕ
n_scan_code = 0x31

abbrev pub m_scan_code : ℕ
m_scan_code = 0x32

abbrev pub comma_scan_code : ℕ
comma_scan_code = 0x33

abbrev pub dot_scan_code : ℕ
dot_scan_code = 0x34

abbrev pub slash_l_scan_code : ℕ
slash_l_scan_code = 0x35

abbrev pub shift_r_scan_code : ℕ
shift_r_scan_code = 0x36

abbrev pub alt_l_scan_code : ℕ
alt_l_scan_code = 0x38

abbrev pub alt_l_scan_code_r : ℕ
alt_l_scan_code_r = 0xB8

abbrev pub space_scan_code : ℕ
space_scan_code = 0x39

abbrev pub caps_lock_scan_code : ℕ
caps_lock_scan_code = 0x3A
