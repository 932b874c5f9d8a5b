-- ===== src/Keyboard/Characters.antt =====
-- The characters of student-distrib/keyboard.h.
use orca_os.Base.{ℕ}

abbrev pub space_ascii : ℕ
space_ascii = 0x20

abbrev pub one_ascii : ℕ
one_ascii = 0x31

abbrev pub two_ascii : ℕ
two_ascii = 0x32

abbrev pub three_ascii : ℕ
three_ascii = 0x33

abbrev pub four_ascii : ℕ
four_ascii = 0x34

abbrev pub five_ascii : ℕ
five_ascii = 0x35

abbrev pub six_ascii : ℕ
six_ascii = 0x36

abbrev pub seven_ascii : ℕ
seven_ascii = 0x37

abbrev pub eight_ascii : ℕ
eight_ascii = 0x38

abbrev pub nine_ascii : ℕ
nine_ascii = 0x39

abbrev pub zero_ascii : ℕ
zero_ascii = 0x30

abbrev pub sub_ascii : ℕ
sub_ascii = 0x2D

abbrev pub equal_ascii : ℕ
equal_ascii = 0x3D

abbrev pub q_ascii : ℕ
q_ascii = 0x71

abbrev pub w_ascii : ℕ
w_ascii = 0x77

abbrev pub e_ascii : ℕ
e_ascii = 0x65

abbrev pub r_ascii : ℕ
r_ascii = 0x72

abbrev pub t_ascii : ℕ
t_ascii = 0x74

abbrev pub y_ascii : ℕ
y_ascii = 0x79

abbrev pub u_ascii : ℕ
u_ascii = 0x75

abbrev pub i_ascii : ℕ
i_ascii = 0x69

abbrev pub o_ascii : ℕ
o_ascii = 0x6F

abbrev pub p_ascii : ℕ
p_ascii = 0x70

abbrev pub s_bracket_l_ascii : ℕ
s_bracket_l_ascii = 0x5B

abbrev pub s_bracket_r_ascii : ℕ
s_bracket_r_ascii = 0x5D

abbrev pub a_ascii : ℕ
a_ascii = 0x61

abbrev pub s_ascii : ℕ
s_ascii = 0x73

abbrev pub d_ascii : ℕ
d_ascii = 0x64

abbrev pub f_ascii : ℕ
f_ascii = 0x66

abbrev pub g_ascii : ℕ
g_ascii = 0x67

abbrev pub h_ascii : ℕ
h_ascii = 0x68

abbrev pub j_ascii : ℕ
j_ascii = 0x6A

abbrev pub k_ascii : ℕ
k_ascii = 0x6B

abbrev pub l_ascii : ℕ
l_ascii = 0x6C

abbrev pub semicolon_ascii : ℕ
semicolon_ascii = 0x3B

abbrev pub single_quote_ascii : ℕ
single_quote_ascii = 0x27

abbrev pub back_tick_ascii : ℕ
back_tick_ascii = 0x60

abbrev pub slash_r_ascii : ℕ
slash_r_ascii = 0x5C

abbrev pub z_ascii : ℕ
z_ascii = 0x7A

abbrev pub x_ascii : ℕ
x_ascii = 0x78

abbrev pub c_ascii : ℕ
c_ascii = 0x63

abbrev pub v_ascii : ℕ
v_ascii = 0x76

abbrev pub b_ascii : ℕ
b_ascii = 0x62

abbrev pub n_ascii : ℕ
n_ascii = 0x6E

abbrev pub m_ascii : ℕ
m_ascii = 0x6D

abbrev pub comma_ascii : ℕ
comma_ascii = 0x2C

abbrev pub dot_ascii : ℕ
dot_ascii = 0x2E

abbrev pub slash_l_ascii : ℕ
slash_l_ascii = 0x2F

abbrev pub exclamatory_ascii : ℕ
exclamatory_ascii = 0x21

abbrev pub at_ascii : ℕ
at_ascii = 0x40

abbrev pub number_sign_ascii : ℕ
number_sign_ascii = 0x23

abbrev pub dollar_ascii : ℕ
dollar_ascii = 0x24

abbrev pub percent_ascii : ℕ
percent_ascii = 0x25

abbrev pub caret_ascii : ℕ
caret_ascii = 0x5E

abbrev pub and_ascii : ℕ
and_ascii = 0x26

abbrev pub star_ascii : ℕ
star_ascii = 0x2A

abbrev pub parentheses_l_ascii : ℕ
parentheses_l_ascii = 0x28

abbrev pub parentheses_r_ascii : ℕ
parentheses_r_ascii = 0x29

abbrev pub underline_ascii : ℕ
underline_ascii = 0x5F

abbrev pub add_ascii : ℕ
add_ascii = 0x2B

abbrev pub a_bracket_l_ascii : ℕ
a_bracket_l_ascii = 0x7B

abbrev pub a_bracker_r_ascii : ℕ
a_bracker_r_ascii = 0x7D

abbrev pub bar_ascii : ℕ
bar_ascii = 0x7C

abbrev pub colon_ascii : ℕ
colon_ascii = 0x3A

abbrev pub double_quote_ascii : ℕ
double_quote_ascii = 0x22

abbrev pub less_ascii : ℕ
less_ascii = 0x3C

abbrev pub greater_ascii : ℕ
greater_ascii = 0x3E

abbrev pub question_ascii : ℕ
question_ascii = 0x3F

abbrev pub tilde_ascii : ℕ
tilde_ascii = 0x7E
