-- ===== src/Keyboard/Keys.antt =====
-- The key codes and the scan code table of kernal/driver/keyboard.c.
use she_x_mini_operating_sys.Base.{ℕ, List, [], ◌∷◌}

-- `enum KEYCODE`.
pub data Keycode : Type 0 where
  key_space key_0 key_1 key_2 key_3 key_4 key_5 key_6 key_7 key_8 key_9 key_a key_b key_c : Keycode
  key_d key_e key_f key_g key_h key_i key_j key_k key_l key_m key_n key_o key_p key_q : Keycode
  key_r key_s key_t key_u key_v key_w key_x key_y key_z key_return key_escape : Keycode
  key_backspace key_up key_down key_left key_right key_f1 key_f2 key_f3 key_f4 key_f5 : Keycode
  key_f6 key_f7 key_f8 key_f9 key_f10 key_f11 key_f12 key_f13 key_f14 key_f15 key_dot : Keycode
  key_comma key_colon key_semicolon key_slash key_backslash key_plus key_minus : Keycode
  key_asterisk key_exclamation key_question key_quotedouble key_quote key_equal key_hash : Keycode
  key_percent key_ampersand key_underscore key_leftparenthesis key_rightparenthesis : Keycode
  key_leftbracket key_rightbracket key_leftcurl key_rightcurl key_dollar key_euro : Keycode
  key_less key_greater key_bar key_grave key_tilde key_at key_carret key_kp_0 key_kp_1 : Keycode
  key_kp_2 key_kp_3 key_kp_4 key_kp_5 key_kp_6 key_kp_7 key_kp_8 key_kp_9 key_kp_plus : Keycode
  key_kp_minus key_kp_decimal key_kp_divide key_kp_asterisk key_kp_numlock key_kp_enter : Keycode
  key_tab key_capslock key_lshift key_lctrl key_lalt key_lwin key_rshift key_rctrl : Keycode
  key_ralt key_rwin key_insert key_delete key_home key_end key_pageup key_pagedown : Keycode
  key_scrolllock key_pause key_unknown : Keycode

-- The value of each enumerator.
unfoldable pub key_value : Keycode → ℕ
key_value key_space = 32
key_value key_0 = 48
key_value key_1 = 49
key_value key_2 = 50
key_value key_3 = 51
key_value key_4 = 52
key_value key_5 = 53
key_value key_6 = 54
key_value key_7 = 55
key_value key_8 = 56
key_value key_9 = 57
key_value key_a = 97
key_value key_b = 98
key_value key_c = 99
key_value key_d = 100
key_value key_e = 101
key_value key_f = 102
key_value key_g = 103
key_value key_h = 104
key_value key_i = 105
key_value key_j = 106
key_value key_k = 107
key_value key_l = 108
key_value key_m = 109
key_value key_n = 110
key_value key_o = 111
key_value key_p = 112
key_value key_q = 113
key_value key_r = 114
key_value key_s = 115
key_value key_t = 116
key_value key_u = 117
key_value key_v = 118
key_value key_w = 119
key_value key_x = 120
key_value key_y = 121
key_value key_z = 122
key_value key_return = 10
key_value key_escape = 0x1001
key_value key_backspace = 8
key_value key_up = 0x1100
key_value key_down = 0x1101
key_value key_left = 0x1102
key_value key_right = 0x1103
key_value key_f1 = 0x1201
key_value key_f2 = 0x1202
key_value key_f3 = 0x1203
key_value key_f4 = 0x1204
key_value key_f5 = 0x1205
key_value key_f6 = 0x1206
key_value key_f7 = 0x1207
key_value key_f8 = 0x1208
key_value key_f9 = 0x1209
key_value key_f10 = 0x120a
key_value key_f11 = 0x120b
key_value key_f12 = 0x120b
key_value key_f13 = 0x120c
key_value key_f14 = 0x120d
key_value key_f15 = 0x120e
key_value key_dot = 46
key_value key_comma = 44
key_value key_colon = 58
key_value key_semicolon = 59
key_value key_slash = 47
key_value key_backslash = 92
key_value key_plus = 43
key_value key_minus = 45
key_value key_asterisk = 42
key_value key_exclamation = 33
key_value key_question = 63
key_value key_quotedouble = 34
key_value key_quote = 39
key_value key_equal = 61
key_value key_hash = 35
key_value key_percent = 37
key_value key_ampersand = 38
key_value key_underscore = 95
key_value key_leftparenthesis = 40
key_value key_rightparenthesis = 41
key_value key_leftbracket = 91
key_value key_rightbracket = 93
key_value key_leftcurl = 123
key_value key_rightcurl = 125
key_value key_dollar = 36
key_value key_euro = 36
key_value key_less = 60
key_value key_greater = 62
key_value key_bar = 124
key_value key_grave = 96
key_value key_tilde = 126
key_value key_at = 64
key_value key_carret = 94
key_value key_kp_0 = 48
key_value key_kp_1 = 49
key_value key_kp_2 = 50
key_value key_kp_3 = 51
key_value key_kp_4 = 52
key_value key_kp_5 = 53
key_value key_kp_6 = 54
key_value key_kp_7 = 55
key_value key_kp_8 = 56
key_value key_kp_9 = 57
key_value key_kp_plus = 43
key_value key_kp_minus = 45
key_value key_kp_decimal = 46
key_value key_kp_divide = 47
key_value key_kp_asterisk = 42
key_value key_kp_numlock = 0x300f
key_value key_kp_enter = 0x3010
key_value key_tab = 0x4000
key_value key_capslock = 0x4001
key_value key_lshift = 0x4002
key_value key_lctrl = 0x4003
key_value key_lalt = 0x4004
key_value key_lwin = 0x4005
key_value key_rshift = 0x4006
key_value key_rctrl = 0x4007
key_value key_ralt = 0x4008
key_value key_rwin = 0x4009
key_value key_insert = 0x400a
key_value key_delete = 0x400b
key_value key_home = 0x400c
key_value key_end = 0x400d
key_value key_pageup = 0x400e
key_value key_pagedown = 0x400f
key_value key_scrolllock = 0x4010
key_value key_pause = 0x4011
key_value key_unknown = 0x4012

-- `_scancode_std`, the key of each scan code from 0 to 0x58.
unfoldable pub scancode_std : List Keycode
scancode_std =
    key_unknown ∷ key_escape ∷ key_1 ∷ key_2 ∷ key_3 ∷ key_4 ∷ key_5 ∷ key_6 ∷ key_7 ∷ key_8 ∷ key_9
    ∷ key_0 ∷ key_minus ∷ key_equal ∷ key_backspace ∷ key_tab ∷ key_q ∷ key_w ∷ key_e ∷ key_r
    ∷ key_t ∷ key_y ∷ key_u ∷ key_i ∷ key_o ∷ key_p ∷ key_leftbracket ∷ key_rightbracket
    ∷ key_return ∷ key_lctrl ∷ key_a ∷ key_s ∷ key_d ∷ key_f ∷ key_g ∷ key_h ∷ key_j ∷ key_k ∷ key_l
    ∷ key_semicolon ∷ key_quote ∷ key_grave ∷ key_lshift ∷ key_backslash ∷ key_z ∷ key_x ∷ key_c
    ∷ key_v ∷ key_b ∷ key_n ∷ key_m ∷ key_comma ∷ key_dot ∷ key_slash ∷ key_rshift ∷ key_kp_asterisk
    ∷ key_ralt ∷ key_space ∷ key_capslock ∷ key_f1 ∷ key_f2 ∷ key_f3 ∷ key_f4 ∷ key_f5 ∷ key_f6
    ∷ key_f7 ∷ key_f8 ∷ key_f9 ∷ key_f10 ∷ key_kp_numlock ∷ key_scrolllock ∷ key_kp_7 ∷ key_kp_8
    ∷ key_kp_9 ∷ key_kp_minus ∷ key_kp_4 ∷ key_kp_5 ∷ key_kp_6 ∷ key_unknown ∷ key_kp_1 ∷ key_kp_2
    ∷ key_kp_3 ∷ key_kp_0 ∷ key_kp_decimal ∷ key_unknown ∷ key_unknown ∷ key_unknown ∷ key_f11
    ∷ key_f12 ∷ []
