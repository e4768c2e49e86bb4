-- ===== src/Keys/Codes.antt =====
-- The key identifiers of entry/src/main/cpp/protocol/protocol_types.h that the code uses, and the
-- names of the platform's key codes.
use deskflow_harmonyos.Base.{ℕ}

abbrev pub key_none : ℕ
key_none = 0x0000

abbrev pub key_back_space : ℕ
key_back_space = 0xef08

abbrev pub key_tab : ℕ
key_tab = 0xef09

abbrev pub key_linefeed : ℕ
key_linefeed = 0xef0a

abbrev pub key_clear : ℕ
key_clear = 0xef0b

abbrev pub key_return : ℕ
key_return = 0xef0d

abbrev pub key_pause : ℕ
key_pause = 0xef13

abbrev pub key_scroll_lock : ℕ
key_scroll_lock = 0xef14

abbrev pub key_sys_req : ℕ
key_sys_req = 0xef15

abbrev pub key_escape : ℕ
key_escape = 0xef1b

abbrev pub key_henkan : ℕ
key_henkan = 0xef23

abbrev pub key_kana : ℕ
key_kana = 0xef26

abbrev pub key_hiragana_katakana : ℕ
key_hiragana_katakana = 0xef27

abbrev pub key_zenkaku : ℕ
key_zenkaku = 0xef2a

abbrev pub key_hangul : ℕ
key_hangul = 0xef31

abbrev pub key_hanja : ℕ
key_hanja = 0xef34

abbrev pub key_delete : ℕ
key_delete = 0xefff

abbrev pub key_home : ℕ
key_home = 0xef50

abbrev pub key_left : ℕ
key_left = 0xef51

abbrev pub key_up : ℕ
key_up = 0xef52

abbrev pub key_right : ℕ
key_right = 0xef53

abbrev pub key_down : ℕ
key_down = 0xef54

abbrev pub key_page_up : ℕ
key_page_up = 0xef55

abbrev pub key_page_down : ℕ
key_page_down = 0xef56

abbrev pub key_end : ℕ
key_end = 0xef57

abbrev pub key_select : ℕ
key_select = 0xef60

abbrev pub key_print : ℕ
key_print = 0xef61

abbrev pub key_execute : ℕ
key_execute = 0xef62

abbrev pub key_insert : ℕ
key_insert = 0xef63

abbrev pub key_undo : ℕ
key_undo = 0xef65

abbrev pub key_redo : ℕ
key_redo = 0xef66

abbrev pub key_menu : ℕ
key_menu = 0xef67

abbrev pub key_find : ℕ
key_find = 0xef68

abbrev pub key_cancel : ℕ
key_cancel = 0xef69

abbrev pub key_help : ℕ
key_help = 0xef6a

abbrev pub key_break : ℕ
key_break = 0xef6b

abbrev pub key_alt_gr : ℕ
key_alt_gr = 0xef7e

abbrev pub key_num_lock : ℕ
key_num_lock = 0xef7f

abbrev pub key_kp_enter : ℕ
key_kp_enter = 0xef8d

abbrev pub key_kp_home : ℕ
key_kp_home = 0xef95

abbrev pub key_kp_page_up : ℕ
key_kp_page_up = 0xef9a

abbrev pub key_kp_page_down : ℕ
key_kp_page_down = 0xef9b

abbrev pub key_kp_end : ℕ
key_kp_end = 0xef9c

abbrev pub key_kp_insert : ℕ
key_kp_insert = 0xef9e

abbrev pub key_kp_delete : ℕ
key_kp_delete = 0xef9f

abbrev pub key_kp_multiply : ℕ
key_kp_multiply = 0xefaa

abbrev pub key_kp_add : ℕ
key_kp_add = 0xefab

abbrev pub key_kp_separator : ℕ
key_kp_separator = 0xefac

abbrev pub key_kp_subtract : ℕ
key_kp_subtract = 0xefad

abbrev pub key_kp_decimal : ℕ
key_kp_decimal = 0xefae

abbrev pub key_kp_divide : ℕ
key_kp_divide = 0xefaf

abbrev pub key_kp0 : ℕ
key_kp0 = 0xefb0

abbrev pub key_kp9 : ℕ
key_kp9 = 0xefb9

abbrev pub key_kp_equal : ℕ
key_kp_equal = 0xefbd

abbrev pub key_f1 : ℕ
key_f1 = 0xefbe

abbrev pub key_f24 : ℕ
key_f24 = 0xefd5

abbrev pub key_shift_l : ℕ
key_shift_l = 0xefe1

abbrev pub key_shift_r : ℕ
key_shift_r = 0xefe2

abbrev pub key_control_l : ℕ
key_control_l = 0xefe3

abbrev pub key_control_r : ℕ
key_control_r = 0xefe4

abbrev pub key_caps_lock : ℕ
key_caps_lock = 0xefe5

abbrev pub key_meta_l : ℕ
key_meta_l = 0xefe7

abbrev pub key_meta_r : ℕ
key_meta_r = 0xefe8

abbrev pub key_alt_l : ℕ
key_alt_l = 0xefe9

abbrev pub key_alt_r : ℕ
key_alt_r = 0xefea

abbrev pub key_super_l : ℕ
key_super_l = 0xefeb

abbrev pub key_super_r : ℕ
key_super_r = 0xefec

abbrev pub key_left_tab : ℕ
key_left_tab = 0xee20

abbrev pub key_eject : ℕ
key_eject = 0xe001

abbrev pub key_sleep : ℕ
key_sleep = 0xe05f

abbrev pub key_www_back : ℕ
key_www_back = 0xe0a6

abbrev pub key_www_forward : ℕ
key_www_forward = 0xe0a7

abbrev pub key_www_refresh : ℕ
key_www_refresh = 0xe0a8

abbrev pub key_www_home : ℕ
key_www_home = 0xe0ac

abbrev pub key_audio_mute : ℕ
key_audio_mute = 0xe0ad

abbrev pub key_audio_down : ℕ
key_audio_down = 0xe0ae

abbrev pub key_audio_up : ℕ
key_audio_up = 0xe0af

abbrev pub key_audio_next : ℕ
key_audio_next = 0xe0b0

abbrev pub key_audio_prev : ℕ
key_audio_prev = 0xe0b1

abbrev pub key_audio_stop : ℕ
key_audio_stop = 0xe0b2

abbrev pub key_audio_play : ℕ
key_audio_play = 0xe0b3

abbrev pub key_app_mail : ℕ
key_app_mail = 0xe0b4

abbrev pub key_app_media : ℕ
key_app_media = 0xe0b5

abbrev pub key_brightness_down : ℕ
key_brightness_down = 0xe0b8

abbrev pub key_brightness_up : ℕ
key_brightness_up = 0xe0b9

-- The KEYCODE_* enumerators of oh_key_code.h that the code names.
pub data KeyName : Type 0 where
  kc_space kc_comma kc_period kc_minus kc_equals kc_left_bracket kc_right_bracket : KeyName
  kc_backslash kc_semicolon kc_apostrophe kc_slash kc_grave kc_at kc_plus kc_star kc_pound : KeyName
  kc_del kc_tab kc_enter kc_escape kc_move_home kc_move_end kc_dpad_left kc_dpad_up : KeyName
  kc_dpad_right kc_dpad_down kc_page_up kc_page_down kc_insert kc_forward_del kc_linefeed : KeyName
  kc_forward kc_menu kc_find kc_cancel kc_help kc_undo kc_redo kc_caps_lock kc_num_lock : KeyName
  kc_scroll_lock kc_shift_left kc_shift_right kc_ctrl_left kc_ctrl_right kc_alt_left : KeyName
  kc_alt_right kc_meta_left kc_meta_right kc_break kc_sysrq kc_print kc_sleep kc_media_eject :
      KeyName
  kc_zenkaku_hankaku kc_katakana kc_katakana_hiragana kc_henkan kc_hanguel kc_hanja : KeyName
  kc_volume_mute kc_volume_down kc_volume_up kc_media_next kc_media_previous kc_media_stop : KeyName
  kc_media_play_pause kc_envelope kc_brightness_down kc_brightness_up kc_forwardmail kc_home :
      KeyName
  kc_refresh kc_numpad_enter kc_numpad_multiply kc_numpad_add kc_numpad_comma : KeyName
  kc_numpad_subtract kc_numpad_dot kc_numpad_divide kc_numpad_equals kc_a kc_0 kc_f1 : KeyName
  kc_numpad_0 : KeyName
