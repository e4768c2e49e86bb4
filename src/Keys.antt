-- ===== src/Keys.antt =====
-- keysymToKeycode of entry/src/main/cpp/protocol/deskflow_client.cpp, over the key identifiers of
-- protocol_types.h.
pub mod Codes
pub mod Facts
mod Tests
use deskflow_harmonyos.Base.{
  ℕ, ◌+◌, ◌-◌, ◌%◌, ◌^◌, Bool, ◌&&◌, ◌||◌, Option, none, some, List, [], ◌∷◌, leb, ◌==◌,
  if◌then◌else◌,
}
use deskflow_harmonyos.Keys.Codes.{
  KeyName, kc_space, kc_comma, kc_period, kc_minus, kc_equals, kc_left_bracket, kc_right_bracket,
  kc_backslash, kc_semicolon, kc_apostrophe, kc_slash, kc_grave, kc_at, kc_plus, kc_star, kc_pound,
  kc_del, kc_tab, kc_enter, kc_escape, kc_move_home, kc_move_end, kc_dpad_left, kc_dpad_up,
  kc_dpad_right, kc_dpad_down, kc_page_up, kc_page_down, kc_insert, kc_forward_del, kc_linefeed,
  kc_forward, kc_menu, kc_find, kc_cancel, kc_help, kc_undo, kc_redo, kc_caps_lock, kc_num_lock,
  kc_scroll_lock, kc_shift_left, kc_shift_right, kc_ctrl_left, kc_ctrl_right, kc_alt_left,
  kc_alt_right, kc_meta_left, kc_meta_right, kc_break, kc_sysrq, kc_print, kc_sleep, kc_media_eject,
  kc_zenkaku_hankaku, kc_katakana, kc_katakana_hiragana, kc_henkan, kc_hanguel, kc_hanja,
  kc_volume_mute, kc_volume_down, kc_volume_up, kc_media_next, kc_media_previous, kc_media_stop,
  kc_media_play_pause, kc_envelope, kc_brightness_down, kc_brightness_up, kc_forwardmail, kc_home,
  kc_refresh, kc_numpad_enter, kc_numpad_multiply, kc_numpad_add, kc_numpad_comma,
  kc_numpad_subtract, kc_numpad_dot, kc_numpad_divide, kc_numpad_equals, kc_a, kc_0, kc_f1,
  kc_numpad_0,
}
use deskflow_harmonyos.Keys.Codes.{
  key_none, key_back_space, key_tab, key_linefeed, key_clear, key_return, key_pause,
  key_scroll_lock, key_sys_req, key_escape, key_henkan, key_kana, key_hiragana_katakana,
  key_zenkaku, key_hangul, key_hanja, key_delete, key_home, key_left, key_up, key_right, key_down,
  key_page_up, key_page_down, key_end, key_select, key_print, key_execute, key_insert, key_undo,
  key_redo, key_menu, key_find, key_cancel, key_help, key_break, key_alt_gr, key_num_lock,
  key_kp_enter, key_kp_home, key_kp_page_up, key_kp_page_down, key_kp_end, key_kp_insert,
  key_kp_delete, key_kp_multiply, key_kp_add, key_kp_separator, key_kp_subtract, key_kp_decimal,
  key_kp_divide, key_kp0, key_kp9, key_kp_equal, key_f1, key_f24, key_shift_l, key_shift_r,
  key_control_l, key_control_r, key_caps_lock, key_meta_l, key_meta_r, key_alt_l, key_alt_r,
  key_super_l, key_super_r, key_left_tab, key_eject, key_sleep, key_www_back, key_www_forward,
  key_www_refresh, key_www_home, key_audio_mute, key_audio_down, key_audio_up, key_audio_next,
  key_audio_prev, key_audio_stop, key_audio_play, key_app_mail, key_app_media, key_brightness_down,
  key_brightness_up,
}

-- An Input_KeyCode: the enumerator that the code starts from, and what it adds. The values of the
-- enumerators are the platform's; they are not negative.
pub record KeyCode : Type 0 where
  pub base : KeyName
  pub offset : ℕ

abbrev pub plain_key : KeyName → KeyCode
plain_key n = record { base = n; offset = 0 }

-- A `switch` whose cases return: the first label that fits, if any.
unfoldable pub switch : List (ℕ × KeyName) → ℕ → Option KeyCode
switch [] k = none
switch ((label, name) ∷ cases) k = if k == label then some (plain_key name) else switch cases k

abbrev pub or_else {ℓ} : {A : Type ℓ} → Option A → Option A → Option A
or_else (some a) other = some a
or_else none other = other

-- Space and symbols.
abbrev pub ascii_keys : List (ℕ × KeyName)
ascii_keys =
    (0x20, kc_space)
    ∷ (0x2c, kc_comma)
    ∷ (0x2e, kc_period)
    ∷ (0x2d, kc_minus)
    ∷ (0x3d, kc_equals)
    ∷ (0x5b, kc_left_bracket)
    ∷ (0x5d, kc_right_bracket)
    ∷ (0x5c, kc_backslash)
    ∷ (0x3b, kc_semicolon)
    ∷ (0x27, kc_apostrophe)
    ∷ (0x2f, kc_slash)
    ∷ (0x60, kc_grave)
    ∷ (0x40, kc_at)
    ∷ (0x2b, kc_plus)
    ∷ (0x002a, kc_star)
    ∷ (0x0023, kc_pound)
    ∷ []

-- Cursor and editing keys.
abbrev pub editing_keys : List (ℕ × KeyName)
editing_keys =
    (key_back_space, kc_del)
    ∷ (key_tab, kc_tab)
    ∷ (key_return, kc_enter)
    ∷ (key_escape, kc_escape)
    ∷ (key_home, kc_move_home)
    ∷ (key_end, kc_move_end)
    ∷ (key_left, kc_dpad_left)
    ∷ (key_up, kc_dpad_up)
    ∷ (key_right, kc_dpad_right)
    ∷ (key_down, kc_dpad_down)
    ∷ (key_page_up, kc_page_up)
    ∷ (key_page_down, kc_page_down)
    ∷ (key_insert, kc_insert)
    ∷ (key_delete, kc_forward_del)
    ∷ (key_clear, kc_move_home)
    ∷ (key_linefeed, kc_linefeed)
    ∷ (key_left_tab, kc_tab)
    ∷ (key_select, kc_forward)
    ∷ (key_execute, kc_menu)
    ∷ (key_menu, kc_menu)
    ∷ (key_find, kc_find)
    ∷ (key_cancel, kc_cancel)
    ∷ (key_help, kc_help)
    ∷ (key_undo, kc_undo)
    ∷ (key_redo, kc_redo)
    ∷ []

-- Locks and modifiers.
abbrev pub modifier_keys : List (ℕ × KeyName)
modifier_keys =
    (key_caps_lock, kc_caps_lock)
    ∷ (key_num_lock, kc_num_lock)
    ∷ (key_scroll_lock, kc_scroll_lock)
    ∷ (key_shift_l, kc_shift_left)
    ∷ (key_shift_r, kc_shift_right)
    ∷ (key_control_l, kc_ctrl_left)
    ∷ (key_control_r, kc_ctrl_right)
    ∷ (key_alt_l, kc_alt_left)
    ∷ (key_alt_r, kc_alt_right)
    ∷ (key_alt_gr, kc_alt_right)
    ∷ (key_meta_l, kc_meta_left)
    ∷ (key_meta_r, kc_meta_right)
    ∷ (key_super_l, kc_meta_left)
    ∷ (key_super_r, kc_meta_right)
    ∷ []

-- System keys.
abbrev pub system_keys : List (ℕ × KeyName)
system_keys =
    (key_pause, kc_break)
    ∷ (key_sys_req, kc_sysrq)
    ∷ (key_print, kc_print)
    ∷ (key_break, kc_break)
    ∷ (key_sleep, kc_sleep)
    ∷ (key_eject, kc_media_eject)
    ∷ (key_zenkaku, kc_zenkaku_hankaku)
    ∷ (key_kana, kc_katakana)
    ∷ (key_hiragana_katakana, kc_katakana_hiragana)
    ∷ (key_henkan, kc_henkan)
    ∷ (key_hangul, kc_hanguel)
    ∷ (key_hanja, kc_hanja)
    ∷ []

-- Media, brightness and application keys.
abbrev pub media_keys : List (ℕ × KeyName)
media_keys =
    (key_audio_mute, kc_volume_mute)
    ∷ (key_audio_down, kc_volume_down)
    ∷ (key_audio_up, kc_volume_up)
    ∷ (key_audio_next, kc_media_next)
    ∷ (key_audio_prev, kc_media_previous)
    ∷ (key_audio_stop, kc_media_stop)
    ∷ (key_audio_play, kc_media_play_pause)
    ∷ (key_app_mail, kc_envelope)
    ∷ (key_app_media, kc_media_play_pause)
    ∷ (key_brightness_down, kc_brightness_down)
    ∷ (key_brightness_up, kc_brightness_up)
    ∷ (key_www_back, kc_forward)
    ∷ (key_www_forward, kc_forwardmail)
    ∷ (key_www_home, kc_home)
    ∷ (key_www_refresh, kc_refresh)
    ∷ []

-- Keypad keys other than the digits.
abbrev pub keypad_keys : List (ℕ × KeyName)
keypad_keys =
    (key_kp_enter, kc_numpad_enter)
    ∷ (key_kp_multiply, kc_numpad_multiply)
    ∷ (key_kp_add, kc_numpad_add)
    ∷ (key_kp_separator, kc_numpad_comma)
    ∷ (key_kp_subtract, kc_numpad_subtract)
    ∷ (key_kp_decimal, kc_numpad_dot)
    ∷ (key_kp_divide, kc_numpad_divide)
    ∷ (key_kp_equal, kc_numpad_equals)
    ∷ (key_kp_home, kc_move_home)
    ∷ (key_kp_end, kc_move_end)
    ∷ (key_kp_page_up, kc_page_up)
    ∷ (key_kp_page_down, kc_page_down)
    ∷ (key_kp_insert, kc_insert)
    ∷ (key_kp_delete, kc_forward_del)
    ∷ []

abbrev pub is_letter : ℕ → Bool
is_letter k = leb b'a' k && leb k b'z' || leb b'A' k && leb k b'Z'

abbrev pub between : ℕ → ℕ → ℕ → Bool
between lo hi k = leb lo k && leb k hi

-- The function behind its mask `keysym &= 0xFFFF`; `none` is its -1.
unfoldable pub keycode_of : ℕ → Option KeyCode
unfolding switch
keycode_of k =
    if is_letter k
    then some (record { base = kc_a; offset = k % 32 - 1 })
    else (if between b'0' b'9' k
        then some (record { base = kc_0; offset = k - b'0' })
        else or_else (switch ascii_keys k) (
            or_else (switch editing_keys k) (
              or_else (switch modifier_keys k) (
                or_else (switch system_keys k) (
                  if between key_f1 key_f24 k
                  then some (record { base = kc_f1; offset = k - key_f1 })
                  else or_else (switch media_keys k) (
                      if between key_kp0 key_kp9 k
                      then some (record { base = kc_numpad_0; offset = k - key_kp0 })
                      else switch keypad_keys k))))))

unfoldable pub keysym_to_keycode : ℕ → Option KeyCode
unfolding keycode_of
keysym_to_keycode keysym = keycode_of (keysym % 2 ^ 16)
