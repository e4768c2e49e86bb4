-- ===== src/Client/Messages.antt =====
-- handleMessage of entry/src/main/cpp/protocol/deskflow_client.cpp. `classify` is the ladder of
-- comparisons with the message's key, and each case of `handle` the code under one of them.
pub mod Stable
pub mod Payload
pub mod Channel
pub mod OnScreen
pub mod Reserve
pub mod Running
pub mod Return
pub mod Leave
pub mod Pointer
pub mod KeyStates
use deskflow_harmonyos.Base.{
  ℕ, Bool, true, false, not, Option, none, some, List, [], ◌∷◌, ◌++◌, equal, if◌then◌else◌, codes,
  ℤ, pos, ◌+ℤ◌, ◌-ℤ◌, ltb_ℤ,
}
use deskflow_harmonyos.Base.Word.{to_i16, to_u32}
use deskflow_harmonyos.Stream.{write_frame}
use deskflow_harmonyos.Proto.{Value, num, str}
use deskflow_harmonyos.Proto.Read.{readf}
use deskflow_harmonyos.Client.{
  Client, control_acquired, control_left, closed_by_server, incompatible, server_busy,
  unknown_client, protocol_violation, unknown_message, set_status,
}
use deskflow_harmonyos.Client.Input.{inject_mouse_move, inject_mouse_wheel, inject_mouse_button}
use deskflow_harmonyos.Client.Modifiers.{change_key, sync_modifiers}
use deskflow_harmonyos.Client.Clipboard.{send_message, on_clipboard_part}

pub data Message : Type 0 where
  q_info c_keep_alive c_enter c_leave c_close : Message
  d_mouse_move d_mouse_rel_move d_mouse_down d_mouse_up d_mouse_wheel : Message
  d_key_down d_key_up d_key_repeat d_key_down_lang : Message
  c_noop c_reset_options c_info_ack c_screen_saver c_clipboard : Message
  d_set_options d_clipboard d_file_transfer d_drag_info : Message
  d_language_sync d_secure_input : Message
  e_incompatible e_busy e_unknown e_bad : Message
  other : Message

-- The first row with the key.
unfoldable pub find_key : List (List ℕ × Message) → List ℕ → Message
find_key [] key = other
find_key ((name, m) ∷ rows) key = if equal name key then m else find_key rows key

-- The rungs of the ladder: the session
abbrev pub session_keys : List (List ℕ × Message)
session_keys =
    (codes "QINF", q_info)
    ∷ (codes "CALV", c_keep_alive)
    ∷ (codes "CINN", c_enter)
    ∷ (codes "COUT", c_leave)
    ∷ (codes "CBYE", c_close)
    ∷ []

-- ... the pointer
abbrev pub pointer_keys : List (List ℕ × Message)
pointer_keys =
    (codes "DMMV", d_mouse_move)
    ∷ (codes "DMRM", d_mouse_rel_move)
    ∷ (codes "DMDN", d_mouse_down)
    ∷ (codes "DMUP", d_mouse_up)
    ∷ (codes "DMWM", d_mouse_wheel)
    ∷ []

-- ... the keyboard
abbrev pub keyboard_keys : List (List ℕ × Message)
keyboard_keys =
    (codes "DKDN", d_key_down)
    ∷ (codes "DKUP", d_key_up)
    ∷ (codes "DKRP", d_key_repeat)
    ∷ (codes "DKDL", d_key_down_lang)
    ∷ []

-- ... what is read and ignored, up to the clipboard's owner
abbrev pub ignored_keys : List (List ℕ × Message)
ignored_keys =
    (codes "CNOP", c_noop)
    ∷ (codes "CROP", c_reset_options)
    ∷ (codes "CIAK", c_info_ack)
    ∷ (codes "CSEC", c_screen_saver)
    ∷ (codes "CCLP", c_clipboard)
    ∷ []

-- ... options, clipboard, files, drags, languages and secure input
abbrev pub data_keys : List (List ℕ × Message)
data_keys =
    (codes "DSOP", d_set_options)
    ∷ (codes "DCLP", d_clipboard)
    ∷ (codes "DFTR", d_file_transfer)
    ∷ (codes "DDRG", d_drag_info)
    ∷ (codes "LSYN", d_language_sync)
    ∷ (codes "SECN", d_secure_input)
    ∷ []

-- ... and the server's errors.
abbrev pub error_keys : List (List ℕ × Message)
error_keys =
    (codes "EICV", e_incompatible)
    ∷ (codes "EBSY", e_busy)
    ∷ (codes "EUNK", e_unknown)
    ∷ (codes "EBAD", e_bad)
    ∷ []

abbrev pub message_keys : List (List ℕ × Message)
message_keys =
    session_keys ++ (pointer_keys ++ (keyboard_keys ++ (ignored_keys ++ (data_keys ++ error_keys))))

unfoldable pub classify : List ℕ → Message
unfolding find_key
classify key = find_key message_keys key

-- The part of the message's format behind its key: the argument of readf.
abbrev pub payload_format : Message → List ℕ
payload_format c_enter = codes "%2i%2i%4i%2i"
payload_format d_mouse_move = codes "%2i%2i"
payload_format d_mouse_rel_move = codes "%2i%2i"
payload_format d_mouse_down = codes "%1i"
payload_format d_mouse_up = codes "%1i"
payload_format d_mouse_wheel = codes "%2i%2i"
payload_format d_key_down = codes "%2i%2i%2i"
payload_format d_key_up = codes "%2i%2i%2i"
payload_format d_key_repeat = codes "%2i%2i%2i%2i%s"
payload_format d_key_down_lang = codes "%2i%2i%2i%s"
payload_format c_screen_saver = codes "%1i"
payload_format c_clipboard = codes "%1i%4i"
payload_format d_set_options = codes "%4I"
payload_format d_clipboard = codes "%1i%4i%1i%s"
payload_format d_file_transfer = codes "%1i%s"
payload_format d_drag_info = codes "%2i%s"
payload_format d_language_sync = codes "%s"
payload_format d_secure_input = codes "%s"
payload_format e_incompatible = codes "%2i%2i"
payload_format _ = []

abbrev pub fmt_d_info : List ℕ
fmt_d_info = codes "DINF%2i%2i%2i%2i%2i%2i%2i"

-- QINF
unfoldable pub on_query_info : Client → Bool × Client
on_query_info c =
    send_message fmt_d_info
      (num 0
        ∷ num 0
        ∷ num (to_u32 c.screen_w)
        ∷ num (to_u32 c.screen_h)
        ∷ num 0
        ∷ num (to_u32 c.pointer_x)
        ∷ num (to_u32 c.pointer_y)
        ∷ [])
      c

-- A frame of four letters, as CALV and CNOP are answered.
unfoldable pub send_key : List ℕ → Client → Bool × Client
send_key key c = let (ok, s) = write_frame key c.stream in (ok, record c { stream = s })

unfoldable pub move_pointer : ℤ → ℤ → Client → Client
move_pointer x y c = (inject_mouse_move x y (record c { pointer_x = x; pointer_y = y })).1

-- CINN
unfoldable pub on_enter : ℤ → ℤ → ℕ → ℤ → Client → Client
unfolding move_pointer
on_enter x y seq mask c =
    let entered = record c { is_active = true; seq_num = seq } in
    let moved =
      if not (ltb_ℤ x (pos 0))
      then (if not (ltb_ℤ y (pos 0)) then move_pointer x y entered else entered)
      else entered in
    set_status (control_acquired x y) (sync_modifiers (to_u32 mask) moved)

-- The loop of COUT over the map of pressed buttons.
unfoldable pub release_all : List (ℕ × Bool) → Client → Client
release_all [] c = c
release_all ((b, down) ∷ m) c =
    release_all m (if down then (inject_mouse_button b false c).1 else c)

-- COUT
unfoldable pub on_leave : Client → Client
unfolding release_all
on_leave c =
    let c' = release_all c.buttons_down (record c { is_active = false }) in
    set_status control_left (record c' { buttons_down = [] })

-- The clamp of DMRM into [0, extent - 1]: first the lower bound, then the upper one.
abbrev pub clamp_to_screen : ℤ → ℤ → ℤ
clamp_to_screen extent x =
    let x' = if ltb_ℤ x (pos 0) then pos 0 else x in if ltb_ℤ x' extent then x' else extent -ℤ pos 1

-- DMRM
unfoldable pub on_rel_move : ℤ → ℤ → Client → Client
unfolding move_pointer
on_rel_move dx dy c =
    move_pointer (clamp_to_screen c.screen_w (c.pointer_x +ℤ dx))
      (clamp_to_screen c.screen_h (c.pointer_y +ℤ dy)) c

-- DKDN, DKRP and DKDL: a key that is down already is not pressed again.
unfoldable pub on_key_down : ℤ → ℤ → Client → Client
on_key_down id mask c =
    let c' = sync_modifiers (to_u32 mask) c in
    if c'.keys_down (to_u32 id) then c' else change_key (to_u32 id) true c'

-- DKUP
unfoldable pub on_key_up : ℤ → ℤ → Client → Client
on_key_up id mask c =
    let c' = sync_modifiers (to_u32 mask) c in
    if c'.keys_down (to_u32 id) then change_key (to_u32 id) false c' else c'

-- What a message does once its payload is read.
unfoldable pub act : Message → List Value → Client → Bool × Client
unfolding on_query_info send_key on_enter on_leave on_rel_move on_key_down on_key_up
act q_info vs c = on_query_info c
act c_keep_alive vs c = send_key (codes "CALV") c
act c_enter (num x ∷ num y ∷ num seq ∷ num mask ∷ []) c =
    (true, on_enter (to_i16 x) (to_i16 y) seq (to_i16 mask) c)
act c_leave vs c = (true, on_leave c)
act c_close vs c = (false, set_status closed_by_server (record c { should_reconnect = false }))
act d_mouse_move (num x ∷ num y ∷ []) c = (true, move_pointer (to_i16 x) (to_i16 y) c)
act d_mouse_rel_move (num dx ∷ num dy ∷ []) c = (true, on_rel_move (to_i16 dx) (to_i16 dy) c)
act d_mouse_down (num b ∷ []) c = (true, (inject_mouse_button b true c).1)
act d_mouse_up (num b ∷ []) c = (true, (inject_mouse_button b false c).1)
act d_mouse_wheel (num dx ∷ num dy ∷ []) c =
    (true, (inject_mouse_wheel (to_i16 dx) (to_i16 dy) c).1)
act d_key_down (num id ∷ num mask ∷ num button ∷ []) c =
    (true, on_key_down (to_i16 id) (to_i16 mask) c)
act d_key_up (num id ∷ num mask ∷ num button ∷ []) c = (true, on_key_up (to_i16 id) (to_i16 mask) c)
act d_key_repeat (num id ∷ num mask ∷ num count ∷ num button ∷ str lang ∷ []) c =
    (true, on_key_down (to_i16 id) (to_i16 mask) c)
act d_key_down_lang (num id ∷ num mask ∷ num button ∷ str lang ∷ []) c =
    (true, on_key_down (to_i16 id) (to_i16 mask) c)
act c_noop vs c = (true, c)
act c_reset_options vs c = (true, c)
act c_info_ack vs c = (true, c)
act c_screen_saver vs c = (true, c)
act c_clipboard vs c = (true, c)
act d_set_options vs c = (true, record c { handshake_done = true })
act d_clipboard (num id ∷ num seq ∷ num mark ∷ str content ∷ []) c =
    (true, on_clipboard_part seq mark content c)
act d_file_transfer vs c = (true, c)
act d_drag_info vs c = (true, c)
act d_language_sync vs c = (true, c)
act d_secure_input vs c = (true, c)
act e_incompatible (num a ∷ num b ∷ []) c =
    (false, set_status (incompatible (to_i16 a) (to_i16 b)) (record c { should_reconnect = false }))
act e_busy vs c = (false, set_status server_busy c)
act e_unknown vs c = (false, set_status unknown_client c)
act e_bad vs c = (false, set_status protocol_violation c)
act _ vs c = (false, c)

-- `if (!readf(...)) return false;` in front of what the message does.
unfoldable pub act_if_read : Message → Option (List Value) → Client → Bool × Client
unfolding act
act_if_read m none c = (false, c)
act_if_read m (some vs) c = act m vs c

-- A message of an unknown key reads nothing, and readf on the empty format is no call at all.
unfoldable pub handle : Message → List ℕ → Client → Bool × Client
unfolding act_if_read
handle other key c = (false, set_status (unknown_message key) c)
handle m key c =
    let (vs, s) = readf (payload_format m) c.stream in act_if_read m vs (record c { stream = s })

unfoldable pub handle_message : List ℕ → Client → Bool × Client
unfolding handle
handle_message key c = handle (classify key) key c
