-- ===== src/Client.antt =====
-- The state of DeskflowClient (entry/src/main/cpp/protocol/deskflow_client.h), and what it does to
-- the world: injected input events, status reports, clipboard texts handed to the callback.
pub mod Input
pub mod Modifiers
pub mod Clipboard
pub mod Messages
pub mod Session
pub mod Settings
pub mod Run
mod Tests
use deskflow_harmonyos.Base.{ℕ, Bool, true, false, Option, List, [], ◌∷◌, ◌++◌, ◌==◌, ℤ, pos}
use deskflow_harmonyos.Keys.{KeyCode}
use deskflow_harmonyos.Stream.{Stream}

-- MOUSE_BUTTON_* of the platform.
pub data MouseButton : Type 0 where
  left middle right : MouseButton

-- MOUSE_ACTION_* of the platform.
pub data MouseAction : Type 0 where
  move button_down button_up axis_begin axis_update axis_end : MouseAction

pub data Axis : Type 0 where
  vertical horizontal : Axis

-- An Input_MouseEvent as the code fills it in. The display and the global coordinates are always
-- the same pair, and the action time is always -1.
pub record MouseEvent : Type 0 where
  pub action : MouseAction
  pub x : ℤ
  pub y : ℤ
  pub button : Option MouseButton
  pub axis : Option (Axis × ℤ)

-- An event handed to OH_Input_InjectMouseEventGlobal or OH_Input_InjectKeyEvent (down or up).
pub data InputEvent : Type 0 where
  mouse : MouseEvent → InputEvent
  key : Bool → KeyCode → InputEvent

-- The platform's answer to one injection: no event object could be made, or the code returned by
-- the call, 0 for INPUT_SUCCESS. A script of answers that has run out means success.
pub data Reply : Type 0 where
  no_event : Reply
  returned : ℤ → Reply

-- The texts given to setStatus, by what they say.
pub data Status : Type 0 where
  connecting : List ℕ → ℕ → Status
  connect_failed handshaking handshake_failed handshake_ok : Status
  protocol_mismatch : List ℕ → ℤ → ℤ → Status
  connection_lost disconnected : Status
  reconnecting : ℕ → Status
  control_acquired : ℤ → ℤ → Status
  control_left closed_by_server : Status
  incompatible : ℤ → ℤ → Status
  server_busy unknown_client protocol_violation : Status
  unknown_message : List ℕ → Status

-- ClipChunkState
pub record ClipChunk : Type 0 where
  pub is_active : Bool
  pub data_buffer : List ℕ
  pub expected_size : ℕ
  pub clip_seq : ℕ

-- `keys_down` is m_keyStates: a missing entry and one that holds false are not told apart anywhere.
-- `buttons_down` is the ordered map m_mouseButtonsDown. `statuses`, `delivered` and `injected` record
-- the calls of the two callbacks and of the platform, latest last.
pub record Client : Type 0 where
  pub stream : Stream
  pub running : Bool
  pub auto_reconnect : Bool
  pub reconnect_interval_ms : ℕ
  pub should_reconnect : Bool
  pub host : List ℕ
  pub port : ℕ
  pub screen_name : List ℕ
  pub screen_w : ℤ
  pub screen_h : ℤ
  pub pointer_x : ℤ
  pub pointer_y : ℤ
  pub invert_scroll : Bool
  pub is_active : Bool
  pub handshake_done : Bool
  pub seq_num : ℕ
  pub clipboard_sync : Bool
  pub has_clipboard_callback : Bool
  pub last_clipboard_text : List ℕ
  pub clip_chunk : ClipChunk
  pub keys_down : ℕ → Bool
  pub buttons_down : List (ℕ × Bool)
  pub replies : List Reply
  pub injected : List InputEvent
  pub statuses : List Status
  pub delivered : List (List ℕ)

-- setStatus, with a status callback set, as it is before start().
unfoldable pub set_status : Status → Client → Client
set_status st c = record c { statuses = c.statuses ++ (st ∷ []) }

abbrev pub is_zero : ℤ → Bool
is_zero (pos n) = n == 0
is_zero _ = false

unfoldable pub inject_with : List Reply → InputEvent → Client → Bool × Client
inject_with [] ev c = (true, record c { injected = c.injected ++ (ev ∷ []) })
inject_with (no_event ∷ rest) ev c = (false, record c { replies = rest })
inject_with (returned code ∷ rest) ev c =
    (is_zero code, record c { replies = rest; injected = c.injected ++ (ev ∷ []) })

-- Create an event, fill it in, hand it over, and test the answer.
unfoldable pub inject : InputEvent → Client → Bool × Client
unfolding inject_with
inject ev c = inject_with c.replies ev c
