-- ===== src/Client/Tests.antt =====
-- A concrete client through its messages, its clipboard and a whole connection.
mod Serving
mod Exchange
mod Threads
mod Stopped
mod Overlong
use deskflow_harmonyos.Base.{
  ℕ, ◌≤◌, ◌≡◌, refl, Bool, true, false, some, [], ◌∷◌, ◌++◌, arith, codes, pos, negsuc,
}
use deskflow_harmonyos.Base.Word.{to_i16, to_u32, put_u16, put_u32}
use deskflow_harmonyos.Stream.{Stream, arrived, connects, refuses}
use deskflow_harmonyos.Stream.Supply.{reserve_of}
use deskflow_harmonyos.Keys.Codes.{key_shift_l}
use deskflow_harmonyos.Client.{Client}
use deskflow_harmonyos.Client.Modifiers.{mask_modifier_keysym, set_key, sync_modifiers}
use deskflow_harmonyos.Client.Modifiers.Sync.{wanted, sync_modifiers-wanted, sync_modifiers_twice}
use deskflow_harmonyos.Client.Input.Bounds.{Inv}
use deskflow_harmonyos.Client.Clipboard.{send_clipboard}
use deskflow_harmonyos.Client.Clipboard.Container.{marshal_text, unmarshal_text}
use deskflow_harmonyos.Client.Clipboard.Formats.{
  container_of, first_text, unmarshal_text-container_of, unmarshal_text-marshal_text,
}
use deskflow_harmonyos.Client.Clipboard.Size.{to_string, parse_size}
use deskflow_harmonyos.Client.Clipboard.Decimal.{parse_size-to_string}
use deskflow_harmonyos.Client.Clipboard.Transfer.{
  parts, receive_parts, send_parts, Downloaded, receive_parts-parts, send_clipboard-parts,
}
use deskflow_harmonyos.Client.Messages.{
  handle_message, on_leave, on_key_down, on_key_up, on_rel_move,
}
use deskflow_harmonyos.Client.Messages.OnScreen.{handle_message-Inv}
use deskflow_harmonyos.Client.Messages.Reserve.{handle_message-ReserveAtMost}
use deskflow_harmonyos.Client.Messages.Leave.{Left, on_leave-Left}
use deskflow_harmonyos.Client.Messages.KeyStates.{
  on_key_down-wanted, on_key_up-wanted, on_key_down-modifier, on_key_down_twice,
}
use deskflow_harmonyos.Proto.Format.{encode, big_endian}
use deskflow_harmonyos.Stream.Read.{pending}
use deskflow_harmonyos.Stream.Write.{frame}
use deskflow_harmonyos.Client.Messages.Pointer.{Moved, on_rel_move-Moved}
use deskflow_harmonyos.Client.Session.{handshake}
use deskflow_harmonyos.Client.Session.Hello.{Hears}
use deskflow_harmonyos.Client.Session.Greeting.{
  hello_back_items, hello_back, handshake_refuses, handshake_succeeds, handshake_answers,
}
use deskflow_harmonyos.Client.Session.{message_loop}
use deskflow_harmonyos.Client.Session.Progress.{message_loop_total}
use deskflow_harmonyos.Client.Run.{Attempt, run_once}
use deskflow_harmonyos.Client.Run.Total.{run_once_total}

-- The bytes of a DMMV frame's payload behind its key (x = 5, y = 3), then a whole COUT frame.
abbrev pub client_stream : Stream
client_stream = record {
  connected = true;
  buffer = [];
  buffer_pos = 0;
  incoming = arrived 0 (5 ∷ 0 ∷ 3 ∷ []) ∷ arrived 0 (0 ∷ 0 ∷ 4 ∷ codes "COUT") ∷ [];
  outgoing = [];
  sent = [];
  stop_requested = false;
}

-- A client in the running phase, with the left button and the space bar pressed.
abbrev pub client : Client
client = record {
  stream = client_stream;
  running = true;
  auto_reconnect = true;
  reconnect_interval_ms = 3000;
  should_reconnect = true;
  host = codes "10.0.0.1";
  port = 24800;
  screen_name = codes "pad";
  screen_w = pos 1280;
  screen_h = pos 800;
  pointer_x = pos 10;
  pointer_y = pos 20;
  invert_scroll = false;
  is_active = true;
  handshake_done = true;
  seq_num = 1;
  clipboard_sync = true;
  has_clipboard_callback = true;
  last_clipboard_text = [];
  clip_chunk = record { is_active = false; data_buffer = []; expected_size = 0; clip_seq = 0 };
  keys_down = set_key 0x20 true (λ k. false);
  buttons_down = (1, true) ∷ (3, false) ∷ [];
  replies = [];
  injected = [];
  statuses = [];
  delivered = [];
}

client-Inv : Inv client
client-Inv = record { wide = omega arith; high = omega arith; known = omega arith; on_screen = tt }

handle_message-Inv_example : Inv (handle_message (codes "DMMV") client).1
handle_message-Inv_example = handle_message-Inv (codes "DMMV") client client-Inv

on_leave-Left_example : Left client (on_leave client)
on_leave-Left_example = on_leave-Left client (omega arith) refl

sync_modifiers-wanted_example :
    (sync_modifiers 0x01 client).keys_down key_shift_l ≡ wanted 0x01 client.keys_down key_shift_l
sync_modifiers-wanted_example = sync_modifiers-wanted 0x01 client key_shift_l

on_key_down-wanted_example :
    (on_key_down (pos 0x61) (pos 1) client).keys_down 0x61
    ≡ set_key (to_u32 (pos 0x61)) true (wanted (to_u32 (pos 1)) client.keys_down) 0x61
on_key_down-wanted_example = on_key_down-wanted (pos 0x61) (pos 1) client 0x61

on_key_up-wanted_example :
    (on_key_up (pos 0x20) (pos 0) client).keys_down 0x20
    ≡ set_key (to_u32 (pos 0x20)) false (wanted (to_u32 (pos 0)) client.keys_down) 0x20
on_key_up-wanted_example = on_key_up-wanted (pos 0x20) (pos 0) client 0x20

-- DKDN of the left shift key itself.
on_key_down-modifier_example :
    (on_key_down (to_i16 key_shift_l) (pos 1) client).keys_down (mask_modifier_keysym 0x01)
    ≡ wanted (to_u32 (pos 1)) client.keys_down (mask_modifier_keysym 0x01)
unfolding mask_modifier_keysym
on_key_down-modifier_example =
    on_key_down-modifier key_shift_l (pos 1) client 0x01 (omega arith) (omega arith)

-- A container that holds an HTML entry in front of its text.
unmarshal_text-container_of_example :
    unmarshal_text (container_of ((2, codes "<b>") ∷ (0, codes "hi") ∷ []))
    ≡ first_text ((2, codes "<b>") ∷ (0, codes "hi") ∷ [])
unmarshal_text-container_of_example =
    unmarshal_text-container_of ((2, codes "<b>") ∷ (0, codes "hi") ∷ []) (omega arith)
      (omega arith)

receive_parts-parts_example :
    Downloaded
      (codes "hello")
      client
      (receive_parts 7 (parts (marshal_text (codes "hello"))) client)
receive_parts-parts_example =
    receive_parts-parts 7 (codes "hello") client refl (omega arith) refl refl

send_clipboard-parts_example :
    send_clipboard (codes "hello") client
    ≡ send_parts
        (parts (marshal_text (codes "hello")))
        (record client { last_clipboard_text = codes "hello" })
send_clipboard-parts_example = send_clipboard-parts (codes "hello") client refl refl

-- The first address refuses; the second gives the server's Hello.
abbrev pub attempt : Attempt
attempt = record {
  addresses = some (refuses ∷ connects ∷ []);
  recvs = arrived 0 (0 ∷ 0 ∷ 11 ∷ (codes "Barrier" ++ (0 ∷ 1 ∷ 0 ∷ 8 ∷ []))) ∷ [];
  sends = [];
  stop_in_connect = false;
  stop_in_wait = false;
}

run_once_total_example : (r : Bool × Client) × (run_once attempt client ≡ some r)
run_once_total_example = run_once_total attempt client

-- DMRM by 5 to the right, and by 900 up, past the edge.
on_rel_move-Moved_example :
    Moved (pos 1280) (pos 10) (pos 5) (on_rel_move (pos 5) (negsuc 899) client).pointer_x
    × Moved (pos 800) (pos 20) (negsuc 899) (on_rel_move (pos 5) (negsuc 899) client).pointer_y
on_rel_move-Moved_example =
    on_rel_move-Moved (pos 5) (negsuc 899) client (omega arith) (omega arith)

-- A connection that has just been made, to a server of version `major`.9.
abbrev hearing : ℕ → Client
hearing major = record client {
  stream = record client_stream {
    incoming = arrived 0 (0 ∷ 0 ∷ 11 ∷ (codes "Barrier" ++ (0 ∷ major ∷ 0 ∷ 9 ∷ []))) ∷ [];
  };
}

hearing-Hears_1 : Hears (hearing 1) (codes "Barrier") 1 9 []
unfolding encode big_endian put_u16 put_u32
hearing-Hears_1 = record {
  name_is = refl;
  major_is = omega arith;
  minor_is = omega arith;
  connected_is = refl;
  drained = refl;
  next = refl;
}

hearing-Hears_2 : Hears (hearing 2) (codes "Barrier") 2 9 []
unfolding encode big_endian put_u16 put_u32
hearing-Hears_2 = record {
  name_is = refl;
  major_is = omega arith;
  minor_is = omega arith;
  connected_is = refl;
  drained = refl;
  next = refl;
}

handshake_succeeds_example : (handshake (hearing 1)).0 ≡ true
handshake_succeeds_example =
    handshake_succeeds (hearing 1) (codes "Barrier") 9 [] hearing-Hears_1 (omega arith)
      (omega arith) refl

hearing_succeeds : (handshake (hearing 1)).0 ≡ true
hearing_succeeds =
    handshake_succeeds (hearing 1) (codes "Barrier") 9 [] hearing-Hears_1 (omega arith)
      (omega arith) refl

handshake_answers_example :
    ((handshake (hearing 1)).1.stream.sent
      ≡ frame (encode hello_back_items (hello_back (codes "Barrier") 9 (hearing 1))))
    × (pending (handshake (hearing 1)).1.stream ≡ [])
    × ((handshake (hearing 1)).1.should_reconnect ≡ true)
handshake_answers_example =
    handshake_answers (hearing 1) (codes "Barrier") 9 [] hearing-Hears_1 (omega arith) (omega arith)
      hearing_succeeds
