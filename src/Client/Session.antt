-- ===== src/Client/Session.antt =====
-- The connection of entry/src/main/cpp/protocol/deskflow_client.cpp: handshake, message loop,
-- reconnection (start, stop, run, runOnce, handshake).
pub mod Progress
pub mod Hello
pub mod Greeting
pub mod Packet
pub mod Sync
pub mod Kept
pub mod Lasting
pub mod Overlong
pub mod Download
pub mod Transfer
pub mod Exchange
use deskflow_harmonyos.Base.{
  ℕ, zero, suc, Bool, false, ◌&&◌, ◌||◌, not, Option, none, some, List, [], ◌∷◌, ◌==◌,
  if◌then◌else◌, length, codes, ℤ, pos, ltb_ℤ,
}
use deskflow_harmonyos.Base.Word.{to_i16, to_u32}
use deskflow_harmonyos.Stream.{Stream, read_exact, read_frame, push_to_buffer}
use deskflow_harmonyos.Proto.{Value, num, str}
use deskflow_harmonyos.Proto.Read.{readf}
use deskflow_harmonyos.Client.{Client, protocol_mismatch, connection_lost, disconnected, set_status}
use deskflow_harmonyos.Client.Clipboard.{send_message}
use deskflow_harmonyos.Client.Messages.{send_key, handle_message}

abbrev pub with_stream : Stream → Client → Client
with_stream s c = record c { stream = s }

-- kProtocolMajorVersion, kProtocolMinorVersion, kHelloNameLength
abbrev pub protocol_major : ℤ
protocol_major = pos 1

abbrev pub protocol_minor : ℤ
protocol_minor = pos 8

abbrev pub hello_name_length : ℕ
hello_name_length = 7

abbrev pub fmt_hello : List ℕ
fmt_hello = codes "%7s%2i%2i"

abbrev pub fmt_hello_back : List ℕ
fmt_hello_back = codes "%7s%2i%2i%s"

-- handshake() behind a Hello that readf accepted.
unfoldable pub answer_hello : List Value → Client → Bool × Client
answer_hello (str name ∷ num major ∷ num minor ∷ []) c =
    let minor' = if ltb_ℤ (to_i16 minor) protocol_minor then to_i16 minor else protocol_minor in
    if not (length name == hello_name_length) || not (major == 1)
    then (
      false,
      set_status (protocol_mismatch name (to_i16 major) (to_i16 minor))
          (record c { should_reconnect = false }),
    )
    else send_message fmt_hello_back
        (str name ∷ num (to_u32 protocol_major) ∷ num (to_u32 minor') ∷ str c.screen_name ∷ []) c
answer_hello _ c = (false, c)

-- handshake() behind the reading of the Hello.
unfoldable pub on_hello : Option (List Value) → Client → Bool × Client
unfolding answer_hello
on_hello none c = (false, c)
on_hello (some vs) c = answer_hello vs c

-- handshake() behind the first frame.
unfoldable pub on_greeting : Option (List ℕ) → Client → Bool × Client
unfolding on_hello
on_greeting none c = (false, c)
on_greeting (some bytes) c =
    let (vs, s) = readf fmt_hello (push_to_buffer bytes c.stream) in on_hello vs (with_stream s c)

-- handshake()
unfoldable pub handshake : Client → Bool × Client
unfolding on_greeting
handshake c = let (frame, s) = read_frame c.stream in on_greeting frame (with_stream s c)

-- `keepGoing && m_handshakeDone`: a CNOP after every message of the running phase.
unfoldable pub acknowledge : Bool → Client → Bool × Client
acknowledge keep_going c =
    if keep_going && c.handshake_done then send_key (codes "CNOP") c else (keep_going, c)

-- The round behind the four bytes of the message's key.
unfoldable pub on_head : Option (List ℕ) → Client → Bool × Client
on_head none c = (false, c)
on_head (some key) c = let (keep_going, c') = handle_message key c in acknowledge keep_going c'

-- The round behind the frame.
unfoldable pub on_frame : Option (List ℕ) → Client → Bool × Client
unfolding on_head
on_frame none c =
    (false, set_status (if c.stream.stop_requested then disconnected else connection_lost) c)
on_frame (some bytes) c =
    let (head, s) = read_exact 4 (push_to_buffer bytes c.stream) in on_head head (with_stream s c)

-- One round of the message loop: whether it goes on.
unfoldable pub message_round : Client → Bool × Client
unfolding on_frame
message_round c = let (frame, s) = read_frame c.stream in on_frame frame (with_stream s c)

-- `while (keepGoing && !m_stopRequested)`. `none`: the rounds allowed are used up.
unfoldable pub message_loop : ℕ → Client → Option Client
message_loop zero c = none
message_loop (suc fuel) c =
    let (keep_going, c') = message_round c in
    let rest = message_loop fuel c' in
    let again = if keep_going then rest else some c' in
    if c.stream.stop_requested then some c else again
