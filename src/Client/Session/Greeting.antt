-- ===== src/Client/Session/Greeting.antt =====
-- How handshake() of entry/src/main/cpp/protocol/deskflow_client.cpp answers a Hello.
use deskflow_harmonyos.Base.{
  ℕ, ◌≤◌, ◌<◌, ◌^◌, ◌≡◌, ◌≢◌, refl, sym, ap, ◌∙◌, true, false, some, List, [], ◌∷◌, ◌++◌, arith,
  length, length-append, if◌then◌else◌, ltb, if_true, if_false, ◌==◌, not, ◌||◌, ltb_ℤ,
}
use deskflow_harmonyos.Base.Word.{to_i16, to_u32, put_u16, put_u32}
use deskflow_harmonyos.Stream.{max_frame}
use deskflow_harmonyos.Stream.Read.{pending}
use deskflow_harmonyos.Stream.Write.{frame, write_frame-Writes, write_frame-sent, write_frame_open}
use deskflow_harmonyos.Proto.{Value, num, str, writef}
use deskflow_harmonyos.Proto.Read.{max_string}
use deskflow_harmonyos.Proto.Format.{Item, fixed, int, w2, text, render, encode, big_endian, Fits}
use deskflow_harmonyos.Client.{Client, protocol_mismatch, set_status}
use deskflow_harmonyos.Proto.Encode.{writef-encode}
use deskflow_harmonyos.Client.Clipboard.{send_message}
use deskflow_harmonyos.Client.Messages.{send_key}
use deskflow_harmonyos.Stream.Sides.{reading_side, write_frame-reading_side}
use deskflow_harmonyos.Client.Session.Packet.{InSync}
use deskflow_harmonyos.Client.Session.Sync.{InSync-same}
use deskflow_harmonyos.Client.Session.Hello.{Hears, Hears-Read}
use deskflow_harmonyos.Client.Session.{
  with_stream, answer_hello, handshake, fmt_hello_back, hello_name_length, protocol_minor,
}

-- "%7s%2i%2i%s"
abbrev pub hello_back_items : List Item
hello_back_items = fixed 7 ∷ int w2 ∷ int w2 ∷ text ∷ []

hello_back_format : render hello_back_items ≡ fmt_hello_back
unfolding render
hello_back_format = refl

-- A Hello that names another major version is refused.
answer_hello_refused :
    (name : List ℕ) (major minor : ℕ) (c : Client)
    → major ≢ 1
    → answer_hello (str name ∷ num major ∷ num minor ∷ []) c ≡ (
      false,
      set_status
          (protocol_mismatch name (to_i16 major) (to_i16 minor))
          (record c { should_reconnect = false }),
    )
unfolding answer_hello
answer_hello_refused name major minor c h =
    let mismatch : (not (length name == hello_name_length) || not (major == 1)) ≡ true =
      (ground arith) in
    if_true _ _ _ mismatch

-- The answer to a Hello of this major version.
abbrev pub hello_back : List ℕ → ℕ → Client → List Value
hello_back name minor c =
    str name ∷ num 1 ∷ num (if ltb minor 8 then minor else 8) ∷ str c.screen_name ∷ []

agreed_minor :
    (minor : ℕ)
    → minor < 2 ^ 15
    → to_u32 (if ltb_ℤ (to_i16 minor) protocol_minor then to_i16 minor else protocol_minor)
      ≡ (if ltb minor 8 then minor else 8)
agreed_minor minor h = ground arith

pub send_message-encode :
    (is : List Item) (fmt : List ℕ) (vs : List Value) (c : Client)
    → render is ≡ fmt
    → Fits is vs
    → send_message fmt vs c ≡ send_key (encode is vs) c
unfolding send_message send_key
send_message-encode is fmt vs c f h =
    let e : writef fmt vs ≡ some (encode is vs) =
      ap (λ l. writef l vs) (sym f) ∙ writef-encode is vs h in
    rw (e, send_message) refl

answer_hello_accepted :
    (name : List ℕ) (minor : ℕ) (c : Client)
    → length name ≡ 7
    → minor < 2 ^ 15
    → length c.screen_name ≤ max_string
    → answer_hello (str name ∷ num 1 ∷ num minor ∷ []) c
      ≡ send_key (encode hello_back_items (hello_back name minor c)) c
unfolding answer_hello
answer_hello_accepted name minor c n m s =
    let seven : (not (length name == hello_name_length) || not (1 == 1)) ≡ false = ground arith in
    if_false _ _ _ seven
    ∙ (ap (λ v. send_message fmt_hello_back (str name ∷ num 1 ∷ num v ∷ str c.screen_name ∷ []) c)
          (agreed_minor minor m)
        ∙ send_message-encode hello_back_items fmt_hello_back (hello_back name minor c) c
            hello_back_format (ground arith))

-- A server of another major version is refused: handshake() fails, sends nothing, and leaves word
-- that a reconnection is of no use.
pub handshake_refuses :
    (c : Client) (name : List ℕ) (major minor : ℕ) (rest : List ℕ)
    → Hears c name major minor rest
    → major ≢ 1
    → ((handshake c).0 ≡ false)
      × ((handshake c).1.should_reconnect ≡ false)
      × ((handshake c).1.stream.sent ≡ c.stream.sent)
unfolding set_status
handshake_refuses c name major minor rest h other =
    let r = Hears-Read c name major minor rest h in
    let e = r.answers ∙ answer_hello_refused name major minor (with_stream r.left c) other in
    (ap (λ q. q.0) e, ap (λ q. q.1.should_reconnect) e, ap (λ q. q.1.stream.sent) e ∙ r.sent_is)

-- A server of major version 1 is answered: where handshake() succeeds, it has sent exactly the
-- frame of a HelloBack with the server's name, version 1, the smaller of the two minor versions and
-- the screen's name; what follows the Hello is left to read, and the word on reconnection stays as
-- it was. The minor version is below 2 ^ 15 and the screen's name within the limit of a string.
pub handshake_answers :
    (c : Client) (name : List ℕ) (minor : ℕ) (rest : List ℕ)
    → Hears c name 1 minor rest
    → minor < 2 ^ 15
    → length c.screen_name ≤ max_string
    → (handshake c).0 ≡ true
    → ((handshake c).1.stream.sent
        ≡ c.stream.sent ++ frame (encode hello_back_items (hello_back name minor c)))
      × (pending (handshake c).1.stream ≡ rest)
      × ((handshake c).1.should_reconnect ≡ c.should_reconnect)
unfolding send_key
handshake_answers c name minor rest h m s ok =
    let r = Hears-Read c name 1 minor rest h in
    let e = r.answers ∙ answer_hello_accepted name minor (with_stream r.left c) h.name_is m s in
    let bytes = encode hello_back_items (hello_back name minor c) in
    let w = write_frame-Writes bytes r.left in
    (
      ap (λ q. q.1.stream.sent) e
          ∙ (write_frame-sent bytes r.left (sym (ap (λ q. q.0) e) ∙ ok)
              ∙ ap (λ l. l ++ frame bytes) r.sent_is),
      ap (λ q. pending q.1.stream) e ∙ (w.pending_is ∙ r.pending_is),
      ap (λ q. q.1.should_reconnect) e,
    )

-- Where nobody has asked to stop, the answer leaves the connection in step behind the Hello.
pub handshake-InSync :
    (c : Client) (name : List ℕ) (minor : ℕ) (rest : List ℕ)
    → Hears c name 1 minor rest
    → minor < 2 ^ 15
    → length c.screen_name ≤ max_string
    → c.stream.stop_requested ≡ false
    → InSync (handshake c).1.stream rest
unfolding send_key
handshake-InSync c name minor rest h m s quiet =
    let r = Hears-Read c name 1 minor rest h in
    let e = r.answers ∙ answer_hello_accepted name minor (with_stream r.left c) h.name_is m s in
    let bytes = encode hello_back_items (hello_back name minor c) in
    InSync-same r.left (handshake c).1.stream rest
      (ap (λ q. reading_side q.1.stream) e ∙ write_frame-reading_side bytes r.left)
      (r.in_sync quiet)

hello_back_length :
    (name screen : List ℕ) (m : ℕ)
    → length name ≡ 7
    → length screen ≤ max_string
    → length (encode hello_back_items (str name ∷ num 1 ∷ num m ∷ str screen ∷ [])) ≤ max_frame
unfolding encode big_endian put_u16 put_u32
hello_back_length name screen m h k = omega (
  arith,
  length-append name (put_u16 1 ++ (put_u16 m ++ (put_u32 (length screen) ++ (screen ++ [])))),
  length-append screen [],
)

-- On an open connection that takes everything and holds a Hello of major version 1 with a
-- seven-letter name and a minor version below 2 ^ 15 next, where the client's screen name is of at most
-- 1 MiB, handshake succeeds.
pub handshake_succeeds :
    (c : Client) (name : List ℕ) (minor : ℕ) (rest : List ℕ)
    → Hears c name 1 minor rest
    → minor < 2 ^ 15
    → length c.screen_name ≤ max_string
    → c.stream.outgoing ≡ []
    → (handshake c).0 ≡ true
unfolding send_key
handshake_succeeds c name minor rest h m s open_end =
    let r = Hears-Read c name 1 minor rest h in
    ap (λ q. q.0)
      (r.answers ∙ answer_hello_accepted name minor (with_stream r.left c) h.name_is m s)
    ∙ write_frame_open (encode hello_back_items (hello_back name minor c)) r.left
        (r.connected_is ∙ h.connected_is) (r.outgoing_is ∙ open_end)
        (hello_back_length name c.screen_name _ h.name_is s)
