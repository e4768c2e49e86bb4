-- ===== src/Client/Session/Packet.antt =====
-- The frames that a server sends in the running phase, and how a round of the message loop of
-- entry/src/main/cpp/protocol/deskflow_client.cpp reads one.
use deskflow_harmonyos.Base.{
  ℕ, ◌≤◌, ◌≡◌, ◌≢◌, refl, sym, ap, ◌∙◌, true, false, some, List, [], ◌∷◌, ◌++◌, append-nil, length,
  arith,
}
use mathlib.Core.Path.{subst}
use deskflow_harmonyos.Stream.{Stream, unread, read_exact, read_frame, push_to_buffer, max_frame}
use deskflow_harmonyos.Stream.Drained.{
  InBuffer, Drained, Drained-unread, unread-Drained, read_frame-Drained, unread-push_to_buffer,
  push_to_buffer-InBuffer,
}
use deskflow_harmonyos.Stream.Fill.{arrivals}
use deskflow_harmonyos.Stream.Read.{pending}
use deskflow_harmonyos.Stream.Write.{frame}
use deskflow_harmonyos.Stream.Frame.{read_frame-Yields}
use deskflow_harmonyos.Proto.{Value}
use deskflow_harmonyos.Proto.Read.{readf}
use deskflow_harmonyos.Proto.Format.{Item, int, ints, text, w1, w2, w4, render, encode, Fits}
use deskflow_harmonyos.Proto.Takes.{read_exact-Takes, readf-Takes}
use deskflow_harmonyos.Client.Messages.{
  Message, c_enter, d_mouse_move, d_mouse_rel_move, d_mouse_down, d_mouse_up, d_mouse_wheel,
  d_key_down, d_key_up, d_key_repeat, d_key_down_lang, c_screen_saver, c_clipboard, d_set_options,
  d_clipboard, d_file_transfer, d_drag_info, d_language_sync, d_secure_input, e_incompatible, other,
  payload_format, classify,
}

-- The items of a message's payload, as payload_format writes them down.
abbrev pub payload_items : Message → List Item
payload_items c_enter = int w2 ∷ int w2 ∷ int w4 ∷ int w2 ∷ []
payload_items d_mouse_move = int w2 ∷ int w2 ∷ []
payload_items d_mouse_rel_move = int w2 ∷ int w2 ∷ []
payload_items d_mouse_down = int w1 ∷ []
payload_items d_mouse_up = int w1 ∷ []
payload_items d_mouse_wheel = int w2 ∷ int w2 ∷ []
payload_items d_key_down = int w2 ∷ int w2 ∷ int w2 ∷ []
payload_items d_key_up = int w2 ∷ int w2 ∷ int w2 ∷ []
payload_items d_key_repeat = int w2 ∷ int w2 ∷ int w2 ∷ int w2 ∷ text ∷ []
payload_items d_key_down_lang = int w2 ∷ int w2 ∷ int w2 ∷ text ∷ []
payload_items c_screen_saver = int w1 ∷ []
payload_items c_clipboard = int w1 ∷ int w4 ∷ []
payload_items d_set_options = ints w4 ∷ []
payload_items d_clipboard = int w1 ∷ int w4 ∷ int w1 ∷ text ∷ []
payload_items d_file_transfer = int w1 ∷ text ∷ []
payload_items d_drag_info = int w2 ∷ text ∷ []
payload_items d_language_sync = text ∷ []
payload_items d_secure_input = text ∷ []
payload_items e_incompatible = int w2 ∷ int w2 ∷ []
payload_items _ = []

pub render-payload_items : (m : Message) → render (payload_items m) ≡ payload_format m
unfolding render
render-payload_items c_enter = refl
render-payload_items d_mouse_move = refl
render-payload_items d_mouse_rel_move = refl
render-payload_items d_mouse_down = refl
render-payload_items d_mouse_up = refl
render-payload_items d_mouse_wheel = refl
render-payload_items d_key_down = refl
render-payload_items d_key_up = refl
render-payload_items d_key_repeat = refl
render-payload_items d_key_down_lang = refl
render-payload_items c_screen_saver = refl
render-payload_items c_clipboard = refl
render-payload_items d_set_options = refl
render-payload_items d_clipboard = refl
render-payload_items d_file_transfer = refl
render-payload_items d_drag_info = refl
render-payload_items d_language_sync = refl
render-payload_items d_secure_input = refl
render-payload_items e_incompatible = refl
render-payload_items _ = refl

-- A message's key and values, as the server sends them.
pub record Packet : Type 0 where
  pub key : List ℕ
  pub values : List Value

abbrev pub message_of : Packet → Message
message_of p = classify p.key

abbrev pub payload_of : Packet → List ℕ
payload_of p = encode (payload_items (message_of p)) p.values

-- The frame that carries the message.
abbrev pub packet_frame : Packet → List ℕ
packet_frame p = frame (p.key ++ payload_of p)

-- A packet that a server following the protocol may send.
pub record IsProper (p : Packet) : Type 0 where
  pub known : message_of p ≢ other
  pub key_length : length p.key ≡ 4
  pub fits : Fits (payload_items (message_of p)) p.values
  pub small : length (p.key ++ payload_of p) ≤ max_frame

-- An open connection whose buffer is used up, nobody having asked to stop, with so many bytes to come.
pub record InSync (s : Stream) (bytes : List ℕ) : Type 0 where
  pub connected_is : s.connected ≡ true
  pub drained : Drained s
  pub stop_is : s.stop_requested ≡ false
  pub next : pending s ≡ bytes

-- The stream at the three stages of a round: behind the frame, the key, the payload.
abbrev pub framed : Stream → List ℕ → Stream
framed s bytes = push_to_buffer bytes (read_frame s).1

abbrev pub headed : Stream → List ℕ → Stream
headed s bytes = (read_exact 4 (framed s bytes)).1

-- What the reads of a round find in a frame of these bytes, and what holds of the stream that they
-- leave.
pub record Receives (p : Packet) (bytes : List ℕ) (After : Stream → Type 0) (s : Stream)
    : Type 0 where
  pub frame_is : (read_frame s).0 ≡ some bytes
  pub key_is : (read_exact 4 (framed s bytes)).0 ≡ some p.key
  pub left : Stream
  pub values_are : readf (payload_format (message_of p)) (headed s bytes) ≡ (some p.values, left)
  pub after_is : After left
  pub sent_is : left.sent ≡ s.sent
  pub outgoing_is : left.outgoing ≡ s.outgoing

-- An open connection with `surplus` unread in its buffer, nobody having asked to stop, and so many
-- bytes to come behind it.
pub record HoldsBack (surplus bytes : List ℕ) (s : Stream) : Type 0 where
  pub connected_is : s.connected ≡ true
  pub in_buffer : InBuffer s
  pub unread_is : unread s ≡ surplus
  pub later_is : arrivals s.incoming ≡ bytes
  pub stop_is : s.stop_requested ≡ false

-- A packet's payload with bytes behind it that its message does not read.
abbrev pub bytes_of : Packet → List ℕ → List ℕ
bytes_of p surplus = p.key ++ (payload_of p ++ surplus)

-- A round finds in the next frame the packet that the server sent, and leaves in the buffer what the
-- packet's message does not read.
pub surplus_left :
    (p : Packet) (surplus : List ℕ) (s : Stream) (rest : List ℕ)
    → length p.key ≡ 4
    → Fits (payload_items (message_of p)) p.values
    → length (bytes_of p surplus) ≤ max_frame
    → InSync s (frame (bytes_of p surplus) ++ rest)
    → Receives p (bytes_of p surplus) (HoldsBack surplus rest) s
unfolding push_to_buffer
surplus_left p surplus s rest key_length fits small sync =
    let bytes = bytes_of p surplus in
    let is = payload_items (message_of p) in
    let y = read_frame-Yields bytes rest s sync.connected_is small sync.next in
    let d = read_frame-Drained s sync.drained in
    let s1 = (read_frame s).1 in
    let pushed = framed s bytes in
    let o = y.connected_is ∙ sync.connected_is in
    let head =
      read_exact-Takes p.key (payload_of p ++ surplus) pushed key_length o
        (push_to_buffer-InBuffer bytes s1 (omega (arith, d))) (unread-push_to_buffer bytes s1 d) in
    let body =
      readf-Takes is p.values surplus (headed s bytes) fits (head.connected_is ∙ o) head.in_buffer
        head.unread_is in
    let left = (readf (render is) (headed s bytes)).1 in
    record {
      frame_is = y.result_is;
      key_is = head.result_is;
      left = left;
      values_are =
          ap (λ fmt. readf fmt (headed s bytes)) (sym (render-payload_items (message_of p)))
          ∙ ap (λ o. (o, left)) body.result_is;
      after_is = record {
        connected_is = body.connected_is ∙ (head.connected_is ∙ o);
        in_buffer = body.in_buffer;
        unread_is = body.unread_is;
        later_is =
            ap arrivals (body.incoming_is ∙ head.incoming_is)
            ∙ (ap (λ l. l ++ arrivals s1.incoming) (sym (Drained-unread s1 d)) ∙ y.pending_is);
        stop_is = body.stop_is ∙ (head.stop_is ∙ (y.stop_is ∙ sync.stop_is));
      };
      sent_is = body.sent_is ∙ (head.sent_is ∙ y.sent_is);
      outgoing_is = body.outgoing_is ∙ (head.outgoing_is ∙ y.outgoing_is);
    }

pub HoldsBack-pending :
    (surplus bytes : List ℕ) (s : Stream) → HoldsBack surplus bytes s → pending s ≡ surplus ++ bytes
HoldsBack-pending surplus bytes s h =
    ap (λ l. l ++ arrivals s.incoming) h.unread_is ∙ ap (λ l. surplus ++ l) h.later_is

HoldsBack-InSync : (s : Stream) (bytes : List ℕ) → HoldsBack [] bytes s → InSync s bytes
HoldsBack-InSync s bytes h = record {
  connected_is = h.connected_is;
  drained = unread-Drained s h.in_buffer h.unread_is;
  stop_is = h.stop_is;
  next = HoldsBack-pending [] bytes s h;
}

-- A packet in its own frame leaves the connection in step behind it.
pub receives :
    (p : Packet) (s : Stream) (rest : List ℕ)
    → IsProper p
    → InSync s (packet_frame p ++ rest)
    → Receives p (p.key ++ payload_of p) (λ t. InSync t rest) s
receives p s rest ok sync =
    let bare = append-nil (payload_of p) in
    let as_sent = ap (λ l. p.key ++ l) bare in
    let r : Receives p (p.key ++ payload_of p) (HoldsBack [] rest) s =
      subst (λ b. Receives p b (HoldsBack [] rest) s) as_sent
        (surplus_left p [] s rest ok.key_length ok.fits
          (subst (λ b. length b ≤ max_frame) (sym as_sent) ok.small)
          (subst (λ b. InSync s (frame b ++ rest)) (sym as_sent) sync)) in
    record {
      frame_is = r.frame_is;
      key_is = r.key_is;
      left = r.left;
      values_are = r.values_are;
      after_is = HoldsBack-InSync r.left rest r.after_is;
      sent_is = r.sent_is;
      outgoing_is = r.outgoing_is;
    }
