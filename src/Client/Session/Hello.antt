-- ===== src/Client/Session/Hello.antt =====
-- The Hello that opens a connection, and how handshake() of
-- entry/src/main/cpp/protocol/deskflow_client.cpp reads it.
use deskflow_harmonyos.Base.{
  ℕ, ◌≤◌, ◌<◌, ◌^◌, ◌≡◌, refl, sym, ap, ◌∙◌, true, some, false, List, [], ◌∷◌, ◌++◌, append-nil,
  arith, length, length-append,
}
use deskflow_harmonyos.Base.Word.{put_u16}
use deskflow_harmonyos.Stream.{Stream, unread, read_frame, push_to_buffer, max_frame}
use deskflow_harmonyos.Stream.Drained.{
  InBuffer, unread-Drained, Drained, Drained-unread, read_frame-Drained, unread-push_to_buffer,
  push_to_buffer-InBuffer,
}
use deskflow_harmonyos.Proto.Takes.{readf-Takes}
use deskflow_harmonyos.Client.Session.Packet.{InSync}
use deskflow_harmonyos.Stream.Fill.{arrivals}
use deskflow_harmonyos.Stream.Read.{pending}
use deskflow_harmonyos.Stream.Write.{frame}
use deskflow_harmonyos.Stream.Frame.{read_frame-Yields}
use deskflow_harmonyos.Proto.{Value, num, str}
use deskflow_harmonyos.Proto.Read.{readf}
use deskflow_harmonyos.Proto.Format.{Item, fixed, int, w2, render, encode, big_endian, Fits}
use deskflow_harmonyos.Client.{Client}
use deskflow_harmonyos.Client.Session.{
  on_greeting, on_hello, with_stream, answer_hello, handshake, fmt_hello,
}

-- "%7s%2i%2i"
abbrev pub hello_items : List Item
hello_items = fixed 7 ∷ int w2 ∷ int w2 ∷ []

-- What handshake() does once it has read a frame and its Hello.
pub record Read (c : Client) (vs : List Value) (rest : List ℕ) : Type 0 where
  pub left : Stream
  pub pending_is : pending left ≡ rest
  pub sent_is : left.sent ≡ c.stream.sent
  pub connected_is : left.connected ≡ c.stream.connected
  pub outgoing_is : left.outgoing ≡ c.stream.outgoing
  pub in_sync : c.stream.stop_requested ≡ false → InSync left rest
  pub answers : handshake c ≡ answer_hello vs (with_stream left c)

handshake_reads :
    (c : Client) (bytes : List ℕ) (vs : List Value)
    → (read_frame c.stream).0 ≡ some bytes
    → (readf fmt_hello (push_to_buffer bytes (read_frame c.stream).1)).0 ≡ some vs
    → handshake c
      ≡ answer_hello vs
          (with_stream (readf fmt_hello (push_to_buffer bytes (read_frame c.stream).1)).1 c)
unfolding handshake on_greeting on_hello
handshake_reads c bytes vs e e' =
    let s1 = (read_frame c.stream).1 in
    let s2 = (readf fmt_hello (push_to_buffer bytes s1)).1 in
    ap (λ o. on_greeting o (with_stream s1 c)) e ∙ ap (λ o. on_hello o (with_stream s2 c)) e'

hello_format : render hello_items ≡ fmt_hello
unfolding render
hello_format = refl

-- A frame's payload that was pushed onto a used-up buffer and read to its end leaves the
-- connection in step.
pushed-InSync :
    (s1 left : Stream) (bytes : List ℕ)
    → Drained s1
    → pending s1 ≡ bytes
    → InBuffer left
    → unread left ≡ []
    → left.incoming ≡ s1.incoming
    → left.connected ≡ true
    → left.stop_requested ≡ false
    → InSync left bytes
pushed-InSync s1 left bytes d e i nothing to_come o quiet = record {
  connected_is = o;
  drained = unread-Drained left i nothing;
  stop_is = quiet;
  next =
      ap (λ l. l ++ arrivals left.incoming) nothing
      ∙ (ap arrivals to_come
          ∙ (ap (λ l. l ++ arrivals s1.incoming) (sym (Drained-unread s1 d)) ∙ e));
}

handshake-Read :
    (c : Client) (vs : List Value) (rest : List ℕ)
    → Fits hello_items vs
    → length (encode hello_items vs) ≤ max_frame
    → c.stream.connected ≡ true
    → Drained c.stream
    → pending c.stream ≡ frame (encode hello_items vs) ++ rest
    → Read c vs rest
unfolding push_to_buffer render
handshake-Read c vs rest fits size o d e =
    let bytes = encode hello_items vs in
    let y = read_frame-Yields bytes rest c.stream o size e in
    let s1 = (read_frame c.stream).1 in
    let d1 = read_frame-Drained c.stream d in
    let s = push_to_buffer bytes s1 in
    let hello =
      readf-Takes hello_items vs [] s fits (y.connected_is ∙ o)
        (push_to_buffer-InBuffer bytes s1 (omega (arith, d1)))
        (unread-push_to_buffer bytes s1 d1 ∙ sym (append-nil bytes)) in
    let left = (readf fmt_hello s).1 in
    let in_step = λ (quiet : c.stream.stop_requested ≡ false).
      pushed-InSync s1 left rest d1 y.pending_is hello.in_buffer hello.unread_is hello.incoming_is
        (hello.connected_is ∙ (y.connected_is ∙ o)) (hello.stop_is ∙ (y.stop_is ∙ quiet)) in
    record {
      left = left;
      pending_is =
          ap (λ l. l ++ arrivals left.incoming) hello.unread_is
          ∙ (ap arrivals hello.incoming_is
              ∙ (ap (λ l. l ++ arrivals s1.incoming) (sym (Drained-unread s1 d1)) ∙ y.pending_is));
      sent_is = hello.sent_is ∙ y.sent_is;
      connected_is = hello.connected_is ∙ y.connected_is;
      outgoing_is = hello.outgoing_is ∙ y.outgoing_is;
      in_sync = in_step;
      answers = handshake_reads c bytes vs y.result_is hello.result_is;
    }

-- An open connection whose buffer is used up and whose next frame is the Hello of `name` and the two version numbers.
pub record Hears (c : Client) (name : List ℕ) (major minor : ℕ) (rest : List ℕ) : Type 0 where
  pub name_is : length name ≡ 7
  pub major_is : major < 2 ^ 16
  pub minor_is : minor < 2 ^ 16
  pub connected_is : c.stream.connected ≡ true
  pub drained : Drained c.stream
  pub next :
      pending c.stream ≡ frame (encode hello_items (str name ∷ num major ∷ num minor ∷ [])) ++ rest

hello_length :
    (name : List ℕ) (major minor : ℕ)
    → length name ≡ 7
    → length (encode hello_items (str name ∷ num major ∷ num minor ∷ [])) ≤ max_frame
unfolding encode big_endian put_u16
hello_length name major minor h =
    omega (arith, length-append name (put_u16 major ++ (put_u16 minor ++ [])))

pub Hears-Read :
    (c : Client) (name : List ℕ) (major minor : ℕ) (rest : List ℕ)
    → Hears c name major minor rest
    → Read c (str name ∷ num major ∷ num minor ∷ []) rest
Hears-Read c name major minor rest h =
    handshake-Read c (str name ∷ num major ∷ num minor ∷ []) rest
      (omega (arith, h.name_is, h.major_is, h.minor_is)) (hello_length name major minor h.name_is)
      h.connected_is h.drained h.next
