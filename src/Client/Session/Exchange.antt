-- ===== src/Client/Session/Exchange.antt =====
-- A clipboard text from the sendClipboard of one client to the message loop of another
-- (entry/src/main/cpp/protocol/deskflow_client.cpp).
use mathlib.Core.Path.{subst}
use mathlib.Core.List.{append_cancel_left}
use deskflow_harmonyos.Base.{
  ℕ, ◌<◌, ◌^◌, ◌≡◌, refl, sym, ap, ◌∙◌, Bool, true, false, List, [], ◌∷◌, ◌++◌, append_assoc,
  append-nil, arith, length, All, if◌then◌else◌,
}
use deskflow_harmonyos.Stream.Write.{write_frame-sent}
use deskflow_harmonyos.Proto.{Value, num, str}
use deskflow_harmonyos.Proto.Format.{Item, byte, int, w1, w4, render, encode}
use deskflow_harmonyos.Client.{Client}
use deskflow_harmonyos.Client.Clipboard.{
  send_part, fmt_d_clipboard, send_clipboard, chunks_of, chunk_size,
}
use deskflow_harmonyos.Client.Clipboard.Container.{marshal_text}
use deskflow_harmonyos.Client.Clipboard.Transfer.{
  Part, parts, chunk_parts, send_parts, send_clipboard-parts,
}
use deskflow_harmonyos.Client.Messages.{classify, find_key, send_key}
use deskflow_harmonyos.Client.Session.Greeting.{send_message-encode}
use deskflow_harmonyos.Client.Session.Packet.{packet_frame, InSync}
use deskflow_harmonyos.Client.Session.Sync.{frames}
use deskflow_harmonyos.Client.Session.Download.{part_packet, part_packets}
use deskflow_harmonyos.Client.Session.Transfer.{
  IsShort, chunks_of-IsShort, length-to_string, Arrived, Listens, IsSendable, message_loop-Arrived,
}

-- "DCLP%1i%4i%1i%s"
abbrev part_items : List Item
part_items =
    byte b'D' ∷ byte b'C' ∷ byte b'L' ∷ byte b'P' ∷ int w1 ∷ int w4 ∷ int w1 ∷ Item.text ∷ []

part_format : render part_items ≡ fmt_d_clipboard
unfolding render
part_format = refl

abbrev part_values : ℕ → ℕ → List ℕ → List Value
part_values seq mark content = num 0 ∷ num seq ∷ num mark ∷ str content ∷ []

-- What a part that is sent puts on the wire.
record SentAs (seq : ℕ) (bytes : List ℕ) (c : Client) (r : Bool × Client) : Type 0 where
  sent_is : r.0 ≡ true → r.1.stream.sent ≡ c.stream.sent ++ bytes
  seq_is : r.1.seq_num ≡ seq

send_part-SentAs :
    (mark : ℕ) (content : List ℕ) (c : Client)
    → c.seq_num < 2 ^ 32
    → mark < 256
    → IsShort content
    → SentAs c.seq_num
        (packet_frame (part_packet c.seq_num (mark, content)))
        c
        (send_part mark content c)
unfolding send_part send_key encode classify find_key
send_part-SentAs mark content c h k short =
    let values = part_values c.seq_num mark content in
    subst (SentAs c.seq_num (packet_frame (part_packet c.seq_num (mark, content))) c)
      (sym (
        send_message-encode part_items fmt_d_clipboard values c part_format (omega (arith, short))))
      (record { sent_is = write_frame-sent (encode part_items values) c.stream; seq_is = refl })

-- A part that may be sent.
abbrev MaySend : Part → Type 0
MaySend part = (part.0 < 256) × IsShort part.1

-- One part after another, with what the rest sends.
sent_then :
    (seq : ℕ) (first rest : List ℕ) (c : Client) (ok : Bool) (c' : Client) (r : Bool × Client)
    → SentAs seq first c (ok, c')
    → SentAs seq rest c' r
    → SentAs seq (first ++ rest) c (if ok then r else (false, c'))
sent_then seq first rest c true c' r h k = record {
  sent_is = λ e.
      k.sent_is e ∙ (ap (λ l. l ++ rest) (h.sent_is refl) ∙ append_assoc c.stream.sent first rest);
  seq_is = k.seq_is;
}
sent_then seq first rest c false c' r h k = record { sent_is = λ e. cc; seq_is = h.seq_is }

send_parts-SentAs :
    (seq : ℕ) (ps : List Part) (c : Client)
    → c.seq_num ≡ seq
    → seq < 2 ^ 32
    → All MaySend ps
    → SentAs seq (frames (part_packets seq ps)) c (send_parts ps c)
unfolding send_parts
send_parts-SentAs seq [] c e h k = record {
  sent_is = λ _. sym (append-nil c.stream.sent);
  seq_is = e;
}
send_parts-SentAs seq ((mark, content) ∷ ps) c e h ((small, short), k) =
    let r = send_part mark content c in
    let one : SentAs seq (packet_frame (part_packet seq (mark, content))) c r =
      (subst (λ n. SentAs n (packet_frame (part_packet n (mark, content))) c r) e
        (send_part-SentAs mark content c (omega (arith, e)) small short)) in
    sent_then seq (packet_frame (part_packet seq (mark, content))) (frames (part_packets seq ps)) c
      r.0 r.1 (send_parts ps r.1) one (send_parts-SentAs seq ps r.1 one.seq_is h k)

chunk_parts-MaySend : (xs : List (List ℕ)) → All IsShort xs → All MaySend (chunk_parts xs)
chunk_parts-MaySend [] h = (omega arith, tt)
chunk_parts-MaySend (x ∷ xs) (short, h) = ((omega arith, short), chunk_parts-MaySend xs h)

parts-MaySend : (payload : List ℕ) → All MaySend (parts payload)
parts-MaySend payload = (
  (omega arith, omega (arith, length-to_string (length payload))),
  chunk_parts-MaySend (chunks_of (length payload) chunk_size payload)
      (chunks_of-IsShort (length payload) chunk_size payload (omega arith)),
)

-- Where sendClipboard succeeds, it has put exactly the frames of the text's parts on the wire.
send_clipboard-sent :
    (text : List ℕ) (c : Client)
    → IsSendable text
    → c.handshake_done ≡ true
    → c.seq_num < 2 ^ 32
    → (send_clipboard text c).0 ≡ true
    → (send_clipboard text c).1.stream.sent
      ≡ c.stream.sent ++ frames (part_packets c.seq_num (parts (marshal_text text)))
send_clipboard-sent text c t running h ok =
    let ps = parts (marshal_text text) in
    let e = send_clipboard-parts text c running t.some_text in
    let c0 : Client = record c { last_clipboard_text = text } in
    let s = send_parts-SentAs c.seq_num ps c0 refl h (parts-MaySend (marshal_text text)) in
    ap (λ (r : Bool × Client). r.1.stream.sent) e
    ∙ s.sent_is (sym (ap (λ (r : Bool × Client). r.0) e) ∙ ok)

-- A text that sendClipboard of one client has put on the wire, as the next bytes of another client's
-- connection, is performed part by part by that client's message loop, which hands exactly the text
-- to the callback once and goes on behind it. Conditions: the sender is in the running phase; the
-- text is not empty, and its container is at most 1 MiB; the receiver synchronises the clipboard,
-- has a callback, and its connection is in step and takes every acknowledgement.
pub send_clipboard-message_loop :
    (text bytes tail : List ℕ) (fuel : ℕ) (w c : Client)
    → IsSendable text
    → w.handshake_done ≡ true
    → w.seq_num < 2 ^ 32
    → (send_clipboard text w).0 ≡ true
    → (send_clipboard text w).1.stream.sent ≡ w.stream.sent ++ bytes
    → Listens c
    → InSync c.stream (bytes ++ tail)
    → Arrived text tail (length (parts (marshal_text text))) fuel c
send_clipboard-message_loop text bytes tail fuel w c t running h ok e l in_step =
    let wire = send_clipboard-sent text w t running h ok in
    let same : bytes ≡ frames (part_packets w.seq_num (parts (marshal_text text))) =
      append_cancel_left w.stream.sent _ _ (sym e ∙ wire) in
    message_loop-Arrived w.seq_num fuel text tail c t h l
      (subst (λ b. InSync c.stream (b ++ tail)) same in_step)
