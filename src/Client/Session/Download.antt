-- ===== src/Client/Session/Download.antt =====
-- A clipboard text that arrives over the connection of
-- entry/src/main/cpp/protocol/deskflow_client.cpp, as the frames of its parts.
use mathlib.Core.Path.{subst}
use deskflow_harmonyos.Base.{
  ℕ, ◌≡◌, refl, sym, ap, ◌∙◌, Bool, true, false, List, [], ◌∷◌, arith, is_empty, codes,
  if◌then◌else◌, if_both, ◌&&◌, not, ◌==◌,
}
use deskflow_harmonyos.Stream.{Stream, write_frame}
use deskflow_harmonyos.Stream.Write.{write_frame_open, write_frame_stays_open}
use deskflow_harmonyos.Proto.{num, str}
use deskflow_harmonyos.Client.{Client, ClipChunk}
use deskflow_harmonyos.Client.Clipboard.{
  on_clipboard_part, chunk_end, deliver_text, mark_start, mark_chunk, mark_end,
}
use deskflow_harmonyos.Client.Clipboard.Container.{unmarshal_text}
use deskflow_harmonyos.Client.Clipboard.Transfer.{Part, receive_parts}
use deskflow_harmonyos.Client.Messages.{act, classify, find_key, send_key}
use deskflow_harmonyos.Client.Session.{with_stream, acknowledge}
use deskflow_harmonyos.Client.Session.Packet.{Packet}
use deskflow_harmonyos.Client.Session.Sync.{Performs, all_performed, goes_on, ends, perform}

-- A function of the client that does not look at the stream.
record Blind (s : Stream) (d c : Client) : Type 0 where
  same : d ≡ with_stream s c

either-Blind :
    (s : Stream) (b : Bool) {x y x' y' : Client}
    → Blind s x x'
    → Blind s y y'
    → Blind s (if b then x else y) (if b then x' else y')
either-Blind s true h k = h
either-Blind s false h k = k

same-Blind : (s : Stream) (c : Client) → Blind s (with_stream s c) c
same-Blind s c = record { same = refl }

deliver_text-Blind :
    (s : Stream) (text : List ℕ) (c : Client)
    → Blind s (deliver_text text (with_stream s c)) (deliver_text text c)
unfolding deliver_text
deliver_text-Blind s text c =
    either-Blind s (c.clipboard_sync && not (is_empty text))
      (either-Blind s c.has_clipboard_callback (record { same = refl }) (record { same = refl }))
      (record { same = refl })

on_clipboard_part-Blind :
    (s : Stream) (seq mark : ℕ) (content : List ℕ) (c : Client)
    → Blind s
        (on_clipboard_part seq mark content (with_stream s c))
        (on_clipboard_part seq mark content c)
unfolding on_clipboard_part chunk_end
on_clipboard_part-Blind s seq mark content c =
    let chunk : ClipChunk = record c.clip_chunk { is_active = false; data_buffer = [] } in
    either-Blind s (mark == mark_start) (record { same = refl })
      (either-Blind s (mark == mark_chunk) (record { same = refl })
        (either-Blind s (mark == mark_end)
          (either-Blind s c.clip_chunk.is_active
            (deliver_text-Blind s (unmarshal_text c.clip_chunk.data_buffer)
              (record c { clip_chunk = chunk }))
            (same-Blind s c))
          (same-Blind s c)))

receive_parts-Blind :
    (s : Stream) (seq : ℕ) (ps : List Part) (c : Client)
    → receive_parts seq ps (with_stream s c) ≡ with_stream s (receive_parts seq ps c)
unfolding receive_parts
receive_parts-Blind s seq [] c = refl
receive_parts-Blind s seq ((mark, content) ∷ ps) c =
    ap (receive_parts seq ps) (on_clipboard_part-Blind s seq mark content c).same
    ∙ receive_parts-Blind s seq ps (on_clipboard_part seq mark content c)

-- The DCLP message of a part.
abbrev pub part_packet : ℕ → Part → Packet
part_packet seq part = record {
  key = codes "DCLP";
  values = num 0 ∷ num seq ∷ num part.0 ∷ str part.1 ∷ [];
}

abbrev pub part_packets : ℕ → List Part → List Packet
part_packets seq [] = []
part_packets seq (part ∷ ps) = part_packet seq part ∷ part_packets seq ps

-- What performing a part leaves, on a stream that takes the acknowledgement.
record Handled (seq : ℕ) (part : Part) (c : Client) (r : Bool × Client) : Type 0 where
  going : r.0 ≡ true
  stream : Stream
  client_is : r.1 ≡ with_stream stream (on_clipboard_part seq part.0 part.1 c)
  open_end : stream.outgoing ≡ []

acknowledge-Handled :
    (seq : ℕ) (part : Part) (s : Stream) (c : Client)
    → s.connected ≡ true
    → s.outgoing ≡ []
    → Handled seq part c (acknowledge true (with_stream s (on_clipboard_part seq part.0 part.1 c)))
unfolding acknowledge send_key
acknowledge-Handled seq part s c o open_end =
    let d = on_clipboard_part seq part.0 part.1 c in
    let (ok, s') = write_frame (codes "CNOP") s in
    if_both (Handled seq part c) d.handshake_done {x = (ok, with_stream s' d)}
      {y = (true, with_stream s d)}
      (record {
        going = write_frame_open (codes "CNOP") s o open_end (omega arith);
        stream = s';
        client_is = refl;
        open_end = write_frame_stays_open (codes "CNOP") s o open_end;
      })
      (record { going = refl; stream = s; client_is = refl; open_end = open_end })

perform-Handled :
    (seq : ℕ) (part : Part) (s : Stream) (c : Client)
    → s.connected ≡ true
    → s.outgoing ≡ []
    → Handled seq part c (perform (part_packet seq part) s c)
unfolding act classify find_key
perform-Handled seq part s c o open_end =
    subst (λ d. Handled seq part c (acknowledge true d))
      (sym (on_clipboard_part-Blind s seq part.0 part.1 c).same)
      (acknowledge-Handled seq part s c o open_end)

-- All parts performed, in order, on a stream that takes every acknowledgement.
pub record Performed (seq : ℕ) (ps : List Part) (c : Client) (going : Bool) (c' : Client)
    : Type 0 where
  pub going_is : going ≡ true
  pub stream : Stream
  pub client_is : c' ≡ with_stream stream (receive_parts seq ps c)

one_more_part :
    (seq : ℕ) (part : Part) (ps : List Part) (c : Client) (r : Bool × Client) (going : Bool)
    (c' : Client)
    → Handled seq part c r
    → Performed seq ps r.1 going c'
    → Performed seq (part ∷ ps) c going c'
unfolding receive_parts
one_more_part seq part ps c r going c' h p =
    let later = receive_parts-Blind h.stream seq ps (on_clipboard_part seq part.0 part.1 c) in
    record {
      going_is = p.going_is;
      stream = p.stream;
      client_is =
          p.client_is ∙ ap (with_stream p.stream) (ap (receive_parts seq ps) h.client_is ∙ later);
    }

pub Performs-Performed :
    (tail : List ℕ) (seq : ℕ) (ps : List Part) (c : Client) (going : Bool) (c' : Client)
    → c.stream.outgoing ≡ []
    → Performs tail (part_packets seq ps) c going c'
    → Performed seq ps c going c'
unfolding receive_parts
Performs-Performed tail seq [] c _ _ open_end all_performed = record {
  going_is = refl;
  stream = c.stream;
  client_is = refl;
}
Performs-Performed tail seq (part ∷ ps) c going c' open_end (goes_on s sync sent out ok rest) =
    let h = perform-Handled seq part s c sync.connected_is (out ∙ open_end) in
    one_more_part seq part ps c _ going c' h (
      Performs-Performed tail seq ps (perform (part_packet seq part) s c).1 going c'
        (ap (λ (d : Client). d.stream.outgoing) h.client_is ∙ h.open_end) rest)
Performs-Performed tail seq (part ∷ ps) c _ _ open_end (ends s sync sent out stopped) =
    let h = perform-Handled seq part s c sync.connected_is (out ∙ open_end) in absurd (cc h.going)
