-- ===== src/Client/Session/Transfer.antt =====
-- The frames of a clipboard text's parts through the message loop of
-- entry/src/main/cpp/protocol/deskflow_client.cpp.
use mathlib.Core.Path.{subst}
use deskflow_harmonyos.Base.{
  ℕ, zero, suc, ◌+◌, ◌≤◌, ◌<◌, ◌^◌, ◌≡◌, refl, sym, ap, ◌∙◌, true, false, List, [], ◌∷◌, ◌++◌,
  arith, length, drop, is_empty, All, if_true, if_both, length-take, length-append, ◌/◌, ◌%◌,
}
use deskflow_harmonyos.Base.Word.{put_u32}
use deskflow_harmonyos.Stream.{Stream}
use deskflow_harmonyos.Proto.Read.{max_string}
use deskflow_harmonyos.Proto.Format.{encode, big_endian}
use deskflow_harmonyos.Client.{Client}
use deskflow_harmonyos.Client.Clipboard.{
  mark_start, mark_chunk, mark_end, chunks_of, chunk_size, max_clipboard,
}
use deskflow_harmonyos.Client.Clipboard.Container.{marshal_text}
use deskflow_harmonyos.Client.Clipboard.Size.{to_string, digits_onto}
use deskflow_harmonyos.Client.Clipboard.Transfer.{
  Part, parts, chunk_parts, receive_parts, Downloaded, receive_parts-parts,
}
use deskflow_harmonyos.Client.Messages.{classify, find_key}
use deskflow_harmonyos.Client.Session.{with_stream, message_loop}
use deskflow_harmonyos.Client.Session.Packet.{IsProper, InSync}
use deskflow_harmonyos.Client.Session.Sync.{frames, message_loop-Performs}
use deskflow_harmonyos.Client.Session.Download.{part_packet, part_packets, Performs-Performed}

length-digits_onto : (k n : ℕ) (rest : List ℕ) → length (digits_onto k n rest) ≤ k + length rest
unfolding digits_onto
length-digits_onto zero n rest = omega arith
length-digits_onto (suc k) n rest =
    ground (arith, length-digits_onto k (n / 10) ((b'0' + n % 10) ∷ rest))

pub length-to_string : (n : ℕ) → length (to_string n) ≤ 20
unfolding to_string
length-to_string n = omega (arith, length-digits_onto 20 n [])

abbrev pub IsShort : List ℕ → Type 0
IsShort bytes = length bytes ≤ max_string

pub chunks_of-IsShort :
    (rounds size : ℕ) (bytes : List ℕ)
    → size ≤ max_string
    → All IsShort (chunks_of rounds size bytes)
unfolding chunks_of
chunks_of-IsShort zero size bytes h = tt
chunks_of-IsShort (suc rounds) size bytes h =
    if_both (All IsShort) (is_empty bytes) {x = []} tt
      (omega (arith, length-take size bytes), chunks_of-IsShort rounds size (drop size bytes) h)

part_packet-IsProper :
    (seq mark : ℕ) (content : List ℕ)
    → seq < 2 ^ 32
    → mark < 256
    → IsShort content
    → IsProper (part_packet seq (mark, content))
unfolding classify find_key encode big_endian put_u32
part_packet-IsProper seq mark content h k short = record {
  known = λ e. absurd cc;
  key_length = refl;
  fits = omega (arith, h, k, short);
  small = omega (arith, short, length-append content []);
}

chunk_parts-IsProper :
    (seq : ℕ) (xs : List (List ℕ))
    → seq < 2 ^ 32
    → All IsShort xs
    → All IsProper (part_packets seq (chunk_parts xs))
chunk_parts-IsProper seq [] h k =
    (part_packet-IsProper seq mark_end [] h (omega arith) (omega arith), tt)
chunk_parts-IsProper seq (x ∷ xs) h (short, k) =
    (part_packet-IsProper seq mark_chunk x h (omega arith) short, chunk_parts-IsProper seq xs h k)

parts-IsProper :
    (seq : ℕ) (payload : List ℕ) → seq < 2 ^ 32 → All IsProper (part_packets seq (parts payload))
parts-IsProper seq payload h = (
  part_packet-IsProper seq mark_start (to_string (length payload)) h (omega arith)
      (omega (arith, length-to_string (length payload))),
  chunk_parts-IsProper seq (chunks_of (length payload) chunk_size payload) h
      (chunks_of-IsShort (length payload) chunk_size payload (omega arith)),
)

-- What the message loop leaves behind the frames of a text's parts.
pub record Arrived (text tail : List ℕ) (rounds fuel : ℕ) (c : Client) : Type 0 where
  pub after : Client
  pub loop_is : message_loop (rounds + fuel) c ≡ message_loop fuel after
  pub downloaded : Downloaded text c after
  pub in_sync : InSync after.stream tail

forget_stream :
    (text : List ℕ) (c d after : Client) (s : Stream)
    → Downloaded text c d
    → after ≡ with_stream s d
    → Downloaded text c after
forget_stream text c d after s h e = subst (Downloaded text c) (sym e) (record {
  delivered = h.delivered;
  remembered = h.remembered;
  inactive = h.inactive;
  emptied = h.emptied;
})

length-part_packets : (seq : ℕ) (ps : List Part) → length (part_packets seq ps) ≡ length ps
length-part_packets seq [] = refl
length-part_packets seq (part ∷ ps) = ap suc (length-part_packets seq ps)

-- A client that takes part in the clipboard, on a connection that takes every acknowledgement.
pub record Listens (c : Client) : Type 0 where
  pub sync_is : c.clipboard_sync ≡ true
  pub callback_is : c.has_clipboard_callback ≡ true
  pub open_end : c.stream.outgoing ≡ []

-- A text that sendClipboard can send whole.
pub record IsSendable (text : List ℕ) : Type 0 where
  pub some_text : is_empty text ≡ false
  pub small : 12 + length text ≤ max_clipboard

pub message_loop-Arrived :
    (seq fuel : ℕ) (text tail : List ℕ) (c : Client)
    → IsSendable text
    → seq < 2 ^ 32
    → Listens c
    → InSync c.stream (frames (part_packets seq (parts (marshal_text text))) ++ tail)
    → Arrived text tail (length (parts (marshal_text text))) fuel c
message_loop-Arrived seq fuel text tail c t h l in_step =
    let ps = parts (marshal_text text) in
    let served =
      message_loop-Performs tail (part_packets seq ps) fuel c
        (parts-IsProper seq (marshal_text text) h) in_step in
    let done =
      Performs-Performed tail seq ps c served.going served.after l.open_end served.performs in
    record {
      after = served.after;
      loop_is =
          ap (λ n. message_loop (n + fuel) c) (sym (length-part_packets seq ps))
          ∙ (served.loop_is ∙ if_true _ _ _ done.going_is);
      downloaded =
          forget_stream text c (receive_parts seq ps c) served.after done.stream
            (receive_parts-parts seq text c t.some_text t.small l.sync_is l.callback_is)
            done.client_is;
      in_sync = served.in_sync done.going_is;
    }
