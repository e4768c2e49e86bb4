-- ===== src/Client/Clipboard/Transfer.antt =====
-- A clipboard transfer from end to end: the parts that sendClipboard sends, and what the DCLP
-- handler makes of the same parts.
use deskflow_harmonyos.Base.{
  ℕ, zero, suc, ◌+◌, ◌*◌, ◌-◌, ◌≤◌, ◌≡◌, refl, sym, ap, ◌∙◌, Bool, true, false, not, ◌&&◌, ◌||◌,
  List, [], ◌∷◌, ◌++◌, append_assoc, append-nil, arith, length, take, drop, is_empty,
  take-append-drop, length-drop, if◌then◌else◌, le→ltb, if_true, if_false,
}
use mathlib.Core.Path.{subst}
use deskflow_harmonyos.Client.{Client}
use deskflow_harmonyos.Client.Clipboard.{
  chunk_size, mark_start, mark_chunk, mark_end, send_part, chunks_of, send_chunks, and_then,
  send_clipboard, max_clipboard, chunk_start, chunk_data, deliver_text, chunk_end,
  on_clipboard_part,
}
use deskflow_harmonyos.Client.Clipboard.Container.{marshal_text, unmarshal_text}
use deskflow_harmonyos.Client.Clipboard.Formats.{unmarshal_text-marshal_text, length-marshal_text}
use deskflow_harmonyos.Client.Clipboard.Size.{to_string}
use deskflow_harmonyos.Client.Clipboard.Decimal.{parse_size-to_string}

-- A part of a transfer: its mark and its content.
abbrev pub Part : Type 0
Part = ℕ × List ℕ

abbrev pub chunk_parts : List (List ℕ) → List Part
chunk_parts [] = (mark_end, []) ∷ []
chunk_parts (x ∷ xs) = (mark_chunk, x) ∷ chunk_parts xs

-- The announced size, the chunks of the payload, the end.
abbrev pub parts : List ℕ → List Part
parts payload =
    (mark_start, to_string (length payload))
    ∷ chunk_parts (chunks_of (length payload) chunk_size payload)

-- The handler on one part after another.
unfoldable pub receive_parts : ℕ → List Part → Client → Client
receive_parts seq [] c = c
receive_parts seq ((mark, content) ∷ ps) c =
    receive_parts seq ps (on_clipboard_part seq mark content c)

-- One part after another, given up at the first that is not sent.
unfoldable pub send_parts : List Part → Client → Bool × Client
send_parts [] c = (true, c)
send_parts ((mark, content) ∷ ps) c =
    let (ok, c') = send_part mark content c in
    let rest = send_parts ps c' in if ok then rest else (false, c')

concat : List (List ℕ) → List ℕ
concat [] = []
concat (x ∷ xs) = x ++ concat xs

concat-chunks_of :
    (rounds size : ℕ) (bytes : List ℕ)
    → length bytes ≤ rounds
    → concat (chunks_of rounds (suc size) bytes) ≡ bytes
unfolding chunks_of concat
concat-chunks_of zero size [] h = refl
concat-chunks_of zero size (b ∷ bs) h = absurd (omega arith)
concat-chunks_of (suc rounds) size [] h = refl
concat-chunks_of (suc rounds) size (b ∷ bs) h =
    ap (λ l. b ∷ (take size bs ++ l))
      (concat-chunks_of rounds size (drop size bs) (omega (arith, length-drop size bs)))
    ∙ ap (◌∷◌ b) (take-append-drop size bs)

-- The state of a download that has got `bytes` so far.
abbrev downloading : ℕ → ℕ → List ℕ → Client → Client
downloading seq size bytes c = record c {
  clip_chunk = record {
    is_active = true;
    data_buffer = bytes;
    expected_size = size;
    clip_seq = seq;
  };
}

receive_parts-chunks :
    (xs : List (List ℕ)) (seq size : ℕ) (bytes : List ℕ) (c : Client)
    → receive_parts seq (chunk_parts xs) (downloading seq size bytes c)
      ≡ chunk_end (downloading seq size (bytes ++ concat xs) c)
unfolding receive_parts on_clipboard_part chunk_data concat
receive_parts-chunks [] seq size bytes c =
    ap (λ l. chunk_end (downloading seq size l c)) (sym (append-nil bytes))
receive_parts-chunks (x ∷ xs) seq size bytes c =
    receive_parts-chunks xs seq size (bytes ++ x) c
    ∙ ap (λ l. chunk_end (downloading seq size l c)) (append_assoc bytes x (concat xs))

receive_start :
    (seq : ℕ) (payload : List ℕ) (c : Client)
    → length payload ≤ max_clipboard
    → on_clipboard_part seq mark_start (to_string (length payload)) c
      ≡ downloading seq (length payload) [] c
unfolding on_clipboard_part chunk_start
receive_start seq payload c h =
    let size = parse_size-to_string (length payload) (omega arith) in
    let room = le→ltb max_clipboard (length payload) h in rw (size, room) refl

-- What a finished download leaves of the client.
pub record Downloaded (text : List ℕ) (c c' : Client) : Type 0 where
  pub delivered : c'.delivered ≡ c.delivered ++ (text ∷ [])
  pub remembered : c'.last_clipboard_text ≡ text
  pub inactive : c'.clip_chunk.is_active ≡ false
  pub emptied : c'.clip_chunk.data_buffer ≡ []

deliver_text-Downloaded :
    (text : List ℕ) (c : Client)
    → c.clipboard_sync ≡ true
    → c.has_clipboard_callback ≡ true
    → is_empty text ≡ false
    → c.clip_chunk.is_active ≡ false
    → c.clip_chunk.data_buffer ≡ []
    → Downloaded text c (deliver_text text c)
unfolding deliver_text
deliver_text-Downloaded text c sync callback some_text inactive emptied =
    let c' = record c { last_clipboard_text = text } in
    let result = record c' { delivered = c.delivered ++ (text ∷ []) } in
    let wanted : (c.clipboard_sync && not (is_empty text)) ≡ true = ground arith in
    subst (Downloaded text c)
      (sym (if_true _ _ c wanted ∙ if_true c.has_clipboard_callback result c' callback))
      (record { delivered = refl; remembered = refl; inactive = inactive; emptied = emptied })

chunk_end-downloading :
    (seq size : ℕ) (bytes : List ℕ) (c : Client)
    → chunk_end (downloading seq size bytes c)
      ≡ deliver_text (unmarshal_text bytes) (record c {
        clip_chunk = record {
          is_active = false;
          data_buffer = [];
          expected_size = size;
          clip_seq = seq;
        };
      })
unfolding chunk_end
chunk_end-downloading seq size bytes c = refl

-- The parts that sendClipboard sends for a text, received in order, hand exactly that text to the
-- callback and end the download. Conditions: the text is not empty, its container of 12 bytes more
-- is at most 1 MiB, synchronisation is on and a callback is set.
pub receive_parts-parts :
    (seq : ℕ) (text : List ℕ) (c : Client)
    → is_empty text ≡ false
    → 12 + length text ≤ max_clipboard
    → c.clipboard_sync ≡ true
    → c.has_clipboard_callback ≡ true
    → Downloaded text c (receive_parts seq (parts (marshal_text text)) c)
unfolding receive_parts
receive_parts-parts seq text c some_text short sync callback =
    let payload = marshal_text text in
    let size = length-marshal_text text in
    let chunks = chunks_of (length payload) chunk_size payload in
    let started = receive_start seq payload c (omega arith) in
    let loaded = receive_parts-chunks chunks seq (length payload) [] c in
    let whole = concat-chunks_of (length payload) (512 * 1024 - 1) payload (omega arith) in
    let back = unmarshal_text-marshal_text text (omega arith) in
    let done = record c {
      clip_chunk = record {
        is_active = false;
        data_buffer = [];
        expected_size = length payload;
        clip_seq = seq;
      };
    } in
    let finished : chunk_end (downloading seq (length payload) (concat chunks) c)
        ≡ deliver_text text done =
      (chunk_end-downloading seq (length payload) (concat chunks) c
        ∙ ap (λ l. deliver_text l done) (ap unmarshal_text whole ∙ back)) in
    let r = deliver_text-Downloaded text done sync callback some_text refl refl in
    subst (Downloaded text c)
      (sym (ap (receive_parts seq (chunk_parts chunks)) started ∙ (loaded ∙ finished)))
      (record {
        delivered = r.delivered;
        remembered = r.remembered;
        inactive = r.inactive;
        emptied = r.emptied;
      })

and_then_assoc :
    (r : Bool × Client) (f g : Client → Bool × Client)
    → and_then (and_then r f) g ≡ and_then r (λ c. and_then (f c) g)
unfolding and_then
and_then_assoc (true, c) f g = refl
and_then_assoc (false, c) f g = refl

and_then_done : (r : Bool × Client) → and_then r (λ c. (true, c)) ≡ r
unfolding and_then
and_then_done (true, c) = refl
and_then_done (false, c) = refl

send_chunks-parts :
    (xs : List (List ℕ)) (c : Client)
    → send_parts (chunk_parts xs) c ≡ and_then (send_chunks xs c) (send_part mark_end [])
unfolding send_parts send_chunks and_then
send_chunks-parts [] c = and_then_done (send_part mark_end [] c)
send_chunks-parts (x ∷ xs) c =
    (λ i. and_then (send_part mark_chunk x c) (λ c'. send_chunks-parts xs c' i))
    ∙ sym (and_then_assoc (send_part mark_chunk x c) (send_chunks xs) (send_part mark_end []))

-- In the running phase sendClipboard remembers a text that is not empty and sends exactly the parts
-- of its container, in order, up to the first that cannot be sent; it succeeds if all are sent.
pub send_clipboard-parts :
    (text : List ℕ) (c : Client)
    → c.handshake_done ≡ true
    → is_empty text ≡ false
    → send_clipboard text c
      ≡ send_parts (parts (marshal_text text)) (record c { last_clipboard_text = text })
unfolding send_clipboard send_parts and_then
send_clipboard-parts text c running some_text =
    let payload = marshal_text text in
    let chunks = chunks_of (length payload) chunk_size payload in
    let c0 = record c { last_clipboard_text = text } in
    let announced = send_part mark_start (to_string (length payload)) c0 in
    let idle : (not c.handshake_done || is_empty text) ≡ false = ground arith in
    if_false _ (false, c) _ idle
    ∙ (and_then_assoc announced (send_chunks chunks) (send_part mark_end [])
        ∙ sym (λ i. and_then announced (λ c'. send_chunks-parts chunks c' i)))
