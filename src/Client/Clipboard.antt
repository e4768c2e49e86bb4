-- ===== src/Client/Clipboard.antt =====
-- The clipboard of entry/src/main/cpp/protocol/deskflow_client.cpp: the marshalled container, the
-- upload (grabClipboard, sendClipboard, pushClipboard), and the assembly of a download.
pub mod Container
pub mod Size
pub mod Formats
pub mod Transfer
pub mod Decimal
use deskflow_harmonyos.Base.{
  ℕ, zero, suc, ◌*◌, ◌-◌, Bool, true, false, ◌&&◌, ◌||◌, not, Option, none, some, List, [], ◌∷◌,
  ◌++◌, ltb, ◌==◌, if◌then◌else◌, length, is_empty, take, drop, codes,
}
use deskflow_harmonyos.Stream.{Stream, write_frame}
use deskflow_harmonyos.Proto.{Value, num, str, writef}
use deskflow_harmonyos.Client.{Client, ClipChunk}
use Container.{marshal_text, unmarshal_text}
use Size.{to_string, parse_size}

-- writef into a fresh buffer, then writeFrame. Every call of the program hands writef the values
-- that its format asks for; a call that does not would write nothing here.
unfoldable pub send_message : List ℕ → List Value → Client → Bool × Client
send_message fmt args c = elim (writef fmt args) [
  | none ↦ (false, c)
  | some bytes ↦ (let (ok, s) = write_frame bytes c.stream in (ok, record c { stream = s }))
]

-- kMsgDClipboard and kMsgCClipboard
abbrev pub fmt_d_clipboard : List ℕ
fmt_d_clipboard = codes "DCLP%1i%4i%1i%s"

abbrev pub fmt_c_clipboard : List ℕ
fmt_c_clipboard = codes "CCLP%1i%4i"

abbrev pub chunk_size : ℕ
chunk_size = 512 * 1024

abbrev pub mark_start : ℕ
mark_start = 1

abbrev pub mark_chunk : ℕ
mark_chunk = 2

abbrev pub mark_end : ℕ
mark_end = 3

unfoldable pub send_part : ℕ → List ℕ → Client → Bool × Client
send_part mark content c =
    send_message fmt_d_clipboard (num 0 ∷ num c.seq_num ∷ num mark ∷ str content ∷ []) c

-- The chunks of at most `size` bytes; the number bounds the rounds.
unfoldable pub chunks_of : ℕ → ℕ → List ℕ → List (List ℕ)
chunks_of zero size bytes = []
chunks_of (suc rounds) size bytes =
    let rest = chunks_of rounds size (drop size bytes) in
    if is_empty bytes then [] else take size bytes ∷ rest

-- The loop `for (off = 0; off < payload.size() && ok; off += kChunk)` over the chunks.
unfoldable pub send_chunks : List (List ℕ) → Client → Bool × Client
send_chunks [] c = (true, c)
send_chunks (x ∷ xs) c =
    let (ok, c') = send_part mark_chunk x c in
    let rest = send_chunks xs c' in if ok then rest else (false, c')

-- `ok = ok && writeFrame(...)`
unfoldable pub and_then : Bool × Client → (Client → Bool × Client) → Bool × Client
and_then (ok, c) f = if ok then f c else (false, c)

-- sendClipboard
unfoldable pub send_clipboard : List ℕ → Client → Bool × Client
send_clipboard text c =
    let payload = marshal_text text in
    let c0 = record c { last_clipboard_text = text } in
    if not c.handshake_done || is_empty text
    then (false, c)
    else and_then
        (and_then (send_part mark_start (to_string (length payload)) c0)
          (send_chunks (chunks_of (length payload) chunk_size payload)))
        (send_part mark_end [])

-- grabClipboard
unfoldable pub grab_clipboard : Client → Bool × Client
grab_clipboard c =
    if not c.handshake_done
    then (false, c)
    else send_message fmt_c_clipboard (num 0 ∷ num c.seq_num ∷ []) c

-- pushClipboard
unfoldable pub push_clipboard : List ℕ → Client → Client
push_clipboard text c =
    if not c.clipboard_sync || (not c.handshake_done || is_empty text)
    then c
    else (send_clipboard text (grab_clipboard c).1).1

-- kProtocolMaxStringLength
abbrev pub max_clipboard : ℕ
max_clipboard = 1024 * 1024

-- DCLP with mark 1.
unfoldable pub chunk_start : ℕ → List ℕ → ClipChunk → ClipChunk
chunk_start seq content k =
    let size = parse_size content in
    let too_large = ltb max_clipboard size in
    record { is_active = not too_large; data_buffer = []; expected_size = size; clip_seq = seq }

-- DCLP with mark 2.
unfoldable pub chunk_data : List ℕ → ClipChunk → ClipChunk
chunk_data content k =
    if k.is_active then record k { data_buffer = k.data_buffer ++ content } else k

-- The text of a finished download goes to the callback.
unfoldable pub deliver_text : List ℕ → Client → Client
deliver_text text c =
    let c' = record c { last_clipboard_text = text } in
    if c.clipboard_sync && not (is_empty text)
    then (if c.has_clipboard_callback
        then record c' { delivered = c.delivered ++ (text ∷ []) }
        else c')
    else c

-- DCLP with mark 3.
unfoldable pub chunk_end : Client → Client
unfolding deliver_text
chunk_end c =
    let done = record c {
      clip_chunk = record c.clip_chunk { is_active = false; data_buffer = [] };
    } in
    if c.clip_chunk.is_active
    then deliver_text (unmarshal_text c.clip_chunk.data_buffer) done
    else c

-- The body of the DCLP handler; an unknown mark is ignored.
unfoldable pub on_clipboard_part : ℕ → ℕ → List ℕ → Client → Client
unfolding chunk_start chunk_data chunk_end
on_clipboard_part seq mark content c =
    if mark == mark_start
    then record c { clip_chunk = chunk_start seq content c.clip_chunk }
    else (if mark == mark_chunk
        then record c { clip_chunk = chunk_data content c.clip_chunk }
        else (if mark == mark_end then chunk_end c else c))
