-- ===== src/Proto/Tests.antt =====
-- Concrete messages through writef and readf.
use deskflow_harmonyos.Base.{ℕ, ◌≡◌, refl, true, false, some, List, [], ◌∷◌, ◌++◌, arith, codes}
use deskflow_harmonyos.Base.Word.{put_u16, put_u32}
use deskflow_harmonyos.Stream.{Stream, arrived, interrupted}
use deskflow_harmonyos.Stream.Read.{pending}
use deskflow_harmonyos.Proto.{Value, num, str, vec, writef}
use deskflow_harmonyos.Proto.Read.{readf}
use deskflow_harmonyos.Proto.Format.{
  Item, byte, int, ints, text, fixed, w2, w4, render, encode, big_endian, Fits,
}
use deskflow_harmonyos.Proto.Encode.{writef-encode}
use deskflow_harmonyos.Proto.RoundTrip.{readf-writef}
use deskflow_harmonyos.Proto.Shapes.{IsFormat, readf-IsWire, writef-readf}
use deskflow_harmonyos.Proto.Segments.{readf_segmented}

-- HelloBack: "%7s%2i%2i%s"
abbrev hello_items : List Item
hello_items = fixed 7 ∷ int w2 ∷ int w2 ∷ text ∷ []

abbrev hello_values : List Value
hello_values = str (codes "Barrier") ∷ num 1 ∷ num 8 ∷ str (codes "pad") ∷ []

abbrev hello_bytes : List ℕ
hello_bytes = codes "Barrier" ++ (0 ∷ 1 ∷ 0 ∷ 8 ∷ 0 ∷ 0 ∷ 0 ∷ 3 ∷ codes "pad")

-- The bytes arrive in two pieces, with an interrupted call between them, and one more follows.
abbrev hello_stream : Stream
hello_stream = record {
  connected = true;
  buffer = [];
  buffer_pos = 0;
  incoming =
      arrived b'B' (codes "arri")
      ∷ interrupted
      ∷ arrived b'e' (b'r' ∷ 0 ∷ 1 ∷ 0 ∷ 8 ∷ 0 ∷ 0 ∷ 0 ∷ 3 ∷ b'p' ∷ b'a' ∷ b'd' ∷ 99 ∷ [])
      ∷ [];
  outgoing = [];
  sent = [];
  stop_requested = false;
}

hello_format : render hello_items ≡ codes "%7s%2i%2i%s"
unfolding render
hello_format = refl

-- DSOP with two options
abbrev option_items : List Item
option_items = byte b'D' ∷ ints w4 ∷ []

writef-encode_example :
    writef (render option_items) (vec (7 ∷ 65536 ∷ []) ∷ [])
    ≡ some (encode option_items (vec (7 ∷ 65536 ∷ []) ∷ []))
writef-encode_example = writef-encode option_items (vec (7 ∷ 65536 ∷ []) ∷ []) (omega arith)

hello_written : writef (render hello_items) hello_values ≡ some hello_bytes
unfolding encode big_endian put_u16 put_u32
hello_written = writef-encode hello_items hello_values (omega arith)

readf-writef_example :
    ((readf (render hello_items) hello_stream).0 ≡ some hello_values)
    × (pending (readf (render hello_items) hello_stream).1 ≡ 99 ∷ [])
readf-writef_example =
    readf-writef hello_items hello_values hello_bytes (99 ∷ []) hello_stream (omega arith)
      hello_written refl refl

-- The same bytes, most of them in the buffer already.
abbrev buffered_stream : Stream
buffered_stream = record {
  connected = true;
  buffer = 7 ∷ codes "Barrier";
  buffer_pos = 1;
  incoming = arrived 0 (1 ∷ 0 ∷ 8 ∷ 0 ∷ 0 ∷ 0 ∷ 3 ∷ codes "pad") ∷ interrupted ∷ arrived 99 [] ∷ [];
  outgoing = [];
  sent = [];
  stop_requested = false;
}

readf_segmented_example :
    (readf (codes "%7s%2i%2i%s") hello_stream).0 ≡ (readf (codes "%7s%2i%2i%s") buffered_stream).0
readf_segmented_example =
    readf_segmented (codes "%7s%2i%2i%s") hello_stream buffered_stream refl refl refl

hello_IsFormat : IsFormat hello_items
hello_IsFormat = (omega arith, omega arith, tt)

hello_read : (readf (render hello_items) hello_stream).0 ≡ some hello_values
hello_read =
    (readf-writef hello_items hello_values hello_bytes (99 ∷ []) hello_stream (omega arith)
      hello_written refl refl).0

readf-IsWire_example :
    Fits hello_items hello_values
    × (pending hello_stream
        ≡ encode hello_items hello_values ++ pending (readf (render hello_items) hello_stream).1)
readf-IsWire_example =
    readf-IsWire hello_items hello_stream hello_values hello_IsFormat (omega arith) hello_read

writef-readf_example :
    (out : List ℕ) × (writef (render hello_items) hello_values ≡ some out)
    × (pending hello_stream ≡ out ++ pending (readf (render hello_items) hello_stream).1)
writef-readf_example =
    writef-readf hello_items hello_stream hello_values hello_IsFormat (omega arith) hello_read
