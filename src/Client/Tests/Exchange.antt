-- ===== src/Client/Tests/Exchange.antt =====
-- A concrete clipboard text from one client to another.
use deskflow_harmonyos.Base.{ℕ, ◌≡◌, refl, true, List, [], ◌∷◌, ◌++◌, arith, codes, length}
use deskflow_harmonyos.Base.Word.{put_u16, put_u32}
use deskflow_harmonyos.Stream.{arrived, write_frame, write_all, send_loop}
use deskflow_harmonyos.Proto.{
  writef, write_from, write_char, convert, convert_int, convert_str, put_int,
}
use deskflow_harmonyos.Client.{Client}
use deskflow_harmonyos.Client.Clipboard.{
  send_clipboard, send_part, send_message, send_chunks, chunks_of, and_then,
}
use deskflow_harmonyos.Client.Clipboard.Container.{marshal_text}
use deskflow_harmonyos.Client.Clipboard.Size.{to_string, digits_onto}
use deskflow_harmonyos.Client.Clipboard.Transfer.{parts}
use deskflow_harmonyos.Client.Session.Transfer.{Arrived}
use deskflow_harmonyos.Client.Session.Exchange.{send_clipboard-message_loop}
use deskflow_harmonyos.Client.Tests.{client, client_stream}

-- The three frames of "hi": 14 bytes announced, sent, ended.
abbrev wire : List ℕ
wire =
    (0 ∷ 0 ∷ 0 ∷ 16 ∷ codes "DCLP")
    ++ ((0 ∷ 0 ∷ 0 ∷ 0 ∷ 1 ∷ 1 ∷ 0 ∷ 0 ∷ 0 ∷ 2 ∷ codes "14")
        ++ ((0 ∷ 0 ∷ 0 ∷ 28 ∷ codes "DCLP")
            ++ ((0 ∷ 0 ∷ 0 ∷ 0 ∷ 1 ∷ 2 ∷ 0 ∷ 0 ∷ 0 ∷ 14 ∷ [])
                ++ ((0 ∷ 0 ∷ 0 ∷ 1 ∷ 0 ∷ 0 ∷ 0 ∷ 0 ∷ 0 ∷ 0 ∷ 0 ∷ 2 ∷ codes "hi")
                    ++ ((0 ∷ 0 ∷ 0 ∷ 14 ∷ codes "DCLP")
                        ++ (0 ∷ 0 ∷ 0 ∷ 0 ∷ 1 ∷ 3 ∷ 0 ∷ 0 ∷ 0 ∷ 0 ∷ []))))))

-- Another client, whose connection brings the frames in one piece.
abbrev receiver : Client
receiver = record client {
  stream = record client_stream { incoming = arrived 0 (drop_one wire) ∷ [] };
}
  where
    drop_one : List ℕ → List ℕ
    drop_one [] = []
    drop_one (b ∷ bs) = bs

wire_sent :
    ((send_clipboard (codes "hi") client).0 ≡ true)
    × ((send_clipboard (codes "hi") client).1.stream.sent ≡ wire)
unfolding send_clipboard send_part send_message send_chunks chunks_of and_then marshal_text
    to_string digits_onto writef write_from write_char convert convert_int convert_str put_int
    put_u16 put_u32 write_frame write_all send_loop
wire_sent = (refl, refl)

send_clipboard-message_loop_example :
    Arrived (codes "hi") [] (length (parts (marshal_text (codes "hi")))) 5 receiver
send_clipboard-message_loop_example =
    send_clipboard-message_loop (codes "hi") wire [] 5 client receiver
      (record { some_text = refl; small = omega arith }) refl (omega arith) wire_sent.0 wire_sent.1
      (record { sync_is = refl; callback_is = refl; open_end = refl })
      (record { connected_is = refl; drained = refl; stop_is = refl; next = refl })
