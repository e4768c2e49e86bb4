-- ===== src/Client/Tests/Overlong.antt =====
-- DMMV in a frame of two bytes too many.
use deskflow_harmonyos.Base.{refl, [], ◌∷◌, ◌++◌, arith, codes}
use deskflow_harmonyos.Base.Word.{put_u16, put_u32}
use deskflow_harmonyos.Stream.{arrived}
use deskflow_harmonyos.Stream.Write.{frame}
use deskflow_harmonyos.Proto.{num}
use deskflow_harmonyos.Proto.Format.{encode, big_endian}
use deskflow_harmonyos.Client.{Client}
use deskflow_harmonyos.Client.Messages.{classify, find_key}
use deskflow_harmonyos.Client.Session.Packet.{Packet, bytes_of, InSync}
use deskflow_harmonyos.Client.Session.Overlong.{LeavesOver, message_round-LeavesOver}
use deskflow_harmonyos.Client.Tests.{client, client_stream}

abbrev packet : Packet
packet = record { key = codes "DMMV"; values = num 5 ∷ num 3 ∷ [] }

abbrev given_too_much : Client
given_too_much = record client {
  stream = record client_stream {
    incoming =
        arrived 0 (0 ∷ 0 ∷ 10 ∷ (codes "DMMV" ++ (0 ∷ 5 ∷ 0 ∷ 3 ∷ 9 ∷ 9 ∷ [])))
        ∷ arrived 0 (0 ∷ 0 ∷ 4 ∷ codes "COUT")
        ∷ [];
  };
}

given_too_much-InSync :
    InSync given_too_much.stream
      (frame (bytes_of packet (9 ∷ 9 ∷ [])) ++ (0 ∷ 0 ∷ 0 ∷ 4 ∷ codes "COUT"))
unfolding classify find_key encode big_endian put_u16 put_u32
given_too_much-InSync = record { connected_is = refl; drained = refl; stop_is = refl; next = refl }

message_round-LeavesOver_example :
    LeavesOver packet (9 ∷ 9 ∷ []) (0 ∷ 0 ∷ 0 ∷ 4 ∷ codes "COUT") given_too_much
unfolding classify find_key encode big_endian put_u16
message_round-LeavesOver_example =
    message_round-LeavesOver packet (9 ∷ 9 ∷ []) (0 ∷ 0 ∷ 0 ∷ 4 ∷ codes "COUT") given_too_much
      (λ e. absurd cc) refl (omega arith) (omega arith) given_too_much-InSync
