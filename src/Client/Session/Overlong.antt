-- ===== src/Client/Session/Overlong.antt =====
-- A frame that holds more than its message reads, in the message loop of
-- entry/src/main/cpp/protocol/deskflow_client.cpp.
use deskflow_harmonyos.Base.{ℕ, ◌≤◌, ◌≡◌, ◌≢◌, ap, ◌∙◌, true, List, ◌++◌, length, drop}
use deskflow_harmonyos.Stream.{Stream, max_frame}
use deskflow_harmonyos.Stream.Fill.{arrivals}
use deskflow_harmonyos.Stream.Sides.{reading_side}
use deskflow_harmonyos.Stream.Read.{pending}
use deskflow_harmonyos.Stream.Write.{frame}
use deskflow_harmonyos.Proto.Format.{Fits}
use deskflow_harmonyos.Client.{Client}
use deskflow_harmonyos.Client.Messages.{other}
use deskflow_harmonyos.Client.Session.{message_round}
use deskflow_harmonyos.Client.Session.Packet.{
  Packet, message_of, payload_items, bytes_of, InSync, HoldsBack, HoldsBack-pending, surplus_left,
}
use deskflow_harmonyos.Client.Session.Sync.{perform, message_round-Packet, perform-reading_side}

-- How a round leaves the connection behind such a frame.
pub record LeavesOver (p : Packet) (surplus rest : List ℕ) (c : Client) : Type 0 where
  pub stream : Stream
  pub performs : message_round c ≡ perform p stream c
  pub still_open : (message_round c).1.stream.connected ≡ true
  pub pending_is : pending (message_round c).1.stream ≡ surplus ++ rest

-- On a connection that is in step, with the next frame holding a well-formed message and `surplus`
-- behind it: a round performs the message, and leaves the surplus to be read in front of what follows
-- the frame.
pub message_round-LeavesOver :
    (p : Packet) (surplus rest : List ℕ) (c : Client)
    → message_of p ≢ other
    → length p.key ≡ 4
    → Fits (payload_items (message_of p)) p.values
    → length (bytes_of p surplus) ≤ max_frame
    → InSync c.stream (frame (bytes_of p surplus) ++ rest)
    → LeavesOver p surplus rest c
message_round-LeavesOver p surplus rest c known key_length fits small sync =
    let r = surplus_left p surplus c.stream rest key_length fits small sync in
    let round = message_round-Packet p (bytes_of p surplus) (HoldsBack surplus rest) c known r in
    let side : reading_side (message_round c).1.stream ≡ reading_side r.left =
      ap (λ q. reading_side q.1.stream) round ∙ perform-reading_side p r.left c in
    record {
      stream = r.left;
      performs = round;
      still_open = ap (λ w. w.0) side ∙ r.after_is.connected_is;
      pending_is =
          ap (λ w. drop w.2 w.1 ++ arrivals w.3) side
          ∙ HoldsBack-pending surplus rest r.left r.after_is;
    }
