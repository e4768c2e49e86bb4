-- ===== src/Client/Session/Kept.antt =====
-- What the messages of a server that the message loop of
-- entry/src/main/cpp/protocol/deskflow_client.cpp performs keep: a predicate that every message keeps,
-- whatever the stream.
use deskflow_harmonyos.Base.{Bool, List, [], ◌∷◌, All, ◌&&◌, codes, if_both}
use deskflow_harmonyos.Client.{Client}
use deskflow_harmonyos.Client.Messages.{send_key}
use deskflow_harmonyos.Client.Messages.Stable.{Stable}
use deskflow_harmonyos.Client.Messages.Stable.Act.{Closes, KeptByClosing, act-Stable}
use deskflow_harmonyos.Stream.{Stream}
use deskflow_harmonyos.Client.Session.{with_stream, acknowledge}
use deskflow_harmonyos.Client.Session.Packet.{Packet, message_of}
use deskflow_harmonyos.Client.Session.Sync.{Performs, all_performed, goes_on, ends, perform}
use deskflow_harmonyos.Base.{ℕ}

record After (P : Client → Type 0) (r : Bool × Client) : Type 0 where
  inv : P r.1

-- A message behind which the word on reconnection is taken back, or where that does not matter.
abbrev pub Allows : (Client → Type 0) → Packet → Type 0
Allows P p = Closes (message_of p) → KeptByClosing P

module _ (P : Client → Type 0) (stable : Stable P)
    (anywhere : (s : Stream) (c : Client) → P c → P (with_stream s c)) where
  acknowledge-After : (going : Bool) (c : Client) → P c → After P (acknowledge going c)
  unfolding acknowledge send_key
  acknowledge-After going c h =
      if_both (After P) (going && c.handshake_done) {y = (going, c)}
        (record { inv = stable.writes (codes "CNOP") c h }) (record { inv = h })

  perform-P : (p : Packet) (s : Stream) (c : Client) → Allows P p → P c → P (perform p s c).1
  perform-P p s c ok h =
      (acknowledge-After _ _
        (act-Stable P stable (message_of p) p.values (with_stream s c) ok (anywhere s c h))).inv

  pub Performs-P :
      (tail : List ℕ) (ps : List Packet) (c : Client) (going : Bool) (c' : Client)
      → All (Allows P) ps
      → Performs tail ps c going c'
      → P c
      → P c'
  Performs-P tail [] c _ _ ok all_performed h = h
  Performs-P tail (p ∷ ps) c going c' (ok, more) (goes_on s sync sent out on rest) h =
      Performs-P tail ps (perform p s c).1 going c' more rest (perform-P p s c ok h)
  Performs-P tail (p ∷ ps) c _ _ (ok, more) (ends s sync sent out stopped) h = perform-P p s c ok h
