-- ===== src/Client/Run/Service.antt =====
-- A whole connection of entry/src/main/cpp/protocol/deskflow_client.cpp: runOnce behind a
-- successful connect, with a server that greets and then sends well-formed messages.
use deskflow_harmonyos.Base.{
  ℕ, suc, ◌+◌, ◌-◌, ◌≤◌, ◌<◌, ◌^◌, ◌≡◌, ap, ◌∙◌, Bool, true, false, some, List, [], ◌∷◌, ◌++◌,
  arith, length, length-append, All, if◌then◌else◌, if_false, not,
}
use deskflow_harmonyos.Stream.{
  RecvEvent, arrived, ended, interrupted, failed, stopped, Stream, unread,
}
use deskflow_harmonyos.Stream.Fill.{arrivals}
use deskflow_harmonyos.Stream.Read.{pending}
use deskflow_harmonyos.Stream.Supply.{reserve_of, supply}
use deskflow_harmonyos.Base.Word.{put_u32, length-put_u32}
use deskflow_harmonyos.Proto.Read.{max_string}
use deskflow_harmonyos.Client.{Client, set_status, handshake_ok}
use deskflow_harmonyos.Client.Session.{handshake, message_loop}
use deskflow_harmonyos.Client.Session.Hello.{Hears}
use deskflow_harmonyos.Client.Session.Greeting.{handshake_succeeds, handshake-InSync}
use deskflow_harmonyos.Client.Session.Packet.{Packet, packet_frame, payload_of, IsProper, InSync}
use deskflow_harmonyos.Client.Session.Sync.{frames, Performs, message_loop-Performs}
use deskflow_harmonyos.Client.Run.{serve, hang_up}

arrivals-supply : (evs : List RecvEvent) → length (arrivals evs) ≤ supply evs
unfolding supply
arrivals-supply [] = omega arith
arrivals-supply (arrived b bs ∷ evs) =
    omega (arith, arrivals-supply evs, length-append bs (arrivals evs))
arrivals-supply (interrupted ∷ evs) = arrivals-supply evs
arrivals-supply (ended ∷ evs) = omega arith
arrivals-supply (failed ∷ evs) = omega arith
arrivals-supply (stopped ∷ evs) = omega arith

pending-reserve_of : (s : Stream) → length (pending s) ≤ reserve_of s
unfolding reserve_of
pending-reserve_of s =
    omega (arith, length-append (unread s) (arrivals s.incoming), arrivals-supply s.incoming)

length-frames : (ps : List Packet) → length ps ≤ length (frames ps)
length-frames [] = omega arith
length-frames (p ∷ ps) =
    let bytes = p.key ++ payload_of p in
    omega (
      arith,
      length-append (packet_frame p) (frames ps),
      length-append (put_u32 (length bytes)) bytes,
      length-put_u32 (length bytes),
      length-frames ps,
    )

-- One round for each packet is within the rounds allowed.
enough :
    (s : Stream) (ps : List Packet) (tail : List ℕ)
    → pending s ≡ frames ps ++ tail
    → length ps ≤ reserve_of s
enough s ps tail e =
    omega
      (arith, pending-reserve_of s, ap length e, length-append (frames ps) tail, length-frames ps)

-- The client that enters the message loop.
abbrev pub greeted : Client → Client
greeted c = set_status handshake_ok (handshake c).1

-- How runOnce ends behind the packets.
pub record Attends (tail : List ℕ) (ps : List Packet) (c : Client) : Type 0 where
  pub going : Bool
  pub after : Client
  pub rounds : ℕ
  pub performs : Performs tail ps (greeted c) going after
  pub quiet : after.stream.stop_requested ≡ false
  pub serve_is : serve c ≡ hang_up (if going then message_loop rounds after else some after)

serve-greeted :
    (c : Client)
    → (handshake c).0 ≡ true
    → serve c ≡ hang_up (message_loop (suc (reserve_of (greeted c).stream)) (greeted c))
unfolding serve
serve-greeted c ok = if_false _ _ _ (ap not ok)

greeted-InSync :
    (c : Client) (bytes : List ℕ)
    → InSync (handshake c).1.stream bytes
    → InSync (greeted c).stream bytes
unfolding set_status
greeted-InSync c bytes h = h

-- On an open connection that takes all that is sent, to a server that greets with a seven-letter
-- name, major version 1 and a minor version below 2 ^ 15 and then sends well-formed messages, where
-- the client's screen name is of at most 1 MiB and nobody asks to stop: runOnce's handshake
-- succeeds, and the message loop performs exactly those messages, in order, until one of them ends
-- the connection.
pub serve-Attends :
    (c : Client) (name : List ℕ) (minor : ℕ) (ps : List Packet) (tail : List ℕ)
    → Hears c name 1 minor (frames ps ++ tail)
    → minor < 2 ^ 15
    → length c.screen_name ≤ max_string
    → c.stream.outgoing ≡ []
    → c.stream.stop_requested ≡ false
    → All IsProper ps
    → Attends tail ps c
serve-Attends c name minor ps tail h m s open_end quiet proper =
    let rest = frames ps ++ tail in
    let ok = handshake_succeeds c name minor rest h m s open_end in
    let sync = greeted-InSync c rest (handshake-InSync c name minor rest h m s quiet) in
    let fuel = suc (reserve_of (greeted c).stream) - length ps in
    let served = message_loop-Performs tail ps fuel (greeted c) proper sync in
    let rounds : suc (reserve_of (greeted c).stream) ≡ length ps + fuel =
      (omega (arith, enough (greeted c).stream ps tail sync.next)) in
    record {
      going = served.going;
      after = served.after;
      rounds = fuel;
      performs = served.performs;
      quiet = served.quiet;
      serve_is =
          serve-greeted c ok
          ∙ ap hang_up (ap (λ n. message_loop n (greeted c)) rounds ∙ served.loop_is);
    }
