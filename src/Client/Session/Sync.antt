-- ===== src/Client/Session/Sync.antt =====
-- The message loop of entry/src/main/cpp/protocol/deskflow_client.cpp on the messages of a server
-- that follows the protocol: it performs them one by one, in step with the frames.
use mathlib.Core.Path.{subst}
use deskflow_harmonyos.Base.{
  ℕ, suc, ◌+◌, ◌≡◌, ◌≢◌, refl, sym, ap, ◌∙◌, Bool, true, false, Bool-cases, inl, inr, some, List,
  [], ◌∷◌, ◌++◌, append_assoc, All, codes, length, drop, arith, if_true, if_false, if_both,
  if◌then◌else◌, ◌&&◌,
}
use deskflow_harmonyos.Stream.{Stream, RecvEvent, read_frame}
use deskflow_harmonyos.Stream.Sides.{reading_side, write_frame-reading_side}
use deskflow_harmonyos.Stream.Fill.{arrivals}
use deskflow_harmonyos.Proto.Read.{readf}
use deskflow_harmonyos.Client.{Client}
use deskflow_harmonyos.Client.Messages.{
  Message, c_enter, other, act, act_if_read, handle, handle_message, send_key, payload_format,
}
use deskflow_harmonyos.Client.Messages.Channel.{act-reading_side}
use deskflow_harmonyos.Client.Session.{
  with_stream, acknowledge, on_head, on_frame, message_round, message_loop,
}
use deskflow_harmonyos.Client.Session.Packet.{
  Packet, message_of, payload_of, packet_frame, IsProper, InSync, Receives, receives, headed,
}

-- What the protocol asks for on a message, with the connection's stream as its reads left it: the
-- message's action, and a CNOP in the running phase.
abbrev pub perform : Packet → Stream → Client → Bool × Client
perform p s c =
    let (keep_going, c') = act (message_of p) p.values (with_stream s c) in
    acknowledge keep_going c'

handle_known :
    (m : Message) (key : List ℕ) (c : Client)
    → m ≢ other
    → handle m key c
      ≡ act_if_read m
          (readf (payload_format m) c.stream).0
          (with_stream (readf (payload_format m) c.stream).1 c)
unfolding handle
handle_known other key c h = absurd (h refl)
handle_known c_enter key c h = refl
handle_known m key c h = refl

on_head-Packet :
    (p : Packet) (bytes : List ℕ) (After : Stream → Type 0) (s : Stream) (c : Client)
    → message_of p ≢ other
    → (r : Receives p bytes After s)
    → on_head (some p.key) (with_stream (headed s bytes) c) ≡ perform p r.left c
unfolding on_head handle_message act_if_read
on_head-Packet p bytes After s c h r =
    let ack : Bool × Client → Bool × Client = λ q. acknowledge q.0 q.1 in
    ap ack (
      handle_known (message_of p) p.key (with_stream (headed s bytes) c) h
      ∙ ap (λ q. act_if_read (message_of p) q.0 (with_stream q.1 c)) r.values_are)

pub message_round-Packet :
    (p : Packet) (bytes : List ℕ) (After : Stream → Type 0) (c : Client)
    → message_of p ≢ other
    → (r : Receives p bytes After c.stream) → message_round c ≡ perform p r.left c
unfolding message_round on_frame
message_round-Packet p bytes After c h r =
    ap (λ o. on_frame o (with_stream (read_frame c.stream).1 c)) r.frame_is
    ∙ (ap (λ o. on_head o (with_stream (headed c.stream bytes) c)) r.key_is
        ∙ on_head-Packet p bytes After c.stream c h r)

-- The reading side that a step leaves behind.
record Reads (side : Bool × List ℕ × ℕ × List RecvEvent × Bool) (r : Bool × Client) : Type 0 where
  same : reading_side r.1.stream ≡ side

acknowledge-Reads :
    (keep_going : Bool) (c : Client) → Reads (reading_side c.stream) (acknowledge keep_going c)
unfolding acknowledge send_key
acknowledge-Reads keep_going c =
    if_both (Reads (reading_side c.stream)) (keep_going && c.handshake_done) {y = (keep_going, c)}
      (record { same = write_frame-reading_side (codes "CNOP") c.stream }) (record { same = refl })

pub InSync-same :
    (s t : Stream) (bytes : List ℕ)
    → reading_side t ≡ reading_side s
    → InSync s bytes
    → InSync t bytes
InSync-same s t bytes e h = record {
  connected_is = ap (λ w. w.0) e ∙ h.connected_is;
  drained = subst (λ w. w.2 ≡ length w.1) (sym e) h.drained;
  stop_is = ap (λ w. w.4) e ∙ h.stop_is;
  next = ap (λ w. drop w.2 w.1 ++ arrivals w.3) e ∙ h.next;
}

pub perform-reading_side :
    (p : Packet) (s : Stream) (c : Client) → reading_side (perform p s c).1.stream ≡ reading_side s
perform-reading_side p s c =
    let (keep_going, c') = act (message_of p) p.values (with_stream s c) in
    (acknowledge-Reads keep_going c').same
    ∙ act-reading_side (message_of p) p.values (with_stream s c)

-- Performing a message leaves the connection in step.
perform-InSync :
    (p : Packet) (s : Stream) (c : Client) (bytes : List ℕ)
    → InSync s bytes
    → InSync (perform p s c).1.stream bytes
perform-InSync p s c bytes h =
    InSync-same s (perform p s c).1.stream bytes (perform-reading_side p s c) h

abbrev pub frames : List Packet → List ℕ
frames [] = []
frames (p ∷ ps) = packet_frame p ++ frames ps

-- Performing messages in order until one of them ends the connection. The stream `s` of each is in
-- step behind its frame, and its writing side is the client's.
pub data Performs (tail : List ℕ) : List Packet → Client → Bool → Client → Type 0 where
  all_performed : {c : Client} → Performs tail [] c true c
  goes_on :
      {p : Packet} {ps : List Packet} {c c' : Client} {going : Bool} (s : Stream)
      → InSync s (frames ps ++ tail)
      → s.sent ≡ c.stream.sent
      → s.outgoing ≡ c.stream.outgoing
      → (perform p s c).0 ≡ true
      → Performs tail ps (perform p s c).1 going c'
      → Performs tail (p ∷ ps) c going c'
  ends :
      {p : Packet} {ps : List Packet} {c : Client} (s : Stream)
      → InSync s (frames ps ++ tail)
      → s.sent ≡ c.stream.sent
      → s.outgoing ≡ c.stream.outgoing
      → (perform p s c).0 ≡ false
      → Performs tail (p ∷ ps) c false (perform p s c).1

-- What `fuel` rounds beyond those of the packets make of the client.
pub record Served (tail : List ℕ) (ps : List Packet) (fuel : ℕ) (c : Client) : Type 0 where
  pub going : Bool
  pub after : Client
  pub performs : Performs tail ps c going after
  pub in_sync : going ≡ true → InSync after.stream tail
  pub quiet : after.stream.stop_requested ≡ false
  pub loop_is :
      message_loop (length ps + fuel) c ≡ (if going then message_loop fuel after else some after)

message_loop_round :
    (fuel : ℕ) (c : Client) (r : Bool × Client)
    → c.stream.stop_requested ≡ false
    → message_round c ≡ r
    → message_loop (suc fuel) c ≡ (if r.0 then message_loop fuel r.1 else some r.1)
unfolding message_loop
message_loop_round fuel c r quiet e =
    if_false _ _ _ quiet ∙ ap (λ q. if q.0 then message_loop fuel q.1 else some q.1) e

-- On a connection that is in step with the packets that a server sends, the message loop performs
-- exactly their messages, in order, one per round, until one of them ends the connection; if none
-- does, the loop goes on in step with what comes behind them.
pub message_loop-Performs :
    (tail : List ℕ) (ps : List Packet) (fuel : ℕ) (c : Client)
    → All IsProper ps
    → InSync c.stream (frames ps ++ tail)
    → Served tail ps fuel c
message_loop-Performs tail [] fuel c ok sync =
    let rounds : 0 + fuel ≡ fuel = omega arith in
    record {
      going = true;
      after = c;
      performs = all_performed;
      in_sync = λ e. sync;
      quiet = sync.stop_is;
      loop_is = ap (λ n. message_loop n c) rounds;
    }
message_loop-Performs tail (p ∷ ps) fuel c (proper, ok) sync =
    let rest = frames ps ++ tail in
    let sync' : InSync c.stream (packet_frame p ++ rest) = record {
      connected_is = sync.connected_is;
      drained = sync.drained;
      stop_is = sync.stop_is;
      next = sync.next ∙ append_assoc (packet_frame p) (frames ps) tail;
    } in
    let r = receives p c.stream rest proper sync' in
    let s = r.left in
    let rounds : length (p ∷ ps) + fuel ≡ suc (length ps + fuel) = omega arith in
    let round =
      ap (λ n. message_loop n c) rounds
      ∙ message_loop_round (length ps + fuel) c (perform p s c) sync.stop_is
          (message_round-Packet p (p.key ++ payload_of p) (λ t. InSync t rest) c proper.known r) in
    elim (Bool-cases (perform p s c).0) [
      | inl goes ↦
          let later =
            message_loop-Performs tail ps fuel (perform p s c).1 ok
              (perform-InSync p s c rest r.after_is) in
          record {
            going = later.going;
            after = later.after;
            performs = goes_on s r.after_is r.sent_is r.outgoing_is goes later.performs;
            in_sync = later.in_sync;
            quiet = later.quiet;
            loop_is = round ∙ (if_true _ _ _ goes ∙ later.loop_is);
          }
      | inr stops ↦ record {
        going = false;
        after = (perform p s c).1;
        performs = ends s r.after_is r.sent_is r.outgoing_is stops;
        in_sync = λ e. cc;
        quiet = (perform-InSync p s c rest r.after_is).stop_is;
        loop_is = round ∙ if_false _ _ _ stops;
      }
    ]
