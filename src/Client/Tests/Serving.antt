-- ===== src/Client/Tests/Serving.antt =====
-- A concrete client with a server that greets, moves the pointer, lets go and closes.
use deskflow_harmonyos.Base.{
  some, ◌≡◌, Bool-cases, inl, inr, true, false, ℕ, refl, List, [], ◌∷◌, ◌++◌, arith, codes, All,
}
use deskflow_harmonyos.Base.Word.{put_u16, put_u32}
use deskflow_harmonyos.Stream.{arrived, connects, connect, try_addresses, succeeds}
use deskflow_harmonyos.Proto.{num}
use deskflow_harmonyos.Proto.Format.{encode, big_endian}
use deskflow_harmonyos.Client.{Client, set_status}
use deskflow_harmonyos.Client.Messages.{act, classify, find_key}
use deskflow_harmonyos.Client.Session.Hello.{Hears}
use deskflow_harmonyos.Client.Session.Packet.{Packet, IsProper, InSync}
use deskflow_harmonyos.Client.Session.Sync.{
  frames, Served, message_loop-Performs, Performs, goes_on,
}
use mathlib.Core.Path.{subst}
use deskflow_harmonyos.Client.Session.{acknowledge, handshake}
use deskflow_harmonyos.Client.Session.Greeting.{handshake_answers, handshake_succeeds}
use deskflow_harmonyos.Client.Run.{Attempt, dialled, run, back_off, close_stream}
use deskflow_harmonyos.Client.Run.Step.{fresh}
use deskflow_harmonyos.Client.Run.Return.{run_returns}
use deskflow_harmonyos.Client.Run.Service.{Attends, serve-Attends, greeted}
use deskflow_harmonyos.Client.Tests.{client, client_stream, attempt}

-- DMMV to (5, 3), COUT, CBYE
abbrev packets : List Packet
packets =
    record { key = codes "DMMV"; values = num 5 ∷ num 3 ∷ [] }
    ∷ record { key = codes "COUT"; values = [] }
    ∷ record { key = codes "CBYE"; values = [] }
    ∷ []

-- The three frames, cut up.
abbrev packet_bytes : List ℕ
packet_bytes =
    0 ∷ 0 ∷ 8 ∷ (codes "DMMV" ++ (0 ∷ 5 ∷ 0 ∷ 3 ∷ 0 ∷ 0 ∷ 0 ∷ 4 ∷ codes "COUT"))
    ++ (0 ∷ 0 ∷ 0 ∷ 4 ∷ codes "CBYE")

packets-IsProper : All IsProper packets
unfolding classify find_key encode big_endian put_u16
packets-IsProper = (
  record { known = λ e. absurd cc; key_length = refl; fits = omega arith; small = omega arith },
  (
    record { known = λ e. absurd cc; key_length = refl; fits = tt; small = omega arith },
    (record { known = λ e. absurd cc; key_length = refl; fits = tt; small = omega arith }, tt),
  ),
)

abbrev in_step : Client
in_step = record client { stream = record client_stream { incoming = arrived 0 packet_bytes ∷ [] } }

in_step-InSync : InSync in_step.stream (frames packets ++ [])
unfolding classify find_key encode big_endian put_u16 put_u32
in_step-InSync = record { connected_is = refl; drained = refl; stop_is = refl; next = refl }

message_loop-Performs_example : Served [] packets 10 in_step
message_loop-Performs_example =
    message_loop-Performs [] packets 10 in_step packets-IsProper in_step-InSync

-- A new connection, to a server that greets with version 1.8 and sends the packets.
abbrev greeting : Client
greeting = record client {
  stream = record client_stream {
    incoming =
        arrived 0 (0 ∷ 0 ∷ 11 ∷ (codes "Barrier" ++ (0 ∷ 1 ∷ 0 ∷ 8 ∷ [])))
        ∷ arrived 0 packet_bytes
        ∷ [];
  };
}

greeting-Hears : Hears greeting (codes "Barrier") 1 8 (frames packets ++ [])
unfolding classify find_key encode big_endian put_u16 put_u32
greeting-Hears = record {
  name_is = refl;
  major_is = omega arith;
  minor_is = omega arith;
  connected_is = refl;
  drained = refl;
  next = refl;
}

serve-Attends_example : Attends [] packets greeting
serve-Attends_example =
    serve-Attends greeting (codes "Barrier") 8 packets [] greeting-Hears (omega arith) (omega arith)
      refl refl packets-IsProper

-- A server that moves the pointer and is busy: EBSY ends the connection, and it is made again.
abbrev busy_packets : List Packet
busy_packets =
    record { key = codes "DMMV"; values = num 5 ∷ num 3 ∷ [] }
    ∷ record { key = codes "EBSY"; values = [] }
    ∷ []

busy_packets-IsProper : All IsProper busy_packets
unfolding classify find_key encode big_endian put_u16
busy_packets-IsProper = (
  record { known = λ e. absurd cc; key_length = refl; fits = omega arith; small = omega arith },
  (record { known = λ e. absurd cc; key_length = refl; fits = tt; small = omega arith }, tt),
)

abbrev busy_server : Attempt
busy_server = record attempt {
  addresses = some (connects ∷ []);
  recvs =
      arrived 0 (0 ∷ 0 ∷ 11 ∷ (codes "Barrier" ++ (0 ∷ 1 ∷ 0 ∷ 8 ∷ [])))
      ∷ arrived 0 (0 ∷ 0 ∷ 8 ∷ (codes "DMMV" ++ (0 ∷ 5 ∷ 0 ∷ 3 ∷ 0 ∷ 0 ∷ 0 ∷ 4 ∷ codes "EBSY")))
      ∷ [];
}

abbrev greeting_busy : Client
greeting_busy = dialled busy_server (fresh client)

greeting_busy-Hears : Hears greeting_busy (codes "Barrier") 1 8 (frames busy_packets ++ [])
unfolding connect try_addresses succeeds set_status classify find_key encode big_endian put_u16
    put_u32
greeting_busy-Hears = record {
  name_is = refl;
  major_is = omega arith;
  minor_is = omega arith;
  connected_is = refl;
  drained = refl;
  next = refl;
}

attended : Attends [] busy_packets greeting_busy
unfolding connect try_addresses succeeds set_status
attended =
    serve-Attends greeting_busy (codes "Barrier") 8 busy_packets [] greeting_busy-Hears
      (omega arith) (omega arith) refl refl busy_packets-IsProper

busy_ends : (c c' : Client) → ¬ Performs [] busy_packets c true c'
unfolding classify find_key act acknowledge
busy_ends c c' (goes_on s sync sent out ok (goes_on s' sync' sent' out' ok' rest)) = absurd (cc ok')

attended_over : attended.going ≡ false
attended_over = elim (Bool-cases attended.going) [
  | inl going ↦ absurd (
      busy_ends (greeted greeting_busy) attended.after (
        subst (λ b. Performs [] busy_packets (greeted greeting_busy) b attended.after) going
          attended.performs))
  | inr over ↦ over
]

greeting_busy_wanted : (handshake greeting_busy).1.should_reconnect ≡ true
unfolding connect try_addresses succeeds set_status
greeting_busy_wanted =
    (handshake_answers greeting_busy (codes "Barrier") 8 (frames busy_packets ++ [])
      greeting_busy-Hears (omega arith) (omega arith)
      (handshake_succeeds greeting_busy (codes "Barrier") 8 (frames busy_packets ++ [])
        greeting_busy-Hears (omega arith) (omega arith) refl)).2

run_returns_example :
    run (busy_server ∷ attempt ∷ []) client
    ≡ run (attempt ∷ []) (back_off busy_server (close_stream attended.after))
unfolding classify find_key connect try_addresses succeeds
run_returns_example =
    run_returns [] busy_packets busy_server (attempt ∷ []) client attended refl refl attended_over
      greeting_busy_wanted (λ closes. absurd closes, (λ closes. absurd closes, tt)) refl
