-- ===== src/Client/Run.antt =====
-- start, stop, runOnce and run of entry/src/main/cpp/protocol/deskflow_client.cpp: one connection
-- after another, until it is stopped or told not to come back.
pub mod Total
pub mod Service
pub mod Threads
pub mod Step
pub mod Refusal
pub mod Return
pub mod Lasting
pub mod Running
pub mod Stopped
use deskflow_harmonyos.Base.{
  ℕ, suc, ◌+◌, Bool, true, false, ◌&&◌, ◌||◌, not, Option, none, some, List, [], ◌∷◌, if◌then◌else◌,
  length,
}
use deskflow_harmonyos.Stream.{
  Stream, RecvEvent, arrived, SendEvent, Candidate, unread, close, connect,
}
use deskflow_harmonyos.Stream.Supply.{reserve_of}
use deskflow_harmonyos.Client.{
  Client, connecting, connect_failed, handshaking, handshake_failed, handshake_ok, disconnected,
  reconnecting, set_status,
}
use deskflow_harmonyos.Client.Session.{with_stream, handshake, message_loop}

-- What the network has in store for one connection, and whether stop() is called while connect() is
-- under way, or in the wait before the next one.
pub record Attempt : Type 0 where
  pub addresses : Option (List Candidate)
  pub recvs : List RecvEvent
  pub sends : List SendEvent
  pub stop_in_connect : Bool
  pub stop_in_wait : Bool

-- The test at the beginning of start().
abbrev pub is_busy : Client → Bool
is_busy c = c.running

-- start() behind its test.
abbrev pub set_off : List ℕ → ℕ → List ℕ → Client → Client
set_off host port name c = record c {
  host = host;
  port = port;
  screen_name = name;
  stream = record c.stream { stop_requested = false };
  running = true;
}

-- start(), up to the thread that it starts.
unfoldable pub start : List ℕ → ℕ → List ℕ → Client → Bool × Client
start host port name c = if is_busy c then (false, c) else (true, set_off host port name c)

-- What stop() does to the connection.
unfoldable pub halted : Stream → Stream
halted s = record (close s) { stop_requested = true }

-- stop()
unfoldable pub stop : Client → Client
unfolding halted
stop c = with_stream (halted c.stream) c

unfoldable pub close_stream : Client → Client
close_stream c = with_stream (close c.stream) c

-- runOnce() behind its message loop; the first component says whether to reconnect.
unfoldable pub hang_up : Option Client → Option (Bool × Client)
hang_up none = none
hang_up (some c) =
    let shut = close_stream c in
    some (not shut.stream.stop_requested && shut.should_reconnect, shut)

-- runOnce() behind a successful connect. Each round of the message loop uses up some of what the
-- connection can still give, which bounds the rounds.
unfoldable pub serve : Client → Option (Bool × Client)
unfolding hang_up
serve c =
    let (ok, c') = handshake c in
    let refused = close_stream (set_status handshake_failed c') in
    let greeted = set_status handshake_ok c' in
    if not ok
    then some (refused.should_reconnect, refused)
    else hang_up (message_loop (suc (reserve_of greeted.stream)) greeted)

-- runOnce() up to the outcome of connect(). A stop() that comes while connect() is under way finds
-- no socket to close, and connect() does not look at the request.
abbrev pub dial : Attempt → Client → Bool × Stream
dial a c =
    let called = if a.stop_in_connect then halted c.stream else c.stream in
    connect a.addresses (record called { incoming = a.recvs; outgoing = a.sends; sent = [] })

abbrev pub dialling : Client → Client
dialling c = set_status (connecting c.host c.port) c

-- The client that begins the handshake.
abbrev pub dialled : Attempt → Client → Client
dialled a c = set_status handshaking (with_stream (dial a c).1 (dialling c))

-- runOnce()
unfoldable pub run_once : Attempt → Client → Option (Bool × Client)
run_once a c =
    if not (dial a c).0
    then some (true, set_status connect_failed (with_stream (dial a c).1 (dialling c)))
    else serve (dialled a c)

-- `m_running = false` behind the loop of run().
abbrev pub clear_running : Client → Client
clear_running c = record c { running = false }

-- `if (!m_stopRequested) setStatus("disconnected")` at the end of run().
abbrev pub report_end : Client → Client
report_end c = if c.stream.stop_requested then c else set_status disconnected c

-- run() behind its loop.
unfoldable pub finish : Client → Client
finish c = report_end (clear_running c)

-- The wait before the next attempt.
unfoldable pub back_off : Attempt → Client → Client
unfolding stop
back_off a c =
    let waiting = set_status (reconnecting c.reconnect_interval_ms) c in
    if a.stop_in_wait then stop waiting else waiting

-- run() on the attempts that the network allows; `none` once these are used up, with the worker
-- still running. m_autoReconnect stays as it is meanwhile.
unfoldable pub run : List Attempt → Client → Option Client
run [] c = none
run (a ∷ later) c =
    let attempt = run_once a (record c { should_reconnect = true }) in
    let next : Option Client = elim attempt [
      | none ↦ none
      | some (again, c') ↦
          (if not c'.auto_reconnect || (not again || c'.stream.stop_requested)
            then some (finish c')
            else run later (back_off a c'))
    ] in
    if c.stream.stop_requested then some (finish c) else next
