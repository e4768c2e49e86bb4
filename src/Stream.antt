-- ===== src/Stream.antt =====
-- SocketStream (entry/src/main/cpp/protocol/socket_stream.cpp and .h): exact reads through the
-- internal buffer, complete writes, length-prefixed frames.
-- recv and send are the kernel's: each stream carries the script of what their calls will meet.
pub mod Fill
pub mod Read
pub mod Write
pub mod Frame
pub mod Supply
pub mod Drained
pub mod Sides
pub mod Stopping
pub mod Torn
mod Tests
use deskflow_harmonyos.Base.{
  ℕ, zero, suc, ◌+◌, ◌-◌, ◌*◌, Bool, true, false, Option, none, some, List, [], ◌∷◌, ◌++◌, leb, ltb,
  ◌==◌, if◌then◌else◌, length, is_empty, take, drop,
}
use deskflow_harmonyos.Base.Word.{be32_of, put_u32}

-- What a call of recv on the open socket meets: bytes (at least one) that have arrived, the
-- peer's orderly end (0), EINTR, another error, or stop() called by another thread, which closes
-- the socket under the waiting call. A script that has run out is an orderly end.
pub data RecvEvent : Type 0 where
  arrived : ℕ → List ℕ → RecvEvent
  ended : RecvEvent
  interrupted : RecvEvent
  failed : RecvEvent
  stopped : RecvEvent

-- What a call of send meets: room for so many bytes, EINTR, another error. A script that has run
-- out accepts everything.
pub data SendEvent : Type 0 where
  accepts : ℕ → SendEvent
  send_interrupted : SendEvent
  send_failed : SendEvent

-- `connected` is m_fd >= 0, `sent` what the kernel has accepted so far. The client's
-- m_stopRequested stands here, since stop() sets it while the worker waits in recv.
pub record Stream : Type 0 where
  pub connected : Bool
  pub buffer : List ℕ
  pub buffer_pos : ℕ
  pub incoming : List RecvEvent
  pub outgoing : List SendEvent
  pub sent : List ℕ
  pub stop_requested : Bool

-- SocketStream::close
unfoldable pub close : Stream → Stream
close s = record s { connected = false; buffer = []; buffer_pos = 0 }

-- The buffered bytes that readExact has not handed out.
abbrev pub unread : Stream → List ℕ
unread s = drop s.buffer_pos s.buffer

-- The outcome of the recv loop: the bytes, unless it gave up; the script left; whether a stop()
-- ended it.
pub record Filled : Type 0 where
  pub result : Option (List ℕ)
  pub left : List RecvEvent
  pub by_stop : Bool

abbrev pub put_back : List ℕ → List RecvEvent → List RecvEvent
put_back [] evs = evs
put_back (b ∷ bs) evs = arrived b bs ∷ evs

-- `while (got < n)` around recv, with `n` bytes still to get behind those in `got`.
unfoldable pub fill : List RecvEvent → ℕ → List ℕ → Filled
fill [] zero got = record { result = some got; left = []; by_stop = false }
fill [] (suc n) got = record { result = none; left = []; by_stop = false }
fill (e ∷ evs) zero got = record { result = some got; left = e ∷ evs; by_stop = false }
fill (arrived b bs ∷ evs) (suc n) got =
    let whole = fill evs (n - length bs) (got ++ (b ∷ bs)) in
    let part : Filled = record {
      result = some (got ++ (b ∷ take n bs));
      left = put_back (drop n bs) evs;
      by_stop = false;
    } in
    if leb (length bs) n then whole else part
fill (ended ∷ evs) (suc n) got = record { result = none; left = ended ∷ evs; by_stop = false }
fill (interrupted ∷ evs) (suc n) got = fill evs (suc n) got
fill (failed ∷ evs) (suc n) got = record { result = none; left = evs; by_stop = false }
fill (stopped ∷ evs) (suc n) got = record { result = none; left = evs; by_stop = true }

settle : Stream → Filled → Option (List ℕ) × Stream
settle s f = (
  f.result,
  (if f.by_stop
      then record (close s) { incoming = f.left; stop_requested = true }
      else record s { incoming = f.left }),
)

-- SocketStream::readExact: buffered bytes first, then recv until `n` are there.
unfoldable pub read_exact : ℕ → Stream → Option (List ℕ) × Stream
unfolding fill settle close
read_exact n s =
    let held = take n (unread s) in
    let s' = record s { buffer_pos = s.buffer_pos + length held } in
    if length held == n
    then (some held, s')
    else (if s.connected then settle s' (fill s.incoming (n - length held) held) else (none, s'))

-- The outcome of the send loop.
pub record Sent : Type 0 where
  pub complete : Bool
  pub left : List SendEvent
  pub taken : List ℕ

-- `while (sent < n)` around send, with `bytes` still to send and `taken` accepted before.
unfoldable pub send_loop : List SendEvent → List ℕ → List ℕ → Sent
send_loop [] bytes taken = record { complete = true; left = []; taken = taken ++ bytes }
send_loop (e ∷ evs) [] taken = record { complete = true; left = e ∷ evs; taken = taken }
send_loop (accepts k ∷ evs) (b ∷ bs) taken =
    let more = send_loop evs (drop k (b ∷ bs)) (taken ++ take k (b ∷ bs)) in
    let nothing : Sent = record { complete = false; left = evs; taken = taken } in
    if k == 0 then nothing else more
send_loop (send_interrupted ∷ evs) (b ∷ bs) taken = send_loop evs (b ∷ bs) taken
send_loop (send_failed ∷ evs) (b ∷ bs) taken = record {
  complete = false;
  left = evs;
  taken = taken;
}

-- SocketStream::writeAll
unfoldable pub write_all : List ℕ → Stream → Bool × Stream
write_all bytes s =
    let r = send_loop s.outgoing bytes s.sent in
    if is_empty bytes
    then (true, s)
    else (if s.connected
        then (r.complete, record s { outgoing = r.left; sent = r.taken })
        else (false, s))

abbrev pub max_frame : ℕ
max_frame = 4 * 1024 * 1024

-- readFrame behind its length field.
unfoldable pub read_body : ℕ → Stream → Option (List ℕ) × Stream
read_body len s =
    if ltb max_frame len then (none, s) else (if leb 1 len then read_exact len s else (some [], s))

-- SocketStream::readFrame
unfoldable pub read_frame : Stream → Option (List ℕ) × Stream
read_frame s =
    let (lenb, s1) = read_exact 4 s in
    elim lenb [ none ↦ (none, s1) | some bs ↦ read_body (be32_of bs) s1 ]

-- Where a call of writeFrame stands: at its beginning, behind the length field, or returned.
pub data Writer : Type 0 where
  framing : List ℕ → Writer
  filling : List ℕ → Writer
  wrote : Bool → Writer

-- A call of writeFrame up to the return of its next call of writeAll, or to its own.
unfoldable pub write_step : Writer → Stream → Writer × Stream
write_step (framing bytes) s =
    let (ok, s1) = write_all (put_u32 (length bytes)) s in
    if ltb max_frame (length bytes)
    then (wrote false, s)
    else (if ok
        then (if is_empty bytes then (wrote true, s1) else (filling bytes, s1))
        else (wrote false, s1))
write_step (filling bytes) s = let (ok, s1) = write_all bytes s in (wrote ok, s1)
write_step (wrote ok) s = (wrote ok, s)

abbrev pub has_written : Writer → Bool
has_written (wrote ok) = ok
has_written _ = false

-- SocketStream::writeFrame: the steps of one thread with no other's between them.
unfoldable pub write_frame : List ℕ → Stream → Bool × Stream
unfolding write_step
write_frame bytes s =
    let (field_sent, s1) = write_step (framing bytes) s in
    let (done, s2) = write_step field_sent s1 in (has_written done, s2)

-- SocketStream::pushToBuffer
unfoldable pub push_to_buffer : List ℕ → Stream → Stream
push_to_buffer bytes s = record s { buffer = s.buffer ++ bytes }

-- How one address of getaddrinfo's list fares in connect(): no socket; connected or refused at
-- once; or in progress, and then select reports no result in time, or the socket's error (0 for none).
pub data Candidate : Type 0 where
  no_socket connects refuses times_out : Candidate
  resolves : ℕ → Candidate

unfoldable pub succeeds : Candidate → Bool
succeeds connects = true
succeeds (resolves err) = err == 0
succeeds _ = false

-- The loop over the addresses: the first that succeeds is kept.
unfoldable pub try_addresses : List Candidate → Stream → Bool × Stream
try_addresses [] s = (false, s)
try_addresses (a ∷ as') s =
    let rest = try_addresses as' s in
    if succeeds a then (true, record s { connected = true }) else rest

-- SocketStream::connect; `none` stands for a failing getaddrinfo.
unfoldable pub connect : Option (List Candidate) → Stream → Bool × Stream
connect none s = (false, s)
connect (some addresses) s = try_addresses addresses s
