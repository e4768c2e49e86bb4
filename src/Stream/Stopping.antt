-- ===== src/Stream/Stopping.antt =====
-- The stop request through the calls of SocketStream (entry/src/main/cpp/protocol/socket_stream.cpp).
use deskflow_harmonyos.Base.{
  ℕ, ◌+◌, ◌≡◌, refl, ap, ◌∙◌, Bool, true, false, Option, none, some, List, [], ◌∷◌, ltb, leb, ◌==◌,
  if◌then◌else◌, if_both, length, take,
}
use deskflow_harmonyos.Base.Word.{be32_of}
use deskflow_harmonyos.Stream.{
  Stream, unread, Filled, settle, close, read_exact, read_body, read_frame, write_frame, connect,
  try_addresses, Candidate, succeeds, max_frame,
}
use deskflow_harmonyos.Stream.Sides.{write_frame-reading_side}

record Stops {A : Type 0} (r : A × Stream) : Type 0 where
  stands : r.1.stop_requested ≡ true

settle-Stops : (s : Stream) (f : Filled) → s.stop_requested ≡ true → Stops (settle s f)
unfolding settle close
settle-Stops s f h = record { stands = go f.by_stop }
  where
    go :
        (b : Bool)
        → (if b
            then record (close s) { incoming = f.left; stop_requested = true }
            else record s { incoming = f.left }).stop_requested
          ≡ true
    go true = refl
    go false = h

read_exact-Stops : (n : ℕ) (s : Stream) → s.stop_requested ≡ true → Stops (read_exact n s)
unfolding read_exact
read_exact-Stops n s h =
    let held = take n (unread s) in
    let s' = record s { buffer_pos = s.buffer_pos + length held } in
    if_both Stops (length held == n) {x = (some held, s')} (record { stands = h })
      (if_both Stops s.connected {y = (none, s')} (settle-Stops s' _ h) (record { stands = h }))

read_body-Stops : (len : ℕ) (s : Stream) → s.stop_requested ≡ true → Stops (read_body len s)
unfolding read_body
read_body-Stops len s h =
    if_both Stops (ltb max_frame len) {x = (none, s)} (record { stands = h })
      (if_both Stops (leb 1 len) {y = (some [], s)} (read_exact-Stops len s h)
        (record { stands = h }))

body-Stops :
    (o : Option (List ℕ)) (s : Stream)
    → s.stop_requested ≡ true
    → Stops {A = Option (List ℕ)} (elim o [ none ↦ (none, s) | some bs ↦ read_body (be32_of bs) s ])
body-Stops none s h = record { stands = h }
body-Stops (some bs) s h = read_body-Stops (be32_of bs) s h

pub read_exact-stop_requested :
    (n : ℕ) (s : Stream) → s.stop_requested ≡ true → (read_exact n s).1.stop_requested ≡ true
read_exact-stop_requested n s h = (read_exact-Stops n s h).stands

pub read_frame-stop_requested :
    (s : Stream) → s.stop_requested ≡ true → (read_frame s).1.stop_requested ≡ true
unfolding read_frame
read_frame-stop_requested s h =
    (body-Stops (read_exact 4 s).0 (read_exact 4 s).1 (read_exact-stop_requested 4 s h)).stands

pub write_frame-stop_requested :
    (bytes : List ℕ) (s : Stream)
    → s.stop_requested ≡ true
    → (write_frame bytes s).1.stop_requested ≡ true
write_frame-stop_requested bytes s h = ap (λ q. q.4) (write_frame-reading_side bytes s) ∙ h

try_addresses-Stops :
    (l : List Candidate) (s : Stream) → s.stop_requested ≡ true → Stops (try_addresses l s)
unfolding try_addresses
try_addresses-Stops [] s h = record { stands = h }
try_addresses-Stops (a ∷ l) s h =
    if_both Stops (succeeds a) {x = (true, record s { connected = true })} (record { stands = h })
      (try_addresses-Stops l s h)

pub connect-stop_requested :
    (o : Option (List Candidate)) (s : Stream)
    → s.stop_requested ≡ true
    → (connect o s).1.stop_requested ≡ true
unfolding connect
connect-stop_requested none s h = h
connect-stop_requested (some l) s h = (try_addresses-Stops l s h).stands
