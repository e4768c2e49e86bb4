-- ===== src/Client/Session/Lasting.antt =====
-- What the handshake and the message loop of entry/src/main/cpp/protocol/deskflow_client.cpp keep: a
-- predicate that every message keeps, and that holds of any stream on which the stop request is not
-- taken back.
use deskflow_harmonyos.Base.{
  ℕ, zero, suc, ◌≡◌, refl, Bool, false, Option, none, some, List, [], ◌∷◌, true, if_both, ◌&&◌,
  ◌||◌, not, ◌==◌, length, codes,
}
use deskflow_harmonyos.Stream.{Stream, read_exact, read_frame, push_to_buffer, write_frame}
use deskflow_harmonyos.Stream.Stopping.{read_exact-stop_requested, read_frame-stop_requested}
use deskflow_harmonyos.Base.Word.{to_i16}
use deskflow_harmonyos.Proto.Read.{Reader, ◌>>=◌, readf}
use deskflow_harmonyos.Proto.Composes.{Composes, readf-Composes}
use deskflow_harmonyos.Proto.{Value, num, str, writef}
use deskflow_harmonyos.Client.{Client, Status, set_status, protocol_mismatch}
use deskflow_harmonyos.Client.Clipboard.{send_message}
use deskflow_harmonyos.Client.Messages.{send_key, handle_message}
use deskflow_harmonyos.Client.Messages.Stable.{Stable}
use deskflow_harmonyos.Client.Messages.Stable.Act.{KeptByClosing, handle_message-Stable}
use deskflow_harmonyos.Client.Session.{
  with_stream, fmt_hello, answer_hello, handshake, on_hello, on_greeting, hello_name_length,
  acknowledge, on_head, on_frame, message_round, message_loop,
}

-- A stream with which the client goes on from another: the stop request stands if it stood.
abbrev pub Follows : Stream → Stream → Type 0
Follows s t = s.stop_requested ≡ true → t.stop_requested ≡ true

pub record Lasting (P : Client → Type 0) : Type 0 where
  pub stable : Stable P
  pub moves : (s : Stream) (c : Client) → Follows c.stream s → P c → P (with_stream s c)
  pub closing : KeptByClosing P

pub record After (P : Client → Type 0) (r : Bool × Client) : Type 0 where
  pub inv : P r.1

-- The client that a computation gives, if it gives one.
abbrev pub Given : (Client → Type 0) → Option Client → Type 0
Given P none = Unit
Given P (some c) = P c

pub record Gives (P : Client → Type 0) (o : Option Client) : Type 0 where
  pub inv : Given P o

-- readf keeps a stop request as readExact does.
record Keeps (A : Type 0) (m : Reader A) : Type 0 where
  follows : (s : Stream) → Follows s (m s).1

next-Follows :
    (A B : Type 0) (f : A → Reader B) (o : Option A) (s : Stream)
    → ((a : A) → Keeps B (f a))
    → Follows s (((λ (_ : Stream). (o, s)) >>= f) s).1
next-Follows A B f none s k h = h
next-Follows A B f (some a) s k h = (k a).follows s h

Keeps-Composes : Composes Keeps
Keeps-Composes = record {
  of_pure = λ A a. record { follows = λ s h. h };
  of_fail = λ A. record { follows = λ s h. h };
  of_bind = λ A B m f h k. record {
    follows = λ s e. next-Follows A B f (m s).0 (m s).1 k (h.follows s e);
  };
  of_read_exact = λ n. record { follows = read_exact-stop_requested n };
}

readf-Follows : (fmt : List ℕ) (s : Stream) → Follows s (readf fmt s).1
readf-Follows fmt s = (readf-Composes Keeps Keeps-Composes fmt).follows s

module _ (P : Client → Type 0) (lasting : Lasting P) where
  open lasting use {stable, moves, closing}

  pub set_status-After :
      (b : Bool) (status : Status) (c : Client) → P c → After P (b, set_status status c)
  unfolding set_status
  set_status-After b status c h = record { inv = stable.same c _ refl h }

  handle_message-After : (key : List ℕ) (c : Client) → P c → After P (handle_message key c)
  handle_message-After key c h = record {
    inv =
        handle_message-Stable P stable
          (λ fmt c. moves (readf fmt c.stream).1 c (readf-Follows fmt c.stream)) key c
          (λ _. closing) h;
  }

  acknowledge-After : (going : Bool) (c : Client) → P c → After P (acknowledge going c)
  unfolding acknowledge send_key
  acknowledge-After going c h =
      if_both (After P) (going && c.handshake_done) {y = (going, c)}
        (record { inv = stable.writes (codes "CNOP") c h }) (record { inv = h })

  on_head-After : (head : Option (List ℕ)) (c : Client) → P c → After P (on_head head c)
  unfolding on_head
  on_head-After none c h = record { inv = h }
  on_head-After (some key) c h =
      let (going, c') = handle_message key c in
      acknowledge-After going c' (handle_message-After key c h).inv

  on_frame-After : (frame : Option (List ℕ)) (c : Client) → P c → After P (on_frame frame c)
  unfolding on_frame push_to_buffer
  on_frame-After none c h = set_status-After false _ c h
  on_frame-After (some bytes) c h =
      let pushed = push_to_buffer bytes c.stream in
      let (head, s) = read_exact 4 pushed in
      on_head-After head (with_stream s c) (moves s c (λ e. read_exact-stop_requested 4 pushed e) h)

  pub message_round-After : (c : Client) → P c → After P (message_round c)
  unfolding message_round
  message_round-After c h =
      let (frame, s) = read_frame c.stream in
      on_frame-After frame (with_stream s c) (moves s c (read_frame-stop_requested c.stream) h)

  pub message_loop-Gives : (fuel : ℕ) (c : Client) → P c → Gives P (message_loop fuel c)
  unfolding message_loop
  message_loop-Gives zero c h = record { inv = tt }
  message_loop-Gives (suc fuel) c h =
      let (keep_going, c') = message_round c in
      let round = (message_round-After c h).inv in
      if_both (Gives P) c.stream.stop_requested {x = some c} (record { inv = h })
        (if_both (Gives P) keep_going {y = some c'} (message_loop-Gives fuel c' round)
          (record { inv = round }))

  pub send_message-After :
      (fmt : List ℕ) (vs : List Value) (c : Client) → P c → After P (send_message fmt vs c)
  unfolding send_message
  send_message-After fmt vs c h =
      elim (writef fmt vs)
        as (λ (o : Option (List ℕ)). After P (elim o as (λ _. Bool × Client) [
          | none ↦ (false, c)
          | some bytes ↦ (let (ok, s) = write_frame bytes c.stream in (ok, record c { stream = s }))
        ])) [ none ↦ record { inv = h } | some bytes ↦ record { inv = stable.writes bytes c h } ]

  answer_hello-After : (vs : List Value) (c : Client) → P c → After P (answer_hello vs c)
  unfolding answer_hello
  answer_hello-After (str name ∷ num major ∷ num minor ∷ []) c h =
      if_both (After P) (not (length name == hello_name_length) || not (major == 1))
        (set_status-After false (protocol_mismatch name (to_i16 major) (to_i16 minor))
          (record c { should_reconnect = false }) (closing c h))
        (send_message-After _ _ c h)
  answer_hello-After _ c h = record { inv = h }

  on_hello-After : (o : Option (List Value)) (c : Client) → P c → After P (on_hello o c)
  unfolding on_hello
  on_hello-After none c h = record { inv = h }
  on_hello-After (some vs) c h = answer_hello-After vs c h

  on_greeting-After : (o : Option (List ℕ)) (c : Client) → P c → After P (on_greeting o c)
  unfolding on_greeting push_to_buffer
  on_greeting-After none c h = record { inv = h }
  on_greeting-After (some bytes) c h =
      let pushed = push_to_buffer bytes c.stream in
      let (vs, s) = readf fmt_hello pushed in
      on_hello-After vs (with_stream s c) (moves s c (λ e. readf-Follows fmt_hello pushed e) h)

  pub handshake-After : (c : Client) → P c → After P (handshake c)
  unfolding handshake
  handshake-After c h =
      let (frame, s) = read_frame c.stream in
      on_greeting-After frame (with_stream s c) (moves s c (read_frame-stop_requested c.stream) h)
