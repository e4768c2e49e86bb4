-- ===== src/Stream/Torn.antt =====
-- Two threads write to one SocketStream (entry/src/main/cpp/protocol/socket_stream.cpp): writeFrame
-- makes two calls of writeAll, and no lock keeps another thread's frame from coming between them.
use deskflow_harmonyos.Base.{
  ℕ, ◌≤◌, ◌≡◌, refl, sym, ap, ◌∙◌, true, some, List, [], ◌∷◌, ◌++◌, if◌then◌else◌, is_empty,
  append_assoc, append-nil, arith, length, take, drop, take-append-drop, length-take,
}
use mathlib.Core.List.{append_cancel_left}
use deskflow_harmonyos.Base.Word.{put_u32}
use deskflow_harmonyos.Stream.{
  Stream, read_frame, write_all, write_frame, max_frame, Writer, framing, filling, wrote,
  write_step, has_written,
}
use deskflow_harmonyos.Stream.Read.{pending}
use deskflow_harmonyos.Stream.Write.{
  frame, write_all-Writes, write_frame-Writes, write_all_open, write_frame_open, write_frame-sent,
  write_frame_stays_open,
}
use deskflow_harmonyos.Stream.Frame.{read_frame-Yields}

-- Two threads in writeFrame on one stream.
pub record Writers : Type 0 where
  pub stream : Stream
  pub worker : Writer
  pub script : Writer

pub data Turn : Type 0 where
  worker_turn script_turn : Turn

-- The next step of one of them.
unfoldable pub take_turn : Turn → Writers → Writers
take_turn worker_turn t =
    let (worker, s) = write_step t.worker t.stream in record t { stream = s; worker = worker }
take_turn script_turn t =
    let (script, s) = write_step t.script t.stream in record t { stream = s; script = script }

-- The order in which the kernel lets them go on.
unfoldable pub take_turns : List Turn → Writers → Writers
take_turns [] t = t
take_turns (next ∷ later) t = take_turns later (take_turn next t)

-- The worker begins a frame, the script's thread sends one, and the worker goes on.
abbrev pub tearing : List Turn
tearing = worker_turn ∷ script_turn ∷ script_turn ∷ worker_turn ∷ []

-- Both at the beginning of their calls.
abbrev pub calling : List ℕ → List ℕ → Stream → Writers
calling bytes other s = record { stream = s; worker = framing bytes; script = framing other }

abbrev torn : List ℕ → List ℕ → Stream → Stream
torn bytes other s =
    let field = (write_all (put_u32 (length bytes)) s).1 in
    (write_all bytes (write_frame other field).1).1

begins :
    (bytes : List ℕ) (s : Stream)
    → s.connected ≡ true
    → s.outgoing ≡ []
    → length bytes ≤ max_frame
    → write_step (framing bytes) s ≡ (
      (if is_empty bytes then wrote true else filling bytes),
      (write_all (put_u32 (length bytes)) s).1,
    )
unfolding write_step
begins bytes s c h small =
    let field = write_all_open (put_u32 (length bytes)) s c h in ground (arith, field.0)

goes_on :
    (bytes : List ℕ) (s : Stream)
    → write_step (if is_empty bytes then wrote true else filling bytes) s
      ≡ (wrote (write_all bytes s).0, (write_all bytes s).1)
unfolding write_step write_all
goes_on [] s = refl
goes_on (b ∷ bs) s = refl

-- What these turns come to.
torn_turns :
    (bytes other : List ℕ) (s : Stream)
    → s.connected ≡ true
    → s.outgoing ≡ []
    → length bytes ≤ max_frame
    → (has_written (take_turns tearing (calling bytes other s)).script
        ≡ (write_frame other (write_all (put_u32 (length bytes)) s).1).0)
      × ((take_turns tearing (calling bytes other s)).worker
          ≡ wrote
              (write_all bytes (write_frame other (write_all (put_u32 (length bytes)) s).1).1).0)
      × ((take_turns tearing (calling bytes other s)).stream ≡ torn bytes other s)
unfolding take_turns take_turn write_frame
torn_turns bytes other s c h small =
    let e = begins bytes s c h small in
    let s2 = (write_frame other (write_all (put_u32 (length bytes)) s).1).1 in
    let f = goes_on bytes s2 in rw e (refl, ap (λ q. q.0) f, ap (λ q. q.1) f)

all_sent :
    (bytes : List ℕ) (s : Stream)
    → s.connected ≡ true
    → s.outgoing ≡ []
    → (write_all bytes s).1.sent ≡ s.sent ++ bytes
all_sent bytes s c h =
    let w = write_all-Writes bytes s in
    let whole = w.complete (write_all_open bytes s c h).0 in
    w.sent_is
    ∙ ap (λ l. s.sent ++ l) (sym (w.splits ∙ (ap (λ l. w.done ++ l) whole ∙ append-nil w.done)))

regroup : (a b c d : List ℕ) → ((a ++ b) ++ c) ++ d ≡ a ++ (b ++ (c ++ d))
regroup a b c d = simp append_assoc

torn-sent :
    (bytes other : List ℕ) (s : Stream)
    → s.connected ≡ true
    → s.outgoing ≡ []
    → length other ≤ max_frame
    → (torn bytes other s).sent ≡ s.sent ++ (put_u32 (length bytes) ++ (frame other ++ bytes))
torn-sent bytes other s c h fits =
    let field = put_u32 (length bytes) in
    let s1 = (write_all field s).1 in
    let one = write_all_open field s c h in
    let two = write_frame_open other s1 one.1 one.2 fits in
    let s2 = (write_frame other s1).1 in
    all_sent bytes s2 ((write_frame-Writes other s1).connected_is ∙ one.1)
      (write_frame_stays_open other s1 one.1 one.2)
    ∙ (ap (λ l. l ++ bytes)
          (write_frame-sent other s1 two ∙ ap (λ l. l ++ frame other) (all_sent field s c h))
        ∙ regroup s.sent field (frame other) bytes)

reframe :
    (field head left bytes rest : List ℕ)
    → (field ++ ((head ++ left) ++ bytes)) ++ rest ≡ (field ++ head) ++ (left ++ (bytes ++ rest))
reframe field head left bytes rest = simp append_assoc

torn-read :
    (bytes other rest : List ℕ) (w s : Stream)
    → w.connected ≡ true
    → w.outgoing ≡ []
    → length other ≤ max_frame
    → length bytes ≤ max_frame
    → length bytes ≤ length (frame other)
    → s.connected ≡ true
    → w.sent ++ pending s ≡ (torn bytes other w).sent ++ rest
    → ((read_frame s).0 ≡ some (take (length bytes) (frame other)))
      × (pending (read_frame s).1 ≡ drop (length bytes) (frame other) ++ (bytes ++ rest))
torn-read bytes other rest w s open_end takes fits small short c e =
    let n = length bytes in
    let head = take n (frame other) in
    let tail = drop n (frame other) ++ (bytes ++ rest) in
    let size : length head ≡ n = omega (arith, length-take n (frame other)) in
    let parts = take-append-drop n (frame other) in
    let wire : pending s ≡ (put_u32 n ++ (frame other ++ bytes)) ++ rest =
      append_cancel_left w.sent _ _ (
        e
        ∙ (ap (λ l. l ++ rest) (torn-sent bytes other w open_end takes fits)
            ∙ append_assoc w.sent _ rest)) in
    let as_frame : pending s ≡ frame head ++ tail =
      wire
      ∙ (ap (λ l. (put_u32 n ++ (l ++ bytes)) ++ rest) (sym parts)
          ∙ (reframe (put_u32 n) head (drop n (frame other)) bytes rest
              ∙ ap (λ k. (put_u32 k ++ head) ++ tail) (sym size))) in
    let y = read_frame-Yields head tail s c (omega (arith, size)) as_frame in
    (y.result_is, y.pending_is)

-- Two threads begin writeFrame on one open connection that takes everything, with payloads within
-- the limit, the worker's no longer than the script's frame. Where the script's thread sends its
-- frame between the two steps of the worker's: both calls return true, and readFrame of the other
-- end, open and with these bytes next, takes the beginning of the script's frame for the worker's
-- payload and leaves the rest of it in front of what follows.
pub read_frame-torn :
    (bytes other rest : List ℕ) (w s : Stream)
    → w.connected ≡ true
    → w.outgoing ≡ []
    → length other ≤ max_frame
    → length bytes ≤ max_frame
    → length bytes ≤ length (frame other)
    → s.connected ≡ true
    → w.sent ++ pending s ≡ (take_turns tearing (calling bytes other w)).stream.sent ++ rest
    → (has_written (take_turns tearing (calling bytes other w)).worker ≡ true)
      × (has_written (take_turns tearing (calling bytes other w)).script ≡ true)
      × ((read_frame s).0 ≡ some (take (length bytes) (frame other)))
      × (pending (read_frame s).1 ≡ drop (length bytes) (frame other) ++ (bytes ++ rest))
read_frame-torn bytes other rest w s open_end takes fits small short c e =
    let turns = torn_turns bytes other w open_end takes small in
    let one = write_all_open (put_u32 (length bytes)) w open_end takes in
    let s1 = (write_all (put_u32 (length bytes)) w).1 in
    let s2 = (write_frame other s1).1 in
    let last =
      write_all_open bytes s2 ((write_frame-Writes other s1).connected_is ∙ one.1)
        (write_frame_stays_open other s1 one.1 one.2) in
    let read =
      torn-read bytes other rest w s open_end takes fits small short c
        (e ∙ ap (λ q. q.sent ++ rest) turns.2) in
    (
      ap has_written turns.1 ∙ last.0,
      turns.0 ∙ write_frame_open other s1 one.1 one.2 fits,
      read.0,
      read.1,
    )
