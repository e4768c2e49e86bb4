-- ===== src/Stream/Write.antt =====
-- SocketStream::writeAll and writeFrame.
use deskflow_harmonyos.Base.{
  ℕ, ◌≤◌, ◌≡◌, refl, sym, ap, ◌∙◌, inl, inr, Bool, true, false, List, [], ◌∷◌, ◌++◌, append_assoc,
  append-nil, arith, ltb, ◌==◌, if◌then◌else◌, if_true, if_false, Bool-cases, length, is_empty,
  take, drop, take-append-drop,
}
use mathlib.Core.Path.{subst}
use deskflow_harmonyos.Base.Word.{put_u32}
use deskflow_harmonyos.Stream.{
  SendEvent, accepts, send_interrupted, send_failed, Stream, Sent, send_loop, write_all, max_frame,
  write_frame, write_step,
}
use deskflow_harmonyos.Stream.Read.{pending}

-- `done` of the bytes went out, behind those taken before, and all of them on success.
abbrev Sends : List ℕ → List ℕ → Sent → Type 0
Sends bytes taken r =
    (done : List ℕ) × (lost : List ℕ) × (bytes ≡ done ++ lost)
    × (r.taken ≡ taken ++ done)
    × (r.complete ≡ true → lost ≡ [])

send_loop-Sends :
    (evs : List SendEvent) (bytes taken : List ℕ) → Sends bytes taken (send_loop evs bytes taken)
unfolding send_loop
send_loop-Sends [] bytes taken = (bytes, [], sym (append-nil bytes), refl, λ _. refl)
send_loop-Sends (e ∷ evs) [] taken = ([], [], refl, sym (append-nil taken), λ _. refl)
send_loop-Sends (accepts k ∷ evs) (b ∷ bs) taken = elim (Bool-cases (k == 0)) [
  | inl none_taken ↦ rw none_taken ([], b ∷ bs, refl, sym (append-nil taken), λ e. cc)
  | inr some_taken ↦
      let (done, lost, splits, grows, all) =
        send_loop-Sends evs (drop k (b ∷ bs)) (taken ++ take k (b ∷ bs)) in
      rw some_taken (
        take k (b ∷ bs) ++ done,
        lost,
        sym (take-append-drop k (b ∷ bs))
            ∙ ap (λ l. take k (b ∷ bs) ++ l) splits
            ∙ sym (append_assoc _ done lost),
        grows ∙ append_assoc taken _ done,
        all,
      )
]
send_loop-Sends (send_interrupted ∷ evs) (b ∷ bs) taken = send_loop-Sends evs (b ∷ bs) taken
send_loop-Sends (send_failed ∷ evs) (b ∷ bs) taken =
    ([], b ∷ bs, refl, sym (append-nil taken), λ e. cc)

-- What writeAll and writeFrame do to the outgoing side.
pub record Writes (bytes : List ℕ) (s : Stream) (r : Bool × Stream) : Type 0 where
  pub done : List ℕ
  pub lost : List ℕ
  pub splits : bytes ≡ done ++ lost
  pub sent_is : r.1.sent ≡ s.sent ++ done
  pub complete : r.0 ≡ true → lost ≡ []
  pub connected_is : r.1.connected ≡ s.connected
  pub pending_is : pending r.1 ≡ pending s
  pub stop_is : r.1.stop_requested ≡ s.stop_requested

nothing_written :
    (bytes : List ℕ) (s : Stream) (ok : Bool) → (ok ≡ true → bytes ≡ []) → Writes bytes s (ok, s)
nothing_written bytes s ok h = record {
  done = [];
  lost = bytes;
  splits = refl;
  sent_is = sym (append-nil s.sent);
  complete = h;
  connected_is = refl;
  pending_is = refl;
  stop_is = refl;
}

-- writeAll puts a prefix of the bytes on the wire, in order, and all of them if it returns true;
-- the reading side is untouched.
pub write_all-Writes : (bytes : List ℕ) (s : Stream) → Writes bytes s (write_all bytes s)
unfolding write_all
write_all-Writes [] s = nothing_written [] s true (λ _. refl)
write_all-Writes (b ∷ bs) s = elim (Bool-cases s.connected) [
  | inl open_socket ↦
      let (done, lost, splits, grows, all) = send_loop-Sends s.outgoing (b ∷ bs) s.sent in
      subst (Writes (b ∷ bs) s) (sym (if_true _ _ _ open_socket)) (record {
        done = done;
        lost = lost;
        splits = splits;
        sent_is = grows;
        complete = all;
        connected_is = refl;
        pending_is = refl;
        stop_is = refl;
      })
  | inr closed ↦
      subst (Writes (b ∷ bs) s) (sym (if_false _ _ _ closed))
        (nothing_written (b ∷ bs) s false (λ e. cc))
]

abbrev pub frame : List ℕ → List ℕ
frame bytes = put_u32 (length bytes) ++ bytes

Writes-failed :
    (first rest : List ℕ) (s : Stream) (r : Bool × Stream)
    → Writes first s r
    → r.0 ≡ false
    → Writes (first ++ rest) s (false, r.1)
Writes-failed first rest s r w e = record {
  done = w.done;
  lost = w.lost ++ rest;
  splits = ap (λ l. l ++ rest) w.splits ∙ append_assoc w.done w.lost rest;
  sent_is = w.sent_is;
  complete = λ e. cc;
  connected_is = w.connected_is;
  pending_is = w.pending_is;
  stop_is = w.stop_is;
}

Writes-then :
    (first rest : List ℕ) (s : Stream) (r q : Bool × Stream)
    → Writes first s r
    → r.0 ≡ true
    → Writes rest r.1 q
    → Writes (first ++ rest) s q
Writes-then first rest s r q w e v = record {
  done = first ++ v.done;
  lost = v.lost;
  splits = ap (λ l. first ++ l) v.splits ∙ sym (append_assoc first v.done v.lost);
  sent_is =
      v.sent_is
      ∙ ap (λ l. l ++ v.done) (w.sent_is ∙ ap (λ l. s.sent ++ l) all)
      ∙ append_assoc s.sent first v.done;
  complete = v.complete;
  connected_is = v.connected_is ∙ w.connected_is;
  pending_is = v.pending_is ∙ w.pending_is;
  stop_is = v.stop_is ∙ w.stop_is;
}
  where
    all : w.done ≡ first
    all = sym (w.splits ∙ ap (λ l. w.done ++ l) (w.complete e) ∙ append-nil w.done)

-- writeFrame as one nest of conditions.
pub write_frame_calls :
    (bytes : List ℕ) (s : Stream)
    → write_frame bytes s ≡ (
        if ltb max_frame (length bytes)
        then (false, s)
        else (if (write_all (put_u32 (length bytes)) s).0
            then (if is_empty bytes
                then (true, (write_all (put_u32 (length bytes)) s).1)
                else write_all bytes (write_all (put_u32 (length bytes)) s).1)
            else (false, (write_all (put_u32 (length bytes)) s).1)))
unfolding write_frame write_step
write_frame_calls bytes s = ground arith

body_written :
    (bytes : List ℕ) (s : Stream)
    → Writes bytes s (if is_empty bytes then (true, s) else write_all bytes s)
body_written [] s = nothing_written [] s true (λ _. refl)
body_written (b ∷ bs) s = write_all-Writes (b ∷ bs) s

-- writeFrame puts a prefix of the length field and the payload on the wire, and both whole if it
-- returns true; the reading side is untouched.
pub write_frame-Writes :
    (bytes : List ℕ) (s : Stream) → Writes (frame bytes) s (write_frame bytes s)
write_frame-Writes bytes s =
    subst (Writes (frame bytes) s) (sym (write_frame_calls bytes s))
      (elim (Bool-cases (ltb max_frame (length bytes))) [
        | inl large ↦ rw large (nothing_written _ s false (λ e. cc))
        | inr fits ↦
            let field = write_all-Writes (put_u32 (length bytes)) s in
            rw fits (elim (Bool-cases (write_all (put_u32 (length bytes)) s).0) [
              | inl more ↦
                  subst (Writes (frame bytes) s) (sym (if_true _ _ _ more))
                    (Writes-then _ bytes s _ _ field more (body_written bytes _))
              | inr broken ↦
                  subst (Writes (frame bytes) s) (sym (if_false _ _ _ broken))
                    (Writes-failed _ bytes s _ field broken)
            ])
      ])

pub write_frame-sent :
    (bytes : List ℕ) (s : Stream)
    → (write_frame bytes s).0 ≡ true
    → (write_frame bytes s).1.sent ≡ s.sent ++ frame bytes
write_frame-sent bytes s e =
    let w = write_frame-Writes bytes s in
    w.sent_is
    ∙ ap (λ l. s.sent ++ l)
        (sym (w.splits ∙ ap (λ l. w.done ++ l) (w.complete e) ∙ append-nil w.done))

pub write_frame-fits :
    (bytes : List ℕ) (s : Stream) → (write_frame bytes s).0 ≡ true → length bytes ≤ max_frame
unfolding write_frame
write_frame-fits bytes s e = ground arith

send_loop_open :
    (evs : List SendEvent) (bytes taken : List ℕ)
    → evs ≡ []
    → ((send_loop evs bytes taken).complete ≡ true) × ((send_loop evs bytes taken).left ≡ [])
unfolding send_loop
send_loop_open [] bytes taken h = (refl, refl)
send_loop_open (e ∷ evs) bytes taken h = cc

pub write_all_open :
    (bytes : List ℕ) (s : Stream)
    → s.connected ≡ true
    → s.outgoing ≡ []
    → ((write_all bytes s).0 ≡ true)
      × ((write_all bytes s).1.connected ≡ true)
      × ((write_all bytes s).1.outgoing ≡ [])
unfolding write_all
write_all_open bytes s c h = ground (arith, send_loop_open s.outgoing bytes s.sent h)

-- On an open connection that takes everything, writeFrame succeeds with every payload within the
-- limit.
pub write_frame_open :
    (bytes : List ℕ) (s : Stream)
    → s.connected ≡ true
    → s.outgoing ≡ []
    → length bytes ≤ max_frame
    → (write_frame bytes s).0 ≡ true
unfolding write_frame
write_frame_open bytes s c h size =
    let field = write_all_open (put_u32 (length bytes)) s c h in
    let body = write_all_open bytes (write_all (put_u32 (length bytes)) s).1 field.1 field.2 in
    ground (arith, field.0, body.0)

-- ... and goes on taking everything.
pub write_frame_stays_open :
    (bytes : List ℕ) (s : Stream)
    → s.connected ≡ true
    → s.outgoing ≡ []
    → (write_frame bytes s).1.outgoing ≡ []
unfolding write_frame
write_frame_stays_open bytes s c h =
    let field = write_all_open (put_u32 (length bytes)) s c h in
    let body = write_all_open bytes (write_all (put_u32 (length bytes)) s).1 field.1 field.2 in
    ground (arith, field.2, body.2)
