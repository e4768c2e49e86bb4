-- ===== src/Client/Session/Progress.antt =====
-- The message loop of runOnce (entry/src/main/cpp/protocol/deskflow_client.cpp) comes to an end.
use deskflow_harmonyos.Base.{
  ℕ, zero, suc, ◌<◌, ◌≡◌, ◌∙◌, Bool, true, Option, none, some, List, arith, codes, Bool-cases, inl,
  inr, if_true, if_false,
}
use deskflow_harmonyos.Stream.{read_exact, push_to_buffer, read_frame}
use deskflow_harmonyos.Stream.Supply.{
  reserve_of, write_frame-reserve_of, read_exact-Used, read_frame-FrameUsed, FrameUsed,
}
use deskflow_harmonyos.Client.{Client}
use deskflow_harmonyos.Client.Messages.{send_key, handle_message}
use deskflow_harmonyos.Client.Messages.Reserve.{handle_message-ReserveAtMost}
use deskflow_harmonyos.Client.Session.{
  with_stream, acknowledge, on_head, on_frame, message_round, message_loop,
}

acknowledge-reserve_of :
    (keep_going : Bool) (c : Client)
    → reserve_of (acknowledge keep_going c).1.stream ≡ reserve_of c.stream
unfolding acknowledge send_key
acknowledge-reserve_of keep_going c = ground (arith, write_frame-reserve_of (codes "CNOP") c.stream)

-- A round that goes on has used up some of the reserve.
record Shorter (before : ℕ) (r : Bool × Client) : Type 0 where
  shorter : r.0 ≡ true → reserve_of r.1.stream < before

on_head-Shorter :
    (before : ℕ) (head : Option (List ℕ)) (c : Client)
    → reserve_of c.stream < before
    → Shorter before (on_head head c)
unfolding on_head
on_head-Shorter before none c h = record { shorter = λ e. cc }
on_head-Shorter before (some key) c h = record {
  shorter = λ e. omega (
    arith,
    handle_message-ReserveAtMost key c,
    acknowledge-reserve_of (handle_message key c).0 (handle_message key c).1,
  );
}

on_frame-Shorter :
    (before : ℕ) (frame : Option (List ℕ)) (c : Client)
    → FrameUsed before frame c.stream
    → Shorter before (on_frame frame c)
unfolding on_frame
on_frame-Shorter before none c h = record { shorter = λ e. cc }
on_frame-Shorter before (some bytes) c h =
    let s = push_to_buffer bytes c.stream in
    on_head-Shorter before (read_exact 4 s).0 (with_stream (read_exact 4 s).1 c)
      (omega (arith, (read_exact-Used 4 s).used))

message_round-Shorter : (c : Client) → Shorter (reserve_of c.stream) (message_round c)
unfolding message_round
message_round-Shorter c =
    on_frame-Shorter (reserve_of c.stream) (read_frame c.stream).0
      (with_stream (read_frame c.stream).1 c) (read_frame-FrameUsed c.stream)

-- One round more than there are bytes in reserve is enough for the message loop to end.
pub message_loop_total :
    (fuel : ℕ) (c : Client)
    → reserve_of c.stream < fuel
    → (c' : Client) × (message_loop fuel c ≡ some c')
unfolding message_loop
message_loop_total zero c h = absurd (omega arith)
message_loop_total (suc fuel) c h = elim (Bool-cases c.stream.stop_requested) [
  | inl e ↦ (c, if_true _ _ _ e)
  | inr e ↦ (elim (Bool-cases (message_round c).0) [
    | inl go ↦
        (let (c', r) =
            (message_loop_total fuel (message_round c).1
              (omega (arith, (message_round-Shorter c).shorter go))) in
          (c', if_false _ _ _ e ∙ (if_true _ _ _ go ∙ r)))
    | inr stay ↦ ((message_round c).1, if_false _ _ _ e ∙ if_false _ _ _ stay)
  ])
]
