-- ===== src/Client/Messages/Reserve.antt =====
-- No message adds to what its connection can still give: handleMessage only reads and writes.
use deskflow_harmonyos.Base.{ℕ, ◌≤◌, sym, Bool, List, arith}
use mathlib.Core.Path.{subst}
use deskflow_harmonyos.Stream.Supply.{reserve_of, write_frame-reserve_of}
use deskflow_harmonyos.Proto.Supply.{readf-reserve_of}
use deskflow_harmonyos.Client.{Client}
use deskflow_harmonyos.Client.Input.Channel.{
  On, inject_mouse_move-On, inject_mouse_wheel-On, inject_mouse_button-On, inject_key_event-On,
}
use deskflow_harmonyos.Client.Messages.{handle_message}
use deskflow_harmonyos.Client.Messages.Stable.{Stable}
use deskflow_harmonyos.Client.Messages.Stable.Act.{handle_message-Stable}

abbrev pub ReserveAtMost : ℕ → Client → Type 0
ReserveAtMost n c = reserve_of c.stream ≤ n

injected :
    (n : ℕ) (c : Client) (r : Bool × Client) → On c r → ReserveAtMost n c → ReserveAtMost n r.1
injected n c r o h = subst (λ w. reserve_of w.0 ≤ n) (sym o.same) h

ReserveAtMost-Stable : (n : ℕ) → Stable (ReserveAtMost n)
ReserveAtMost-Stable n = record {
  same = λ c c' e h. subst (λ w. reserve_of w.0 ≤ n) e h;
  no_buttons = λ c h. h;
  writes = λ bytes c h. omega (arith, write_frame-reserve_of bytes c.stream);
  move = λ x y c h. injected n c _ (inject_mouse_move-On x y c) h;
  wheel = λ dx dy c h. injected n c _ (inject_mouse_wheel-On dx dy c) h;
  button = λ b down c h. injected n c _ (inject_mouse_button-On b down c) h;
  key = λ k down c h. injected n c _ (inject_key_event-On k down c) h;
}

-- Whatever message is handled, and however it ends, the connection can give no more bytes than before.
pub handle_message-ReserveAtMost :
    (key : List ℕ) (c : Client) → reserve_of (handle_message key c).1.stream ≤ reserve_of c.stream
handle_message-ReserveAtMost key c =
    handle_message-Stable (ReserveAtMost (reserve_of c.stream))
      (ReserveAtMost-Stable (reserve_of c.stream))
      (λ fmt c h. omega (arith, readf-reserve_of fmt c.stream)) key c (λ _ c h. h) (omega arith)
