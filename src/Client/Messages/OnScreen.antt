-- ===== src/Client/Messages/OnScreen.antt =====
-- handleMessage of entry/src/main/cpp/protocol/deskflow_client.cpp keeps what Client.Input.Bounds
-- says of the injected events and of the pressed buttons.
use deskflow_harmonyos.Base.{ℕ, ◌≡◌, List}
use mathlib.Core.Path.{subst}
use deskflow_harmonyos.Client.{Client}
use deskflow_harmonyos.Client.Input.Bounds.{
  Inv, Drawn, inject_mouse_move-Inv, inject_mouse_wheel-Inv, inject_mouse_button-Inv,
  inject_key_event-Inv,
}
use deskflow_harmonyos.Client.Messages.{handle_message}
use deskflow_harmonyos.Client.Messages.Stable.{Stable, view}
use deskflow_harmonyos.Client.Messages.Stable.Act.{handle_message-Stable}

Inv-same : (c c' : Client) → view c ≡ view c' → Inv c → Inv c'
Inv-same c c' e v = subst (λ w. Drawn w.1 w.2 w.3 w.4) e v

Inv-Stable : Stable Inv
Inv-Stable = record {
  same = Inv-same;
  no_buttons = λ c v. record { wide = v.wide; high = v.high; known = tt; on_screen = v.on_screen };
  writes = λ bytes c v. v;
  move = λ x y c v. inject_mouse_move-Inv x y c v;
  wheel = λ dx dy c v. (inject_mouse_wheel-Inv dx dy c v).inv;
  button = λ b down c v. (inject_mouse_button-Inv b down c v).inv;
  key = λ k down c v. (inject_key_event-Inv k down c v).inv;
}

-- Every message, however it ends, keeps the invariant: on a screen of at least 2 x 2 pixels, each
-- move and button event ever injected lies in [1, width - 1] x [1, height - 1], and the map of
-- pressed buttons holds left, middle and right only.
pub handle_message-Inv : (key : List ℕ) (c : Client) → Inv c → Inv (handle_message key c).1
handle_message-Inv key c v =
    handle_message-Stable Inv Inv-Stable (λ fmt c v. v) key c
      (λ _ c v. record { wide = v.wide; high = v.high; known = v.known; on_screen = v.on_screen }) v
