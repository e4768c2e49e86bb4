-- ===== src/Client/Input/Channel.antt =====
-- No injection of entry/src/main/cpp/protocol/deskflow_client.cpp touches the connection, m_running,
-- m_shouldReconnect or m_autoReconnect.
use deskflow_harmonyos.Base.{
  ℕ, ◌≡◌, refl, ◌∙◌, Bool, true, false, List, [], ◌∷◌, Option, none, some, ℤ, pos, negsuc, ◌-ℤ◌,
  ◌==◌, if◌then◌else◌, if_both, ◌&&◌, not,
}
use deskflow_harmonyos.Keys.{KeyCode, keysym_to_keycode}
use deskflow_harmonyos.Stream.{Stream}
use deskflow_harmonyos.Client.{
  MouseButton, MouseAction, Axis, horizontal, vertical, MouseEvent, mouse, InputEvent, Client,
  Reply, no_event, returned, inject, inject_with, is_zero,
}
use deskflow_harmonyos.Client.Input.{
  button_to_harmony, inject_mouse_move, inject_axis, axis_actions, inject_mouse_wheel, press_button,
  inject_mouse_button, inject_code, inject_key_event, button_wheel_up, button_wheel_down,
}

-- The connection, whether a worker is at it, and the two words on coming back.
abbrev pub channel : Client → Stream × Bool × Bool × Bool
channel c = (c.stream, c.running, c.should_reconnect, c.auto_reconnect)

inject_with-channel :
    (rs : List Reply) (ev : InputEvent) (c : Client) → channel (inject_with rs ev c).1 ≡ channel c
unfolding inject
inject_with-channel [] ev c = refl
inject_with-channel (no_event ∷ rs) ev c = refl
inject_with-channel (returned code ∷ rs) ev c = refl

inject-channel : (ev : InputEvent) (c : Client) → channel (inject ev c).1 ≡ channel c
unfolding inject
inject-channel ev c = inject_with-channel c.replies ev c

-- What an injection leaves behind.
pub record On (c : Client) (r : Bool × Client) : Type 0 where
  pub same : channel r.1 ≡ channel c

either-On :
    {c : Client} (b : Bool) {x y : Bool × Client} → On c x → On c y → On c (if b then x else y)
either-On {c} b h k = if_both (On c) b h k

inject_axis-On :
    (as' : List MouseAction) (axis : Axis) (value : ℤ) (c : Client)
    → On c (inject_axis as' axis value c)
unfolding inject_axis
inject_axis-On [] axis value c = record { same = refl }
inject_axis-On (a ∷ as') axis value c =
    let event : MouseEvent = record {
      action = a;
      x = c.pointer_x;
      y = c.pointer_y;
      button = none;
      axis = some (axis, value);
    } in
    let c' = (inject (mouse event) c).1 in
    let e = inject-channel (mouse event) c in
    either-On (inject (mouse event) c).0 {y = (false, c')}
      (record { same = (inject_axis-On as' axis value c').same ∙ e }) (record { same = e })

pub inject_mouse_wheel-On : (dx dy : ℤ) (c : Client) → On c (inject_mouse_wheel dx dy c)
unfolding inject_mouse_wheel
inject_mouse_wheel-On dx dy c =
    let dy' = if c.invert_scroll && not (is_zero dy) then pos 0 -ℤ dy else dy in
    either-On (is_zero dy && is_zero dx) {x = (true, c)} (record { same = refl })
      (either-On (is_zero dy') (inject_axis-On axis_actions horizontal dx c)
        (inject_axis-On axis_actions vertical dy' c))

press_button-On :
    (o : Option MouseButton) (b : ℕ) (down : Bool) (c : Client) → On c (press_button o b down c)
unfolding press_button
press_button-On none b down c =
    either-On (b == button_wheel_up) (inject_mouse_wheel-On (pos 0) (pos 1) c) (
      either-On (b == button_wheel_down) {y = (false, c)}
        (inject_mouse_wheel-On (pos 0) (negsuc 0) c) (record { same = refl }))
press_button-On (some button) b down c = record { same = inject-channel _ _ }

inject_code-On : (code : Option KeyCode) (down : Bool) (c : Client) → On c (inject_code code down c)
unfolding inject_code
inject_code-On none down c = record { same = refl }
inject_code-On (some code) down c = record { same = inject-channel _ c }

pub inject_mouse_move-On : (x y : ℤ) (c : Client) → On c (inject_mouse_move x y c)
unfolding inject_mouse_move
inject_mouse_move-On x y c = record { same = inject-channel _ c }

pub inject_mouse_button-On :
    (b : ℕ) (down : Bool) (c : Client) → On c (inject_mouse_button b down c)
unfolding inject_mouse_button
inject_mouse_button-On b down c = press_button-On (button_to_harmony b) b down c

pub inject_key_event-On : (k : ℕ) (down : Bool) (c : Client) → On c (inject_key_event k down c)
unfolding inject_key_event
inject_key_event-On k down c = inject_code-On (keysym_to_keycode k) down c
