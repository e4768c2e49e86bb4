-- ===== src/Client/Messages/Return.antt =====
-- The two words on reconnection, m_shouldReconnect and m_autoReconnect, through the messages of
-- entry/src/main/cpp/protocol/deskflow_client.cpp.
use deskflow_harmonyos.Base.{◌≡◌, ap, ◌∙◌, Bool}
use mathlib.Core.Path.{subst}
use deskflow_harmonyos.Client.{Client}
use deskflow_harmonyos.Client.Input.Channel.{
  On, inject_mouse_move-On, inject_mouse_wheel-On, inject_mouse_button-On, inject_key_event-On,
}
use deskflow_harmonyos.Client.Messages.Stable.{Stable}

abbrev pub ReturnsAs : Bool → Client → Type 0
ReturnsAs b c = c.should_reconnect ≡ b

injected : (b : Bool) (c : Client) (r : Bool × Client) → On c r → ReturnsAs b c → ReturnsAs b r.1
injected b c r o h = ap (λ w. w.2) o.same ∙ h

pub ReturnsAs-Stable : (b : Bool) → Stable (ReturnsAs b)
ReturnsAs-Stable b = record {
  same = λ c c' e h. subst (λ w. w.6 ≡ b) e h;
  no_buttons = λ c h. h;
  writes = λ bytes c h. h;
  move = λ x y c h. injected b c _ (inject_mouse_move-On x y c) h;
  wheel = λ dx dy c h. injected b c _ (inject_mouse_wheel-On dx dy c) h;
  button = λ n down c h. injected b c _ (inject_mouse_button-On n down c) h;
  key = λ k down c h. injected b c _ (inject_key_event-On k down c) h;
}

abbrev pub AutoAs : Bool → Client → Type 0
AutoAs b c = c.auto_reconnect ≡ b

auto_injected : (b : Bool) (c : Client) (r : Bool × Client) → On c r → AutoAs b c → AutoAs b r.1
auto_injected b c r o h = ap (λ w. w.3) o.same ∙ h

pub AutoAs-Stable : (b : Bool) → Stable (AutoAs b)
AutoAs-Stable b = record {
  same = λ c c' e h. subst (λ w. w.7 ≡ b) e h;
  no_buttons = λ c h. h;
  writes = λ bytes c h. h;
  move = λ x y c h. auto_injected b c _ (inject_mouse_move-On x y c) h;
  wheel = λ dx dy c h. auto_injected b c _ (inject_mouse_wheel-On dx dy c) h;
  button = λ n down c h. auto_injected b c _ (inject_mouse_button-On n down c) h;
  key = λ k down c h. auto_injected b c _ (inject_key_event-On k down c) h;
}
