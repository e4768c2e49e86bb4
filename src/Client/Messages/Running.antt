-- ===== src/Client/Messages/Running.antt =====
-- m_running through the messages of entry/src/main/cpp/protocol/deskflow_client.cpp.
use deskflow_harmonyos.Base.{◌≡◌, ap, ◌∙◌, Bool}
use mathlib.Core.Path.{subst}
use deskflow_harmonyos.Client.{Client}
use deskflow_harmonyos.Client.Input.Channel.{
  On, inject_mouse_move-On, inject_mouse_wheel-On, inject_mouse_button-On, inject_key_event-On,
}
use deskflow_harmonyos.Client.Messages.Stable.{Stable}

abbrev pub RunsAs : Bool → Client → Type 0
RunsAs b c = c.running ≡ b

injected : (b : Bool) (c : Client) (r : Bool × Client) → On c r → RunsAs b c → RunsAs b r.1
injected b c r o h = ap (λ w. w.1) o.same ∙ h

pub RunsAs-Stable : (b : Bool) → Stable (RunsAs b)
RunsAs-Stable b = record {
  same = λ c c' e h. subst (λ w. w.5 ≡ b) e h;
  no_buttons = λ c h. h;
  writes = λ bytes c h. h;
  move = λ x y c h. injected b c _ (inject_mouse_move-On x y c) h;
  wheel = λ dx dy c h. injected b c _ (inject_mouse_wheel-On dx dy c) h;
  button = λ n down c h. injected b c _ (inject_mouse_button-On n down c) h;
  key = λ k down c h. injected b c _ (inject_key_event-On k down c) h;
}
