-- ===== src/Client/Messages/Channel.antt =====
-- What a message does leaves the reading side of its connection as it is: reading its frame and its
-- payload is all that moves on there.
use deskflow_harmonyos.Base.{ℕ, ◌≡◌, refl, ap, ◌∙◌, Bool, List}
use mathlib.Core.Path.{subst}
use deskflow_harmonyos.Stream.{RecvEvent}
use deskflow_harmonyos.Stream.Sides.{reading_side, write_frame-reading_side}
use deskflow_harmonyos.Proto.{Value}
use deskflow_harmonyos.Client.{Client}
use deskflow_harmonyos.Client.Input.Channel.{
  On, inject_mouse_move-On, inject_mouse_wheel-On, inject_mouse_button-On, inject_key_event-On,
}
use deskflow_harmonyos.Client.Messages.{Message, act}
use deskflow_harmonyos.Client.Messages.Stable.{Stable}
use deskflow_harmonyos.Client.Messages.Stable.Act.{act-Stable}

abbrev Side : Type 0
Side = Bool × List ℕ × ℕ × List RecvEvent × Bool

abbrev ReadsAs : Side → Client → Type 0
ReadsAs side c = reading_side c.stream ≡ side

injected :
    (side : Side) (c : Client) (r : Bool × Client) → On c r → ReadsAs side c → ReadsAs side r.1
injected side c r o h = ap (λ w. reading_side w.0) o.same ∙ h

ReadsAs-Stable : (side : Side) → Stable (ReadsAs side)
ReadsAs-Stable side = record {
  same = λ c c' e h. subst (λ w. reading_side w.0 ≡ side) e h;
  no_buttons = λ c h. h;
  writes = λ bytes c h. write_frame-reading_side bytes c.stream ∙ h;
  move = λ x y c h. injected side c _ (inject_mouse_move-On x y c) h;
  wheel = λ dx dy c h. injected side c _ (inject_mouse_wheel-On dx dy c) h;
  button = λ b down c h. injected side c _ (inject_mouse_button-On b down c) h;
  key = λ k down c h. injected side c _ (inject_key_event-On k down c) h;
}

pub act-reading_side :
    (m : Message) (vs : List Value) (c : Client)
    → reading_side (act m vs c).1.stream ≡ reading_side c.stream
act-reading_side m vs c =
    act-Stable (ReadsAs (reading_side c.stream)) (ReadsAs-Stable (reading_side c.stream)) m vs c
      (λ _ c h. h) refl
