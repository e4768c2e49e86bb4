-- ===== src/Client/Input/Bounds.antt =====
-- Where the injected pointer events lie, and which buttons the map of pressed buttons holds.
use deskflow_harmonyos.Base.{
  ℕ, ◌≤◌, ◌≡◌, Bool, true, false, ◌&&◌, not, ◌==◌, Option, none, some, List, [], ◌∷◌, arith, All,
  if_both, All-append, if◌then◌else◌, ℤ, pos, negsuc, ◌-ℤ◌, ◌≤ℤ◌, -ℤ_parts, ◌⊎◌, inl, inr,
}
use deskflow_harmonyos.Keys.{KeyCode, keysym_to_keycode}
use deskflow_harmonyos.Client.{
  MouseButton, MouseAction, Axis, vertical, horizontal, InputEvent, MouseEvent, mouse, key, Reply,
  no_event, returned, Client, is_zero, inject, inject_with,
}
use deskflow_harmonyos.Client.Input.{
  button_wheel_up, button_wheel_down, button_to_harmony, set_button, clamp_inside,
  inject_mouse_move, inject_axis, axis_actions, inject_mouse_wheel, press_button,
  inject_mouse_button, inject_code, inject_key_event,
}

abbrev pub Within : ℤ → ℤ → Type 0
Within extent x = (pos 1 ≤ℤ x) × (x ≤ℤ extent -ℤ pos 1)

pub clamp_inside-Within : (extent x : ℤ) → pos 2 ≤ℤ extent → Within extent (clamp_inside extent x)
clamp_inside-Within extent x h = ground (arith, -ℤ_parts extent (pos 1))

abbrev pub Placed : Option (Axis × ℤ) → ℤ → ℤ → ℤ → ℤ → Type 0
Placed none w h x y = Within w x × Within h y
Placed (some _) w h x y = Unit

-- A move or a button event lies inside the screen and off its edges. (A wheel event need not.)
abbrev pub OnScreen : ℤ → ℤ → InputEvent → Type 0
OnScreen w h (mouse e) = Placed e.axis w h e.x e.y
OnScreen w h (key down code) = Unit

-- The buttons that buttonToHarmony knows.
abbrev pub IsKnown : ℕ × Bool → Type 0
IsKnown e = (1 ≤ e.0) × (e.0 ≤ 3)

pub record Drawn (w h : ℤ) (buttons : List (ℕ × Bool)) (injected : List InputEvent) : Type 0 where
  pub wide : pos 2 ≤ℤ w
  pub high : pos 2 ≤ℤ h
  pub known : All IsKnown buttons
  pub on_screen : All (OnScreen w h) injected

-- The screen is at least two pixels in both directions, the map of pressed buttons holds known
-- buttons only, and every move and button event so far lies on the screen.
abbrev pub Inv : Client → Type 0
Inv c = Drawn c.screen_w c.screen_h c.buttons_down c.injected

-- Inv of what an operation leaves behind.
pub record InvAfter (r : Bool × Client) : Type 0 where
  pub inv : Inv r.1

pub either-Inv :
    (b : Bool) {x y : Bool × Client} → InvAfter x → InvAfter y → InvAfter (if b then x else y)
either-Inv b h k = if_both InvAfter b h k

inject_with-Inv :
    (rs : List Reply) (ev : InputEvent) (c : Client)
    → OnScreen c.screen_w c.screen_h ev
    → Inv c
    → Inv (inject_with rs ev c).1
unfolding inject
inject_with-Inv [] ev c h v = record {
  wide = v.wide;
  high = v.high;
  known = v.known;
  on_screen = All-append _ c.injected (ev ∷ []) v.on_screen (h, tt);
}
inject_with-Inv (no_event ∷ rs) ev c h v = record {
  wide = v.wide;
  high = v.high;
  known = v.known;
  on_screen = v.on_screen;
}
inject_with-Inv (returned code ∷ rs) ev c h v = record {
  wide = v.wide;
  high = v.high;
  known = v.known;
  on_screen = All-append _ c.injected (ev ∷ []) v.on_screen (h, tt);
}

inject-Inv :
    (ev : InputEvent) (c : Client) → OnScreen c.screen_w c.screen_h ev → Inv c → Inv (inject ev c).1
unfolding inject
inject-Inv ev c h v = inject_with-Inv c.replies ev c h v

pub inject_mouse_move-Inv : (x y : ℤ) (c : Client) → Inv c → Inv (inject_mouse_move x y c).1
unfolding inject_mouse_move
inject_mouse_move-Inv x y c v =
    inject-Inv _ c
      (clamp_inside-Within c.screen_w x v.wide, clamp_inside-Within c.screen_h y v.high) v

inject_axis-Inv :
    (as' : List MouseAction) (axis : Axis) (value : ℤ) (c : Client)
    → Inv c
    → InvAfter (inject_axis as' axis value c)
unfolding inject_axis
inject_axis-Inv [] axis value c v = record { inv = v }
inject_axis-Inv (a ∷ as') axis value c v =
    let event : MouseEvent = record {
      action = a;
      x = c.pointer_x;
      y = c.pointer_y;
      button = none;
      axis = some (axis, value);
    } in
    let injected = inject-Inv (mouse event) c tt v in
    either-Inv (inject (mouse event) c).0 {y = (false, (inject (mouse event) c).1)}
      (inject_axis-Inv as' axis value _ injected) (record { inv = injected })

pub inject_mouse_wheel-Inv :
    (dx dy : ℤ) (c : Client) → Inv c → InvAfter (inject_mouse_wheel dx dy c)
unfolding inject_mouse_wheel
inject_mouse_wheel-Inv dx dy c v =
    let dy' = if c.invert_scroll && not (is_zero dy) then pos 0 -ℤ dy else dy in
    either-Inv (is_zero dy && is_zero dx) {x = (true, c)} (record { inv = v })
      (either-Inv (is_zero dy') (inject_axis-Inv axis_actions horizontal dx c v)
        (inject_axis-Inv axis_actions vertical dy' c v))

set_button-IsKnown :
    (b : ℕ) (down : Bool) (m : List (ℕ × Bool))
    → IsKnown (b, down)
    → All IsKnown m
    → All IsKnown (set_button b down m)
unfolding set_button
set_button-IsKnown b down [] h k = (h, tt)
set_button-IsKnown b down ((b', down') ∷ m) h k = ground (arith, set_button-IsKnown b down m h k.1)

press_button-Inv :
    (o : Option MouseButton) (b : ℕ) (down : Bool) (c : Client)
    → (o ≡ none) ⊎ IsKnown (b, down)
    → Inv c
    → InvAfter (press_button o b down c)
unfolding press_button
press_button-Inv none b down c h v =
    either-Inv (b == button_wheel_up) (inject_mouse_wheel-Inv (pos 0) (pos 1) c v) (
      either-Inv (b == button_wheel_down) {y = (false, c)}
        (inject_mouse_wheel-Inv (pos 0) (negsuc 0) c v) (record { inv = v }))
press_button-Inv (some button) b down c (inl e) v = cc
press_button-Inv (some button) b down c (inr h) v = record {
  inv =
      inject-Inv _ (record c { buttons_down = set_button b down c.buttons_down })
        (
          clamp_inside-Within c.screen_w c.pointer_x v.wide,
          clamp_inside-Within c.screen_h c.pointer_y v.high,
        )
        (record {
          wide = v.wide;
          high = v.high;
          known = set_button-IsKnown b down c.buttons_down h v.known;
          on_screen = v.on_screen;
        });
}

IsKnown-button_to_harmony : (b : ℕ) (down : Bool) → (button_to_harmony b ≡ none) ⊎ IsKnown (b, down)
IsKnown-button_to_harmony b down = ground arith

pub inject_mouse_button-Inv :
    (b : ℕ) (down : Bool) (c : Client) → Inv c → InvAfter (inject_mouse_button b down c)
unfolding inject_mouse_button
inject_mouse_button-Inv b down c v =
    press_button-Inv (button_to_harmony b) b down c (IsKnown-button_to_harmony b down) v

inject_code-Inv :
    (code : Option KeyCode) (down : Bool) (c : Client) → Inv c → InvAfter (inject_code code down c)
unfolding inject_code
inject_code-Inv none down c v = record { inv = v }
inject_code-Inv (some code) down c v = record { inv = inject-Inv (key down code) c tt v }

pub inject_key_event-Inv :
    (k : ℕ) (down : Bool) (c : Client) → Inv c → InvAfter (inject_key_event k down c)
unfolding inject_key_event
inject_key_event-Inv k down c v = inject_code-Inv (keysym_to_keycode k) down c v
