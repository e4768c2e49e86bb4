-- ===== src/Client/Input.antt =====
-- The injection helpers of entry/src/main/cpp/protocol/deskflow_client.cpp: pointer moves, mouse
-- buttons, wheel and keys, with the map of pressed buttons.
pub mod Bounds
pub mod Channel
use deskflow_harmonyos.Base.{
  ℕ, Bool, true, false, ◌&&◌, not, Option, none, some, List, [], ◌∷◌, ltb, ◌==◌, if◌then◌else◌, ℤ,
  pos, negsuc, ◌-ℤ◌, ltb_ℤ,
}
use deskflow_harmonyos.Keys.{KeyCode, keysym_to_keycode}
use deskflow_harmonyos.Client.{
  MouseButton, left, middle, right, MouseAction, move, button_down, button_up, axis_begin,
  axis_update, axis_end, Axis, vertical, horizontal, MouseEvent, mouse, key, Client, is_zero,
  inject,
}

-- kButtonLeft, kButtonMiddle, kButtonRight, kButtonWheelUp, kButtonWheelDown
abbrev pub button_left : ℕ
button_left = 1

abbrev pub button_middle : ℕ
button_middle = 2

abbrev pub button_right : ℕ
button_right = 3

abbrev pub button_wheel_up : ℕ
button_wheel_up = 4

abbrev pub button_wheel_down : ℕ
button_wheel_down = 5

-- buttonToHarmony; `none` is its -1.
abbrev pub button_to_harmony : ℕ → Option MouseButton
button_to_harmony b =
    if b == button_left
    then some left
    else (if b == button_middle
        then some middle
        else (if b == button_right then some right else none))

-- An entry of an ordered map, in the map's order of keys.
unfoldable pub set_button : ℕ → Bool → List (ℕ × Bool) → List (ℕ × Bool)
set_button b down [] = (b, down) ∷ []
set_button b down ((b', down') ∷ m) =
    if b == b'
    then (b, down) ∷ m
    else (if ltb b b' then (b, down) ∷ (b', down') ∷ m else (b', down') ∷ set_button b down m)

-- The clamp into [1, extent - 1] in front of an injection.
abbrev pub clamp_inside : ℤ → ℤ → ℤ
clamp_inside extent x =
    if ltb_ℤ x (pos 1) then pos 1 else (if ltb_ℤ (extent -ℤ pos 1) x then extent -ℤ pos 1 else x)

-- The first pressed button of the map that the platform knows.
unfoldable pub dragging : List (ℕ × Bool) → Option MouseButton
dragging [] = none
dragging ((b, down) ∷ m) =
    let here = button_to_harmony b in
    let later = dragging m in
    if down then (elim here [ none ↦ later | some button ↦ some button ]) else later

-- injectMouseMove
unfoldable pub inject_mouse_move : ℤ → ℤ → Client → Bool × Client
inject_mouse_move x y c =
    inject
      (mouse (record {
        action = move;
        x = clamp_inside c.screen_w x;
        y = clamp_inside c.screen_h y;
        button = dragging c.buttons_down;
        axis = none;
      }))
      c

-- The three events of a wheel step, given up at the first that fails.
unfoldable pub inject_axis : List MouseAction → Axis → ℤ → Client → Bool × Client
inject_axis [] axis value c = (true, c)
inject_axis (a ∷ as') axis value c =
    let event : MouseEvent = record {
      action = a;
      x = c.pointer_x;
      y = c.pointer_y;
      button = none;
      axis = some (axis, value);
    } in
    let (ok, c') = inject (mouse event) c in
    let rest = inject_axis as' axis value c' in if ok then rest else (false, c')

abbrev pub axis_actions : List MouseAction
axis_actions = axis_begin ∷ axis_update ∷ axis_end ∷ []

-- injectMouseWheel. The values lie in the range of int16_t, so the float is exact.
unfoldable pub inject_mouse_wheel : ℤ → ℤ → Client → Bool × Client
inject_mouse_wheel dx dy c =
    let dy' = if c.invert_scroll && not (is_zero dy) then pos 0 -ℤ dy else dy in
    if is_zero dy && is_zero dx
    then (true, c)
    else (if is_zero dy'
        then inject_axis axis_actions horizontal dx c
        else inject_axis axis_actions vertical dy' c)

-- injectMouseButton, by what buttonToHarmony answers.
unfoldable pub press_button : Option MouseButton → ℕ → Bool → Client → Bool × Client
press_button none b down c =
    if b == button_wheel_up
    then inject_mouse_wheel (pos 0) (pos 1) c
    else (if b == button_wheel_down then inject_mouse_wheel (pos 0) (negsuc 0) c else (false, c))
press_button (some button) b down c =
    inject
      (mouse (record {
        action = if down then button_down else button_up;
        x = clamp_inside c.screen_w c.pointer_x;
        y = clamp_inside c.screen_h c.pointer_y;
        button = some button;
        axis = none;
      }))
      (record c { buttons_down = set_button b down c.buttons_down })

unfoldable pub inject_mouse_button : ℕ → Bool → Client → Bool × Client
unfolding press_button
inject_mouse_button b down c = press_button (button_to_harmony b) b down c

-- injectKeyEvent, by what keysymToKeycode answers.
unfoldable pub inject_code : Option KeyCode → Bool → Client → Bool × Client
inject_code none down c = (false, c)
inject_code (some code) down c = inject (key down code) c

unfoldable pub inject_key_event : ℕ → Bool → Client → Bool × Client
unfolding inject_code
inject_key_event keysym down c = inject_code (keysym_to_keycode keysym) down c
