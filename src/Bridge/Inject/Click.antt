-- ===== src/Bridge/Inject/Click.antt =====
-- The click of entry/src/main/cpp/napi_init.cpp against the injections of the protocol client.
use deskflow_harmonyos.Base.{
  ◌≡◌, refl, ap, ◌∙◌, Bool, true, false, none, some, List, [], ◌∷◌, ◌++◌, append_assoc, arith, ℤ,
  pos, ◌-ℤ◌, ◌≤ℤ◌, if◌then◌else◌,
}
use deskflow_harmonyos.Client.{
  Client, InputEvent, mouse, MouseEvent, move, button_down, button_up, left, inject, inject_with,
}
use deskflow_harmonyos.Client.Input.{
  clamp_inside, dragging, button_left, inject_mouse_move, inject_mouse_button, press_button,
  set_button,
}
use deskflow_harmonyos.Client.Messages.{move_pointer}
use deskflow_harmonyos.Bridge.Inject.{pointer_event, inject_mouse_click_global}

-- DMMV to (x, y), then DMDN and DMUP of the left button.
abbrev pub click_by_messages : ℤ → ℤ → Client → Client
click_by_messages x y c =
    let pressed = (inject_mouse_button button_left true (move_pointer x y c)).1 in
    (inject_mouse_button button_left false pressed).1

inject_answered :
    (ev : InputEvent) (c : Client)
    → c.replies ≡ []
    → inject ev c ≡ (true, record c { injected = c.injected ++ (ev ∷ []) })
unfolding inject inject_with
inject_answered ev c h = ap (λ rs. inject_with rs ev c) h

-- One mouse event that the platform takes.
injects :
    (e e' : MouseEvent) (c : Client)
    → c.replies ≡ []
    → e ≡ e'
    → (inject (mouse e) c).1 ≡ record c { injected = c.injected ++ (mouse e' ∷ []) }
injects e e' c h same =
    ap (λ (r : Bool × Client). r.1) (inject_answered (mouse e) c h)
    ∙ ap (λ e. record c { injected = c.injected ++ (mouse e ∷ []) }) same

clamp_inside_inside : (extent x : ℤ) → pos 1 ≤ℤ x → x ≤ℤ extent -ℤ pos 1 → clamp_inside extent x ≡ x
clamp_inside_inside extent x low high = ground (arith)

abbrev pub mice : List MouseEvent → List InputEvent
mice [] = []
mice (e ∷ es) = mouse e ∷ mice es

-- A point inside the screen.
pub record Inside (x y w h : ℤ) : Type 0 where
  pub left_of : pos 1 ≤ℤ x
  pub right_of : x ≤ℤ w -ℤ pos 1
  pub above : pos 1 ≤ℤ y
  pub below : y ≤ℤ h -ℤ pos 1

abbrev moved : ℤ → ℤ → Client → Client
moved x y c = record c {
  pointer_x = x;
  pointer_y = y;
  injected = c.injected ++ (mouse (pointer_event move none x y) ∷ []);
}

move_pointer-moved :
    (x y : ℤ) (c : Client)
    → Inside x y c.screen_w c.screen_h
    → dragging c.buttons_down ≡ none
    → c.replies ≡ []
    → move_pointer x y c ≡ moved x y c
unfolding move_pointer inject_mouse_move
move_pointer-moved x y c i no_drag answered =
    let to_x = clamp_inside_inside c.screen_w x i.left_of i.right_of in
    let to_y = clamp_inside_inside c.screen_h y i.above i.below in
    injects _ _ (record c { pointer_x = x; pointer_y = y }) answered
      (ap (λ b. pointer_event move b (clamp_inside c.screen_w x) (clamp_inside c.screen_h y))
          no_drag
        ∙ (ap (λ x'. pointer_event move none x' (clamp_inside c.screen_h y)) to_x
            ∙ ap (λ y'. pointer_event move none x y') to_y))

abbrev clicked : Bool → ℤ → ℤ → Client → Client
clicked down x y c = record c {
  buttons_down = set_button button_left down c.buttons_down;
  injected =
      c.injected
      ++ (mouse (pointer_event (if down then button_down else button_up) (some left) x y) ∷ []);
}

press_left :
    (down : Bool) (x y : ℤ) (c : Client)
    → Inside x y c.screen_w c.screen_h
    → c.pointer_x ≡ x
    → c.pointer_y ≡ y
    → c.replies ≡ []
    → (inject_mouse_button button_left down c).1 ≡ clicked down x y c
unfolding inject_mouse_button press_button
press_left down x y c i at_x at_y answered =
    let action = if down then button_down else button_up in
    let to_x =
      ap (clamp_inside c.screen_w) at_x ∙ clamp_inside_inside c.screen_w x i.left_of i.right_of in
    let to_y =
      ap (clamp_inside c.screen_h) at_y ∙ clamp_inside_inside c.screen_h y i.above i.below in
    injects _ _ (record c { buttons_down = set_button button_left down c.buttons_down }) answered
      (ap (λ x'. pointer_event action (some left) x' (clamp_inside c.screen_h c.pointer_y)) to_x
        ∙ ap (λ y'. pointer_event action (some left) x y') to_y)

three :
    (l : List InputEvent) (a b d : InputEvent)
    → ((l ++ (a ∷ [])) ++ (b ∷ [])) ++ (d ∷ []) ≡ l ++ (a ∷ b ∷ d ∷ [])
three l a b d = simp append_assoc

-- Inside the screen, with no button pressed and a platform that takes every event, the click of the
-- bridge injects what the client injects for a pointer message to that point and a press and a
-- release of the left button.
pub click_by_messages-injected :
    (x y : ℤ) (c : Client)
    → Inside x y c.screen_w c.screen_h
    → dragging c.buttons_down ≡ none
    → c.replies ≡ []
    → (click_by_messages x y c).injected
      ≡ c.injected ++ mice (inject_mouse_click_global (some (pos 0, pos 0, pos 0)) x y).1
unfolding inject_mouse_click_global
click_by_messages-injected x y c i no_drag answered =
    let c1 = moved x y c in
    let c2 = clicked true x y c1 in
    let press : Client → Client = λ d. (inject_mouse_button button_left true d).1 in
    let lift : Client → Client = λ d. (inject_mouse_button button_left false d).1 in
    ap (λ (d : Client). (lift (press d)).injected) (move_pointer-moved x y c i no_drag answered)
    ∙ (ap (λ (d : Client). (lift d).injected) (press_left true x y c1 i refl refl answered)
        ∙ (ap (λ (d : Client). d.injected) (press_left false x y c2 i refl refl answered)
            ∙ three c.injected _ _ _))
