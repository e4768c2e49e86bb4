-- ===== src/Client/Messages/Leave.antt =====
-- COUT: the pointer leaves this screen (the "COUT" branch of handleMessage).
use mathlib.Core.Path.{subst}
use deskflow_harmonyos.Base.{
  ℕ, ◌≡◌, ◌≢◌, inl, inr, Option-cases, refl, sym, ap, ◌∙◌, Bool, true, false, Option, none, some,
  List, [], ◌∷◌, ◌++◌, append_assoc, append-nil, All, arith, if◌then◌else◌,
}
use deskflow_harmonyos.Client.{
  MouseButton, button_up, InputEvent, mouse, Reply, Client, inject, inject_with, set_status,
  control_left,
}
use deskflow_harmonyos.Client.Input.{
  button_to_harmony, clamp_inside, set_button, inject_mouse_button, press_button,
}
use deskflow_harmonyos.Client.Input.Bounds.{IsKnown}
use deskflow_harmonyos.Client.Messages.{release_all, on_leave}

-- The button's release at the pointer.
abbrev pub up_event : MouseButton → Client → InputEvent
up_event button c = mouse (record {
  action = button_up;
  x = clamp_inside c.screen_w c.pointer_x;
  y = clamp_inside c.screen_h c.pointer_y;
  button = some button;
  axis = none;
})

abbrev pub up_of : Option MouseButton → Client → List InputEvent
up_of none c = []
up_of (some button) c = up_event button c ∷ []

-- One release for each pressed button of the map, in the map's order.
unfoldable pub ups : List (ℕ × Bool) → Client → List InputEvent
ups [] c = []
ups ((b, down) ∷ m) c = (if down then up_of (button_to_harmony b) c else []) ++ ups m c

-- What a loop that releases buttons leaves of the client.
record Released (c c' : Client) (events : List InputEvent) : Type 0 where
  injected : c'.injected ≡ c.injected ++ events
  replies : c'.replies ≡ []
  screen : (c'.screen_w ≡ c.screen_w) × (c'.screen_h ≡ c.screen_h)
  pointer : (c'.pointer_x ≡ c.pointer_x) × (c'.pointer_y ≡ c.pointer_y)
  keys : c'.keys_down ≡ c.keys_down
  active : c'.is_active ≡ c.is_active
  statuses : c'.statuses ≡ c.statuses

inject_with-Released :
    (rs : List Reply) (ev : InputEvent) (c : Client)
    → rs ≡ []
    → c.replies ≡ []
    → Released c (inject_with rs ev c).1 (ev ∷ [])
unfolding inject
inject_with-Released [] ev c h k = record {
  injected = refl;
  replies = k;
  screen = (refl, refl);
  pointer = (refl, refl);
  keys = refl;
  active = refl;
  statuses = refl;
}
inject_with-Released (r ∷ rs) ev c h k = cc

press_button-Released :
    (button : MouseButton) (b : ℕ) (c : Client)
    → c.replies ≡ []
    → Released c (press_button (some button) b false c).1 (up_event button c ∷ [])
unfolding press_button inject
press_button-Released button b c h =
    let c' = record c { buttons_down = set_button b false c.buttons_down } in
    let r = inject_with-Released c.replies (up_event button c) c' h h in
    record {
      injected = r.injected;
      replies = r.replies;
      screen = r.screen;
      pointer = r.pointer;
      keys = r.keys;
      active = r.active;
      statuses = r.statuses;
    }

IsKnown-mapped : (b : ℕ) (down : Bool) → IsKnown (b, down) → button_to_harmony b ≢ none
IsKnown-mapped b down h e = ground arith

inject_mouse_button-Released :
    (b : ℕ) (c : Client)
    → IsKnown (b, true)
    → c.replies ≡ []
    → Released c (inject_mouse_button b false c).1 (up_of (button_to_harmony b) c)
unfolding inject_mouse_button
inject_mouse_button-Released b c k h = elim (Option-cases (button_to_harmony b)) [
  | inl e ↦ absurd (IsKnown-mapped b true k e)
  | inr (button, e) ↦
      subst (λ o. Released c (press_button o b false c).1 (up_of o c)) (sym e)
        (press_button-Released button b c h)
]

up_of-cong :
    (o : Option MouseButton) (c c' : Client)
    → (c'.screen_w ≡ c.screen_w) × (c'.screen_h ≡ c.screen_h)
    → (c'.pointer_x ≡ c.pointer_x) × (c'.pointer_y ≡ c.pointer_y)
    → up_of o c' ≡ up_of o c
up_of-cong none c c' s p = refl
up_of-cong (some button) c c' (sw, sh) (px, py) = simp (sw, sh, px, py) refl

ups-cong :
    (m : List (ℕ × Bool)) (c c' : Client)
    → (c'.screen_w ≡ c.screen_w) × (c'.screen_h ≡ c.screen_h)
    → (c'.pointer_x ≡ c.pointer_x) × (c'.pointer_y ≡ c.pointer_y)
    → ups m c' ≡ ups m c
unfolding ups
ups-cong [] c c' s p = refl
ups-cong ((b, false) ∷ m) c c' s p = ups-cong m c c' s p
ups-cong ((b, true) ∷ m) c c' s p =
    (λ i. up_of-cong (button_to_harmony b) c c' s p i ++ ups-cong m c c' s p i)

release_all-Released :
    (m : List (ℕ × Bool)) (c : Client)
    → All IsKnown m
    → c.replies ≡ []
    → Released c (release_all m c) (ups m c)
unfolding release_all ups
release_all-Released [] c k h = record {
  injected = sym (append-nil c.injected);
  replies = h;
  screen = (refl, refl);
  pointer = (refl, refl);
  keys = refl;
  active = refl;
  statuses = refl;
}
release_all-Released ((b, false) ∷ m) c (k, ks) h = release_all-Released m c ks h
release_all-Released ((b, true) ∷ m) c (k, ks) h =
    let r = inject_mouse_button-Released b c k h in
    let rest = release_all-Released m (inject_mouse_button b false c).1 ks r.replies in
    record {
      injected =
          rest.injected
          ∙ (ap (λ xs. (inject_mouse_button b false c).1.injected ++ xs)
                (ups-cong m c _ r.screen r.pointer)
              ∙ (ap (λ xs. xs ++ ups m c) r.injected ∙ append_assoc c.injected _ (ups m c)));
      replies = rest.replies;
      screen = (rest.screen.0 ∙ r.screen.0, rest.screen.1 ∙ r.screen.1);
      pointer = (rest.pointer.0 ∙ r.pointer.0, rest.pointer.1 ∙ r.pointer.1);
      keys = rest.keys ∙ r.keys;
      active = rest.active ∙ r.active;
      statuses = rest.statuses ∙ r.statuses;
    }

pub record Left (c c' : Client) : Type 0 where
  pub released : c'.injected ≡ c.injected ++ ups c.buttons_down c
  pub no_buttons : c'.buttons_down ≡ []
  pub inactive : c'.is_active ≡ false
  pub keys : c'.keys_down ≡ c.keys_down
  pub status : c'.statuses ≡ c.statuses ++ (control_left ∷ [])

-- Where the map of pressed buttons holds left, middle and right only and the platform accepts every
-- injection, COUT injects one release at the pointer for each button that the map marks as pressed,
-- in the map's order, and nothing else; it empties the map, marks the screen as left, reports
-- control_left, and leaves the key states as they are.
pub on_leave-Left : (c : Client) → All IsKnown c.buttons_down → c.replies ≡ [] → Left c (on_leave c)
unfolding on_leave set_status
on_leave-Left c k h =
    let inactive = record c { is_active = false } in
    let r = release_all-Released c.buttons_down inactive k h in
    record {
      released =
          r.injected
          ∙ ap (λ xs. c.injected ++ xs)
              (ups-cong c.buttons_down c inactive (refl, refl) (refl, refl));
      no_buttons = refl;
      inactive = r.active;
      keys = r.keys;
      status = ap (λ xs. xs ++ (control_left ∷ [])) r.statuses;
    }
