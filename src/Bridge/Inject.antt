-- ===== src/Bridge/Inject.antt =====
-- The injections that the scripting side asks for directly (entry/src/main/cpp/napi_init.cpp): a
-- click, a smooth movement of the pointer, a key. What the platform answers is an argument.
pub mod Trail
pub mod Click
mod Tests
use deskflow_harmonyos.Base.{
  ℕ, zero, suc, ◌/◌, Bool, true, false, Option, none, some, List, [], ◌∷◌, ◌++◌, if◌then◌else◌,
  codes, ℤ, pos, negsuc, ◌+ℤ◌, ◌-ℤ◌, pos_part,
}
use deskflow_harmonyos.Client.{
  MouseEvent, MouseAction, move, button_down, button_up, MouseButton, left, is_zero,
}
use deskflow_harmonyos.Client.Clipboard.Size.{to_string}
use deskflow_harmonyos.Bridge.{Bridge, Answer, whole, show_int, publish_value}

abbrev pub pointer_event : MouseAction → Option MouseButton → ℤ → ℤ → MouseEvent
pointer_event action button x y = record {
  action = action;
  x = x;
  y = y;
  button = button;
  axis = none;
}

-- "(x,y)"
abbrev pub show_point : ℤ → ℤ → List ℕ
show_point x y = b'(' ∷ (show_int x ++ (b',' ∷ (show_int y ++ codes ")")))

-- InjectMouseClickGlobal, from what the three injections return, or `none` where no event can be
-- made: the answer, and the events injected.
unfoldable pub inject_mouse_click_global : Option (ℤ × ℤ × ℤ) → ℤ → ℤ → Answer × List MouseEvent
inject_mouse_click_global none x y = (whole (codes "CreateMouseEvent failed"), [])
inject_mouse_click_global (some (moved, pressed, lifted)) x y = (
  whole (
      codes "move"
      ++ (show_point x y
          ++ (codes " ret: "
              ++ (show_int moved
                  ++ (codes ", down ret: "
                      ++ (show_int pressed ++ (codes ", up ret: " ++ show_int lifted))))))),
  pointer_event move none x y
      ∷ pointer_event button_down (some left) x y
      ∷ pointer_event button_up (some left) x y
      ∷ [],
)

-- InjectMouseMoveTo
unfoldable pub inject_mouse_move_to : Option ℤ → ℤ → ℤ → ℤ × List MouseEvent
inject_mouse_move_to none x y = (negsuc 0, [])
inject_mouse_move_to (some ret) x y = (ret, pointer_event move none x y ∷ [])

-- The arguments of injectMouseTrail.
pub record Route : Type 0 where
  pub x0 : ℤ
  pub y0 : ℤ
  pub x1 : ℤ
  pub y1 : ℤ
  pub steps : ℤ
  pub interval_ms : ℤ

-- What MouseTrailThread uses of double: static_cast from int32_t and to it, and the arithmetic.
pub record Doubles (N : Type 0) : Type 0 where
  pub of_int : ℤ → N
  pub div : N → N → N
  pub sub : N → N → N
  pub mul : N → N → N
  pub truncated : N → ℤ

-- `eased` at step `i`: 1 - (1 - t) * (1 - t) for t = i / steps.
unfoldable pub eased : {N : Type 0} → Doubles N → ℤ → ℕ → N
eased d steps i =
    let t = d.div (d.of_int (pos i)) (d.of_int steps) in
    let one = d.of_int (pos 1) in
    let left_over = d.sub one t in d.sub one (d.mul left_over left_over)

-- The coordinate at step `i` on the way from `from` to `to`. The int32_t sum lies between the two and
-- does not wrap where the way itself is an int32_t.
unfoldable pub eased_between : {N : Type 0} → Doubles N → ℤ → ℕ → ℤ → ℤ → ℤ
eased_between d steps i from to =
    from +ℤ d.truncated (d.mul (d.of_int (to -ℤ from)) (eased d steps i))

-- What a trail leaves: the steps that failed, and the events injected.
pub record Movement : Type 0 where
  pub fails : ℕ
  pub events : List MouseEvent

-- The loop of MouseTrailThread from step `i` on, with so many steps left.
unfoldable pub trail_from : {N : Type 0} → Doubles N → (ℕ → Option ℤ) → Route → ℕ → ℕ → Movement
unfolding inject_mouse_move_to
trail_from d answers r zero i = record { fails = 0; events = [] }
trail_from d answers r (suc n) i =
    let x = eased_between d r.steps i r.x0 r.x1 in
    let y = eased_between d r.steps i r.y0 r.y1 in
    let (ret, events) = inject_mouse_move_to (answers i) x y in
    let rest = trail_from d answers r n (suc i) in
    record {
      fails = if is_zero ret then rest.fails else suc rest.fails;
      events = events ++ rest.events;
    }

-- The movement of MouseTrailThread, with the platform's answer to each step.
unfoldable pub mouse_trail : {N : Type 0} → Doubles N → (ℕ → Option ℤ) → Route → Movement
unfolding trail_from
mouse_trail d answers r = trail_from d answers r (pos_part r.steps) 1

-- The report at the end of MouseTrailThread; the times it measured are arguments.
unfoldable pub trail_report : ℕ → ℕ → ℕ → Movement → Route → List ℕ
trail_report elapsed total max_step t r =
    codes "Trail done: "
    ++ (to_string elapsed
        ++ (codes "ms total, "
            ++ (show_int r.steps
                ++ (codes " steps @ "
                    ++ (show_int r.interval_ms
                        ++ (codes "ms interval, inject avg "
                            ++ (to_string (average (pos_part r.steps))
                                ++ (codes "ms, max "
                                    ++ (to_string max_step
                                        ++ (codes "ms, fails "
                                            ++ (to_string t.fails
                                                ++ (codes ", end "
                                                    ++ show_point r.x1 r.y1))))))))))))
  where
    average : ℕ → ℕ
    average zero = 0
    average (suc n) = total / suc n

-- The last act of MouseTrailThread.
unfoldable pub end_trail : ℕ → ℕ → ℕ → Movement → Route → Bridge → Bridge
end_trail elapsed total max_step t r b = publish_value (trail_report elapsed total max_step t r) b

-- InjectMouseTrail, besides the thread that it starts.
unfoldable pub inject_mouse_trail : Route → Answer
inject_mouse_trail r = whole (
    codes "Smooth trail started: "
    ++ (show_point r.x0 r.y0
        ++ (codes " -> "
            ++ (show_point r.x1 r.y1
                ++ (codes ", "
                    ++ (show_int r.steps
                        ++ (codes " steps @ " ++ (show_int r.interval_ms ++ codes "ms"))))))))

-- InjectKey, from what the two injections return: the answer, and the events, down or up.
unfoldable pub inject_key : Option (ℤ × ℤ) → ℤ → Answer × List (Bool × ℤ)
inject_key none code = (whole (codes "CreateKeyEvent failed"), [])
inject_key (some (pressed, lifted)) code = (
  whole (
      codes "key("
      ++ (show_int code
          ++ (codes ") down ret: "
              ++ (show_int pressed ++ (codes ", up ret: " ++ show_int lifted))))),
  (true, code) ∷ (false, code) ∷ [],
)
