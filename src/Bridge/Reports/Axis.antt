-- ===== src/Bridge/Reports/Axis.antt =====
-- OnAxisEventCallback of entry/src/main/cpp/napi_init.cpp. The platform's numbers for the kinds of
-- axis event and the axes are an argument, as are the doubles and the way a stream prints them.
use deskflow_harmonyos.Base.{
  List, [], ◌∷◌, ◌++◌, ℕ, Bool, not, ◌||◌, Option, if◌then◌else◌, codes, ℤ, ltb_ℤ,
}
use deskflow_harmonyos.Bridge.{Bridge, show_int, publish_value}
use deskflow_harmonyos.Bridge.Control.{read_or}
use deskflow_harmonyos.Bridge.Reports.{colon}

-- AXIS_EVENT_TYPE_PINCH and _SCROLL, AXIS_TYPE_PINCH, _ROTATE, _SCROLL_VERTICAL, _SCROLL_HORIZONTAL
pub record AxisNumbers : Type 0 where
  pub pinch_event : ℤ
  pub scroll_event : ℤ
  pub pinch : ℤ
  pub rotate : ℤ
  pub scroll_vertical : ℤ
  pub scroll_horizontal : ℤ

-- An axis event as the callback's getters give it; `value_of` is `none` where the getter
-- fails. `V` stands for the floats and the doubles, which a stream prints alike.
pub record AxisReport (V : Type 0) : Type 0 where
  pub axis_action : ℤ
  pub display_x : V
  pub display_y : V
  pub source_type : ℤ
  pub action_time : ℤ
  pub axis_event_type : ℤ
  pub value_of : ℤ → Option V

abbrev equals : ℤ → ℤ → Bool
equals a b = not (ltb_ℤ a b || ltb_ℤ b a)

module _ {V : Type 0} where
  -- std::map::insert: an entry that is there stays.
  unfoldable pub insert_axis : ℤ → V → List (ℤ × V) → List (ℤ × V)
  insert_axis k v [] = (k, v) ∷ []
  insert_axis k v ((k', v') ∷ m) =
      if ltb_ℤ k k'
      then (k, v) ∷ (k', v') ∷ m
      else (if ltb_ℤ k' k then (k', v') ∷ insert_axis k v m else (k', v') ∷ m)

  -- The two values of an event: the second getter fills the variable of the first.
  unfoldable pub two_axes : V → ℤ → ℤ → AxisReport V → List (ℤ × V)
  two_axes zero_value first second e =
      let v = read_or zero_value (e.value_of first) in
      let w = read_or v (e.value_of second) in insert_axis second w (insert_axis first v [])

  -- axisValues
  unfoldable pub axis_values : V → AxisNumbers → AxisReport V → List (ℤ × V)
  unfolding two_axes
  axis_values zero_value n e =
      if equals e.axis_event_type n.pinch_event
      then two_axes zero_value n.pinch n.rotate e
      else (if equals e.axis_event_type n.scroll_event
          then two_axes zero_value n.scroll_vertical n.scroll_horizontal e
          else [])

  -- The loop over axisValues.
  unfoldable pub axis_values_text : (V → List ℕ) → List (ℤ × V) → List ℕ
  axis_values_text show_value [] = []
  axis_values_text show_value ((k, v) ∷ m) =
      codes " axis"
      ++ (show_int k ++ (codes "=" ++ (show_value v ++ axis_values_text show_value m)))

  unfoldable pub axis_report_text : V → (V → List ℕ) → AxisNumbers → AxisReport V → List ℕ
  unfolding axis_values axis_values_text
  axis_report_text zero_value show_value n e =
      codes "Axis event detected axisAction"
      ++ (colon
          ++ (show_int e.axis_action
              ++ (codes " displayX"
                  ++ (colon
                      ++ (codes " "
                          ++ (show_value e.display_x
                              ++ (codes " displayY"
                                  ++ (colon
                                      ++ (show_value e.display_y
                                          ++ (codes " sourceType"
                                              ++ (colon
                                                  ++ (show_int e.source_type
                                                      ++ (codes " actionTime"
                                                          ++ (colon
                                                            ++ (show_int e.action_time
                                                            ++ (codes " axisEventType"
                                                            ++ (colon
                                                            ++ (show_int e.axis_event_type
                                                            ++ (10
                                                            ∷ (codes " axisValues:"
                                                            ++ axis_values_text show_value (
                                                            axis_values zero_value n
                                                            e)))))))))))))))))))))

  -- OnAxisEventCallback
  unfoldable pub on_axis_event : V → (V → List ℕ) → AxisNumbers → AxisReport V → Bridge → Bridge
  on_axis_event zero_value show_value n e b =
      publish_value (axis_report_text zero_value show_value n e) b
