-- ===== src/Bridge/Reports.antt =====
-- The interceptors and the injection authorisation of entry/src/main/cpp/napi_init.cpp: the answers
-- to the scripting side, and the texts published for what the platform reports.
pub mod Axis
use deskflow_harmonyos.Base.{ℕ, List, [], ◌∷◌, ◌++◌, if◌then◌else◌, codes, ℤ}
use deskflow_harmonyos.Client.{is_zero}
use deskflow_harmonyos.Bridge.{Bridge, Answer, whole, show_int, publish_value}

-- The answers to what the platform's calls return; 0 is INPUT_SUCCESS.
unfoldable pub add_key_event_interceptor : ℤ → Answer
add_key_event_interceptor ret = whole (
    (if is_zero ret
      then codes "Key event interceptor added successfully, return "
      else codes "Key event interceptor added failed, return ")
    ++ show_int ret)

unfoldable pub remove_key_event_interceptor : ℤ → Answer
remove_key_event_interceptor ret = whole (
    (if is_zero ret
      then codes "Key event interceptor removed successfully, return "
      else codes "Key event interceptor removed failed, return ")
    ++ show_int ret)

unfoldable pub add_event_interceptor : ℤ → Answer
add_event_interceptor ret = whole (
    (if is_zero ret
      then codes "Input event interception added successfully, return code: "
      else codes "Failed to add input event interception, return code: ")
    ++ show_int ret)

unfoldable pub remove_event_interceptor : ℤ → Answer
remove_event_interceptor ret = whole (
    (if is_zero ret
      then codes "Input event interception removed successfully, return code: "
      else codes "Failed to remove input event interception, return code: ")
    ++ show_int ret)

unfoldable pub request_injection : ℤ → Answer
request_injection ret = whole (codes "OH_Input_RequestInjection ret: " ++ show_int ret)

unfoldable pub query_authorized_status : ℤ → ℤ → Answer
query_authorized_status ret status = whole (
    codes "OH_Input_QueryAuthorizedStatus ret: "
    ++ (show_int ret ++ (codes ", status: " ++ show_int status)))

-- CancelInjection
unfoldable pub cancel_injection : Answer
cancel_injection = whole (codes "OH_Input_CancelInjection called")

-- Input_InjectionStatus: the three named values, and any other number.
pub data InjectionStatus : Type 0 where
  unauthorized authorizing authorized : InjectionStatus
  unlisted : ℤ → InjectionStatus

unfoldable pub status_text : InjectionStatus → List ℕ
status_text unauthorized = codes "UNAUTHORIZED(0)"
status_text authorizing = codes "AUTHORIZING(1)"
status_text authorized = codes "AUTHORIZED(2)"
status_text (unlisted n) = show_int n

-- OnInjectionAuthorizeCallback
unfoldable pub on_injection_authorize : InjectionStatus → Bridge → Bridge
on_injection_authorize status b =
    publish_value (codes "Injection auth callback, status: " ++ status_text status) b

-- A key event as OnKeyEventCallback reads it.
pub record KeyReport : Type 0 where
  pub action : ℤ
  pub key_code : ℤ
  pub action_time : ℤ

unfoldable pub key_report_text : KeyReport → List ℕ
key_report_text e =
    codes "Key event detected   action:"
    ++ (show_int e.action
        ++ (codes " keyCode: "
            ++ (show_int e.key_code ++ (codes " actionTime: " ++ show_int e.action_time))))

-- OnKeyEventCallback
unfoldable pub on_key_event : KeyReport → Bridge → Bridge
on_key_event e b = publish_value (key_report_text e) b

-- The full-width colon of the texts, in UTF-8.
abbrev pub colon : List ℕ
colon = 0xef ∷ 0xbc ∷ 0x9a ∷ []

-- A mouse event as OnMouseEventCallback reads it; `V` is the type of the axis value, a float.
pub record MouseReport (V : Type 0) : Type 0 where
  pub action : ℤ
  pub display_x : ℤ
  pub display_y : ℤ
  pub button : ℤ
  pub axis_type : ℤ
  pub axis_value : V
  pub action_time : ℤ

-- The text, from the way a stream prints a float.
unfoldable pub mouse_report_text : {V : Type 0} → (V → List ℕ) → MouseReport V → List ℕ
mouse_report_text show_value e =
    codes "Mouse event detected   action"
    ++ (colon
        ++ (show_int e.action
            ++ (codes " displayX"
                ++ (colon
                    ++ (codes " "
                        ++ (show_int e.display_x
                            ++ (codes " displayY"
                                ++ (colon
                                    ++ (show_int e.display_y
                                        ++ (codes " button"
                                            ++ (colon
                                                ++ (show_int e.button
                                                    ++ (codes " axisType"
                                                        ++ (colon
                                                            ++ (show_int e.axis_type
                                                            ++ (codes " axisValue"
                                                            ++ (colon
                                                            ++ (show_value e.axis_value
                                                            ++ (codes " actionTime"
                                                            ++ (colon
                                                            ++ show_int
                                                            e.action_time))))))))))))))))))))

-- OnMouseEventCallback
unfoldable pub on_mouse_event : {V : Type 0} → (V → List ℕ) → MouseReport V → Bridge → Bridge
on_mouse_event show_value e b = publish_value (mouse_report_text show_value e) b

-- A touch event as OnTouchEventCallback reads it.
pub record TouchReport : Type 0 where
  pub action : ℤ
  pub id : ℤ
  pub display_x : ℤ
  pub display_y : ℤ
  pub action_time : ℤ

unfoldable pub touch_report_text : TouchReport → List ℕ
touch_report_text e =
    codes "Touch event detected action"
    ++ (colon
        ++ (show_int e.action
            ++ (codes " displayX"
                ++ (colon
                    ++ (codes " "
                        ++ (show_int e.display_x
                            ++ (codes " displayY"
                                ++ (colon
                                    ++ (show_int e.display_y
                                        ++ (codes " id"
                                            ++ (colon
                                                ++ (show_int e.id
                                                    ++ (codes " actionTime"
                                                        ++ (colon
                                                            ++ show_int e.action_time))))))))))))))

-- OnTouchEventCallback
unfoldable pub on_touch_event : TouchReport → Bridge → Bridge
on_touch_event e b = publish_value (touch_report_text e) b
