-- ===== src/Bridge.antt =====
-- The bridge of entry/src/main/cpp/napi_init.cpp between the scripting side and the client: what the
-- scripting side calls, and the values handed to the functions that it registered.
-- The platform's napi calls are arguments: what a call reads from a script value, and the handle
-- that napi_create_threadsafe_function makes.
pub mod Control
pub mod Inject
pub mod Status
pub mod Reports
pub mod Delivery
mod Tests
use deskflow_harmonyos.Base.{
  ℕ, ◌+◌, Bool, Option, none, some, List, [], ◌∷◌, ◌++◌, is_empty, length, if◌then◌else◌, codes, ℤ,
  pos, negsuc,
}
use deskflow_harmonyos.Client.{Client}
use deskflow_harmonyos.Client.Clipboard.Size.{to_string}

-- napi_create_threadsafe_function: from the resource's name (`none` for a null one) and the script's
-- callback, the handle; `none` where it fails.
abbrev pub Create : Type 0
Create = Option (List ℕ) → ℕ → Option ℕ

-- g_deskflowClient; whether it has its status callback; g_statusTsfn, g_clipboardTsfn and g_tsfn; the
-- handles released so far, and the values handed over, each with the handle that it was given to.
pub record Bridge : Type 0 where
  pub client : Client
  pub reports_status : Bool
  pub status_fn : Option ℕ
  pub clipboard_fn : Option ℕ
  pub change_fn : Option ℕ
  pub released : List ℕ
  pub queued : List (ℕ × List ℕ)

-- The text of an answer to the scripting side, and the size given with it.
pub record Answer : Type 0 where
  pub text : List ℕ
  pub size : ℕ

abbrev pub whole : List ℕ → Answer
whole text = record { text = text; size = length text }

-- std::to_string of an int32_t.
abbrev pub show_int : ℤ → List ℕ
show_int (pos n) = to_string n
show_int (negsuc n) = b'-' ∷ to_string (n + 1)

-- napi_release_threadsafe_function on the handle registered before.
abbrev pub release : Option ℕ → List ℕ → List ℕ
release none released = released
release (some f) released = f ∷ released

-- OnDeskflowStatus
unfoldable pub on_deskflow_status : Create → ℕ → Bridge → Bridge
on_deskflow_status create callback b = record b {
  status_fn = create (some (codes "deskflow.status")) callback;
  released = release b.status_fn b.released;
}

-- OnClipboardData
unfoldable pub on_clipboard_data : Create → ℕ → Bridge → Bridge
on_clipboard_data create callback b = record b {
  clipboard_fn = create (some (codes "deskflow.clipboard")) callback;
  released = release b.clipboard_fn b.released;
}

-- OnChange
unfoldable pub on_change : Create → ℕ → Bridge → Bridge
on_change create callback b = record b {
  change_fn = create none callback;
  released = release b.change_fn b.released;
}

-- napi_call_threadsafe_function on a handle, unless it is null.
abbrev pub call : Option ℕ → List ℕ → Bridge → Bridge
call none text b = b
call (some f) text b = record b { queued = b.queued ++ ((f, text) ∷ []) }

-- DeskflowStatusCb
unfoldable pub deskflow_status_cb : List ℕ → Bridge → Bridge
deskflow_status_cb text b = call b.status_fn text b

-- PublishClipboard
unfoldable pub publish_clipboard : List ℕ → Bridge → Bridge
publish_clipboard text b = call b.clipboard_fn text b

-- DeskflowClipboardCb
unfoldable pub deskflow_clipboard_cb : List ℕ → Bridge → Bridge
deskflow_clipboard_cb text b =
    let published = publish_clipboard text b in if is_empty text then b else published

-- PublishValue
unfoldable pub publish_value : List ℕ → Bridge → Bridge
publish_value text b = call b.change_fn text b
