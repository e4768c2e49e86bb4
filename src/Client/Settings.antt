-- ===== src/Client/Settings.antt =====
-- The setters of entry/src/main/cpp/protocol/deskflow_client.h.
use deskflow_harmonyos.Base.{ℕ, Bool, true, ℤ}
use deskflow_harmonyos.Client.{Client}

-- setClipboardCallback, with a callback.
unfoldable pub set_clipboard_callback : Client → Client
set_clipboard_callback c = record c { has_clipboard_callback = true }

unfoldable pub set_clipboard_sync : Bool → Client → Client
set_clipboard_sync enable c = record c { clipboard_sync = enable }

unfoldable pub set_screen_size : ℤ → ℤ → Client → Client
set_screen_size w h c = record c { screen_w = w; screen_h = h }

unfoldable pub set_invert_scroll : Bool → Client → Client
set_invert_scroll invert c = record c { invert_scroll = invert }

unfoldable pub set_auto_reconnect : Bool → ℕ → Client → Client
set_auto_reconnect enable interval_ms c = record c {
  auto_reconnect = enable;
  reconnect_interval_ms = interval_ms;
}
