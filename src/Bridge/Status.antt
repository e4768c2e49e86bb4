-- ===== src/Bridge/Status.antt =====
-- The texts that entry/src/main/cpp/protocol/deskflow_client.cpp gives to setStatus, on their way
-- through DeskflowStatusCb of entry/src/main/cpp/napi_init.cpp.
use deskflow_harmonyos.Base.{List, ℕ, ◌++◌, codes}
use deskflow_harmonyos.Client.{
  Status, connecting, connect_failed, handshaking, handshake_failed, handshake_ok,
  protocol_mismatch, connection_lost, disconnected, reconnecting, control_acquired, control_left,
  closed_by_server, incompatible, server_busy, unknown_client, protocol_violation, unknown_message,
}
use deskflow_harmonyos.Client.Clipboard.Size.{to_string}
use deskflow_harmonyos.Bridge.{Bridge, show_int, deskflow_status_cb}

unfoldable pub status_message : Status → List ℕ
status_message (connecting host port) =
    codes "connecting to " ++ (host ++ (codes ":" ++ to_string port))
status_message connect_failed = codes "error: connect failed"
status_message handshaking = codes "connected, handshake..."
status_message handshake_failed = codes "error: handshake failed"
status_message handshake_ok = codes "handshake ok, waiting for enter (move mouse to this screen)"
status_message (protocol_mismatch name major minor) =
    codes "protocol mismatch: name='"
    ++ (name ++ (codes "' ver=" ++ (show_int major ++ (codes "." ++ show_int minor))))
status_message connection_lost = codes "error: connection lost"
status_message disconnected = codes "disconnected"
status_message (reconnecting ms) = codes "reconnecting in " ++ (to_string ms ++ codes "ms")
status_message (control_acquired x y) =
    codes "active: control acquired, pointer at " ++ (show_int x ++ (codes "," ++ show_int y))
status_message control_left = codes "inactive: moved back to primary screen"
status_message closed_by_server = codes "closed by server"
status_message (incompatible a b) =
    codes "error: incompatible version, server wants " ++ (show_int a ++ (codes "." ++ show_int b))
status_message server_busy = codes "error: server busy"
status_message unknown_client = codes "error: unknown client"
status_message protocol_violation = codes "error: protocol violation"
status_message (unknown_message key) = codes "error: unknown message '" ++ (key ++ codes "'")

-- setStatus once the callback is set.
unfoldable pub report_status : Status → Bridge → Bridge
report_status st b = deskflow_status_cb (status_message st) b
