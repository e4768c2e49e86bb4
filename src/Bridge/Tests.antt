-- ===== src/Bridge/Tests.antt =====
-- A concrete bridge through its calls.
use deskflow_harmonyos.Base.{
  ℕ, zero, suc, ◌-ℤ◌, ◌≡◌, refl, true, false, none, some, [], ◌∷◌, arith, codes, pos, if◌then◌else◌,
  ◌==◌,
}
use deskflow_harmonyos.Stream.{Stream}
use deskflow_harmonyos.Client.{Client}
use deskflow_harmonyos.Client.Input.{dragging}
use deskflow_harmonyos.Client.Run.{stop}
use deskflow_harmonyos.Bridge.{whole, Bridge}
use deskflow_harmonyos.Bridge.Control.{
  ConnectArgs, Meanwhile, connect_deskflow, retry_text, with_client,
}
use deskflow_harmonyos.Bridge.Control.Connect.{
  Started, paused, connect_deskflow-Started, connect_deskflow_retries,
}
use deskflow_harmonyos.Bridge.Inject.{inject_mouse_click_global}
use deskflow_harmonyos.Bridge.Inject.Click.{click_by_messages, mice, click_by_messages-injected}

abbrev connected_stream : Stream
connected_stream = record {
  connected = true;
  buffer = [];
  buffer_pos = 0;
  incoming = [];
  outgoing = [];
  sent = [];
  stop_requested = false;
}

abbrev busy : Client
busy = record {
  stream = connected_stream;
  running = true;
  auto_reconnect = true;
  reconnect_interval_ms = 3000;
  should_reconnect = true;
  host = codes "10.0.0.1";
  port = 24800;
  screen_name = codes "pad";
  screen_w = pos 1280;
  screen_h = pos 800;
  pointer_x = pos 10;
  pointer_y = pos 20;
  invert_scroll = false;
  is_active = true;
  handshake_done = true;
  seq_num = 1;
  clipboard_sync = true;
  has_clipboard_callback = true;
  last_clipboard_text = [];
  clip_chunk = record { is_active = false; data_buffer = []; expected_size = 0; clip_seq = 0 };
  keys_down = λ k. false;
  buttons_down = (1, false) ∷ [];
  replies = [];
  injected = [];
  statuses = [];
  delivered = [];
}

abbrev pub bridge : Bridge
bridge = record {
  client = busy;
  reports_status = true;
  status_fn = some 1;
  clipboard_fn = none;
  change_fn = some 2;
  released = [];
  queued = [];
}

-- The worker ends in the third pause.
abbrev ends_soon : Meanwhile
ends_soon i c = if i == 2 then record c { running = false } else c

-- A port beyond 16 bits.
abbrev arguments : ConnectArgs
arguments = record {
  host = some (codes "10.0.0.2");
  port = some (pos 70000);
  name = some (codes "pad");
  screen_w = some (pos 1920);
  screen_h = none;
}

connect_deskflow-Started_example : Started arguments (connect_deskflow ends_soon arguments bridge)
unfolding stop
connect_deskflow-Started_example =
    connect_deskflow-Started ends_soon arguments bridge 3 (omega arith) refl

-- A worker that goes on for ever.
abbrev goes_on : Meanwhile
goes_on i c = c

goes_on_busy : (k i : ℕ) (c : Client) → (paused k goes_on i c).running ≡ c.running
goes_on_busy zero i c = refl
goes_on_busy (suc k) i c = goes_on_busy k (suc i) c

connect_deskflow_retries_example :
    connect_deskflow goes_on arguments bridge
    ≡ (whole retry_text, with_client (paused 15 goes_on 0 (stop bridge.client)) bridge)
unfolding stop
connect_deskflow_retries_example =
    connect_deskflow_retries goes_on arguments bridge (λ k _. goes_on_busy k 0 (stop bridge.client))

click_by_messages-injected_example :
    (click_by_messages (pos 100) (pos 50) busy).injected
    ≡ mice (inject_mouse_click_global (some (pos 0, pos 0, pos 0)) (pos 100) (pos 50)).1
unfolding dragging ◌-ℤ◌
click_by_messages-injected_example =
    click_by_messages-injected (pos 100) (pos 50) busy
      (record {
        left_of = omega arith;
        right_of = omega arith;
        above = omega arith;
        below = omega arith;
      })
      refl refl
