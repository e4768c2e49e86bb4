-- ===== src/Bridge/Control.antt =====
-- connectDeskflow, disconnectDeskflow, pushClipboard and the switches of
-- entry/src/main/cpp/napi_init.cpp.
pub mod Connect
use deskflow_harmonyos.Base.{
  ℕ, zero, suc, ◌+◌, ◌-◌, ◌%◌, ◌^◌, Bool, true, false, Option, none, some, List, [], ◌∷◌, ◌++◌,
  ◌==◌, if◌then◌else◌, codes, ℤ, pos, negsuc,
}
use deskflow_harmonyos.Client.{Client}
use deskflow_harmonyos.Client.Clipboard.{push_clipboard}
use deskflow_harmonyos.Client.Settings.{
  set_clipboard_callback, set_clipboard_sync, set_screen_size, set_invert_scroll,
  set_auto_reconnect,
}
use deskflow_harmonyos.Client.Run.{start, stop}
use deskflow_harmonyos.Bridge.{Bridge, Answer, whole, show_int}

-- A script value that the platform's call reads, or the default where it fails.
abbrev pub read_or {ℓ} : {A : Type ℓ} → A → Option A → A
read_or d none = d
read_or d (some a) = a

abbrev pub with_client : Client → Bridge → Bridge
with_client c b = record b { client = c }

-- A char buffer read as a C string.
abbrev pub c_string : List ℕ → List ℕ
c_string [] = []
c_string (c ∷ cs) = if c == 0 then [] else c ∷ c_string cs

-- static_cast<uint16_t> of an int32_t.
abbrev pub to_u16 : ℤ → ℕ
to_u16 (pos n) = n % 2 ^ 16
to_u16 (negsuc n) = 0xffff - n % 2 ^ 16

-- The arguments of connectDeskflow as the platform's calls read them: the buffers of 256 bytes,
-- and the numbers; `none` where a call fails.
pub record ConnectArgs : Type 0 where
  pub host : Option (List ℕ)
  pub port : Option ℤ
  pub name : Option (List ℕ)
  pub screen_w : Option ℤ
  pub screen_h : Option ℤ

-- What the worker thread does to the client in each of the pauses of 100 ms.
abbrev pub Meanwhile : Type 0
Meanwhile = ℕ → Client → Client

-- The wait for the old worker, with so many pauses left, before pause `i`.
unfoldable pub wait_for_worker : ℕ → Meanwhile → ℕ → Client → Client
wait_for_worker zero meanwhile i c = c
wait_for_worker (suc k) meanwhile i c =
    let later = wait_for_worker k meanwhile (suc i) (meanwhile i c) in
    if c.running then later else c

abbrev pub max_pauses : ℕ
max_pauses = 15

-- The client once it has the callbacks and the screen's size.
abbrev pub prepared : ConnectArgs → Client → Client
prepared a c =
    set_screen_size (read_or (pos 1280) a.screen_w) (read_or (pos 800) a.screen_h)
      (set_clipboard_callback c)

abbrev pub starting_text : ConnectArgs → List ℕ
starting_text a =
    codes "client starting: "
    ++ (c_string (read_or [] a.host) ++ (b':' ∷ show_int (read_or (pos 24800) a.port)))

abbrev pub retry_text : List ℕ
retry_text = codes "previous client is still stopping, please retry in a moment"

-- ConnectDeskflow behind the wait.
unfoldable pub connect_now : ConnectArgs → Bridge → Answer × Bridge
connect_now a b =
    let (started, c) =
      start (c_string (read_or [] a.host)) (to_u16 (read_or (pos 24800) a.port))
        (c_string (read_or [] a.name)) (prepared a b.client) in
    let after = record b { client = c; reports_status = true } in
    if b.client.running
    then (whole retry_text, b)
    else (if started
        then (whole (starting_text a), after)
        else (whole (codes "client already running"), after))

-- ConnectDeskflow
unfoldable pub connect_deskflow : Meanwhile → ConnectArgs → Bridge → Answer × Bridge
unfolding connect_now
connect_deskflow meanwhile a b =
    connect_now a (with_client (wait_for_worker max_pauses meanwhile 0 (stop b.client)) b)

-- DisconnectDeskflow
unfoldable pub disconnect_deskflow : Bridge → Answer × Bridge
disconnect_deskflow b = (whole (codes "disconnect requested"), with_client (stop b.client) b)

-- PushClipboard: the buffer of 1 MiB as far as the platform's call filled it.
unfoldable pub push_clipboard_text : Option (List ℕ) → Bridge → Answer × Bridge
push_clipboard_text text b =
    (whole (codes "ok"), with_client (push_clipboard (read_or [] text) b.client) b)

-- SetClipboardSync
unfoldable pub switch_clipboard_sync : Option Bool → Bridge → Answer × Bridge
switch_clipboard_sync value b =
    let enable = read_or false value in
    (
      (if enable
          then record { text = codes "clipboard sync ON"; size = 17 }
          else record { text = codes "clipboard sync OFF"; size = 18 }),
      with_client (set_clipboard_sync enable b.client) b,
    )

-- SetInvertScroll
unfoldable pub switch_invert_scroll : Option Bool → Bridge → Answer × Bridge
switch_invert_scroll value b =
    let invert = read_or false value in
    (
      (if invert
          then record { text = codes "invert scroll ON"; size = 15 }
          else record { text = codes "invert scroll OFF"; size = 16 }),
      with_client (set_invert_scroll invert b.client) b,
    )

-- SetAutoReconnect
unfoldable pub switch_auto_reconnect : Option Bool → Bridge → Answer × Bridge
switch_auto_reconnect value b =
    let enable = read_or true value in
    (
      (if enable
          then record { text = codes "auto reconnect ON"; size = 17 }
          else record { text = codes "auto reconnect OFF"; size = 18 }),
      with_client (set_auto_reconnect enable 3000 b.client) b,
    )
