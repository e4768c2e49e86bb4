-- ===== src/Client/Messages/Stable/Act.antt =====
-- handleMessage of entry/src/main/cpp/protocol/deskflow_client.cpp keeps what a predicate's laws ask
-- for.
use deskflow_harmonyos.Base.{ℕ, refl, true, false, Option, none, some, List, [], ◌∷◌, codes}
use deskflow_harmonyos.Base.Word.{to_i16}
use deskflow_harmonyos.Proto.Read.{readf}
use deskflow_harmonyos.Proto.{Value, num, str}
use deskflow_harmonyos.Client.{Client, Status, set_status}
use deskflow_harmonyos.Client.Messages.{
  Message, q_info, c_keep_alive, c_enter, c_leave, c_close, d_mouse_move, d_mouse_rel_move,
  d_mouse_down, d_mouse_up, d_mouse_wheel, d_key_down, d_key_up, d_key_repeat, d_key_down_lang,
  d_set_options, d_clipboard, e_incompatible, e_busy, e_unknown, e_bad, other, on_query_info,
  send_key, act, act_if_read, handle, handle_message, classify, payload_format,
}
use deskflow_harmonyos.Client.Messages.Stable.{
  Stable, Kept, After, send_message-Kept, on_enter-Kept, on_leave-Kept, move_pointer-Kept,
  on_rel_move-Kept, on_key_down-Kept, on_key_up-Kept, on_clipboard_part-Kept, set_status-P,
}

-- ... and every reading of a payload, which comes before it.
abbrev pub KeptByReads : (Client → Type 0) → Type 0
KeptByReads P = (fmt : List ℕ) (c : Client) → P c → P (record c { stream = (readf fmt c.stream).1 })

-- The messages behind which the server is not to be called again.
abbrev pub Closes : Message → Type 0
Closes c_close = Unit
Closes e_incompatible = Unit
Closes _ = ⊥

abbrev pub KeptByClosing : (Client → Type 0) → Type 0
KeptByClosing P = (c : Client) → P c → P (record c { should_reconnect = false })

module _ (P : Client → Type 0) (st : Stable P) where
  goes_on : {c : Client} → Kept P c → After P (true, c)
  goes_on k = record { inv = k.inv }

  gives_up : (status : Status) (c : Client) → P c → After P (false, set_status status c)
  gives_up status c v = record { inv = set_status-P P st status c v }

  act-After :
      (m : Message) (vs : List Value) (c : Client)
      → (Closes m → KeptByClosing P)
      → P c
      → After P (act m vs c)
  unfolding act on_query_info send_key
  act-After q_info vs c cl v = send_message-Kept P st _ _ c v
  act-After c_keep_alive vs c cl v = record { inv = st.writes (codes "CALV") c v }
  act-After c_enter (num x ∷ num y ∷ num seq ∷ num mask ∷ []) c cl v =
      goes_on (on_enter-Kept P st (to_i16 x) (to_i16 y) seq (to_i16 mask) c v)
  act-After c_leave vs c cl v = goes_on (on_leave-Kept P st c v)
  act-After c_close vs c cl v = gives_up _ (record c { should_reconnect = false }) (cl tt c v)
  act-After d_mouse_move (num x ∷ num y ∷ []) c cl v =
      goes_on (move_pointer-Kept P st (to_i16 x) (to_i16 y) c v)
  act-After d_mouse_rel_move (num dx ∷ num dy ∷ []) c cl v =
      goes_on (on_rel_move-Kept P st (to_i16 dx) (to_i16 dy) c v)
  act-After d_mouse_down (num b ∷ []) c cl v = record { inv = st.button b true c v }
  act-After d_mouse_up (num b ∷ []) c cl v = record { inv = (st.button b false c v) }
  act-After d_mouse_wheel (num dx ∷ num dy ∷ []) c cl v = record {
    inv = st.wheel (to_i16 dx) (to_i16 dy) c v;
  }
  act-After d_key_down (num id ∷ num mask ∷ num button ∷ []) c cl v =
      goes_on (on_key_down-Kept P st (to_i16 id) (to_i16 mask) c v)
  act-After d_key_up (num id ∷ num mask ∷ num button ∷ []) c cl v =
      goes_on (on_key_up-Kept P st (to_i16 id) (to_i16 mask) c v)
  act-After d_key_repeat (num id ∷ num mask ∷ num count ∷ num button ∷ str lang ∷ []) c cl v =
      goes_on (on_key_down-Kept P st (to_i16 id) (to_i16 mask) c v)
  act-After d_key_down_lang (num id ∷ num mask ∷ num button ∷ str lang ∷ []) c cl v =
      goes_on (on_key_down-Kept P st (to_i16 id) (to_i16 mask) c v)
  act-After d_set_options vs c cl v = record { inv = st.same c _ refl v }
  act-After d_clipboard (num id ∷ num seq ∷ num mark ∷ str content ∷ []) c cl v =
      goes_on (on_clipboard_part-Kept P st seq mark content c v)
  act-After e_incompatible (num a ∷ num b ∷ []) c cl v =
      gives_up _ (record c { should_reconnect = false }) (cl tt c v)
  act-After e_busy vs c cl v = gives_up _ c v
  act-After e_unknown vs c cl v = gives_up _ c v
  act-After e_bad vs c cl v = gives_up _ c v
  act-After _ vs c cl v = record { inv = v }

  act_if_read-After :
      (m : Message) (o : Option (List Value)) (c : Client)
      → (Closes m → KeptByClosing P)
      → P c
      → After P (act_if_read m o c)
  unfolding act_if_read
  act_if_read-After m none c cl v = record { inv = v }
  act_if_read-After m (some vs) c cl v = act-After m vs c cl v

  pub act-Stable :
      (m : Message) (vs : List Value) (c : Client)
      → (Closes m → KeptByClosing P)
      → P c
      → P (act m vs c).1
  act-Stable m vs c cl v = (act-After m vs c cl v).inv

  handle-After :
      KeptByReads P
      → (m : Message) (key : List ℕ) (c : Client) → (Closes m → KeptByClosing P)
      → P c
      → After P (handle m key c)
  unfolding handle
  handle-After rd other key c cl v = gives_up _ c v
  handle-After rd c_enter key c cl v =
      act_if_read-After c_enter _ _ cl (rd (payload_format c_enter) c v)
  handle-After rd m key c cl v = act_if_read-After m _ _ cl (rd (payload_format m) c v)

  pub handle_message-Stable :
      KeptByReads P
      → (key : List ℕ) (c : Client) → (Closes (classify key) → KeptByClosing P)
      → P c
      → P (handle_message key c).1
  unfolding handle_message
  handle_message-Stable rd key c cl v = (handle-After rd (classify key) key c cl v).inv
