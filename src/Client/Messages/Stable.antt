-- ===== src/Client/Messages/Stable.antt =====
-- What handleMessage of entry/src/main/cpp/protocol/deskflow_client.cpp keeps: any predicate that
-- the injections, the reads and the writes keep, and that looks at no more than a `View`.
pub mod Act
use deskflow_harmonyos.Base.{
  ℕ, ◌≡◌, refl, Bool, true, false, not, Option, none, some, List, [], ◌∷◌, if_both, if◌then◌else◌,
  ltb_ℤ, ℤ, pos, is_empty, codes, ◌&&◌, ◌==◌,
}
use deskflow_harmonyos.Base.Word.{to_i16, to_u32}
use deskflow_harmonyos.Stream.{Stream, write_frame}
use deskflow_harmonyos.Proto.Read.{readf}
use deskflow_harmonyos.Proto.{Value, num, str, writef}
use deskflow_harmonyos.Client.{Client, InputEvent, ClipChunk, Status, set_status}
use deskflow_harmonyos.Keys.Codes.{key_none}
use deskflow_harmonyos.Client.Input.{
  inject_mouse_move, inject_mouse_wheel, inject_mouse_button, inject_key_event,
}
use deskflow_harmonyos.Client.Modifiers.{
  mod_bits, mask_modifier_keysym, has_bit, change_key, sync_key, sync_bits, sync_modifiers,
}
use deskflow_harmonyos.Client.Clipboard.{
  send_message, on_clipboard_part, chunk_start, chunk_data, chunk_end, deliver_text, mark_start,
  mark_chunk, mark_end,
}
use deskflow_harmonyos.Client.Clipboard.Container.{unmarshal_text}
use deskflow_harmonyos.Client.Messages.{
  Message, q_info, c_keep_alive, c_enter, c_leave, c_close, d_mouse_move, d_mouse_rel_move,
  d_mouse_down, d_mouse_up, d_mouse_wheel, d_key_down, d_key_up, d_key_repeat, d_key_down_lang,
  d_set_options, d_clipboard, e_incompatible, e_busy, e_unknown, e_bad, other, on_query_info,
  send_key, move_pointer, on_enter, release_all, on_leave, on_rel_move, on_key_down, on_key_up, act,
  act_if_read, handle, handle_message, classify, payload_format,
}

-- The part of the client that a kept predicate may look at.
abbrev pub view : Client → Stream × ℤ × ℤ × List (ℕ × Bool) × List InputEvent × Bool × Bool × Bool
view c = (
  c.stream, c.screen_w, c.screen_h, c.buttons_down, c.injected, c.running, c.should_reconnect,
  c.auto_reconnect,
)

-- What a predicate has to satisfy to be kept by every message.
pub record Stable (P : Client → Type 0) : Type 0 where
  pub same : (c c' : Client) → view c ≡ view c' → P c → P c'
  pub no_buttons : (c : Client) → P c → P (record c { buttons_down = [] })
  pub writes :
      (bytes : List ℕ) (c : Client) → P c → P (record c { stream = (write_frame bytes c.stream).1 })
  pub move : (x y : ℤ) (c : Client) → P c → P (inject_mouse_move x y c).1
  pub wheel : (dx dy : ℤ) (c : Client) → P c → P (inject_mouse_wheel dx dy c).1
  pub button : (b : ℕ) (down : Bool) (c : Client) → P c → P (inject_mouse_button b down c).1
  pub key : (k : ℕ) (down : Bool) (c : Client) → P c → P (inject_key_event k down c).1

-- Records that a conditional does not take apart.
record Kept (P : Client → Type 0) (c : Client) : Type 0 where
  inv : P c

record After (P : Client → Type 0) (r : Bool × Client) : Type 0 where
  inv : P r.1

module _ (P : Client → Type 0) (st : Stable P) where
  either-Kept : (b : Bool) {x y : Client} → Kept P x → Kept P y → Kept P (if b then x else y)
  either-Kept b h k = if_both (Kept P) b h k

  same-Kept : (c : Client) → P c → Kept P c
  same-Kept c v = record { inv = v }

  view-Kept : (c c' : Client) → view c ≡ view c' → P c → Kept P c'
  view-Kept c c' e v = record { inv = st.same c c' e v }

  change_key-Kept : (k : ℕ) (down : Bool) (c : Client) → P c → Kept P (change_key k down c)
  unfolding change_key
  change_key-Kept k down c v = view-Kept (inject_key_event k down c).1 _ refl (st.key k down c v)

  sync_key-Kept : (want : Bool) (k : ℕ) (c : Client) → P c → Kept P (sync_key want k c)
  unfolding sync_key
  sync_key-Kept want k c v =
      let same : Kept P c = record { inv = v } in
      either-Kept (k == key_none) same (
        either-Kept (want && not (c.keys_down k)) (change_key-Kept k true c v)
          (either-Kept (not want && c.keys_down k) (change_key-Kept k false c v) same))

  sync_bits-Kept : (bits : List ℕ) (mask : ℕ) (c : Client) → P c → Kept P (sync_bits bits mask c)
  unfolding sync_bits
  sync_bits-Kept [] mask c v = record { inv = v }
  sync_bits-Kept (bit ∷ bits) mask c v =
      sync_bits-Kept bits mask _
        (sync_key-Kept (has_bit mask bit) (mask_modifier_keysym bit) c v).inv

  sync_modifiers-Kept : (mask : ℕ) (c : Client) → P c → Kept P (sync_modifiers mask c)
  unfolding sync_modifiers
  sync_modifiers-Kept mask c v = sync_bits-Kept mod_bits mask c v

  send_message-Kept :
      (fmt : List ℕ) (args : List Value) (c : Client) → P c → After P (send_message fmt args c)
  unfolding send_message
  send_message-Kept fmt args c v =
      elim (writef fmt args)
        as (λ (o : Option (List ℕ)). After P (elim o as (λ _. Bool × Client) [
          | none ↦ (false, c)
          | some bytes ↦ (let (ok, s) = write_frame bytes c.stream in (ok, record c { stream = s }))
        ])) [ none ↦ record { inv = v } | some bytes ↦ record { inv = st.writes bytes c v } ]

  move_pointer-Kept : (x y : ℤ) (c : Client) → P c → Kept P (move_pointer x y c)
  unfolding move_pointer
  move_pointer-Kept x y c v =
      let c' = record c { pointer_x = x; pointer_y = y } in
      record { inv = st.move x y c' (st.same c c' refl v) }

  release_all-Kept : (m : List (ℕ × Bool)) (c : Client) → P c → Kept P (release_all m c)
  unfolding release_all
  release_all-Kept [] c v = record { inv = v }
  release_all-Kept ((b, true) ∷ m) c v = release_all-Kept m _ (st.button b false c v)
  release_all-Kept ((b, false) ∷ m) c v = release_all-Kept m c v

  set_status-P : (status : Status) (c : Client) → P c → P (set_status status c)
  unfolding set_status
  set_status-P status c v = st.same c _ refl v

  on_enter-Kept :
      (x y : ℤ) (seq : ℕ) (mask : ℤ) (c : Client) → P c → Kept P (on_enter x y seq mask c)
  unfolding on_enter
  on_enter-Kept x y seq mask c v =
      let entered = record c { is_active = true; seq_num = seq } in
      let same : Kept P entered = view-Kept c entered refl v in
      let moved =
        either-Kept (not (ltb_ℤ x (pos 0)))
          (either-Kept (not (ltb_ℤ y (pos 0))) (move_pointer-Kept x y entered same.inv) same)
          same in
      record { inv = set_status-P _ _ (sync_modifiers-Kept (to_u32 mask) _ moved.inv).inv }

  on_leave-Kept : (c : Client) → P c → Kept P (on_leave c)
  unfolding on_leave
  on_leave-Kept c v =
      let inactive = record c { is_active = false } in
      let released = release_all-Kept c.buttons_down inactive (st.same c inactive refl v) in
      let emptied = st.no_buttons (release_all c.buttons_down inactive) released.inv in
      record { inv = set_status-P _ _ emptied }

  on_key_down-Kept : (id mask : ℤ) (c : Client) → P c → Kept P (on_key_down id mask c)
  unfolding on_key_down
  on_key_down-Kept id mask c v =
      let c' = sync_modifiers (to_u32 mask) c in
      let synced = sync_modifiers-Kept (to_u32 mask) c v in
      either-Kept (c'.keys_down (to_u32 id)) synced (change_key-Kept (to_u32 id) true c' synced.inv)

  on_key_up-Kept : (id mask : ℤ) (c : Client) → P c → Kept P (on_key_up id mask c)
  unfolding on_key_up
  on_key_up-Kept id mask c v =
      let c' = sync_modifiers (to_u32 mask) c in
      let synced = sync_modifiers-Kept (to_u32 mask) c v in
      either-Kept (c'.keys_down (to_u32 id)) (change_key-Kept (to_u32 id) false c' synced.inv)
        synced

  deliver_text-Kept : (text : List ℕ) (c : Client) → P c → Kept P (deliver_text text c)
  unfolding deliver_text
  deliver_text-Kept text c v =
      either-Kept (c.clipboard_sync && not (is_empty text))
        (either-Kept c.has_clipboard_callback (view-Kept c _ refl v) (view-Kept c _ refl v))
        (same-Kept c v)

  on_rel_move-Kept : (dx dy : ℤ) (c : Client) → P c → Kept P (on_rel_move dx dy c)
  unfolding on_rel_move
  on_rel_move-Kept dx dy c v = move_pointer-Kept _ _ c v

  chunk_end-Kept : (c : Client) → P c → Kept P (chunk_end c)
  unfolding chunk_end
  chunk_end-Kept c v =
      let chunk : ClipChunk = record c.clip_chunk { is_active = false; data_buffer = [] } in
      either-Kept c.clip_chunk.is_active
        (deliver_text-Kept (unmarshal_text c.clip_chunk.data_buffer)
          (record c { clip_chunk = chunk }) (st.same c _ refl v))
        (same-Kept c v)

  on_clipboard_part-Kept :
      (seq mark : ℕ) (content : List ℕ) (c : Client)
      → P c
      → Kept P (on_clipboard_part seq mark content c)
  unfolding on_clipboard_part
  on_clipboard_part-Kept seq mark content c v =
      let with_chunk : (k : ClipChunk) → Kept P (record c { clip_chunk = k }) =
        λ k. view-Kept c _ refl v in
      either-Kept (mark == mark_start) (with_chunk (chunk_start seq content c.clip_chunk)) (
        either-Kept (mark == mark_chunk) (with_chunk (chunk_data content c.clip_chunk))
          (either-Kept (mark == mark_end) (chunk_end-Kept c v) (same-Kept c v)))
