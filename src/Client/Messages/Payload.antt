-- ===== src/Client/Messages/Payload.antt =====
-- The payload of a message and its handler in handleMessage of
-- entry/src/main/cpp/protocol/deskflow_client.cpp: the variables that readf fills, and those that the
-- handler uses.
use deskflow_harmonyos.Base.{
  ℕ, ◌≡◌, refl, sym, ap, ◌∙◌, Bool, true, false, Option, none, some, List, [], ◌∷◌, not, ◌&&◌, All,
}
use mathlib.Core.Bool.{and-true, and-false}
use deskflow_harmonyos.Base.Word.{IsByte}
use deskflow_harmonyos.Stream.{Stream}
use deskflow_harmonyos.Stream.Read.{pending}
use deskflow_harmonyos.Proto.{Value, num, str, vec, raw}
use deskflow_harmonyos.Proto.Read.{readf}
use deskflow_harmonyos.Proto.Format.{Width, Item, byte, int, ints, text, fixed, run, Fits}
use deskflow_harmonyos.Proto.Shapes.{IsFormat, readf-IsWire}
use deskflow_harmonyos.Client.{Client}
use deskflow_harmonyos.Client.Messages.{
  Message, q_info, c_keep_alive, c_enter, c_leave, c_close, d_mouse_move, d_mouse_rel_move,
  d_mouse_down, d_mouse_up, d_mouse_wheel, d_key_down, d_key_up, d_key_repeat, d_key_down_lang,
  d_clipboard, e_incompatible, e_busy, e_unknown, e_bad, other, payload_format, act, act_if_read,
  handle, handle_message, classify,
}
use deskflow_harmonyos.Client.Session.Packet.{payload_items, render-payload_items}

-- The types of the values that a list of items reads.
data Shaped : List Item → List Value → Type 0 where
  done : Shaped [] []
  skips : {c : ℕ} {is : List Item} {vs : List Value} → Shaped is vs → Shaped (byte c ∷ is) vs
  one_int :
      {w : Width} {is : List Item} {vs : List Value} (v : ℕ)
      → Shaped is vs
      → Shaped (int w ∷ is) (num v ∷ vs)
  one_vec :
      {w : Width} {is : List Item} {vs : List Value} (l : List ℕ)
      → Shaped is vs
      → Shaped (ints w ∷ is) (vec l ∷ vs)
  one_text :
      {is : List Item} {vs : List Value} (s : List ℕ)
      → Shaped is vs
      → Shaped (text ∷ is) (str s ∷ vs)
  one_fixed :
      {k : ℕ} {is : List Item} {vs : List Value} (s : List ℕ)
      → Shaped is vs
      → Shaped (fixed k ∷ is) (str s ∷ vs)
  one_run :
      {is : List Item} {vs : List Value} (s : List ℕ)
      → Shaped is vs
      → Shaped (run ∷ is) (raw s ∷ vs)

Fits-Shaped : (is : List Item) (vs : List Value) → Fits is vs → Shaped is vs
Fits-Shaped [] [] h = done
Fits-Shaped (byte c ∷ is) vs (_, _, h) = skips (Fits-Shaped is vs h)
Fits-Shaped (int w ∷ is) (num v ∷ vs) (_, h) = one_int v (Fits-Shaped is vs h)
Fits-Shaped (ints w ∷ is) (vec l ∷ vs) (_, _, h) = one_vec l (Fits-Shaped is vs h)
Fits-Shaped (text ∷ is) (str s ∷ vs) (_, h) = one_text s (Fits-Shaped is vs h)
Fits-Shaped (fixed k ∷ is) (str s ∷ vs) (_, _, _, h) = one_fixed s (Fits-Shaped is vs h)
Fits-Shaped (run ∷ is) (raw s ∷ vs) (_, h) = one_run s (Fits-Shaped is vs h)
Fits-Shaped [] _ h = elim h [ ]
Fits-Shaped (int w ∷ is) _ h = elim h [ ]
Fits-Shaped (ints w ∷ is) _ h = elim h [ ]
Fits-Shaped (text ∷ is) _ h = elim h [ ]
Fits-Shaped (fixed k ∷ is) _ h = elim h [ ]
Fits-Shaped (run ∷ is) _ h = elim h [ ]

-- The messages that end the connection, and those that the client answers.
abbrev pub ends_connection : Message → Bool
ends_connection c_close = true
ends_connection e_incompatible = true
ends_connection e_busy = true
ends_connection e_unknown = true
ends_connection e_bad = true
ends_connection other = true
ends_connection _ = false

abbrev pub IsAnswered : Message → Type 0
IsAnswered q_info = Unit
IsAnswered c_keep_alive = Unit
IsAnswered _ = ⊥

act-ends_connection :
    (m : Message) (vs : List Value) (c : Client)
    → ¬ IsAnswered m
    → Shaped (payload_items m) vs
    → (act m vs c).0 ≡ not (ends_connection m)
unfolding act
act-ends_connection q_info vs c h s = absurd (h tt)
act-ends_connection c_keep_alive vs c h s = absurd (h tt)
act-ends_connection c_enter vs c h (one_int x (one_int y (one_int seq (one_int mask done)))) = refl
act-ends_connection c_leave vs c h s = refl
act-ends_connection c_close vs c h s = refl
act-ends_connection d_mouse_move vs c h (one_int x (one_int y done)) = refl
act-ends_connection d_mouse_rel_move vs c h (one_int x (one_int y done)) = refl
act-ends_connection d_mouse_down vs c h (one_int b done) = refl
act-ends_connection d_mouse_up vs c h (one_int b done) = refl
act-ends_connection d_mouse_wheel vs c h (one_int x (one_int y done)) = refl
act-ends_connection d_key_down vs c h (one_int id (one_int mask (one_int button done))) = refl
act-ends_connection d_key_up vs c h (one_int id (one_int mask (one_int button done))) = refl
act-ends_connection d_key_repeat vs c h
      (one_int id (one_int mask (one_int count (one_int button (one_text lang done))))) =
    refl
act-ends_connection d_key_down_lang vs c h
      (one_int id (one_int mask (one_int button (one_text lang done)))) =
    refl
act-ends_connection d_clipboard vs c h
      (one_int id (one_int seq (one_int mark (one_text content done)))) =
    refl
act-ends_connection e_incompatible vs c h (one_int a (one_int b done)) = refl
act-ends_connection e_busy vs c h s = refl
act-ends_connection _ vs c h s = refl

abbrev pub is_some {ℓ} : {A : Type ℓ} → Option A → Bool
is_some none = false
is_some (some a) = true

payload_items-IsFormat : (m : Message) → IsFormat (payload_items m)
payload_items-IsFormat c_enter = tt
payload_items-IsFormat _ = tt

-- The values that readf returns for a message's payload are of its items' types.
pub readf-Shaped :
    (m : Message) (s : Stream) (vs : List Value)
    → All IsByte (pending s)
    → (readf (payload_format m) s).0 ≡ some vs
    → Fits (payload_items m) vs
readf-Shaped m s vs bytes e =
    (readf-IsWire (payload_items m) s vs (payload_items-IsFormat m) bytes
      (ap (λ fmt. (readf fmt s).0) (render-payload_items m) ∙ e)).0

act_if_read-ends_connection :
    (m : Message) (o : Option (List Value)) (c : Client)
    → ¬ IsAnswered m
    → ((vs : List Value) → o ≡ some vs → Fits (payload_items m) vs)
    → (act_if_read m o c).0 ≡ not (ends_connection m) && is_some o
unfolding act_if_read
act_if_read-ends_connection m none c h fits = sym (and-false (not (ends_connection m)))
act_if_read-ends_connection m (some vs) c h fits =
    act-ends_connection m vs c h (Fits-Shaped _ vs (fits vs refl))
    ∙ sym (and-true (not (ends_connection m)))

handle-ends_connection :
    (m : Message) (key : List ℕ) (c : Client)
    → ¬ IsAnswered m
    → All IsByte (pending c.stream)
    → (handle m key c).0 ≡ not (ends_connection m) && is_some (readf (payload_format m) c.stream).0
unfolding handle
handle-ends_connection other key c h bytes = refl
handle-ends_connection c_enter key c h bytes =
    act_if_read-ends_connection c_enter _ _ h (λ vs. readf-Shaped c_enter c.stream vs bytes)
handle-ends_connection m key c h bytes =
    act_if_read-ends_connection m _ _ h (λ vs. readf-Shaped m c.stream vs bytes)

-- On bytes that the peer sent, handleMessage returns true for a message that asks for no answer exactly
-- if it is none of those that end the connection and its payload could be read.
pub handle_message-ends_connection :
    (key : List ℕ) (c : Client)
    → ¬ IsAnswered (classify key)
    → All IsByte (pending c.stream)
    → (handle_message key c).0
      ≡ not (ends_connection (classify key))
        && is_some (readf (payload_format (classify key)) c.stream).0
unfolding handle_message
handle_message-ends_connection key c h bytes = handle-ends_connection (classify key) key c h bytes
