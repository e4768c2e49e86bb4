-- ===== src/Client/Run/Running.antt =====
-- m_running through a whole connection of entry/src/main/cpp/protocol/deskflow_client.cpp, through its
-- rounds and through the uploads of the clipboard.
use deskflow_harmonyos.Base.{
  ◌≡◌, refl, Bool, false, some, ℕ, List, [], ◌∷◌, ◌||◌, not, is_empty, if_both,
}
use deskflow_harmonyos.Client.{Client}
use deskflow_harmonyos.Client.Messages.Running.{RunsAs, RunsAs-Stable}
use deskflow_harmonyos.Client.Clipboard.{
  send_part, send_chunks, and_then, mark_start, mark_chunk, mark_end, send_clipboard,
  grab_clipboard, push_clipboard,
}
use deskflow_harmonyos.Client.Session.{handshake, message_round}
use deskflow_harmonyos.Client.Run.{Attempt, run_once}
use deskflow_harmonyos.Client.Session.Lasting.{
  Lasting, After, send_message-After, handshake-After, message_round-After,
}
use deskflow_harmonyos.Client.Run.Lasting.{run_once-Lasting}

pub RunsAs-Lasting : (b : Bool) → Lasting (RunsAs b)
RunsAs-Lasting b = record {
  stable = RunsAs-Stable b;
  moves = λ s c follows h. h;
  closing = λ c h. h;
}

-- However a connection goes, and whatever its messages do, runOnce leaves m_running as it was: only
-- start() and the end of run() store into it.
pub run_once-running :
    (a : Attempt) (c : Client) (again : Bool) (c' : Client)
    → run_once a c ≡ some (again, c')
    → c'.running ≡ c.running
run_once-running a c again c' e =
    run_once-Lasting (RunsAs c.running) (RunsAs-Lasting c.running) a c again c' e refl

pub handshake-running : (c : Client) → (handshake c).1.running ≡ c.running
handshake-running c = (handshake-After (RunsAs c.running) (RunsAs-Lasting c.running) c refl).inv

pub message_round-running : (c : Client) → (message_round c).1.running ≡ c.running
message_round-running c =
    (message_round-After (RunsAs c.running) (RunsAs-Lasting c.running) c refl).inv

-- The uploads.
send_part-After :
    (b : Bool) (mark : ℕ) (content : List ℕ) (c : Client)
    → RunsAs b c
    → After (RunsAs b) (send_part mark content c)
unfolding send_part
send_part-After b mark content c h = send_message-After (RunsAs b) (RunsAs-Lasting b) _ _ c h

and_then-After :
    (b : Bool) (r : Bool × Client) (f : Client → Bool × Client)
    → After (RunsAs b) r
    → ((c : Client) → RunsAs b c → After (RunsAs b) (f c))
    → After (RunsAs b) (and_then r f)
unfolding and_then
and_then-After b (ok, c) f h k =
    if_both (After (RunsAs b)) ok {y = (false, c)} (k c h.inv) (record { inv = h.inv })

send_chunks-After :
    (b : Bool) (xs : List (List ℕ)) (c : Client) → RunsAs b c → After (RunsAs b) (send_chunks xs c)
unfolding send_chunks
send_chunks-After b [] c h = record { inv = h }
send_chunks-After b (x ∷ xs) c h =
    let (ok, c') = send_part mark_chunk x c in
    let sent = (send_part-After b mark_chunk x c h).inv in
    if_both (After (RunsAs b)) ok {y = (false, c')} (send_chunks-After b xs c' sent)
      (record { inv = sent })

send_clipboard-After :
    (b : Bool) (text : List ℕ) (c : Client) → RunsAs b c → After (RunsAs b) (send_clipboard text c)
unfolding send_clipboard
send_clipboard-After b text c h =
    if_both (After (RunsAs b)) (not c.handshake_done || is_empty text) {x = (false, c)}
      (record { inv = h })
      (and_then-After b _ _
        (and_then-After b _ _ (send_part-After b mark_start _ _ h) (send_chunks-After b _))
        (send_part-After b mark_end []))

grab_clipboard-After : (b : Bool) (c : Client) → RunsAs b c → After (RunsAs b) (grab_clipboard c)
unfolding grab_clipboard
grab_clipboard-After b c h =
    if_both (After (RunsAs b)) (not c.handshake_done) {x = (false, c)} (record { inv = h })
      (send_message-After (RunsAs b) (RunsAs-Lasting b) _ _ c h)

pub push_clipboard-running :
    (text : List ℕ) (c : Client) → (push_clipboard text c).running ≡ c.running
unfolding push_clipboard
push_clipboard-running text c =
    let b = c.running in
    if_both (RunsAs b) (not c.clipboard_sync || (not c.handshake_done || is_empty text)) {x = c}
      refl
      (send_clipboard-After b text (grab_clipboard c).1 (grab_clipboard-After b c refl).inv).inv
