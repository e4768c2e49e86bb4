-- ===== src/Client/Run/Return.antt =====
-- Whether runOnce of entry/src/main/cpp/protocol/deskflow_client.cpp asks to connect again, and what
-- run() makes of it.
use deskflow_harmonyos.Base.{
  ℕ, ◌≡◌, refl, ap, ◌∙◌, Bool, true, false, not, ◌&&◌, ◌||◌, arith, some, List, [], ◌∷◌, All,
  if_false,
}
use deskflow_harmonyos.Stream.{close}
use deskflow_harmonyos.Client.{Client, set_status}
use deskflow_harmonyos.Client.Messages.Stable.Act.{Closes}
use deskflow_harmonyos.Client.Messages.Return.{ReturnsAs, ReturnsAs-Stable, AutoAs, AutoAs-Stable}
use deskflow_harmonyos.Client.Session.Kept.{Allows, Performs-P}
use deskflow_harmonyos.Client.Session.Lasting.{Lasting}
use deskflow_harmonyos.Client.Run.Lasting.{handshake-Lasting}
use deskflow_harmonyos.Client.Session.{handshake}
use deskflow_harmonyos.Client.Session.Packet.{Packet, message_of}
use deskflow_harmonyos.Client.Run.{
  Attempt, serve, hang_up, close_stream, dial, dialled, run, back_off,
}
use deskflow_harmonyos.Client.Run.Step.{fresh, run_step, run_once-dialled}
use deskflow_harmonyos.Client.Run.Service.{Attends, greeted}

-- Neither CBYE nor EICV.
abbrev pub IsHarmless : Packet → Type 0
IsHarmless p = ¬ Closes (message_of p)

-- Messages that are neither keep the word on reconnection, if the client enters the loop with it.
harmless_allowed : (ps : List Packet) (b : Bool) → All IsHarmless ps → All (Allows (ReturnsAs b)) ps
harmless_allowed [] b h = tt
harmless_allowed (p ∷ ps) b (h, more) = (λ closes. absurd (h closes), harmless_allowed ps b more)

auto_allowed : (ps : List Packet) (b : Bool) → All (Allows (AutoAs b)) ps
auto_allowed [] b = tt
auto_allowed (p ∷ ps) b = (λ closes c h. h, auto_allowed ps b)

-- A connection of runOnce that has ended at one of the server's messages, none of them CBYE or EICV,
-- where the handshake has left the word on reconnection standing: runOnce closes the socket and asks
-- to connect again.
pub serve_returns :
    (tail : List ℕ) (ps : List Packet) (c : Client) (a : Attends tail ps c)
    → a.going ≡ false
    → (handshake c).1.should_reconnect ≡ true
    → All IsHarmless ps
    → serve c ≡ some (true, close_stream a.after)
unfolding hang_up close_stream set_status close
serve_returns tail ps c a over wanted harmless =
    let kept =
      Performs-P (ReturnsAs (handshake c).1.should_reconnect) (ReturnsAs-Stable _) (λ s d h. h) tail
        ps (greeted c) a.going a.after (harmless_allowed ps _ harmless) a.performs refl in
    let again : (not a.after.stream.stop_requested && a.after.should_reconnect) ≡ true =
      (ap (λ b. not b && a.after.should_reconnect) a.quiet ∙ (kept ∙ wanted)) in
    a.serve_is ∙ (ap hang_up (if_false _ _ _ over) ∙ ap (λ b. some (b, close_stream a.after)) again)

AutoAs-Lasting : (b : Bool) → Lasting (AutoAs b)
AutoAs-Lasting b = record {
  stable = AutoAs-Stable b;
  moves = λ s c follows h. h;
  closing = λ c h. h;
}

-- No message and no greeting stores into m_autoReconnect.
after_auto :
    (tail : List ℕ) (ps : List Packet) (c : Client) (a : Attends tail ps c)
    → a.after.auto_reconnect ≡ c.auto_reconnect
unfolding set_status
after_auto tail ps c a =
    let b = c.auto_reconnect in
    Performs-P (AutoAs b) (AutoAs-Stable b) (λ s d h. h) tail ps (greeted c) a.going a.after
      (auto_allowed ps b) a.performs (handshake-Lasting (AutoAs b) (AutoAs-Lasting b) c refl)

-- A connection of run() that has ended at one of the server's messages, none of them CBYE or EICV, with
-- automatic reconnection switched on, nobody asking to stop, and the handshake having left the word
-- on reconnection standing: run() closes the socket, waits, and goes on with its next attempt.
pub run_returns :
    (tail : List ℕ) (ps : List Packet) (a : Attempt) (later : List Attempt) (c : Client)
    (served : Attends tail ps (dialled a (fresh c)))
    → c.stream.stop_requested ≡ false
    → (dial a c).0 ≡ true
    → served.going ≡ false
    → (handshake (dialled a (fresh c))).1.should_reconnect ≡ true
    → All IsHarmless ps
    → c.auto_reconnect ≡ true
    → run (a ∷ later) c ≡ run later (back_off a (close_stream served.after))
unfolding close_stream close set_status
run_returns tail ps a later c served calm made over wanted harmless on =
    let once =
      run_once-dialled a (fresh c) made
      ∙ serve_returns tail ps (dialled a (fresh c)) served over wanted harmless in
    let calm_after = served.quiet in
    let still = after_auto tail ps (dialled a (fresh c)) served ∙ on in
    let again : (not served.after.auto_reconnect
          || (not true || served.after.stream.stop_requested))
        ≡ false =
      ground arith in
    run_step a later c (true, close_stream served.after) once
    ∙ (if_false _ _ _ calm ∙ if_false _ _ _ again)
