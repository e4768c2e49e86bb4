-- ===== src/Client/Run/Refusal.antt =====
-- run() of entry/src/main/cpp/protocol/deskflow_client.cpp with a server of another major version.
use deskflow_harmonyos.Base.{
  ℕ, ◌≡◌, ◌≢◌, ap, ◌∙◌, true, false, not, ◌||◌, some, List, ◌∷◌, arith, if_true, if_false,
}
use deskflow_harmonyos.Client.{Client, set_status, handshake_failed}
use deskflow_harmonyos.Client.Session.{handshake}
use deskflow_harmonyos.Client.Session.Hello.{Hears}
use deskflow_harmonyos.Client.Session.Greeting.{handshake_refuses}
use deskflow_harmonyos.Client.Run.Step.{fresh, run_step, run_once-dialled}
use deskflow_harmonyos.Client.Run.{
  Attempt, dial, dialled, serve, run_once, run, finish, close_stream,
}

abbrev refused : Client → Client
refused c = close_stream (set_status handshake_failed (handshake c).1)

serve-refused :
    (c : Client)
    → (handshake c).0 ≡ false
    → (handshake c).1.should_reconnect ≡ false
    → serve c ≡ some (false, refused c)
unfolding serve set_status close_stream
serve-refused c e no_more = if_true _ _ _ (ap not e) ∙ ap (λ again. some (again, refused c)) no_more

-- run() behind an attempt that says not to come back.
run_given_up :
    (a : Attempt) (later : List Attempt) (c c' : Client)
    → c.stream.stop_requested ≡ false
    → run_once a (fresh c) ≡ some (false, c')
    → run (a ∷ later) c ≡ some (finish c')
run_given_up a later c c' quiet e =
    let over : (not c'.auto_reconnect || (not false || c'.stream.stop_requested)) ≡ true =
      (ground arith) in
    run_step a later c (false, c') e ∙ (if_false _ _ _ quiet ∙ if_true _ _ _ over)

finish-running : (c : Client) → (finish c).running ≡ false
unfolding finish set_status
finish-running c = ground (arith)

-- The end of run() that no later attempt changes.
pub record GivesUp (a : Attempt) (c : Client) : Type 0 where
  pub ended : Client
  pub run_is : (later : List Attempt) → run (a ∷ later) c ≡ some ended
  pub running_is : ended.running ≡ false

-- Where nobody asks to stop, the connection is made, and the server greets with another major
-- version, run() ends with that attempt, whatever attempts would still be allowed, and even where
-- automatic reconnection is switched on.
pub run-GivesUp :
    (a : Attempt) (c : Client) (name : List ℕ) (major minor : ℕ) (rest : List ℕ)
    → c.stream.stop_requested ≡ false
    → (dial a c).0 ≡ true
    → Hears (dialled a (fresh c)) name major minor rest
    → major ≢ 1
    → GivesUp a c
unfolding set_status
run-GivesUp a c name major minor rest quiet made h other =
    let fresh : Client = fresh c in
    let (failed, no_more, _) = handshake_refuses (dialled a fresh) name major minor rest h other in
    let once = run_once-dialled a fresh made ∙ serve-refused (dialled a fresh) failed no_more in
    record {
      ended = finish (refused (dialled a fresh));
      run_is = λ later. run_given_up a later c (refused (dialled a fresh)) quiet once;
      running_is = finish-running (refused (dialled a fresh));
    }
