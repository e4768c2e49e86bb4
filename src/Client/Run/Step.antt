-- ===== src/Client/Run/Step.antt =====
-- One attempt of run() in entry/src/main/cpp/protocol/deskflow_client.cpp, by its outcome.
use deskflow_harmonyos.Base.{
  ◌≡◌, ap, Bool, true, not, ◌||◌, Option, none, some, List, ◌∷◌, if_false, if◌then◌else◌,
}
use deskflow_harmonyos.Client.{Client}
use deskflow_harmonyos.Client.Run.{Attempt, dial, dialled, serve, run_once, run, finish, back_off}

pub run_once-dialled :
    (a : Attempt) (c : Client) → (dial a c).0 ≡ true → run_once a c ≡ serve (dialled a c)
unfolding run_once
run_once-dialled a c e = if_false _ _ _ (ap not e)

-- run() behind an attempt and its outcome.
abbrev pub behind : Attempt → List Attempt → Bool × Client → Option Client
behind a later (again, c) =
    if not c.auto_reconnect || (not again || c.stream.stop_requested)
    then some (finish c)
    else run later (back_off a c)

abbrev pub fresh : Client → Client
fresh c = record c { should_reconnect = true }

pub run_step :
    (a : Attempt) (later : List Attempt) (c : Client) (r : Bool × Client)
    → run_once a (fresh c) ≡ some r
    → run (a ∷ later) c ≡ (if c.stream.stop_requested then some (finish c) else behind a later r)
unfolding run
run_step a later c r e =
    ap
      (λ o.
        if c.stream.stop_requested
        then some (finish c)
        else (elim o as (λ (_ : Option (Bool × Client)). Option Client) [
          | none ↦ none
          | some r ↦ behind a later r
        ]))
      e
