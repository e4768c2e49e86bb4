-- ===== src/Client/Run/Stopped.antt =====
-- stop() and the worker of entry/src/main/cpp/protocol/deskflow_client.cpp: what becomes of a stop
-- request, and how run() ends.
use deskflow_harmonyos.Base.{
  ◌≡◌, refl, sym, ap, ◌∙◌, ◌⊎◌, inl, inr, Bool, true, false, not, ◌||◌, Option, none, some, List,
  [], ◌∷◌, ◌++◌, Bool-cases, if_both, if_true, if◌then◌else◌, arith,
}
use mathlib.Core.Option.{some-injective, none-ne-some}
use mathlib.Core.Path.{subst}
use deskflow_harmonyos.Stream.Stopping.{write_frame-stop_requested, connect-stop_requested}
use deskflow_harmonyos.Client.{Client, Status, disconnected, set_status}
use deskflow_harmonyos.Client.Input.Channel.{
  On, inject_mouse_move-On, inject_mouse_wheel-On, inject_mouse_button-On, inject_key_event-On,
}
use deskflow_harmonyos.Client.Messages.Stable.{Stable}
use deskflow_harmonyos.Client.Run.Step.{behind, fresh, run_step}
use deskflow_harmonyos.Client.Run.Total.{run_once_total}
use deskflow_harmonyos.Client.Run.{halted, finish, back_off, run, stop, Attempt, run_once}
use deskflow_harmonyos.Client.Session.Lasting.{Lasting}
use deskflow_harmonyos.Client.Run.Lasting.{run_once-Lasting, dialled-Lasting}

abbrev pub IsToStop : Client → Type 0
IsToStop c = c.stream.stop_requested ≡ true

injected : (c : Client) (r : Bool × Client) → On c r → IsToStop c → IsToStop r.1
injected c r o h = ap (λ w. w.0.stop_requested) o.same ∙ h

IsToStop-Stable : Stable IsToStop
IsToStop-Stable = record {
  same = λ c c' e h. subst (λ w. w.0.stop_requested ≡ true) e h;
  no_buttons = λ c h. h;
  writes = λ bytes c h. write_frame-stop_requested bytes c.stream h;
  move = λ x y c h. injected c _ (inject_mouse_move-On x y c) h;
  wheel = λ dx dy c h. injected c _ (inject_mouse_wheel-On dx dy c) h;
  button = λ n down c h. injected c _ (inject_mouse_button-On n down c) h;
  key = λ k down c h. injected c _ (inject_key_event-On k down c) h;
}

IsToStop-Lasting : Lasting IsToStop
IsToStop-Lasting = record {
  stable = IsToStop-Stable;
  moves = λ s c follows h. follows h;
  closing = λ c h. h;
}

-- A stop request that stands when a connection begins stands when it has ended.
pub run_once-IsToStop :
    (a : Attempt) (c : Client) (again : Bool) (c' : Client)
    → run_once a c ≡ some (again, c')
    → IsToStop c
    → IsToStop c'
run_once-IsToStop = run_once-Lasting IsToStop IsToStop-Lasting

-- A stop that is asked for while connect() is under way stands when the connection has ended.
run_once-stop_in_connect :
    (a : Attempt) (c : Client) (again : Bool) (c' : Client)
    → run_once a c ≡ some (again, c')
    → a.stop_in_connect ≡ true
    → IsToStop c'
unfolding halted
run_once-stop_in_connect a c again c' e h =
    dialled-Lasting IsToStop IsToStop-Lasting a c again c' e
      (connect-stop_requested a.addresses _ (rw h refl))

-- How run() has ended: the worker is marked as gone; either a stop was asked for, or the last thing
-- reported is "disconnected".
pub record Ended (c : Client) : Type 0 where
  pub not_running : c.running ≡ false
  pub reported :
      IsToStop c ⊎ ((earlier : List Status) × (c.statuses ≡ earlier ++ (disconnected ∷ [])))

finish-Ended : (c : Client) → Ended (finish c)
unfolding finish set_status
finish-Ended c = elim (Bool-cases c.stream.stop_requested) [
  | inl stops ↦ rw stops (record { not_running = refl; reported = inl refl })
  | inr quiet ↦ rw quiet (record { not_running = refl; reported = inr (c.statuses, refl) })
]

no_attempts : (c : Client) → run [] c ≡ none
unfolding run
no_attempts c = refl

record MayEnd (o : Option Client) : Type 0 where
  ended : (c : Client) → o ≡ some c → Ended c

finished-MayEnd : (c : Client) → MayEnd (some (finish c))
finished-MayEnd c = record { ended = λ c' e. subst Ended (some-injective _ _ e) (finish-Ended c) }

run-MayEnd : (attempts : List Attempt) (c : Client) → MayEnd (run attempts c)
run-MayEnd [] c = record { ended = λ c' e. absurd (none-ne-some c' (sym (no_attempts c) ∙ e)) }
run-MayEnd (a ∷ later) c =
    let ((again, c'), e) = run_once_total a (fresh c) in
    rw (run_step a later c (again, c') e) (
      if_both MayEnd c.stream.stop_requested (finished-MayEnd c) (
        if_both MayEnd (not c'.auto_reconnect || (not again || c'.stream.stop_requested))
          (finished-MayEnd c') (run-MayEnd later (back_off a c'))))

-- However often the worker connects, when run() ends it has marked itself as gone, and either a stop
-- was asked for or the last status that it reported is "disconnected".
pub run-Ended : (attempts : List Attempt) (c c' : Client) → run attempts c ≡ some c' → Ended c'
run-Ended attempts c c' e = (run-MayEnd attempts c).ended c' e

-- An attempt in which a stop is asked for: while connect() is under way, or such that the request
-- stands when the connection has ended, or in the wait that follows.
abbrev pub IsStopped : Attempt → Client → Type 0
IsStopped a c =
    (a.stop_in_connect ≡ true)
    ⊎ ((a.stop_in_wait ≡ true)
        ⊎ ((r : Bool × Client) → run_once a (fresh c) ≡ some r → IsToStop r.1))

-- The end of run() that the network's later attempts have no part in.
pub record NoMore (a : Attempt) (c : Client) : Type 0 where
  pub last : Client
  pub run_is : (b : Attempt) (later : List Attempt) → run (a ∷ b ∷ later) c ≡ some last
  pub ended : Ended last

-- A worker that is asked to stop does not begin another connection.
run-stopped :
    (b : Attempt) (later : List Attempt) (c : Client)
    → IsToStop c
    → run (b ∷ later) c ≡ some (finish c)
unfolding run
run-stopped b later c h = if_true _ _ _ h

back_off-IsToStop : (a : Attempt) (c : Client) → a.stop_in_wait ≡ true → IsToStop (back_off a c)
unfolding back_off stop
back_off-IsToStop a c h = rw h refl

some_either : (b : Bool) (x y : Client) → (if b then some x else some y) ≡ some (if b then x else y)
some_either true x y = refl
some_either false x y = refl

-- What run() ends with behind an attempt that is stopped.
abbrev end_of : Attempt → Bool × Client → Client
end_of a (again, c) =
    if not c.auto_reconnect || (not again || c.stream.stop_requested)
    then finish c
    else finish (back_off a c)

behind-end_of :
    (a b : Attempt) (later : List Attempt) (r : Bool × Client)
    → (a.stop_in_wait ≡ true) ⊎ IsToStop r.1
    → behind a (b ∷ later) r ≡ some (end_of a r)
behind-end_of a b later (again, c) h =
    elim (Bool-cases (not c.auto_reconnect || (not again || c.stream.stop_requested))) [
      | inl over ↦ rw over refl
      | inr on ↦ rw on (elim h [
        | inl waits ↦ run-stopped b later (back_off a c) (back_off-IsToStop a c waits)
        | inr stops ↦ absurd (ground arith)
      ])
    ]

-- A stop that is asked for while an attempt connects, that stands when the attempt has ended, or that
-- is asked for in the wait behind it, ends run(): whatever the network
-- would have in store, no later connection is made, the worker marks itself as gone, and what it
-- ends with is the same.
pub run-NoMore : (a : Attempt) (c : Client) → IsStopped a c → NoMore a c
run-NoMore a c h =
    let (r, e) = run_once_total a (fresh c) in
    let stops : (a.stop_in_wait ≡ true) ⊎ IsToStop r.1 = elim h [
      | inl connects ↦ inr (run_once-stop_in_connect a (fresh c) r.0 r.1 e connects)
      | inr (inl waits) ↦ inl waits
      | inr (inr stands) ↦ inr (stands r e)
    ] in
    let last = if c.stream.stop_requested then finish c else end_of a r in
    let run_is : (b : Attempt) (later : List Attempt) → run (a ∷ b ∷ later) c ≡ some last =
      λ b later.
        run_step a (b ∷ later) c r e
        ∙ (ap (λ o. if c.stream.stop_requested then some (finish c) else o)
              (behind-end_of a b later r stops)
            ∙ some_either c.stream.stop_requested (finish c) (end_of a r)) in
    record { last = last; run_is = run_is; ended = run-Ended (a ∷ a ∷ []) c last (run_is a []) }
