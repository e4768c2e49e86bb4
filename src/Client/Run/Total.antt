-- ===== src/Client/Run/Total.antt =====
-- One connection of DeskflowClient::runOnce always comes to an end.
use deskflow_harmonyos.Base.{
  suc, ◌≡◌, refl, ap, Bool, not, Option, some, arith, if◌then◌else◌, if_both,
}
use deskflow_harmonyos.Stream.Supply.{reserve_of}
use deskflow_harmonyos.Client.{Client, set_status, handshake_ok}
use deskflow_harmonyos.Client.Session.{handshake}
use deskflow_harmonyos.Client.Session.Progress.{message_loop_total}
use deskflow_harmonyos.Client.Run.{Attempt, hang_up, serve, run_once}

record Ends (o : Option (Bool × Client)) : Type 0 where
  outcome : Bool × Client
  ends : o ≡ some outcome

either-Ends :
    (b : Bool) {x y : Option (Bool × Client)} → Ends x → Ends y → Ends (if b then x else y)
either-Ends b h k = if_both Ends b h k

serve-Ends : (c : Client) → Ends (serve c)
unfolding serve hang_up
serve-Ends c =
    let greeted = set_status handshake_ok (handshake c).1 in
    let (left, e) = (message_loop_total (suc (reserve_of greeted.stream)) greeted (omega arith)) in
    either-Ends (not (handshake c).0) (record { outcome = _; ends = refl })
      (record { outcome = _; ends = ap hang_up e })

run_once-Ends : (a : Attempt) (c : Client) → Ends (run_once a c)
unfolding run_once
run_once-Ends a c = either-Ends (not _) (record { outcome = _; ends = refl }) (serve-Ends _)

-- runOnce always comes to an end: whatever the network and the platform have in store, the rounds
-- allowed to its message loop, one more than the bytes that the connection can still give, are
-- enough, and it says whether to connect again.
pub run_once_total : (a : Attempt) (c : Client) → (r : Bool × Client) × (run_once a c ≡ some r)
run_once_total a c = ((run_once-Ends a c).outcome, (run_once-Ends a c).ends)
