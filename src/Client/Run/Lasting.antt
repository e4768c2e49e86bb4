-- ===== src/Client/Run/Lasting.antt =====
-- What a whole connection of entry/src/main/cpp/protocol/deskflow_client.cpp keeps.
use deskflow_harmonyos.Base.{
  if◌then◌else◌, suc, ◌≡◌, refl, Bool, false, Option, none, some, true, if_both, not,
}
use deskflow_harmonyos.Stream.{close}
use deskflow_harmonyos.Stream.Stopping.{connect-stop_requested}
use deskflow_harmonyos.Stream.Supply.{reserve_of}
use mathlib.Core.Path.{subst}
use deskflow_harmonyos.Client.{
  Client, set_status, connect_failed, handshaking, handshake_ok, handshake_failed,
}
use deskflow_harmonyos.Client.Session.{with_stream, handshake}
use deskflow_harmonyos.Client.Run.{
  Attempt, close_stream, hang_up, serve, run_once, dial, dialling, halted,
}
use deskflow_harmonyos.Client.Session.Lasting.{
  Follows, Lasting, Gives, set_status-After, message_loop-Gives, handshake-After,
}

abbrev Left : (Client → Type 0) → Option (Bool × Client) → Type 0
Left P none = Unit
Left P (some r) = P r.1

record Leaves (P : Client → Type 0) (o : Option (Bool × Client)) : Type 0 where
  inv : Left P o

called_either :
    (b : Bool) (c : Client)
    → c.stream.stop_requested ≡ true
    → (if b then halted c.stream else c.stream).stop_requested ≡ true
unfolding halted
called_either true c h = refl
called_either false c h = h

module _ (P : Client → Type 0) (lasting : Lasting P) where
  open lasting use {stable, moves, closing}

  pub handshake-Lasting : (c : Client) → P c → P (handshake c).1
  handshake-Lasting c h = (handshake-After P lasting c h).inv

  close_stream-P : (c : Client) → P c → P (close_stream c)
  unfolding close_stream close
  close_stream-P c h = moves (close c.stream) c (λ e. e) h

  hang_up-Leaves : (o : Option Client) → Gives P o → Leaves P (hang_up o)
  unfolding hang_up
  hang_up-Leaves none h = record { inv = tt }
  hang_up-Leaves (some c) h = record { inv = close_stream-P c h.inv }

  serve-Leaves : (c : Client) → P c → Leaves P (serve c)
  unfolding serve
  serve-Leaves c h =
      let (ok, c') = handshake c in
      let shaken = (handshake-After P lasting c h).inv in
      let greeted : Client = set_status handshake_ok c' in
      let refused : Client = close_stream (set_status handshake_failed c') in
      if_both (Leaves P) (not ok) {x = some (refused.should_reconnect, refused)}
        (record {
          inv =
              close_stream-P (set_status handshake_failed c')
                (set_status-After P lasting ok _ c' shaken).inv;
        })
        (hang_up-Leaves _ (
          message_loop-Gives P lasting (suc (reserve_of greeted.stream)) greeted
            (set_status-After P lasting ok _ c' shaken).inv))

  -- connect() is given a stream on which a request stands that stood before.
  dial-Follows : (a : Attempt) (c : Client) → Follows c.stream (dial a c).1
  unfolding halted
  dial-Follows a c h = connect-stop_requested a.addresses _ (called_either a.stop_in_connect c h)

  dialled-Leaves :
      (a : Attempt) (c : Client)
      → P (with_stream (dial a c).1 (dialling c))
      → Leaves P (run_once a c)
  unfolding run_once
  dialled-Leaves a c h =
      let reached = with_stream (dial a c).1 (dialling c) in
      if_both (Leaves P) (not (dial a c).0) {x = some (true, set_status connect_failed reached)}
        (record { inv = (set_status-After P lasting true connect_failed reached h).inv })
        (serve-Leaves (set_status handshaking reached)
          (set_status-After P lasting true handshaking reached h).inv)

  -- Where P holds behind connect(), runOnce leaves a client with P.
  pub dialled-Lasting :
      (a : Attempt) (c : Client) (again : Bool) (c' : Client)
      → run_once a c ≡ some (again, c')
      → P (with_stream (dial a c).1 (dialling c))
      → P c'
  dialled-Lasting a c again c' e h = subst (Left P) e (dialled-Leaves a c h).inv

  -- Where runOnce starts from a client with P, it leaves one with P.
  pub run_once-Lasting :
      (a : Attempt) (c : Client) (again : Bool) (c' : Client)
      → run_once a c ≡ some (again, c')
      → P c
      → P c'
  unfolding set_status
  run_once-Lasting a c again c' e h =
      dialled-Lasting a c again c' e
        (moves (dial a c).1 (dialling c) (dial-Follows a c) (stable.same c (dialling c) refl h))
