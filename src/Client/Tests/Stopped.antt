-- ===== src/Client/Tests/Stopped.antt =====
-- A concrete client that is stopped in its wait, and one that reads a message.
use deskflow_harmonyos.Base.{
  ◌≡◌, refl, true, false, not, ◌&&◌, inl, inr, some, [], ◌∷◌, arith, codes,
}
use deskflow_harmonyos.Stream.{refuses}
use deskflow_harmonyos.Proto.Read.{readf}
use deskflow_harmonyos.Client.Messages.{handle_message, classify, payload_format}
use deskflow_harmonyos.Client.Messages.Payload.{
  ends_connection, is_some, handle_message-ends_connection,
}
use deskflow_harmonyos.Client.Run.{Attempt}
use deskflow_harmonyos.Client.Run.Stopped.{NoMore, run-NoMore, Ended, run-Ended}
use deskflow_harmonyos.Client.Tests.{client, attempt}

-- DMMV, whose payload has arrived.
handle_message-ends_connection_example :
    (handle_message (codes "DMMV") client).0
    ≡ not (ends_connection (classify (codes "DMMV")))
      && is_some (readf (payload_format (classify (codes "DMMV"))) client.stream).0
unfolding classify
handle_message-ends_connection_example =
    handle_message-ends_connection (codes "DMMV") client (λ h. h) (omega arith)

-- The address refuses, and stop() is called in the wait that follows.
abbrev refused : Attempt
refused = record {
  addresses = some (refuses ∷ []);
  recvs = [];
  sends = [];
  stop_in_connect = false;
  stop_in_wait = true;
}

run-NoMore_example : NoMore refused client
run-NoMore_example = run-NoMore refused client (inr (inl refl))

stopped : NoMore refused client
stopped = run-NoMore refused client (inr (inl refl))

run-Ended_example : Ended stopped.last
run-Ended_example =
    run-Ended (refused ∷ attempt ∷ []) client stopped.last (stopped.run_is attempt [])
