-- ===== src/Client/Tests/Threads.antt =====
-- A concrete client through start, stop and the end of its worker, and through a refused greeting.
use deskflow_harmonyos.Base.{◌≡◌, refl, true, false, some, [], ◌∷◌, ◌++◌, arith, codes}
use deskflow_harmonyos.Base.Word.{put_u16, put_u32}
use deskflow_harmonyos.Stream.{arrived, connects, connect, try_addresses, succeeds}
use deskflow_harmonyos.Proto.Format.{encode, big_endian}
use deskflow_harmonyos.Client.{Client, disconnected, set_status}
use deskflow_harmonyos.Client.Session.Hello.{Hears}
use deskflow_harmonyos.Client.Run.{Attempt, dialled, stop, set_off, clear_running, report_end}
use deskflow_harmonyos.Client.Run.Total.{run_once_total}
use deskflow_harmonyos.Client.Run.Running.{run_once-running}
use deskflow_harmonyos.Client.Run.Threads.{
  System, Reach, here, more, tests, sets, stops, calls, works, handles, leaves, reports, OneWorker,
  Reach-OneWorker,
}
use deskflow_harmonyos.Client.Session.{message_round}
use deskflow_harmonyos.Client.Run.Refusal.{GivesUp, run-GivesUp}
use deskflow_harmonyos.Client.Tests.{client, attempt}

run_once-running_example : (run_once_total attempt client).0.1.running ≡ client.running
run_once-running_example =
    run_once-running attempt client (run_once_total attempt client).0.0
      (run_once_total attempt client).0.1 (run_once_total attempt client).1

abbrev idle : System
idle = record { client = record client { running = false }; tested = 0; looping = 0; leaving = 0 }

abbrev begun : Client → Client
begun c = set_off (codes "10.0.0.1") 24800 (codes "pad") c

-- Started and stopped; the worker out of its loop while it handled a message; and started again in
-- front of that worker's report.
abbrev again : System
again = record {
  client = begun (clear_running (message_round (stop (begun idle.client))).1);
  tested = 0;
  looping = 1;
  leaving = 1;
}

idle-again : Reach 1 idle again
idle-again =
    more
      (more
        (more
          (more
            (more
              (more (more here (tests (omega arith) refl))
                (sets (codes "10.0.0.1") 24800 (codes "pad") 0 refl))
              (calls _ stops))
            (works _ 0 refl handles))
          (leaves 0 refl))
        (tests (omega arith) refl))
      (sets (codes "10.0.0.1") 24800 (codes "pad") 0 refl)

Reach-OneWorker_example : OneWorker again
Reach-OneWorker_example = Reach-OneWorker 1 idle again (omega arith) refl refl refl idle-again

-- The old worker's report in that state: "disconnected", while the new worker runs.
stale_report : Reach 1 idle (record again { client = report_end again.client; leaving = 0 })
stale_report = more idle-again (reports 0 refl)

stale_report_text :
    ((report_end (begun (clear_running (stop (begun idle.client))))).statuses ≡ disconnected ∷ [])
    × ((report_end (begun (clear_running (stop (begun idle.client))))).running ≡ true)
unfolding stop set_status
stale_report_text = (refl, refl)

-- With two threads inside start() at a time, both pass its test: two workers on one socket.
abbrev both_begun : System
both_begun = record { client = begun (begun idle.client); tested = 0; looping = 2; leaving = 0 }

two_callers : Reach 2 idle both_begun
two_callers =
    more
      (more (more (more here (tests (omega arith) refl)) (tests (omega arith) refl))
        (sets (codes "10.0.0.1") 24800 (codes "pad") 1 refl))
      (sets (codes "10.0.0.1") 24800 (codes "pad") 0 refl)

-- The first address takes the connection, to a server of version 2.9.
abbrev foreign : Attempt
foreign = record attempt {
  addresses = some (connects ∷ []);
  recvs = arrived 0 (0 ∷ 0 ∷ 11 ∷ (codes "Barrier" ++ (0 ∷ 2 ∷ 0 ∷ 9 ∷ []))) ∷ [];
}

foreign-Hears :
    Hears (dialled foreign (record client { should_reconnect = true })) (codes "Barrier") 2 9 []
unfolding connect try_addresses succeeds set_status encode big_endian put_u16 put_u32
foreign-Hears = record {
  name_is = refl;
  major_is = omega arith;
  minor_is = omega arith;
  connected_is = refl;
  drained = refl;
  next = refl;
}

run-GivesUp_example : GivesUp foreign client
unfolding connect try_addresses succeeds
run-GivesUp_example =
    run-GivesUp foreign client (codes "Barrier") 2 9 [] refl refl foreign-Hears (omega arith)
