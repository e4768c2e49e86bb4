-- ===== src/Client/Run/Threads.antt =====
-- The threads of entry/src/main/cpp/protocol/deskflow_client.cpp: the script's thread calls start(),
-- stop() and the rest of the client, while the detached worker of each successful start() goes
-- through run().
use deskflow_harmonyos.Base.{
  ℕ, suc, ◌+◌, ◌<◌, ◌≤◌, ◌≡◌, refl, sym, ap, ◌∙◌, Bool, true, false, arith, List, if◌then◌else◌, ℤ,
}
use deskflow_harmonyos.Client.{Client, connect_failed, handshake_ok, handshake_failed, set_status}
use deskflow_harmonyos.Client.Clipboard.{push_clipboard}
use deskflow_harmonyos.Client.Settings.{
  set_clipboard_callback, set_clipboard_sync, set_screen_size, set_invert_scroll,
  set_auto_reconnect,
}
use deskflow_harmonyos.Client.Session.{with_stream, handshake, message_round}
use deskflow_harmonyos.Client.Run.{
  Attempt, is_busy, set_off, stop, close_stream, dial, dialling, dialled, back_off, clear_running,
  report_end,
}
use deskflow_harmonyos.Client.Run.Running.{
  handshake-running, message_round-running, push_clipboard-running,
}

-- The shared client; the calls of start() that have passed its test and not yet stored into
-- m_running; the workers inside the loop of run(); those that have stored false in m_running and have
-- not yet looked at m_stopRequested behind it.
pub record System : Type 0 where
  pub client : Client
  pub tested : ℕ
  pub looping : ℕ
  pub leaving : ℕ

-- One step of a worker inside the loop of run(). The order is left open, which allows all that run()
-- does and more.
pub data Works (c : Client) : Client → Type 0 where
  resets : Works c (record c { should_reconnect = true })
  dials : (a : Attempt) → Works c (dialled a c)
  misses :
      (a : Attempt) → Works c (set_status connect_failed (with_stream (dial a c).1 (dialling c)))
  greets : Works c (handshake c).1
  agrees : Works c (set_status handshake_ok c)
  rejects : Works c (close_stream (set_status handshake_failed c))
  handles : Works c (message_round c).1
  hangs_up : Works c (close_stream c)
  waits : (a : Attempt) → Works c (back_off a c)

-- Any other call on the client.
pub data Calls (c : Client) : Client → Type 0 where
  stops : Calls c (stop c)
  pushes : (text : List ℕ) → Calls c (push_clipboard text c)
  registers : Calls c (set_clipboard_callback c)
  syncs : (enable : Bool) → Calls c (set_clipboard_sync enable c)
  resizes : (w h : ℤ) → Calls c (set_screen_size w h c)
  inverts : (invert : Bool) → Calls c (set_invert_scroll invert c)
  reconnects : (enable : Bool) (interval_ms : ℕ) → Calls c (set_auto_reconnect enable interval_ms c)

-- One step of one thread, where so many threads may be inside start() at a time.
pub data Step (callers : ℕ) : System → System → Type 0 where
  tests :
      {s : System}
      → s.tested < callers
      → is_busy s.client ≡ false
      → Step callers s (record s { tested = suc s.tested })
  refused : {s : System} → s.tested < callers → is_busy s.client ≡ true → Step callers s s
  sets :
      {s : System} (host : List ℕ) (port : ℕ) (name : List ℕ) (n : ℕ)
      → s.tested ≡ suc n
      → Step callers s (record s {
        client = set_off host port name s.client;
        tested = n;
        looping = suc s.looping;
      })
  calls : {s : System} (c : Client) → Calls s.client c → Step callers s (record s { client = c })
  works :
      {s : System} (c : Client) (n : ℕ)
      → s.looping ≡ suc n
      → Works s.client c
      → Step callers s (record s { client = c })
  leaves :
      {s : System} (n : ℕ)
      → s.looping ≡ suc n
      → Step callers s
          (record s { client = clear_running s.client; looping = n; leaving = suc s.leaving })
  reports :
      {s : System} (n : ℕ)
      → s.leaving ≡ suc n
      → Step callers s (record s { client = report_end s.client; leaving = n })

pub data Reach (callers : ℕ) : System → System → Type 0 where
  here : {s : System} → Reach callers s s
  more : {s t u : System} → Reach callers s t → Step callers t u → Reach callers s u

-- One worker in the loop while m_running holds, and none otherwise; none, too, behind the test of a
-- call of start() that is under way.
pub record OneWorker (s : System) : Type 0 where
  pub workers_are : s.looping ≡ (if s.client.running then 1 else 0)
  pub alone : s.tested + s.looping ≤ 1

Works-running : (c c' : Client) → Works c c' → c'.running ≡ c.running
unfolding set_status close_stream back_off stop
Works-running c _ resets = refl
Works-running c _ (dials a) = refl
Works-running c _ (misses a) = refl
Works-running c _ greets = handshake-running c
Works-running c _ agrees = refl
Works-running c _ rejects = refl
Works-running c _ handles = message_round-running c
Works-running c _ hangs_up = refl
Works-running c _ (waits a) = ground (arith)

Calls-running : (c c' : Client) → Calls c c' → c'.running ≡ c.running
unfolding stop set_clipboard_callback set_clipboard_sync set_screen_size set_invert_scroll
    set_auto_reconnect
Calls-running c _ stops = refl
Calls-running c _ (pushes text) = push_clipboard-running text c
Calls-running c _ registers = refl
Calls-running c _ (syncs enable) = refl
Calls-running c _ (resizes w h) = refl
Calls-running c _ (inverts invert) = refl
Calls-running c _ (reconnects enable interval_ms) = refl

report_end-running : (c : Client) → (report_end c).running ≡ c.running
unfolding set_status
report_end-running c = ground (arith)

-- Steps that touch neither m_running nor the counts.
as_before :
    (s : System) (c : Client) (k : ℕ)
    → c.running ≡ s.client.running
    → OneWorker s
    → OneWorker (record s { client = c; leaving = k })
as_before s c k e h = record {
  workers_are = h.workers_are ∙ ap (λ d. if d then 1 else 0) (sym e);
  alone = h.alone;
}

free : (b : Bool) (n : ℕ) → b ≡ false → n ≡ (if b then 1 else 0) → n ≡ 0
free b n e h = ground (arith)

Step-OneWorker :
    (callers : ℕ) (s t : System) → callers ≤ 1 → Step callers s t → OneWorker s → OneWorker t
Step-OneWorker callers s _ one (tests free_place quiet) h = record {
  workers_are = h.workers_are;
  alone = omega (arith, free s.client.running s.looping quiet h.workers_are);
}
Step-OneWorker callers s _ one (refused free_place busy) h = h
Step-OneWorker callers s _ one (sets host port name n e) h = record {
  workers_are = omega (arith, h.alone);
  alone = omega (arith, h.alone);
}
Step-OneWorker callers s _ one (calls c call) h =
    as_before s c s.leaving (Calls-running s.client c call) h
Step-OneWorker callers s _ one (works c n e work) h =
    as_before s c s.leaving (Works-running s.client c work) h
Step-OneWorker callers s _ one (leaves n e) h = record {
  workers_are = omega (arith, h.alone);
  alone = omega (arith, h.alone);
}
Step-OneWorker callers s _ one (reports n e) h = as_before s _ n (report_end-running s.client) h

later-OneWorker :
    (callers : ℕ) (s t : System) → callers ≤ 1 → Reach callers s t → OneWorker s → OneWorker t
later-OneWorker callers s _ one here h = h
later-OneWorker callers s u one (more {t = t} r step) h =
    Step-OneWorker callers t u one step (later-OneWorker callers s t one r h)

-- Where at most one thread is inside start() at a time: however the test and the store of start(),
-- the other calls on the client, the steps of the workers and the two halves of the end of run()
-- interleave, from a client with no worker on and no call of start() under way, exactly one worker
-- is in the loop of run() while m_running holds and none otherwise, and none while a call of
-- start() stands behind its test; so start() never adds a second one.
pub Reach-OneWorker :
    (callers : ℕ) (s t : System)
    → callers ≤ 1
    → s.client.running ≡ false
    → s.tested ≡ 0
    → s.looping ≡ 0
    → Reach callers s t
    → OneWorker t
Reach-OneWorker callers s t one quiet no_call none_yet r =
    later-OneWorker callers s t one r (record {
      workers_are = none_yet ∙ ap (λ d. if d then 1 else 0) (sym quiet);
      alone = omega arith;
    })
