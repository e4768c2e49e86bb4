-- ===== src/Bridge/Control/Connect.antt =====
-- connectDeskflow of entry/src/main/cpp/napi_init.cpp against a worker that ends in time, or not.
use deskflow_harmonyos.Base.{
  ℕ, zero, suc, ◌≤◌, ◌≡◌, refl, ap, ◌∙◌, true, false, Bool-cases, inl, inr, arith, if_true,
  if_false, pos, [],
}
use deskflow_harmonyos.Client.{Client}
use deskflow_harmonyos.Client.Settings.{set_screen_size, set_clipboard_callback}
use deskflow_harmonyos.Client.Run.{start, stop}
use deskflow_harmonyos.Bridge.{Bridge, Answer, whole}
use deskflow_harmonyos.Bridge.Control.{
  ConnectArgs, Meanwhile, wait_for_worker, max_pauses, connect_deskflow, connect_now, with_client,
  starting_text, retry_text, read_or, c_string, to_u16,
}

-- The client after the first `k` pauses from pause `i` on.
abbrev pub paused : ℕ → Meanwhile → ℕ → Client → Client
paused zero meanwhile i c = c
paused (suc k) meanwhile i c = paused k meanwhile (suc i) (meanwhile i c)

-- A worker that has ended after `k` pauses is gone when the wait is over.
wait_for_worker_quiet :
    (n k : ℕ) (m : Meanwhile) (i : ℕ) (c : Client)
    → k ≤ n
    → (paused k m i c).running ≡ false
    → (wait_for_worker n m i c).running ≡ false
unfolding wait_for_worker
wait_for_worker_quiet zero zero m i c h e = e
wait_for_worker_quiet zero (suc k) m i c h e = absurd (omega arith)
wait_for_worker_quiet (suc n) zero m i c h e = ap (λ (d : Client). d.running) (if_false _ _ _ e) ∙ e
wait_for_worker_quiet (suc n) (suc k) m i c h e = elim (Bool-cases c.running) [
  | inl running ↦
      ap (λ (d : Client). d.running) (if_true _ _ _ running)
      ∙ wait_for_worker_quiet n k m (suc i) (m i c) (omega arith) e
  | inr rests ↦ ap (λ (d : Client). d.running) (if_false _ _ _ rests) ∙ rests
]

wait_for_worker-paused :
    (n : ℕ) (m : Meanwhile) (i : ℕ) (c : Client)
    → ((k : ℕ) → k ≤ n → (paused k m i c).running ≡ true)
    → wait_for_worker n m i c ≡ paused n m i c
unfolding wait_for_worker
wait_for_worker-paused zero m i c h = refl
wait_for_worker-paused (suc n) m i c h =
    if_true _ _ _ (h 0 (omega arith))
    ∙ wait_for_worker-paused n m (suc i) (m i c) (λ k le. h (suc k) (omega arith))

-- A connection that connectDeskflow has started: the answer, and the client that the new worker
-- gets.
pub record Started (a : ConnectArgs) (r : Answer × Bridge) : Type 0 where
  pub answer_is : r.0 ≡ whole (starting_text a)
  pub running_is : r.1.client.running ≡ true
  pub stop_is : r.1.client.stream.stop_requested ≡ false
  pub host_is : r.1.client.host ≡ c_string (read_or [] a.host)
  pub port_is : r.1.client.port ≡ to_u16 (read_or (pos 24800) a.port)
  pub name_is : r.1.client.screen_name ≡ c_string (read_or [] a.name)
  pub wide_is : r.1.client.screen_w ≡ read_or (pos 1280) a.screen_w
  pub high_is : r.1.client.screen_h ≡ read_or (pos 800) a.screen_h
  pub clipboard_is : r.1.client.has_clipboard_callback ≡ true
  pub reports_is : r.1.reports_status ≡ true

connect_now-Started :
    (a : ConnectArgs) (b : Bridge) → b.client.running ≡ false → Started a (connect_now a b)
unfolding connect_now start set_screen_size set_clipboard_callback
connect_now-Started a b h = rw h (record {
  answer_is = refl;
  running_is = refl;
  stop_is = refl;
  host_is = refl;
  port_is = refl;
  name_is = refl;
  wide_is = refl;
  high_is = refl;
  clipboard_is = refl;
  reports_is = refl;
})

-- A worker that ends within the fifteen pauses of connectDeskflow's wait makes way: the new
-- connection is started with the arguments' host, name, screen and port (modulo 2 ^ 16), the stop
-- request is withdrawn, and "client already running" is never the answer.
pub connect_deskflow-Started :
    (m : Meanwhile) (a : ConnectArgs) (b : Bridge) (k : ℕ)
    → k ≤ 15
    → (paused k m 0 (stop b.client)).running ≡ false
    → Started a (connect_deskflow m a b)
unfolding connect_deskflow
connect_deskflow-Started m a b k h e =
    connect_now-Started a (with_client (wait_for_worker max_pauses m 0 (stop b.client)) b)
      (wait_for_worker_quiet max_pauses k m 0 (stop b.client) h e)

-- A worker that outlasts the wait keeps the client: connectDeskflow asks to retry, takes none of the
-- arguments, and the client is what the worker made of the stopped one.
pub connect_deskflow_retries :
    (m : Meanwhile) (a : ConnectArgs) (b : Bridge)
    → ((k : ℕ) → k ≤ 15 → (paused k m 0 (stop b.client)).running ≡ true)
    → connect_deskflow m a b ≡ (whole retry_text, with_client (paused 15 m 0 (stop b.client)) b)
unfolding connect_deskflow connect_now
connect_deskflow_retries m a b h =
    ap (λ c. connect_now a (with_client c b))
      (wait_for_worker-paused max_pauses m 0 (stop b.client) h)
    ∙ if_true _ _ _ (h 15 (omega arith))
