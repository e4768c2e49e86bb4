-- ===== src/Bridge/Delivery/Refines.antt =====
-- The strings on the heap and their queues against the record `Bridge`, which keeps a list of the texts
-- that DeskflowStatusCb, PublishClipboard and PublishValue (entry/src/main/cpp/napi_init.cpp) handed
-- over, with the functions that they were handed to.
use deskflow_harmonyos.Base.{ℕ, ◌≡◌, sym, ap, ◌∙◌, Option, none, some, List, ◌++◌, append-nil}
use deskflow_harmonyos.Bridge.{Bridge, call, deskflow_status_cb, publish_clipboard, publish_value}
use deskflow_harmonyos.Bridge.Delivery.{
  Queues, Desk, Event, reports, publishes, status_turn, clipboard_turn, change_turn, report_text,
  publish_text, happen,
}
use deskflow_harmonyos.Bridge.Delivery.Fifo.{IsFifo}
use deskflow_harmonyos.Bridge.Delivery.Order.{
  heard_by, heard_by-append, account, IsOwned, posted, happen-Keeps,
}

-- For each function, what its callback has had and what waits for it are the texts handed over to it.
pub record Implements (p : Queues) (d : Desk p.state) (b : Bridge) : Type 0 where
  pub owned : IsOwned p d
  pub account_is : (f : ℕ) → account p f d ≡ heard_by f b.queued

module _ (p : Queues) (fifo : IsFifo p) where
  -- An event that posts what is appended to the list.
  happens :
      (e : Event) (d : Desk p.state) (b b' : Bridge)
      → ((f : ℕ) → heard_by f b'.queued ≡ heard_by f b.queued ++ posted f e)
      → Implements p d b
      → Implements p (happen p e d) b'
  happens e d b b' grows i =
      let k = happen-Keeps p fifo e d i.owned in
      record {
        owned = k.owned;
        account_is =
            λ f. k.account_is f ∙ (ap (λ l. l ++ posted f e) (i.account_is f) ∙ sym (grows f));
      }

  called :
      (o : Option ℕ) (text : List ℕ) (b : Bridge) (f : ℕ)
      → heard_by f (call o text b).queued ≡ heard_by f b.queued ++ posted f (reports o text)
  called none text b f = sym (append-nil (heard_by f b.queued))
  called (some g) text b f = heard_by-append f g b.queued text

  called_early :
      (o : Option ℕ) (text : List ℕ) (b : Bridge) (f : ℕ)
      → heard_by f (call o text b).queued ≡ heard_by f b.queued ++ posted f (publishes o text)
  called_early none text b f = sym (append-nil (heard_by f b.queued))
  called_early (some g) text b f = heard_by-append f g b.queued text

-- What the bridge does on its list of texts, the heap and the queues do for it: a status, a clipboard
-- text and a value each, where queues are first in, first out; and no turn of the script's thread
-- changes what they stand for.
pub happen-Implements :
    (p : Queues) (text : List ℕ) (d : Desk p.state) (b : Bridge)
    → IsFifo p
    → Implements p d b
    → Implements p (report_text p b.status_fn text d) (deskflow_status_cb text b)
      × Implements p (report_text p b.clipboard_fn text d) (publish_clipboard text b)
      × Implements p (publish_text p b.change_fn text d) (publish_value text b)
      × ((f : ℕ)
          → Implements p (happen p (status_turn f) d) b
            × Implements p (happen p (clipboard_turn f) d) b
            × Implements p (happen p (change_turn f) d) b)
unfolding happen deskflow_status_cb publish_clipboard publish_value
happen-Implements p text d b fifo i =
    let same = λ (f : ℕ). sym (append-nil (heard_by f b.queued)) in
    (
      happens p fifo (reports b.status_fn text) d b (call b.status_fn text b)
          (called p fifo b.status_fn text b) i,
      happens p fifo (reports b.clipboard_fn text) d b (call b.clipboard_fn text b)
          (called p fifo b.clipboard_fn text b) i,
      happens p fifo (publishes b.change_fn text) d b (call b.change_fn text b)
          (called_early p fifo b.change_fn text b) i,
      λ f. (
        happens p fifo (status_turn f) d b b same i,
        happens p fifo (clipboard_turn f) d b b same i,
        happens p fifo (change_turn f) d b b same i,
      ),
    )
