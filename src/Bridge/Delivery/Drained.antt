-- ===== src/Bridge/Delivery/Drained.antt =====
-- The turns of the script's thread of entry/src/main/cpp/napi_init.cpp for all that waits.
use deskflow_harmonyos.Base.{
  ℕ, ◌≡◌, refl, sym, ap, ◌∙◌, Option, none, some, List, [], ◌∷◌, ◌++◌, append-nil, ==_iff, if_true,
}
use mathlib.Core.Option.{none-ne-some}
use deskflow_harmonyos.Bridge.Delivery.{
  Queues, Desk, Event, status_turn, string_at, delete, hand_over, deskflow_status_call_js, turn,
  happen, happen_all, idle,
}
use deskflow_harmonyos.Bridge.Delivery.Fifo.{IsFifo, first_of, without}
use deskflow_harmonyos.Bridge.Delivery.Owned.{Owned, waiting}
use deskflow_harmonyos.Bridge.Delivery.Order.{
  heard_by, all_posted, account, happen_all-Keeps, happen_all-Delivers,
}

-- A turn for each address that waits.
abbrev pub turns : List (ℕ × ℕ) → List Event
turns [] = []
turns ((f, a) ∷ q) = status_turn f ∷ turns q

turns_post_nothing : (f : ℕ) (q : List (ℕ × ℕ)) → all_posted f (turns q) ≡ []
turns_post_nothing f [] = refl
turns_post_nothing f ((g, a) ∷ q) = turns_post_nothing f q

hand_over-queue : {Q : Type 0} (f a : ℕ) (d : Desk Q) → (hand_over f a d).queue ≡ d.queue
unfolding hand_over
hand_over-queue {Q} f a d =
    elim (string_at a d.heap)
      as (λ (o : Option (List ℕ)).
        (elim o as (λ _. Desk Q) [
          | none ↦ d
          | some text ↦ record d { heap = delete a d.heap; heard = d.heard ++ ((f, text) ∷ []) }
        ]).queue
        ≡ d.queue) [ none ↦ refl | some text ↦ refl ]

module _ (p : Queues) (fifo : IsFifo p) where
  -- The turn behind its taking of an address, where one waits in front.
  taken_queue :
      (f a : ℕ) (q : List (ℕ × ℕ)) (d : Desk p.state) (o : Option (ℕ × p.state))
      → p.contents d.queue ≡ (f, a) ∷ q
      → p.take_from f d.queue ≡ o
      → p.contents
          (elim o as (λ _. Desk p.state) [
            | none ↦ d
            | some (b, left) ↦ hand_over f b (record d { queue = left })
          ]).queue
        ≡ q
  unfolding first_of without
  taken_queue f a q d none e t =
      let found : first_of f (p.contents d.queue) ≡ some a =
        ap (first_of f) e ∙ if_true _ _ _ ((==_iff f f).1 refl) in
      absurd (none-ne-some a (sym (fifo.takes_none f d.queue t) ∙ found))
  taken_queue f a q d (some (b, left)) e t =
      ap p.contents (hand_over-queue f b (record d { queue = left }))
      ∙ ((fifo.takes_some f b d.queue left t).1
          ∙ (ap (without f) e ∙ if_true _ _ _ ((==_iff f f).1 refl)))

  all_turned :
      (q : List (ℕ × ℕ)) (d : Desk p.state)
      → p.contents d.queue ≡ q
      → p.contents (happen_all p (turns q) d).queue ≡ []
  unfolding happen_all happen turn deskflow_status_call_js
  all_turned [] d e = e
  all_turned ((f, a) ∷ q) d e =
      all_turned q (happen p (status_turn f) d) (taken_queue f a q d (p.take_from f d.queue) e refl)

Owned-nil :
    (q : List (ℕ × ℕ)) (h : List (ℕ × List ℕ)) (next : ℕ) → q ≡ [] → Owned 0 q h next → h ≡ []
Owned-nil [] [] next e o = refl
Owned-nil [] (_ ∷ _) next e o = elim o [ ]
Owned-nil (x ∷ q) h next e o = absurd cc

-- A desk at which all is done: nothing waits, nothing is allocated, and each callback has had
-- exactly the texts posted to it, in the order of posting.
pub record AllHeard (p : Queues) (events : List Event) (d : Desk p.state) : Type 0 where
  pub queue_is : p.contents d.queue ≡ []
  pub heap_is : d.heap ≡ []
  pub heard_is : (f : ℕ) → heard_by f d.heard ≡ all_posted f events

-- The desk after the events and then a turn for each text that still waits.
abbrev pub caught_up : (p : Queues) → List Event → Desk p.state
caught_up p events =
    let d = happen_all p events (idle p) in happen_all p (turns (p.contents d.queue)) d

-- On queues that are first in, first out: however posts and turns have interleaved, a turn of the
-- script's thread for each text that still waits brings every text posted to its callback, once and
-- in order, and frees every string.
pub happen_all-AllHeard :
    (p : Queues) (events : List Event) → IsFifo p → AllHeard p events (caught_up p events)
happen_all-AllHeard p events fifo =
    let d1 = happen_all p events (idle p) in
    let waits = p.contents d1.queue in
    let d2 = happen_all p (turns waits) d1 in
    let before = happen_all-Delivers p events fifo in
    let after = happen_all-Keeps p fifo (turns waits) d1 before.0 in
    let empty : p.contents d2.queue ≡ [] = all_turned p fifo waits d1 refl in
    record {
      queue_is = empty;
      heap_is = Owned-nil (p.contents d2.queue) d2.heap d2.next empty after.owned;
      heard_is = λ f.
          sym (append-nil (heard_by f d2.heard))
          ∙ (ap (λ q. heard_by f d2.heard ++ waiting f q d2.heap) (sym empty)
              ∙ (after.account_is f
                  ∙ (ap (λ l. account p f d1 ++ l) (turns_post_nothing f waits)
                      ∙ (append-nil (account p f d1) ∙ before.1 f))));
    }
