-- ===== src/Bridge/Delivery/Tests.antt =====
-- Queues that are one list, and texts that go through them.
use deskflow_harmonyos.Base.{
  ℕ, ◌≡◌, refl, sym, ap, Option, none, some, List, [], ◌∷◌, ◌++◌, codes, arith,
}
use mathlib.Core.Option.{some-injective, none-ne-some}
use deskflow_harmonyos.Bridge.{deskflow_status_cb, publish_clipboard, publish_value}
use deskflow_harmonyos.Bridge.Tests.{bridge}
use deskflow_harmonyos.Bridge.Delivery.Refines.{Implements, happen-Implements}
use deskflow_harmonyos.Bridge.Delivery.{
  Queues, Event, reports, publishes, status_turn, clipboard_turn, change_turn, happen, happen_all,
  idle, report_text, publish_text,
}
use deskflow_harmonyos.Bridge.Delivery.Fifo.{IsFifo, first_of, without}
use deskflow_harmonyos.Bridge.Delivery.Order.{account, all_posted, IsOwned, happen_all-Delivers}
use deskflow_harmonyos.Bridge.Delivery.Drained.{AllHeard, caught_up, happen_all-AllHeard}

abbrev paired : List (ℕ × ℕ) → Option ℕ → Option (ℕ × List (ℕ × ℕ))
paired q none = none
paired q (some a) = some (a, q)

abbrev one_list : Queues
one_list = record {
  state = List (ℕ × ℕ);
  empty = [];
  put = λ f a q. q ++ ((f, a) ∷ []);
  take_from = λ f q. paired (without f q) (first_of f q);
  contents = λ q. q;
}

paired-none : (q : List (ℕ × ℕ)) (o : Option ℕ) → paired q o ≡ none → o ≡ none
paired-none q none e = refl
paired-none q (some a) e = absurd (none-ne-some (a, q) (sym e))

paired-some :
    (q q' : List (ℕ × ℕ)) (a : ℕ) (o : Option ℕ)
    → paired q o ≡ some (a, q')
    → (o ≡ some a) × (q' ≡ q)
paired-some q q' a none e = absurd (none-ne-some (a, q') e)
paired-some q q' a (some b) e =
    let same : (b, q) ≡ (a, q') = some-injective _ _ e in
    (ap (λ r. some r.0) same, sym (ap (λ r. r.1) same))

one_list-IsFifo : IsFifo one_list
one_list-IsFifo = record {
  empty_is = refl;
  put_is = λ f a q. refl;
  takes_none = λ f q. paired-none (without f q) (first_of f q);
  takes_some = λ f a q q'. paired-some (without f q) q' a (first_of f q);
}

-- Two statuses and a clipboard text, a value that nobody listens to, and turns between them.
abbrev happenings : List Event
happenings =
    reports (some 7) (codes "connecting")
    ∷ reports (some 8) (codes "copied")
    ∷ status_turn 7
    ∷ publishes none (codes "key")
    ∷ reports (some 7) (codes "disconnected")
    ∷ clipboard_turn 8
    ∷ []

happen_all-Delivers_example :
    IsOwned one_list (happen_all one_list happenings (idle one_list))
    × ((f : ℕ)
        → account one_list f (happen_all one_list happenings (idle one_list))
          ≡ all_posted f happenings)
happen_all-Delivers_example = happen_all-Delivers one_list happenings one_list-IsFifo

happen_all-AllHeard_example : AllHeard one_list happenings (caught_up one_list happenings)
happen_all-AllHeard_example = happen_all-AllHeard one_list happenings one_list-IsFifo

-- Before anything has happened.
idle-Implements : Implements one_list (idle one_list) bridge
idle-Implements = record { owned = omega arith; account_is = λ f. refl }

happen-Implements_example :
    Implements one_list
      (report_text one_list bridge.status_fn (codes "ok") (idle one_list))
      (deskflow_status_cb (codes "ok") bridge)
    × Implements one_list
        (report_text one_list bridge.clipboard_fn (codes "ok") (idle one_list))
        (publish_clipboard (codes "ok") bridge)
    × Implements one_list
        (publish_text one_list bridge.change_fn (codes "ok") (idle one_list))
        (publish_value (codes "ok") bridge)
    × ((f : ℕ)
        → Implements one_list (happen one_list (status_turn f) (idle one_list)) bridge
          × Implements one_list (happen one_list (clipboard_turn f) (idle one_list)) bridge
          × Implements one_list (happen one_list (change_turn f) (idle one_list)) bridge)
happen-Implements_example =
    happen-Implements one_list (codes "ok") (idle one_list) bridge one_list-IsFifo idle-Implements
