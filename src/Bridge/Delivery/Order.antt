-- ===== src/Bridge/Delivery/Order.antt =====
-- The order in which the callbacks of entry/src/main/cpp/napi_init.cpp hear the texts posted to them.
use deskflow_harmonyos.Base.{
  ℕ, suc, ◌≡◌, refl, sym, ap, ◌∙◌, inl, inr, Option, none, some, List, [], ◌∷◌, ◌++◌, append_assoc,
  append-nil, arith, ◌==◌, ==_iff, Bool-cases, if◌then◌else◌,
}
use mathlib.Core.Path.{subst}
use deskflow_harmonyos.Bridge.Delivery.{
  Queues, Desk, Event, reports, publishes, status_turn, clipboard_turn, change_turn, delete,
  allocate, report_text, publish_text, hand_over, deskflow_status_call_js, clipboard_data_call_js,
  call_js_on_thread, turn, happen, happen_all, idle,
}
use deskflow_harmonyos.Bridge.Delivery.Fifo.{without, IsFifo}
use deskflow_harmonyos.Bridge.Delivery.Owned.{
  Owned, waiting, Owned-append, Owned-later, waiting-append, texts_for, Takes, taken, delete_last,
  either_append,
}

-- The texts that a callback has had.
abbrev pub heard_by : ℕ → List (ℕ × List ℕ) → List (List ℕ)
heard_by f [] = []
heard_by f ((g, text) ∷ heard) = if f == g then text ∷ heard_by f heard else heard_by f heard

-- The texts that an event posts to a function, and that events post, in order.
abbrev pub posted : ℕ → Event → List (List ℕ)
posted f (reports (some g) text) = texts_for f g text
posted f (publishes (some g) text) = texts_for f g text
posted f _ = []

abbrev pub all_posted : ℕ → List Event → List (List ℕ)
all_posted f [] = []
all_posted f (e ∷ events) = posted f e ++ all_posted f events

pub heard_by-append :
    (g f : ℕ) (heard : List (ℕ × List ℕ)) (text : List ℕ)
    → heard_by g (heard ++ ((f, text) ∷ [])) ≡ heard_by g heard ++ texts_for g f text
heard_by-append g f [] text = refl
heard_by-append g f ((k, t) ∷ heard) text =
    ap (λ ts. if g == k then t ∷ ts else ts) (heard_by-append g f heard text)
    ∙ either_append (g == k) t (heard_by g heard) (texts_for g f text)

abbrev pub nothing : ℕ → List (List ℕ)
nothing f = []

module _ (p : Queues) where
  -- What a function's callback has had, and then what waits for it.
  abbrev pub account : ℕ → Desk p.state → List (List ℕ)
  account f d = heard_by f d.heard ++ waiting f (p.contents d.queue) d.heap

  abbrev pub IsOwned : Desk p.state → Type 0
  IsOwned d = Owned 0 (p.contents d.queue) d.heap d.next

-- The strings allocated are those that wait, and each account has grown by what was posted.
pub record Keeps (p : Queues) (d : Desk p.state) (more : ℕ → List (List ℕ)) (d' : Desk p.state)
    : Type 0 where
  pub owned : IsOwned p d'
  pub account_is : (f : ℕ) → account p f d' ≡ account p f d ++ more f

waits_and_rest :
    (f g a : ℕ) (q : List (ℕ × ℕ)) (h : List (ℕ × List ℕ)) (next : ℕ) (t : Takes 0 f a q h next)
    → waiting g q h ≡ texts_for g f t.text ++ waiting g (without f q) (delete a h)
waits_and_rest f g a q h next t = elim (Bool-cases (g == f)) [
  | inl same ↦ rw same (
      subst (λ x. waiting x q h ≡ t.text ∷ waiting x (without f q) (delete a h))
        (sym ((==_iff g f).0 same)) t.first_is)
  | inr other ↦ rw other (sym (t.others_are g (ground arith)))
]

module _ (p : Queues) (fifo : IsFifo p) where
  -- Taking a text from those that wait to those that were heard keeps the account.
  moved :
      (f g a : ℕ) (d : Desk p.state) (t : Takes 0 f a (p.contents d.queue) d.heap d.next)
      → heard_by g (d.heard ++ ((f, t.text) ∷ []))
          ++ waiting g (without f (p.contents d.queue)) (delete a d.heap)
        ≡ account p g d ++ []
  moved f g a d t =
      let rest = waiting g (without f (p.contents d.queue)) (delete a d.heap) in
      let waits = waits_and_rest f g a (p.contents d.queue) d.heap d.next t in
      ap (λ l. l ++ rest) (heard_by-append g f d.heard t.text)
      ∙ (append_assoc (heard_by g d.heard) (texts_for g f t.text) rest
          ∙ (ap (λ l. heard_by g d.heard ++ l) (sym waits) ∙ sym (append-nil (account p g d))))

  handed-Keeps :
      (f a : ℕ) (q : p.state) (d : Desk p.state)
      → Takes 0 f a (p.contents d.queue) d.heap d.next
      → p.contents q ≡ without f (p.contents d.queue)
      → Keeps p d nothing (hand_over f a (record d { queue = q }))
  unfolding hand_over
  handed-Keeps f a q d t left =
      let taken_off : Desk p.state = record d { queue = q } in
      let e =
        ap
          (λ o. elim o as (λ (_ : Option (List ℕ)). Desk p.state) [
            | none ↦ taken_off
            | some text ↦ record taken_off {
              heap = delete a d.heap;
              heard = d.heard ++ ((f, text) ∷ []);
            }
          ])
          t.text_is in
      subst (Keeps p d nothing) (sym e) (record {
        owned = subst (λ l. Owned 0 l (delete a d.heap) d.next) (sym left) t.owned;
        account_is = λ g.
            ap (λ l. heard_by g (d.heard ++ ((f, t.text) ∷ [])) ++ waiting g l (delete a d.heap))
              left
            ∙ moved f g a d t;
      })

  same-Keeps : (d : Desk p.state) → IsOwned p d → Keeps p d nothing d
  same-Keeps d o = record { owned = o; account_is = λ f. sym (append-nil (account p f d)) }

  first-Keeps :
      (f : ℕ) (d : Desk p.state) (o : Option (ℕ × p.state))
      → IsOwned p d
      → p.take_from f d.queue ≡ o
      → Keeps p d nothing
          (elim o [ none ↦ d | some (a, q) ↦ hand_over f a (record d { queue = q }) ])
  first-Keeps f d none own e = same-Keeps d own
  first-Keeps f d (some (a, q)) own e =
      let (first, left) = fifo.takes_some f a d.queue q e in
      handed-Keeps f a q d (taken 0 f a (p.contents d.queue) d.heap d.next own first) left

  turn-Keeps : (f : ℕ) (d : Desk p.state) → IsOwned p d → Keeps p d nothing (turn p hand_over f d)
  unfolding turn
  turn-Keeps f d own = first-Keeps f d (p.take_from f d.queue) own refl

  -- A string at the end of the heap whose address goes to the end of the queue.
  posted-Keeps :
      (f : ℕ) (text : List ℕ) (d : Desk p.state)
      → IsOwned p d
      → Keeps p d (λ g. texts_for g f text) (report_text p (some f) text d)
  unfolding report_text allocate
  posted-Keeps f text d own =
      let waits = p.contents d.queue in
      let put = fifo.put_is f d.next d.queue in
      let heap = d.heap ++ ((d.next, text) ∷ []) in
      record {
        owned =
            subst (λ l. Owned 0 l heap (suc d.next)) (sym put)
              (Owned-append 0 waits d.heap d.next f text own);
        account_is = λ g.
            ap (λ l. heard_by g d.heard ++ l)
              (ap (λ l. waiting g l heap) put ∙ waiting-append 0 waits d.heap d.next f g text own)
            ∙ sym (append_assoc (heard_by g d.heard) (waiting g waits d.heap) (texts_for g f text));
      }

  dropped-Keeps :
      (text : List ℕ) (d : Desk p.state)
      → IsOwned p d
      → Keeps p d nothing (publish_text p none text d)
  unfolding publish_text allocate
  dropped-Keeps text d own =
      let e = delete_last 0 (p.contents d.queue) d.heap d.next text own in
      record {
        owned = rw e (Owned-later 0 (p.contents d.queue) d.heap d.next own);
        account_is = λ f.
            ap (λ h. heard_by f d.heard ++ waiting f (p.contents d.queue) h) e
            ∙ sym (append-nil (account p f d));
      }

  pub happen-Keeps :
      (e : Event) (d : Desk p.state) → IsOwned p d → Keeps p d (λ f. posted f e) (happen p e d)
  unfolding happen deskflow_status_call_js clipboard_data_call_js call_js_on_thread
  happen-Keeps (reports none text) d own = unfold report_text in same-Keeps d own
  happen-Keeps (reports (some f) text) d own = posted-Keeps f text d own
  happen-Keeps (publishes none text) d own = dropped-Keeps text d own
  happen-Keeps (publishes (some f) text) d own =
      unfold report_text publish_text in posted-Keeps f text d own
  happen-Keeps (status_turn f) d own = turn-Keeps f d own
  happen-Keeps (clipboard_turn f) d own = turn-Keeps f d own
  happen-Keeps (change_turn f) d own = turn-Keeps f d own

  pub happen_all-Keeps :
      (events : List Event) (d : Desk p.state)
      → IsOwned p d
      → Keeps p d (λ f. all_posted f events) (happen_all p events d)
  unfolding happen_all
  happen_all-Keeps [] d own = same-Keeps d own
  happen_all-Keeps (e ∷ events) d own =
      let first = happen-Keeps e d own in
      let more = happen_all-Keeps events (happen p e d) first.owned in
      record {
        owned = more.owned;
        account_is = λ f.
            more.account_is f
            ∙ (ap (λ l. l ++ all_posted f events) (first.account_is f)
                ∙ append_assoc (account p f d) (posted f e) (all_posted f events));
      }

-- On queues that are first in, first out: however the threads' posts and the turns of the script's
-- thread interleave, each callback has had the first of the texts posted to it, each once and in the
-- order of posting, the others wait in that order, and the strings on the heap are exactly those that
-- wait: none is lost or deleted twice.
pub happen_all-Delivers :
    (p : Queues) (events : List Event)
    → IsFifo p
    → IsOwned p (happen_all p events (idle p))
      × ((f : ℕ) → account p f (happen_all p events (idle p)) ≡ all_posted f events)
happen_all-Delivers p events fifo =
    let none_wait = fifo.empty_is in
    let k =
      happen_all-Keeps p fifo events (idle p)
        (subst (λ l. Owned 0 l [] 0) (sym none_wait) (omega arith)) in
    (k.owned, λ f. k.account_is f ∙ ap (λ l. waiting f l [] ++ all_posted f events) none_wait)
