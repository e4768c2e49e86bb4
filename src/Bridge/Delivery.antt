-- ===== src/Bridge/Delivery.antt =====
-- The way of a text from a thread of the client or the platform to the script's callback in
-- entry/src/main/cpp/napi_init.cpp: a string on the heap, whose address waits in the queue of a
-- thread-safe function until the script's thread takes it, hands it to the callback and deletes it.
pub mod Fifo
pub mod Owned
pub mod Order
pub mod Drained
pub mod Refines
mod Tests
use deskflow_harmonyos.Base.{ℕ, suc, Option, none, some, List, [], ◌∷◌, ◌++◌, ◌==◌, if◌then◌else◌}

-- The queues of the thread-safe functions, which are the platform's: napi_call_threadsafe_function
-- puts an address into the queue of a function, the script's thread takes one out of it, and
-- `contents` are the functions and addresses in the order in which they were put.
pub record Queues : Type 1 where
  pub state : Type 0
  pub empty : state
  pub put : ℕ → ℕ → state → state
  pub take_from : ℕ → state → Option (ℕ × state)
  pub contents : state → List (ℕ × ℕ)

-- The strings that are allocated, by address, in the order of their allocation; the next address;
-- the queues; the events that the callbacks have had, each with its function.
pub record Desk (Q : Type 0) : Type 0 where
  pub heap : List (ℕ × List ℕ)
  pub next : ℕ
  pub queue : Q
  pub heard : List (ℕ × List ℕ)

unfoldable pub string_at : ℕ → List (ℕ × List ℕ) → Option (List ℕ)
string_at a [] = none
string_at a ((b, text) ∷ heap) = if a == b then some text else string_at a heap

-- `delete`
unfoldable pub delete : ℕ → List (ℕ × List ℕ) → List (ℕ × List ℕ)
delete a [] = []
delete a ((b, text) ∷ heap) = if a == b then heap else (b, text) ∷ delete a heap

-- `new std::string(text)`: the address is d.next.
unfoldable pub allocate : {Q : Type 0} → List ℕ → Desk Q → Desk Q
allocate text d = record d { heap = d.heap ++ ((d.next, text) ∷ []); next = suc d.next }

-- napi_call_threadsafe_function
abbrev pub enqueue : (p : Queues) → ℕ → ℕ → Desk p.state → Desk p.state
enqueue p f a d = record d { queue = p.put f a d.queue }

-- DeskflowStatusCb and PublishClipboard behind the reading of the handle.
unfoldable pub report_text : (p : Queues) → Option ℕ → List ℕ → Desk p.state → Desk p.state
unfolding allocate
report_text p none text d = d
report_text p (some f) text d = enqueue p f d.next (allocate text d)

-- PublishValue: the string is made before the handle is read.
unfoldable pub publish_text : (p : Queues) → Option ℕ → List ℕ → Desk p.state → Desk p.state
unfolding allocate delete
publish_text p none text d =
    let made = allocate text d in record made { heap = delete d.next made.heap }
publish_text p (some f) text d = enqueue p f d.next (allocate text d)

-- The body of the three functions below: the callback has an event whose `value` is the string, and
-- the string is deleted. A string that is not there has no defined meaning: nothing is called then.
unfoldable pub hand_over : {Q : Type 0} → ℕ → ℕ → Desk Q → Desk Q
unfolding string_at delete
hand_over f a d = elim (string_at a d.heap) [
  | none ↦ d
  | some text ↦ record d { heap = delete a d.heap; heard = d.heard ++ ((f, text) ∷ []) }
]

-- DeskflowStatusCallJs
unfoldable pub deskflow_status_call_js : {Q : Type 0} → ℕ → ℕ → Desk Q → Desk Q
unfolding hand_over
deskflow_status_call_js f a d = hand_over f a d

-- ClipboardDataCallJs
unfoldable pub clipboard_data_call_js : {Q : Type 0} → ℕ → ℕ → Desk Q → Desk Q
unfolding hand_over
clipboard_data_call_js f a d = hand_over f a d

-- CallJsOnThread
unfoldable pub call_js_on_thread : {Q : Type 0} → ℕ → ℕ → Desk Q → Desk Q
unfolding hand_over
call_js_on_thread f a d = hand_over f a d

-- A turn of the script's thread for one function, with its CallJs.
unfoldable pub turn :
    (p : Queues) → (ℕ → ℕ → Desk p.state → Desk p.state) → ℕ → Desk p.state → Desk p.state
turn p call_js f d = elim (p.take_from f d.queue) [
  | none ↦ d
  | some (a, q) ↦ call_js f a (record d { queue = q })
]

-- What the threads do, in the order in which they do it; a handle that was null is `none`.
pub data Event : Type 0 where
  reports publishes : Option ℕ → List ℕ → Event
  status_turn clipboard_turn change_turn : ℕ → Event

unfoldable pub happen : (p : Queues) → Event → Desk p.state → Desk p.state
unfolding report_text publish_text turn deskflow_status_call_js clipboard_data_call_js
    call_js_on_thread
happen p (reports f text) d = report_text p f text d
happen p (publishes f text) d = publish_text p f text d
happen p (status_turn f) d = turn p deskflow_status_call_js f d
happen p (clipboard_turn f) d = turn p clipboard_data_call_js f d
happen p (change_turn f) d = turn p call_js_on_thread f d

unfoldable pub happen_all : (p : Queues) → List Event → Desk p.state → Desk p.state
unfolding happen
happen_all p [] d = d
happen_all p (e ∷ events) d = happen_all p events (happen p e d)

-- Nothing allocated, nothing waiting, nothing heard.
abbrev pub idle : (p : Queues) → Desk p.state
idle p = record { heap = []; next = 0; queue = p.empty; heard = [] }
