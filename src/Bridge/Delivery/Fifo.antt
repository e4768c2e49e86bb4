-- ===== src/Bridge/Delivery/Fifo.antt =====
-- What entry/src/main/cpp/napi_init.cpp relies on of the platform's queues: each function's addresses
-- come out in the order in which they were put, and none is lost.
use deskflow_harmonyos.Base.{ℕ, ◌≡◌, Option, none, some, List, [], ◌∷◌, ◌++◌, ◌==◌, if◌then◌else◌}
use deskflow_harmonyos.Bridge.Delivery.{Queues}

-- The first address that waits for a function, and what waits without it.
unfoldable pub first_of : ℕ → List (ℕ × ℕ) → Option ℕ
first_of f [] = none
first_of f ((g, a) ∷ q) = if f == g then some a else first_of f q

unfoldable pub without : ℕ → List (ℕ × ℕ) → List (ℕ × ℕ)
without f [] = []
without f ((g, a) ∷ q) = if f == g then q else (g, a) ∷ without f q

-- The platform's documented behaviour.
pub record IsFifo (p : Queues) : Type 0 where
  pub empty_is : p.contents p.empty ≡ []
  pub put_is : (f a : ℕ) (q : p.state) → p.contents (p.put f a q) ≡ p.contents q ++ ((f, a) ∷ [])
  pub takes_none : (f : ℕ) (q : p.state) → p.take_from f q ≡ none → first_of f (p.contents q) ≡ none
  pub takes_some :
      (f a : ℕ) (q q' : p.state)
      → p.take_from f q ≡ some (a, q')
      → (first_of f (p.contents q) ≡ some a) × (p.contents q' ≡ without f (p.contents q))
