-- ===== src/Proto/Segments.antt =====
-- What readf returns depends on the bytes to come alone, not on how the buffer and the calls of
-- recv cut them up.
use deskflow_harmonyos.Base.{
  ℕ, ◌≤◌, ◌<◌, ◌≡◌, refl, sym, ap, ◌∙◌, true, Bool-cases, inl, inr, Option, none, some, List, arith,
  length, take, drop, leb, leb→le, leb-false,
}
use mathlib.Core.Path.{subst}
use deskflow_harmonyos.Stream.{Stream, read_exact}
use deskflow_harmonyos.Stream.Read.{pending, read_exact-Reads, read_exact_short}
use deskflow_harmonyos.Proto.Read.{Reader, ◌>>=◌, readf}
use deskflow_harmonyos.Proto.Composes.{Composes, readf-Composes}

-- Two open connections with the same bytes to come.
pub record Same (s t : Stream) : Type 0 where
  pub left_open : s.connected ≡ true
  pub right_open : t.connected ≡ true
  pub next : pending s ≡ pending t

-- The same result, and where it is a success, the same bytes to come.
record Agree {A : Type 0} (r q : Option A × Stream) : Type 0 where
  result_is : r.0 ≡ q.0
  later : (a : A) → r.0 ≡ some a → Same r.1 q.1

abbrev Agrees : (A : Type 0) → Reader A → Type 0
Agrees A m = (s t : Stream) → Same s t → Agree (m s) (m t)

read_exact-Agrees : (n : ℕ) → Agrees (List ℕ) (read_exact n)
read_exact-Agrees n s t h = elim (Bool-cases (leb n (length (pending s)))) [
  | inl enough ↦
      let few : n ≤ length (pending s) = leb→le _ _ enough in
      let r = read_exact-Reads n s h.left_open few in
      let q = read_exact-Reads n t h.right_open (omega (arith, ap length h.next)) in
      record {
        result_is = r.result_is ∙ (ap (λ l. some (take n l)) h.next ∙ sym q.result_is);
        later = λ a e. record {
          left_open = r.connected_is ∙ h.left_open;
          right_open = q.connected_is ∙ h.right_open;
          next = r.pending_is ∙ (ap (drop n) h.next ∙ sym q.pending_is);
        };
      }
  | inr short ↦
      let few : length (pending s) < n = leb-false _ _ short in
      let r = read_exact_short n s (inl few) in
      let q = read_exact_short n t (inl (omega (arith, ap length h.next))) in
      record { result_is = r ∙ sym q; later = λ a e. absurd cc }
]

-- The second of two calls, on the outcome of the first.
abbrev continue : (A B : Type 0) → (A → Reader B) → Option A → Stream → Option B × Stream
continue A B f o s = ◌>>=◌ (λ _. (o, s)) f s

continue-Agree :
    (A B : Type 0) (f : A → Reader B)
    → ((a : A) → Agrees B (f a))
    → (o o' : Option A) (s t : Stream) → o ≡ o'
    → ((a : A) → o ≡ some a → Same s t)
    → Agree (continue A B f o s) (continue A B f o' t)
continue-Agree A B f k none none s t e h = record { result_is = refl; later = λ a e'. absurd cc }
continue-Agree A B f k none (some a) s t e h = absurd cc
continue-Agree A B f k (some a) none s t e h = absurd cc
continue-Agree A B f k (some a) (some b) s t e h =
    let same : a ≡ b = cc e in subst (λ v. Agree (f a s) (f v t)) same (k a s t (h a refl))

Agrees-Composes : Composes Agrees
Agrees-Composes = record {
  of_pure = λ A a s t h. record { result_is = refl; later = λ _ _. h };
  of_fail = λ A s t h. record { result_is = refl; later = λ a e. absurd cc };
  of_bind = λ A B m f h k s t same.
      let r = h s t same in
      continue-Agree A B f k (m s).0 (m t).0 (m s).1 (m t).1 r.result_is r.later;
  of_read_exact = read_exact-Agrees;
}

-- On two open connections with the same bytes to come, however their buffers and the calls of recv
-- cut these up, readf accepts the same, with the same values, or refuses on both, for every format.
pub readf_segmented :
    (fmt : List ℕ) (s t : Stream)
    → s.connected ≡ true
    → t.connected ≡ true
    → pending s ≡ pending t
    → (readf fmt s).0 ≡ (readf fmt t).0
readf_segmented fmt s t o o' e =
    (readf-Composes Agrees Agrees-Composes fmt s t
      (record { left_open = o; right_open = o'; next = e })).result_is
