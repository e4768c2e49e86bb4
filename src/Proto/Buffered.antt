-- ===== src/Proto/Buffered.antt =====
-- A read that a stream's buffer alone satisfies takes nothing from the socket.
use deskflow_harmonyos.Base.{
  ℕ, ◌+◌, ◌<◌, ◌≤◌, ◌≡◌, refl, sym, ap, ◌∙◌, true, Bool-cases, inl, inr, Option, none, some, List,
  [], arith, length, take, leb, leb→le, leb-false, ◌==◌, ==_iff, if_true, length-take, length-drop,
  length-append,
}
use deskflow_harmonyos.Stream.{Stream, RecvEvent, unread, read_exact}
use deskflow_harmonyos.Stream.Read.{pending, read_exact_short}
use deskflow_harmonyos.Stream.Drained.{InBuffer}
use deskflow_harmonyos.Proto.Read.{Reader, ◌>>=◌, readf}
use deskflow_harmonyos.Proto.Composes.{Composes, readf-Composes}
use deskflow_harmonyos.Proto.{Value}

-- The stream with another script of recv.
abbrev pub with_incoming : List RecvEvent → Stream → Stream
with_incoming evs s = record s { incoming = evs }

-- What a read does that succeeds with nothing to come from the socket: the same whatever is to come.
pub record Local {A : Type 0} (m : Reader A) (s : Stream) (a : A) : Type 0 where
  pub left : Stream
  pub reads : (evs : List RecvEvent) → m (with_incoming evs s) ≡ (some a, with_incoming evs left)
  pub in_buffer : InBuffer left

abbrev pub IsLocal : (A : Type 0) → Reader A → Type 0
IsLocal A m = (s : Stream) (a : A) → InBuffer s → (m (with_incoming [] s)).0 ≡ some a → Local m s a

-- readExact inside the buffer.
read_exact_held :
    (n : ℕ) (s : Stream)
    → n ≤ length (unread s)
    → read_exact n s ≡ (
      some (take n (unread s)),
      record s { buffer_pos = s.buffer_pos + length (take n (unread s)) },
    )
unfolding read_exact
read_exact_held n s h =
    let whole : (length (take n (unread s)) == n) ≡ true =
      (==_iff _ _).1 (omega (arith, length-take n (unread s))) in
    if_true _ _ _ whole

pub read_exact-IsLocal : (n : ℕ) → IsLocal (List ℕ) (read_exact n)
read_exact-IsLocal n s a i e = elim (Bool-cases (leb n (length (unread s)))) [
  | inl inside ↦
      let h = leb→le n (length (unread s)) inside in
      let value : take n (unread s) ≡ a =
        cc (ap (λ q. q.0) (read_exact_held n (with_incoming [] s) h)) in
      let left : Stream = record s { buffer_pos = s.buffer_pos + length (take n (unread s)) } in
      record {
        left = left;
        reads = λ evs.
            read_exact_held n (with_incoming evs s) h
            ∙ ap (λ v. (some v, with_incoming evs left)) value;
        in_buffer = omega (arith, length-take n (unread s), length-drop s.buffer_pos s.buffer);
      }
  | inr beyond ↦
      let few : length (pending (with_incoming [] s)) < n =
        (omega (arith, leb-false _ _ beyond, length-append (unread s) [])) in
      absurd (cc (read_exact_short n (with_incoming [] s) (inl few)))
]

bind_some :
    (A B : Type 0) (m : Reader A) (f : A → Reader B) (s t : Stream) (a : A)
    → m s ≡ (some a, t)
    → (m >>= f) s ≡ f a t
bind_some A B m f s t a e =
    ap
      (λ q. elim q.0 as (λ (o : Option A). Option B × Stream) [
        | none ↦ (none, q.1)
        | some a ↦ f a q.1
      ])
      e

bind_none :
    (A B : Type 0) (m : Reader A) (f : A → Reader B) (s : Stream)
    → (m s).0 ≡ none
    → ((m >>= f) s).0 ≡ none
bind_none A B m f s e =
    ap
      (λ o.
        (elim o as (λ (o : Option A). Option B × Stream) [
          | none ↦ (none, (m s).1)
          | some a ↦ f a (m s).1
        ]).0)
      e

bind-IsLocal :
    (A B : Type 0) (m : Reader A) (f : A → Reader B)
    → IsLocal A m
    → ((a : A) → IsLocal B (f a))
    → IsLocal B (m >>= f)
bind-IsLocal A B m f h k s b i e = first (m (with_incoming [] s)).0 refl
  where
    first : (o : Option A) → (m (with_incoming [] s)).0 ≡ o → Local (m >>= f) s b
    first none none_read = absurd (cc (bind_none A B m f (with_incoming [] s) none_read))
    first (some a) e' =
        let l = h s a i e' in
        let again = λ (evs : List RecvEvent). bind_some A B m f _ _ a (l.reads evs) in
        let r = k a l.left b l.in_buffer (sym (ap (λ q. q.0) (again [])) ∙ e) in
        record { left = r.left; reads = λ evs. again evs ∙ r.reads evs; in_buffer = r.in_buffer }

IsLocal-Composes : Composes IsLocal
IsLocal-Composes = record {
  of_pure = λ A a s b i e. record {
    left = s;
    reads = λ evs. ap (λ o. (o, with_incoming evs s)) e;
    in_buffer = i;
  };
  of_fail = λ A s b i e. absurd cc;
  of_bind = bind-IsLocal;
  of_read_exact = read_exact-IsLocal;
}

-- Where readf succeeds on what is in the buffer alone, it does the same whatever the socket brings.
pub readf-Local :
    (fmt : List ℕ) (s : Stream) (vs : List Value)
    → InBuffer s
    → (readf fmt (with_incoming [] s)).0 ≡ some vs
    → Local (readf fmt) s vs
readf-Local fmt s vs i e = readf-Composes IsLocal IsLocal-Composes fmt s vs i e
