-- ===== src/Stream/Read.antt =====
-- SocketStream::readExact against the byte stream that a TCP connection is.
use deskflow_harmonyos.Base.{
  ℕ, ◌+◌, ◌-◌, ◌≤◌, ◌<◌, ◌≡◌, refl, sym, ap, ◌∙◌, ◌⊎◌, inl, inr, Bool, true, false, Option, none,
  some, List, ◌++◌, arith, leb, ◌==◌, ==_iff, if◌then◌else◌, if_true, if_false, Bool-cases, length,
  take, drop, length-append, length-take, take-append, drop-append, take-append_length,
  drop-append_length, take-append_past, drop-append_past, leb→le, leb-false, take-all, drop-all,
  drop-drop, drop-length-take,
}
use deskflow_harmonyos.Stream.{Stream, unread, Filled, fill, settle, read_exact}
use deskflow_harmonyos.Stream.Fill.{arrivals, Fills, fill-Fills, fill_short}

-- All that is still to be read: the buffered bytes, then those of the socket.
abbrev pub pending : Stream → List ℕ
pending s = unread s ++ arrivals s.incoming

-- What a successful read of `n` bytes does to the stream.
pub record Reads (n : ℕ) (s : Stream) (r : Option (List ℕ) × Stream) : Type 0 where
  pub result_is : r.0 ≡ some (take n (pending s))
  pub pending_is : pending r.1 ≡ drop n (pending s)
  pub connected_is : r.1.connected ≡ s.connected
  pub sent_is : r.1.sent ≡ s.sent
  pub outgoing_is : r.1.outgoing ≡ s.outgoing
  pub stop_is : r.1.stop_requested ≡ s.stop_requested

abbrev advance : ℕ → Stream → Stream
advance n s = record s { buffer_pos = s.buffer_pos + length (take n (unread s)) }

unread-advance : (n : ℕ) (s : Stream) → unread (advance n s) ≡ drop n (unread s)
unread-advance n s =
    sym (drop-drop s.buffer_pos (length (take n (unread s))) _ s.buffer refl)
    ∙ drop-length-take n (unread s)

-- The bytes held in the buffer are enough.
pub read_exact-Reads_buffered :
    (n : ℕ) (s : Stream) → n ≤ length (unread s) → Reads n s (read_exact n s)
unfolding read_exact
read_exact-Reads_buffered n s h =
    let full : (length (take n (unread s)) == n) ≡ true =
      (==_iff _ _).1 (omega (arith, length-take n (unread s))) in
    rw full (record {
      result_is = ap some (sym (take-append n (unread s) _ h));
      pending_is =
          ap (λ l. l ++ arrivals s.incoming) (unread-advance n s)
          ∙ sym (drop-append n (unread s) _ h);
      connected_is = refl;
      sent_is = refl;
      outgoing_is = refl;
      stop_is = refl;
    })

settle-Reads :
    (n m : ℕ) (s : Stream) (f : Filled)
    → n ≡ length (unread s) + m
    → Fills m (unread s) (arrivals s.incoming) f
    → Reads n s (settle (advance n s) f)
unfolding settle
settle-Reads n m s f e r = rw r.not_stopped (record {
  result_is = r.result_is ∙ ap some (sym (take-append_past (unread s) _ n m e));
  pending_is =
      ap (λ l. l ++ arrivals f.left) (unread-advance n s ∙ drop-all n _ (omega arith))
      ∙ r.left_is
      ∙ sym (drop-append_past (unread s) _ n m e);
  connected_is = refl;
  sent_is = refl;
  outgoing_is = refl;
  stop_is = refl;
})

-- The buffer is used up, and recv goes on behind it.
read_exact-beyond :
    (n : ℕ) (s : Stream)
    → length (unread s) < n
    → read_exact n s ≡ (
        if s.connected
        then settle (advance n s) (fill s.incoming (n - length (unread s)) (unread s))
        else (none, advance n s))
unfolding read_exact
read_exact-beyond n s h =
    let short : (length (take n (unread s)) == n) ≡ false =
      ground (arith, length-take n (unread s)) in
    rw short (rw (take-all n (unread s) (omega arith)))

-- On an open connection readExact returns the next `n` bytes of what is buffered and then arrives,
-- however the buffer and the calls of recv cut it up, if there are so many; it leaves the bytes
-- behind them, and touches nothing of the writing side.
pub read_exact-Reads :
    (n : ℕ) (s : Stream) → s.connected ≡ true → n ≤ length (pending s) → Reads n s (read_exact n s)
read_exact-Reads n s c h = elim (Bool-cases (leb n (length (unread s)))) [
  | inl inside ↦ read_exact-Reads_buffered n s (leb→le _ _ inside)
  | inr beyond ↦ rw (read_exact-beyond n s (leb-false _ _ beyond) ∙ if_true _ _ _ c) (
      settle-Reads n (n - length (unread s)) s _ (omega (arith, leb-false _ _ beyond)) (
        fill-Fills s.incoming _ (unread s)
          (omega (arith, length-append (unread s) (arrivals s.incoming)))))
]

either_none :
    (c : Bool) (r : Option (List ℕ) × Stream) (s : Stream)
    → r.0 ≡ none
    → (if c then r else (none, s)).0 ≡ none
either_none true r s h = h
either_none false r s h = refl

settle-none : (s : Stream) (f : Filled) → f.result ≡ none → (settle s f).0 ≡ none
unfolding settle
settle-none s f h = h

-- With fewer bytes to come, or past the buffer on a closed socket, readExact fails.
pub read_exact_short :
    (n : ℕ) (s : Stream)
    → (length (pending s) < n) ⊎ ((s.connected ≡ false) × (length (unread s) < n))
    → (read_exact n s).0 ≡ none
read_exact_short n s (inr (c, h)) = ap (λ r. r.0) (read_exact-beyond n s h ∙ if_false _ _ _ c)
read_exact_short n s (inl h) =
    let bound = length-append (unread s) (arrivals s.incoming) in
    ap (λ r. r.0) (read_exact-beyond n s (omega (arith, bound)))
    ∙ either_none s.connected (settle (advance n s) _) (advance n s) (
        settle-none (advance n s) _
          (fill_short s.incoming (n - length (unread s)) (unread s) (omega (arith, bound))))

-- A call that succeeds with `a` and leaves `rest` to be read; nothing else of the stream changes
-- that its clients see.
pub record Yields {ℓ} {A : Type ℓ} (a : A) (rest : List ℕ) (s : Stream) (r : Option A × Stream)
    : Type ℓ where
  pub result_is : r.0 ≡ some a
  pub pending_is : pending r.1 ≡ rest
  pub connected_is : r.1.connected ≡ s.connected
  pub sent_is : r.1.sent ≡ s.sent
  pub outgoing_is : r.1.outgoing ≡ s.outgoing
  pub stop_is : r.1.stop_requested ≡ s.stop_requested

-- Bytes that are next in line are what readExact returns.
pub read_exact-Yields :
    (bytes rest : List ℕ) (s : Stream) (n : ℕ)
    → n ≡ length bytes
    → s.connected ≡ true
    → pending s ≡ bytes ++ rest
    → Yields bytes rest s (read_exact n s)
read_exact-Yields bytes rest s n h c e =
    let r = read_exact-Reads n s c (omega (arith, ap length e, length-append {0} bytes rest)) in
    record {
      result_is = r.result_is ∙ ap some (ap (take n) e ∙ take-append_length bytes rest n h);
      pending_is = r.pending_is ∙ ap (drop n) e ∙ drop-append_length bytes rest n h;
      connected_is = r.connected_is;
      sent_is = r.sent_is;
      outgoing_is = r.outgoing_is;
      stop_is = r.stop_is;
    }

pub Yields-pure {ℓ} :
    {A : Type ℓ} (a : A) (rest : List ℕ) (s : Stream)
    → pending s ≡ rest
    → Yields a rest s (some a, s)
Yields-pure a rest s e = record {
  result_is = refl;
  pending_is = e;
  connected_is = refl;
  sent_is = refl;
  outgoing_is = refl;
  stop_is = refl;
}

-- One call after another.
pub Yields-trans {ℓ κ} :
    {A : Type ℓ} {B : Type κ} {a : A} {b : B} {mid rest : List ℕ} {s : Stream}
    {r : Option A × Stream} {q : Option B × Stream}
    → Yields a mid s r
    → Yields b rest r.1 q
    → Yields b rest s q
Yields-trans y z = record {
  result_is = z.result_is;
  pending_is = z.pending_is;
  connected_is = z.connected_is ∙ y.connected_is;
  sent_is = z.sent_is ∙ y.sent_is;
  outgoing_is = z.outgoing_is ∙ y.outgoing_is;
  stop_is = z.stop_is ∙ y.stop_is;
}
