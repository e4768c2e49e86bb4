-- ===== src/Stream/Drained.antt =====
-- Streams whose buffer is used up: frames are read past it, and what is pushed comes next.
use deskflow_harmonyos.Base.{
  ℕ, ◌+◌, ◌≤◌, ◌≡◌, refl, sym, ap, ◌∙◌, true, Option, none, some, List, [], ◌++◌, arith, length,
  if_both, ltb, leb, take, drop, ◌==◌, drop-all, length-take, length-drop, length-append,
  drop-append_length,
}
use deskflow_harmonyos.Base.Word.{be32_of}
use deskflow_harmonyos.Stream.{
  Stream, unread, read_exact, read_body, read_frame, push_to_buffer, settle, close, Filled,
  max_frame,
}
use deskflow_harmonyos.Stream.Fill.{arrivals}
use deskflow_harmonyos.Stream.Read.{pending}

-- The position stands inside the buffer or at its end.
abbrev pub InBuffer : Stream → Type 0
InBuffer s = s.buffer_pos ≤ length s.buffer

-- The position stands at the end of the buffer.
abbrev pub Drained : Stream → Type 0
Drained s = s.buffer_pos ≡ length s.buffer

pub Drained-unread : (s : Stream) → Drained s → unread s ≡ []
Drained-unread s d = drop-all s.buffer_pos s.buffer (omega arith)

pub unread-Drained : (s : Stream) → InBuffer s → unread s ≡ [] → Drained s
unread-Drained s i e =
    let l = length-drop s.buffer_pos s.buffer in
    let z : length (unread s) ≡ 0 = ap length e in omega arith

-- A condition on the position and the buffer that a call keeps.
abbrev Holds : (ℕ → List ℕ → Type 0) → Stream → Type 0
Holds C s = C s.buffer_pos s.buffer

record Leaves {ℓ} (C : ℕ → List ℕ → Type 0) {A : Type ℓ} (r : A × Stream) : Type 0 where
  kept : Holds C r.1

-- A condition that an empty buffer satisfies, and that a read inside the buffer keeps.
record Steady (C : ℕ → List ℕ → Type 0) : Type 0 where
  empty : C 0 []
  step :
      (k at_byte : ℕ) (buffer : List ℕ)
      → C at_byte buffer
      → C (at_byte + length (take k (drop at_byte buffer))) buffer

module _ (C : ℕ → List ℕ → Type 0) (st : Steady C) where
  settle-Leaves : (s : Stream) (f : Filled) → Holds C s → Leaves C (settle s f)
  unfolding settle close
  settle-Leaves s f h =
      let shut : Stream = record (close s) { incoming = f.left; stop_requested = true } in
      let goes_on : Stream = record s { incoming = f.left } in
      record { kept = if_both (Holds C) f.by_stop {x = shut} {y = goes_on} st.empty h }

  read_exact-Leaves : (n : ℕ) (s : Stream) → Holds C s → Leaves C (read_exact n s)
  unfolding read_exact
  read_exact-Leaves n s h =
      let held = take n (unread s) in
      let s' : Stream = record s { buffer_pos = s.buffer_pos + length held } in
      let h' : Holds C s' = st.step n s.buffer_pos s.buffer h in
      let failed : Option (List ℕ) × Stream = (none, s') in
      let nothing : Leaves C failed = record { kept = h' } in
      if_both (Leaves C) (length held == n) (record { kept = h' })
        (if_both (Leaves C) s.connected (settle-Leaves s' _ h') nothing)

  read_body-Leaves : (len : ℕ) (s : Stream) → Holds C s → Leaves C (read_body len s)
  unfolding read_body
  read_body-Leaves len s h =
      if_both (Leaves C) (ltb max_frame len) (record { kept = h })
        (if_both (Leaves C) (leb 1 len) (read_exact-Leaves len s h) (record { kept = h }))

  on_field-Leaves :
      (field : Option (List ℕ)) (s : Stream)
      → Holds C s
      → Leaves C (elim field as (λ _. Option (List ℕ) × Stream) [
        | none ↦ (none, s)
        | some bs ↦ read_body (be32_of bs) s
      ])
  on_field-Leaves none s h = record { kept = h }
  on_field-Leaves (some bs) s h = read_body-Leaves (be32_of bs) s h

  read_frame-Leaves : (s : Stream) → Holds C s → Leaves C (read_frame s)
  unfolding read_frame
  read_frame-Leaves s h =
      on_field-Leaves (read_exact 4 s).0 (read_exact 4 s).1 (read_exact-Leaves 4 s h).kept

InBuffer-Steady : Steady (λ p b. p ≤ length b)
InBuffer-Steady = record {
  empty = omega arith;
  step = λ k p b h. omega (arith, length-take k (drop p b), length-drop p b);
}

Drained-Steady : Steady (λ p b. p ≡ length b)
Drained-Steady = record {
  empty = refl;
  step = λ k p b h. omega (arith, length-take k (drop p b), length-drop p b);
}

pub read_exact-InBuffer : (n : ℕ) (s : Stream) → InBuffer s → InBuffer (read_exact n s).1
read_exact-InBuffer n s h = (read_exact-Leaves (λ p b. p ≤ length b) InBuffer-Steady n s h).kept

-- readFrame on a stream whose buffer is used up leaves it used up.
pub read_frame-Drained : (s : Stream) → Drained s → Drained (read_frame s).1
read_frame-Drained s h = (read_frame-Leaves (λ p b. p ≡ length b) Drained-Steady s h).kept

-- What is pushed onto a used-up buffer is all that is unread there.
pub unread-push_to_buffer :
    (bytes : List ℕ) (s : Stream) → Drained s → unread (push_to_buffer bytes s) ≡ bytes
unfolding push_to_buffer
unread-push_to_buffer bytes s d = drop-append_length s.buffer bytes s.buffer_pos d

pub push_to_buffer-InBuffer :
    (bytes : List ℕ) (s : Stream) → InBuffer s → InBuffer (push_to_buffer bytes s)
unfolding push_to_buffer
push_to_buffer-InBuffer bytes s i = omega (arith, length-append s.buffer bytes)

-- ... and comes before all that the socket still brings.
pub pending-push_to_buffer :
    (bytes : List ℕ) (s : Stream)
    → Drained s
    → pending (push_to_buffer bytes s) ≡ bytes ++ pending s
unfolding push_to_buffer
pending-push_to_buffer bytes s d =
    ap (λ l. l ++ arrivals s.incoming) (drop-append_length s.buffer bytes s.buffer_pos d)
    ∙ ap (λ l. bytes ++ (l ++ arrivals s.incoming)) (sym (Drained-unread s d))
