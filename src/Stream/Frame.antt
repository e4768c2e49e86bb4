-- ===== src/Stream/Frame.antt =====
-- SocketStream::readFrame, and frames from one end to the other.
use deskflow_harmonyos.Base.{
  ℕ, ◌≤◌, ◌<◌, ◌≡◌, refl, sym, ap, ◌∙◌, true, none, some, List, [], ◌∷◌, ◌++◌, append_assoc, arith,
  le→leb, le→ltb, length,
}
use mathlib.Core.Path.{subst}
use mathlib.Core.List.{append_cancel_left}
use deskflow_harmonyos.Base.Word.{put_u32, length-put_u32, be32_of, be32_of-put_u32}
use deskflow_harmonyos.Stream.{Stream, read_exact, max_frame, read_body, read_frame, write_frame}
use deskflow_harmonyos.Stream.Read.{pending, Yields, Yields-pure, Yields-trans, read_exact-Yields}
use deskflow_harmonyos.Stream.Write.{frame, write_frame-sent, write_frame-fits}

read_body-Yields :
    (bytes rest : List ℕ) (s : Stream)
    → s.connected ≡ true
    → length bytes ≤ max_frame
    → pending s ≡ bytes ++ rest
    → Yields bytes rest s (read_body (length bytes) s)
unfolding read_body
read_body-Yields [] rest s c h e = Yields-pure [] rest s e
read_body-Yields (b ∷ bs) rest s c h e =
    rw (le→ltb max_frame _ h, le→leb 1 (length (b ∷ bs)) (omega arith))
      (read_exact-Yields (b ∷ bs) rest s _ refl c e)

read_frame_field :
    (s : Stream) (lenb : List ℕ)
    → (read_exact 4 s).0 ≡ some lenb
    → read_frame s ≡ read_body (be32_of lenb) (read_exact 4 s).1
unfolding read_frame
read_frame_field s lenb e = rw (e, read_frame)

-- On an open connection that holds a whole frame next, of a payload within the limit, readFrame
-- returns the payload, leaves what follows, and touches nothing of the writing side.
pub read_frame-Yields :
    (bytes rest : List ℕ) (s : Stream)
    → s.connected ≡ true
    → length bytes ≤ max_frame
    → pending s ≡ frame bytes ++ rest
    → Yields bytes rest s (read_frame s)
read_frame-Yields bytes rest s c h e =
    subst (Yields bytes rest s)
      (sym (
        read_frame_field s (put_u32 (length bytes)) field.result_is
        ∙ ap (λ n. read_body n (read_exact 4 s).1) (be32_of-put_u32 (length bytes) (omega arith))))
      (Yields-trans field
        (read_body-Yields bytes rest _ (field.connected_is ∙ c) h field.pending_is))
  where
    field : Yields (put_u32 (length bytes)) (bytes ++ rest) s (read_exact 4 s)
    field =
        read_exact-Yields (put_u32 (length bytes)) (bytes ++ rest) s 4 (length-put_u32 _) c
          (e ∙ append_assoc (put_u32 (length bytes)) bytes rest)

-- What one end's successful writeFrame put on the wire is what the other end's readFrame returns on
-- an open connection, with the bytes behind it left to read.
pub read_frame-write_frame :
    (bytes rest : List ℕ) (w s : Stream)
    → (write_frame bytes w).0 ≡ true
    → s.connected ≡ true
    → w.sent ++ pending s ≡ (write_frame bytes w).1.sent ++ rest
    → ((read_frame s).0 ≡ some bytes) × (pending (read_frame s).1 ≡ rest)
read_frame-write_frame bytes rest w s ok c e =
    let r = read_frame-Yields bytes rest s c (write_frame-fits bytes w ok) (
      append_cancel_left w.sent _ _ (
        e
        ∙ ap (λ l. l ++ rest) (write_frame-sent bytes w ok)
        ∙ append_assoc w.sent (frame bytes) rest)) in
    (r.result_is, r.pending_is)

-- A length field above the limit is refused.
pub read_body_large : (len : ℕ) (s : Stream) → max_frame < len → read_body len s ≡ (none, s)
unfolding read_body
read_body_large len s h = ground arith
