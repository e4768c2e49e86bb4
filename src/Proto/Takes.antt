-- ===== src/Proto/Takes.antt =====
-- Reads of bytes that are in the buffer already: the socket is left alone.
use deskflow_harmonyos.Base.{
  ℕ, ◌≡◌, sym, ap, ◌∙◌, true, Option, some, List, [], ◌++◌, append-nil, length,
}
use mathlib.Core.Path.{subst}
use deskflow_harmonyos.Stream.{Stream, unread, read_exact}
use deskflow_harmonyos.Stream.Drained.{InBuffer}
use deskflow_harmonyos.Stream.Read.{pending, Yields, read_exact-Yields}
use deskflow_harmonyos.Proto.{Value}
use deskflow_harmonyos.Proto.Read.{Reader, readf}
use deskflow_harmonyos.Proto.Format.{Item, render, encode, Fits}
use deskflow_harmonyos.Proto.RoundTrip.{readf-encode}
use deskflow_harmonyos.Proto.Buffered.{with_incoming, Local, read_exact-IsLocal, readf-Local}

-- A read from the buffer: it succeeds, leaves `more` unread there, and the rest of the stream alone.
pub record Takes {A : Type 0} (a : A) (more : List ℕ) (s : Stream) (r : Option A × Stream)
    : Type 0 where
  pub result_is : r.0 ≡ some a
  pub unread_is : unread r.1 ≡ more
  pub in_buffer : InBuffer r.1
  pub incoming_is : r.1.incoming ≡ s.incoming
  pub connected_is : r.1.connected ≡ s.connected
  pub sent_is : r.1.sent ≡ s.sent
  pub outgoing_is : r.1.outgoing ≡ s.outgoing
  pub stop_is : r.1.stop_requested ≡ s.stop_requested

Local-Takes :
    {A : Type 0} (m : Reader A) (a : A) (more : List ℕ) (s : Stream)
    → Local m s a
    → Yields a more (with_incoming [] s) (m (with_incoming [] s))
    → Takes a more s (m s)
Local-Takes m a more s l y =
    let dry = ap (λ q. q.1) (l.reads []) in
    let wet = l.reads s.incoming in
    record {
      result_is = ap (λ q. q.0) wet;
      unread_is =
          ap (λ q. unread q.1) wet
          ∙ (sym (append-nil (unread l.left)) ∙ (sym (ap pending dry) ∙ y.pending_is));
      in_buffer = subst InBuffer (sym (ap (λ q. q.1) wet)) l.in_buffer;
      incoming_is = ap (λ q. q.1.incoming) wet;
      connected_is =
          ap (λ q. q.1.connected) wet ∙ (sym (ap (λ t. t.connected) dry) ∙ y.connected_is);
      sent_is = ap (λ q. q.1.sent) wet ∙ (sym (ap (λ t. t.sent) dry) ∙ y.sent_is);
      outgoing_is = ap (λ q. q.1.outgoing) wet ∙ (sym (ap (λ t. t.outgoing) dry) ∙ y.outgoing_is);
      stop_is =
          ap (λ q. q.1.stop_requested) wet ∙ (sym (ap (λ t. t.stop_requested) dry) ∙ y.stop_is);
    }

pub read_exact-Takes :
    (key payload : List ℕ) (s : Stream)
    → length key ≡ 4
    → s.connected ≡ true
    → InBuffer s
    → unread s ≡ key ++ payload
    → Takes key payload s (read_exact 4 s)
read_exact-Takes key payload s k o i u =
    let y =
      read_exact-Yields key payload (with_incoming [] s) 4 (sym k) o (append-nil (unread s) ∙ u) in
    Local-Takes (read_exact 4) key payload s (read_exact-IsLocal 4 s key i y.result_is) y

pub readf-Takes :
    (is : List Item) (vs : List Value) (more : List ℕ) (s : Stream)
    → Fits is vs
    → s.connected ≡ true
    → InBuffer s
    → unread s ≡ encode is vs ++ more
    → Takes vs more s (readf (render is) s)
readf-Takes is vs more s f o i u =
    let y = readf-encode is vs more (with_incoming [] s) f o (append-nil (unread s) ∙ u) in
    Local-Takes (readf (render is)) vs more s (readf-Local (render is) s vs i y.result_is) y
