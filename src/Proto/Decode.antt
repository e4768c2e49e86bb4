-- ===== src/Proto/Decode.antt =====
-- The parts of readf on a stream that holds the wire form of what they read, with any `rest`
-- behind it.
use deskflow_harmonyos.Base.{
  ℕ, ◌^◌, ◌≤◌, ◌<◌, ◌≡◌, refl, sym, ◌∙◌, true, false, Option, none, some, List, [], ◌∷◌, ◌++◌,
  append_assoc, arith, ltb, if◌then◌else◌, length, All, le→ltb,
}
use mathlib.Core.Path.{subst}
use deskflow_harmonyos.Base.Word.{put_u16, put_u32, length-put_u32, be32_of, be32_of-put_u32}
use deskflow_harmonyos.Stream.{Stream, read_exact}
use deskflow_harmonyos.Stream.Read.{pending, Yields, Yields-pure, Yields-trans, read_exact-Yields}
use deskflow_harmonyos.Proto.{Value, Mode, plain, spec, is_digit, next_width}
use deskflow_harmonyos.Proto.Read.{
  Reader, pure, ◌>>=◌, fail, be8_of, be16_of, read_int, read_elements, read_ints, read_counted,
  read_spec, read_char, read_from, max_elements,
}
use deskflow_harmonyos.Proto.Format.{Width, w1, w2, w4, octets, InWidth, big_endian, elements}

bind_some {ℓ κ} :
    {A : Type ℓ} {B : Type κ} (r : Option A × Stream) (f : A → Reader B) {a : A}
    → r.0 ≡ some a
    → (elim r.0 [ none ↦ (none, r.1) | some x ↦ f x r.1 ]) ≡ f a r.1
bind_some r f e = rw e

-- The rule for a read that goes on with another.
pub Yields-bind {ℓ κ} :
    {A : Type ℓ} {B : Type κ} (m : Reader A) (f : A → Reader B) {a : A} {b : B} {mid rest : List ℕ}
    {s : Stream}
    → Yields a mid s (m s)
    → Yields b rest (m s).1 (f a (m s).1)
    → Yields b rest s ((m >>= f) s)
Yields-bind m f {b = b} {rest = rest} {s = s} y z =
    subst (Yields b rest s) (sym (bind_some (m s) f y.result_is)) (Yields-trans y z)

Yields-cast {ℓ} :
    {A : Type ℓ} {a b : A} {rest : List ℕ} {s : Stream} {r : Option A × Stream}
    → a ≡ b
    → Yields a rest s r
    → Yields b rest s r
Yields-cast {rest = rest} {s} {r} e y = subst (λ x. Yields x rest s r) e y

pub read_int-Yields :
    (w : Width) (v : ℕ) (rest : List ℕ) (s : Stream)
    → InWidth w v
    → s.connected ≡ true
    → pending s ≡ big_endian w v ++ rest
    → Yields v rest s (read_int (octets w) s)
unfolding read_int big_endian
read_int-Yields w1 v rest s h c e =
    let y = read_exact-Yields (v ∷ []) rest s 1 refl c e in
    Yields-bind (read_exact 1) (λ bs. pure (be8_of bs)) y (Yields-pure v rest _ y.pending_is)
read_int-Yields w2 v rest s h c e =
    let y = read_exact-Yields (put_u16 v) rest s 2 refl c e in
    Yields-bind (read_exact 2) (λ bs. pure (be16_of bs)) y
      (Yields-cast (omega arith) (Yields-pure (be16_of (put_u16 v)) rest _ y.pending_is))
read_int-Yields w4 v rest s h c e =
    let y = read_exact-Yields (put_u32 v) rest s 4 refl c e in
    Yields-bind (read_exact 4) (λ bs. pure (be32_of bs)) y
      (Yields-cast (be32_of-put_u32 v h) (Yields-pure (be32_of (put_u32 v)) rest _ y.pending_is))

read_elements-Yields :
    (w : Width) (vs rest : List ℕ) (s : Stream)
    → All (InWidth w) vs
    → s.connected ≡ true
    → pending s ≡ elements w vs ++ rest
    → Yields vs rest s (read_elements (octets w) (length vs) s)
unfolding read_elements elements
read_elements-Yields w [] rest s h c e = Yields-pure [] rest s e
read_elements-Yields w (v ∷ vs) rest s h c e =
    let y =
      read_int-Yields w v (elements w vs ++ rest) s h.0 c
        (e ∙ append_assoc (big_endian w v) _ rest) in
    let z = read_elements-Yields w vs rest _ h.1 (y.connected_is ∙ c) y.pending_is in
    Yields-bind (read_int (octets w))
      (λ v. (read_elements (octets w) (length vs)) >>= λ vs. pure (v ∷ vs)) y
      (Yields-bind (read_elements (octets w) (length vs)) (λ vs. pure (v ∷ vs)) z
        (Yields-pure (v ∷ vs) rest _ z.pending_is))

-- A length field within the limit, in front of a read of so many.
read_length-Yields {ℓ} :
    {A : Type ℓ} (n limit : ℕ) (body : ℕ → Reader A) {a : A} (mid rest : List ℕ) (s : Stream)
    → n ≤ limit
    → limit < 2 ^ 32
    → s.connected ≡ true
    → pending s ≡ put_u32 n ++ mid
    → ((t : Stream) → t.connected ≡ true → pending t ≡ mid → Yields a rest t (body n t))
    → Yields a rest s (
        (read_exact 4 >>= λ lenb. if ltb limit (be32_of lenb) then fail else body (be32_of lenb)) s)
read_length-Yields n limit body mid rest s h small c e then_body =
    let y = read_exact-Yields (put_u32 n) mid s 4 (length-put_u32 n) c e in
    Yields-bind (read_exact 4)
      (λ lenb. if ltb limit (be32_of lenb) then fail else body (be32_of lenb)) y
      (rw (be32_of-put_u32 n (omega arith), le→ltb limit n h)
        (then_body _ (y.connected_is ∙ c) y.pending_is))

pub read_ints-Yields :
    (w : Width) (l rest : List ℕ) (s : Stream)
    → length l ≤ max_elements
    → All (InWidth w) l
    → s.connected ≡ true
    → pending s ≡ put_u32 (length l) ++ (elements w l ++ rest)
    → Yields l rest s (read_ints (octets w) s)
unfolding read_ints
read_ints-Yields w l rest s h g c e =
    read_length-Yields (length l) max_elements (read_elements (octets w)) _ rest s h (omega arith) c
      e (λ t. read_elements-Yields w l rest t g)

pub read_counted-Yields :
    (limit : ℕ) (bytes rest : List ℕ) (s : Stream)
    → length bytes ≤ limit
    → limit < 2 ^ 32
    → s.connected ≡ true
    → pending s ≡ put_u32 (length bytes) ++ (bytes ++ rest)
    → Yields bytes rest s (read_counted limit s)
unfolding read_counted
read_counted-Yields limit bytes rest s h small c e =
    read_length-Yields (length bytes) limit read_exact _ rest s h small c e
      (λ t. read_exact-Yields bytes rest t (length bytes) refl)

pub read_from-cons :
    (c : ℕ) (fmt : List ℕ) (mode mode' : Mode) (us vs : List Value) {mid rest : List ℕ} {s : Stream}
    → Yields (mode', us) mid s (read_char c mode s)
    → Yields vs rest (read_char c mode s).1 (read_from fmt mode' (read_char c mode s).1)
    → Yields (us ++ vs) rest s (read_from (c ∷ fmt) mode s)
unfolding read_from
read_from-cons c fmt mode mode' us vs {rest = rest} y z =
    Yields-bind (read_char c mode) (λ r. read_from fmt r.0 >>= λ more. pure (r.1 ++ more)) y
      (Yields-bind (read_from fmt mode') (λ more. pure (us ++ more)) z
        (Yields-pure (us ++ vs) rest _ z.pending_is))

pub read_from_percent :
    (fmt : List ℕ) (vs : List Value) {rest : List ℕ} {s : Stream}
    → Yields vs rest s (read_from fmt (spec 0) s)
    → Yields vs rest s (read_from (b'%' ∷ fmt) plain s)
unfolding read_char
read_from_percent fmt vs {s = s} y =
    read_from-cons b'%' fmt plain (spec 0) [] vs (Yields-pure _ (pending s) s refl) y

read_char_digit :
    (d len : ℕ) (s : Stream)
    → is_digit d ≡ true
    → read_char d (spec len) s ≡ (some (spec (next_width len d), []), s)
unfolding read_char
read_char_digit d len s h = rw h

pub read_char-spec :
    (c len : ℕ) (us : List Value) (mid : List ℕ) (s : Stream)
    → is_digit c ≡ false
    → Yields us mid s (read_spec c len s)
    → Yields (plain, us) mid s (read_char c (spec len) s)
unfolding read_char
read_char-spec c len us mid s h y = rw h (
    Yields-bind (read_spec c len) (λ us. pure (plain, us)) y
      (Yields-pure (plain, us) mid _ y.pending_is))

pub read_from_digit :
    (d len : ℕ) (fmt : List ℕ) (vs : List Value) {rest : List ℕ} {s : Stream}
    → is_digit d ≡ true
    → Yields vs rest s (read_from fmt (spec (next_width len d)) s)
    → Yields vs rest s (read_from (d ∷ fmt) (spec len) s)
read_from_digit d len fmt vs {rest} {s} h y =
    let e = sym (read_char_digit d len s h) in
    read_from-cons d fmt (spec len) (spec (next_width len d)) [] vs
      (subst (Yields _ (pending s) s) e (Yields-pure _ _ s refl))
      (subst (λ r. Yields vs rest r.1 (read_from fmt (spec (next_width len d)) r.1)) e y)
