-- ===== src/Proto/RoundTrip.antt =====
-- readf against the wire form of a message: each lemma reads one piece with any `rest` behind it.
use deskflow_harmonyos.Base.{
  ℕ, ◌+◌, ◌≤◌, ◌≡◌, ◌≢◌, refl, sym, ap, ◌∙◌, true, false, some, List, [], ◌∷◌, ◌++◌, append_assoc,
  arith, ◌==◌, ==_iff, if◌then◌else◌, length, All, ne→==_false, le→leb,
}
use deskflow_harmonyos.Base.Word.{put_u32}
use deskflow_harmonyos.Stream.{Stream, read_exact}
use deskflow_harmonyos.Stream.Read.{pending, Yields, Yields-pure, read_exact-Yields}
use deskflow_harmonyos.Proto.{Value, num, str, vec, raw, plain, spec, is_digit, writef}
use deskflow_harmonyos.Proto.Read.{
  pure, fail, be8_of, read_int, read_ints, read_counted, read_spec, read_char, read_from, readf,
  max_elements, max_string, max_raw,
}
use deskflow_harmonyos.Proto.Decode.{
  Yields-bind, read_int-Yields, read_ints-Yields, read_counted-Yields, read_from-cons,
  read_char-spec, read_from_percent, read_from_digit,
}
use deskflow_harmonyos.Proto.Encode.{writef-encode, digit_of_le, next_width_digit}
use deskflow_harmonyos.Proto.Format.{
  Width, w1, w2, w4, Item, byte, int, ints, text, fixed, run, octets, render, InWidth, Fits,
  big_endian, elements, encode,
}

-- What the rest of a format reads, from any stream that holds `mid`.
abbrev Continues : List ℕ → List Value → List ℕ → List ℕ → Type 0
Continues fmt vs mid rest =
    (t : Stream) → t.connected ≡ true → pending t ≡ mid → Yields vs rest t (read_from fmt plain t)

read_from_spec :
    (c len : ℕ) (fmt : List ℕ) (us vs : List Value) {mid rest : List ℕ} {s : Stream}
    → is_digit c ≡ false
    → s.connected ≡ true
    → Yields us mid s (read_spec c len s)
    → Continues fmt vs mid rest
    → Yields (us ++ vs) rest s (read_from (c ∷ fmt) (spec len) s)
read_from_spec c len fmt us vs {mid} {s = s} h o y more =
    let z = read_char-spec c len us mid s h y in
    read_from-cons c fmt (spec len) plain us vs z (more _ (z.connected_is ∙ o) z.pending_is)

read_char-byte :
    (c : ℕ) (mid : List ℕ) (s : Stream)
    → c ≢ b'%'
    → Yields (c ∷ []) mid s (read_exact 1 s)
    → Yields (plain, []) mid s (read_char c plain s)
unfolding read_char
read_char-byte c mid s h y = rw (ne→==_false c b'%' h) (
    Yields-bind (read_exact 1) (λ bs. if be8_of bs == c then pure (plain, []) else fail) y
      (rw ((==_iff c c).1 refl) (Yields-pure (plain, []) mid _ y.pending_is)))

read_from_byte :
    (c : ℕ) (fmt : List ℕ) (vs : List Value) (mid : List ℕ) {rest : List ℕ} (s : Stream)
    → c ≢ b'%'
    → s.connected ≡ true
    → pending s ≡ c ∷ mid
    → Continues fmt vs mid rest
    → Yields vs rest s (read_from (c ∷ fmt) plain s)
read_from_byte c fmt vs mid s h o e more =
    read_from-cons c fmt plain plain [] vs z (more _ (z.connected_is ∙ o) z.pending_is)
  where
    z : Yields (plain, []) mid s (read_char c plain s)
    z = read_char-byte c mid s h (read_exact-Yields (c ∷ []) mid s 1 refl o e)

abbrev ReadsAs : List Value → List ℕ → List ℕ → ℕ → ℕ → Type 0
ReadsAs us bytes mid c len =
    (s : Stream)
    → s.connected ≡ true
    → pending s ≡ bytes ++ mid
    → Yields us mid s (read_spec c len s)

read_spec-num :
    (w : Width) (v : ℕ) (mid : List ℕ)
    → InWidth w v
    → ReadsAs (num v ∷ []) (big_endian w v) mid b'i' (octets w)
unfolding read_spec
read_spec-num w v mid h s o e =
    let y = read_int-Yields w v mid s h o e in
    Yields-bind (read_int (octets w)) (λ v. pure (num v ∷ [])) y (Yields-pure _ mid _ y.pending_is)

read_spec-vec :
    (w : Width) (l : List ℕ) (mid : List ℕ)
    → length l ≤ max_elements
    → All (InWidth w) l
    → ReadsAs (vec l ∷ []) (put_u32 (length l) ++ elements w l) mid b'I' (octets w)
unfolding read_spec
read_spec-vec w l mid h g s o e =
    let y =
      read_ints-Yields w l mid s h g o (e ∙ append_assoc (put_u32 (length l)) (elements w l) mid) in
    Yields-bind (read_ints (octets w)) (λ l. pure (vec l ∷ [])) y (Yields-pure _ mid _ y.pending_is)

read_spec_fixed :
    (bs mid : List ℕ) (k : ℕ) → 1 ≤ k → k ≡ length bs → ReadsAs (str bs ∷ []) bs mid b's' k
unfolding read_spec
read_spec_fixed bs mid k lo h s o e =
    let y = read_exact-Yields bs mid s k h o e in
    rw (le→leb 1 k lo)
      (Yields-bind (read_exact k) (λ bs. pure (str bs ∷ [])) y (Yields-pure _ mid _ y.pending_is))

read_spec-str :
    (bs mid : List ℕ)
    → length bs ≤ max_string
    → ReadsAs (str bs ∷ []) (put_u32 (length bs) ++ bs) mid b's' 0
unfolding read_spec
read_spec-str bs mid h s o e =
    let y =
      read_counted-Yields max_string bs mid s h (omega arith) o
        (e ∙ append_assoc (put_u32 (length bs)) bs mid) in
    Yields-bind (read_counted max_string) (λ bs. pure (str bs ∷ [])) y
      (Yields-pure _ mid _ y.pending_is)

read_spec-raw :
    (bs mid : List ℕ)
    → length bs ≤ max_raw
    → ReadsAs (raw bs ∷ []) (put_u32 (length bs) ++ bs) mid b'S' 0
unfolding read_spec
read_spec-raw bs mid h s o e =
    let y =
      read_counted-Yields max_raw bs mid s h (omega arith) o
        (e ∙ append_assoc (put_u32 (length bs)) bs mid) in
    Yields-bind (read_counted max_raw) (λ bs. pure (raw bs ∷ [])) y
      (Yields-pure _ mid _ y.pending_is)

-- One conversion in front of a format, with no width and with a width digit.
read_bare :
    (c : ℕ) (us : List Value) (bytes fmt : List ℕ) (vs : List Value) (mid rest : List ℕ)
    (s : Stream)
    → is_digit c ≡ false
    → s.connected ≡ true
    → pending s ≡ bytes ++ mid
    → ReadsAs us bytes mid c 0
    → Continues fmt vs mid rest
    → Yields (us ++ vs) rest s (read_from (b'%' ∷ c ∷ fmt) plain s)
read_bare c us bytes fmt vs mid rest s h o e reads more =
    read_from_percent _ _ (read_from_spec c 0 fmt us vs h o (reads s o e) more)

read_wide :
    (k c : ℕ) (us : List Value) (bytes fmt : List ℕ) (vs : List Value) (mid rest : List ℕ)
    (s : Stream)
    → k ≤ 9
    → is_digit c ≡ false
    → s.connected ≡ true
    → pending s ≡ bytes ++ mid
    → ReadsAs us bytes mid c k
    → Continues fmt vs mid rest
    → Yields (us ++ vs) rest s (read_from (b'%' ∷ (b'0' + k) ∷ c ∷ fmt) plain s)
read_wide k c us bytes fmt vs mid rest s small h o e reads more = read_from_percent _ _ (
    read_from_digit _ 0 _ _ (digit_of_le k small)
      (rw (next_width_digit k small) (read_from_spec c k fmt us vs h o (reads s o e) more)))

octets-le : (w : Width) → octets w ≤ 9
octets-le w1 = omega arith
octets-le w2 = omega arith
octets-le w4 = omega arith

regroup : (a b c d : List ℕ) → (a ++ (b ++ c)) ++ d ≡ (a ++ b) ++ (c ++ d)
regroup a b c d = simp append_assoc

read_from-nil :
    (rest : List ℕ) (s : Stream) → pending s ≡ rest → Yields [] rest s (read_from [] plain s)
unfolding read_from
read_from-nil rest s e = Yields-pure [] rest s e

read_render :
    (is : List Item) (vs : List Value) (rest : List ℕ)
    → Fits is vs
    → Continues (render is) vs (encode is vs ++ rest) rest
unfolding render encode
read_render [] [] rest h t o e = read_from-nil rest t e
read_render [] (v ∷ vs) rest h t o e = elim h [ ]
read_render (byte c ∷ is) vs rest (h, _, k) t o e =
    read_from_byte c _ vs _ t h o e (read_render is vs rest k)
read_render (int w ∷ is) (num v ∷ vs) rest (h, k) t o e =
    read_wide _ b'i' _ _ _ vs _ rest t (octets-le w) refl o
      (e ∙ append_assoc (big_endian w v) _ rest) (read_spec-num w v _ h) (read_render is vs rest k)
read_render (ints w ∷ is) (vec l ∷ vs) rest (h, g, k) t o e =
    read_wide _ b'I' _ _ _ vs _ rest t (octets-le w) refl o
      (e ∙ regroup (put_u32 (length l)) (elements w l) _ rest) (read_spec-vec w l _ h g)
      (read_render is vs rest k)
read_render (text ∷ is) (str s ∷ vs) rest (h, k) t o e =
    read_bare b's' _ _ _ vs _ rest t refl o (e ∙ regroup (put_u32 (length s)) s _ rest)
      (read_spec-str s _ h) (read_render is vs rest k)
read_render (fixed d ∷ is) (str s ∷ vs) rest (lo, hi, h, k) t o e =
    read_wide _ b's' _ _ _ vs _ rest t hi refl o (e ∙ append_assoc s _ rest)
      (read_spec_fixed s _ d lo h) (read_render is vs rest k)
read_render (run ∷ is) (raw s ∷ vs) rest (h, k) t o e =
    read_bare b'S' _ _ _ vs _ rest t refl o (e ∙ regroup (put_u32 (length s)) s _ rest)
      (read_spec-raw s _ h) (read_render is vs rest k)
read_render (int w ∷ is) _ rest h t o e = elim h [ ]
read_render (ints w ∷ is) _ rest h t o e = elim h [ ]
read_render (text ∷ is) _ rest h t o e = elim h [ ]
read_render (fixed k ∷ is) _ rest h t o e = elim h [ ]
read_render (run ∷ is) _ rest h t o e = elim h [ ]

-- On an open connection that holds the wire form of a message next, readf returns its values, where
-- they fit the format's items, leaves what follows, and touches nothing of the writing side.
pub readf-encode :
    (is : List Item) (vs : List Value) (rest : List ℕ) (s : Stream)
    → Fits is vs
    → s.connected ≡ true
    → pending s ≡ encode is vs ++ rest
    → Yields vs rest s (readf (render is) s)
unfolding readf
readf-encode is vs rest s h o e = read_render is vs rest h s o e

-- On an open connection readf reads back what writef wrote, for every format made of items and all
-- values that fit them, and leaves what follows.
pub readf-writef :
    (is : List Item) (vs : List Value) (out rest : List ℕ) (s : Stream)
    → Fits is vs
    → writef (render is) vs ≡ some out
    → s.connected ≡ true
    → pending s ≡ out ++ rest
    → ((readf (render is) s).0 ≡ some vs) × (pending (readf (render is) s).1 ≡ rest)
readf-writef is vs out rest s h w o e =
    let same : encode is vs ≡ out = cc (writef-encode is vs h) in
    let y = readf-encode is vs rest s h o (e ∙ ap (λ l. l ++ rest) (sym same)) in
    (y.result_is, y.pending_is)
