-- ===== src/Proto/Canonical.antt =====
-- The numbers, strings and runs that readf of entry/src/main/cpp/protocol/proto_util.cpp takes from a
-- stream of bytes: their ranges, and the bytes taken for them.
use deskflow_harmonyos.Base.{
  ℕ, zero, suc, ◌/◌, ◌%◌, ◌^◌, ◌≤◌, ◌≡◌, refl, sym, ap, ◌∙◌, List, [], ◌∷◌, ◌++◌, arith, ltb,
  if◌then◌else◌, inl, inr, Bool-cases, length, All,
}
use mathlib.Core.Path.{subst}
use deskflow_harmonyos.Base.Word.{IsByte, put_u16, put_u32, be16, be32, be32_of}
use deskflow_harmonyos.Stream.{read_exact}
use deskflow_harmonyos.Proto.Read.{
  Reader, pure, fail, ◌>>=◌, be8_of, be16_of, read_int, read_elements, read_ints, read_counted,
  max_elements,
}
use deskflow_harmonyos.Proto.Ensures.{
  Ensures, Ensures-pure, Ensures-fail, Ensures-bind, Ensures-mapped, Ensures-weaken,
  Ensures-read_exact, IsRun,
}
use deskflow_harmonyos.Proto.Format.{Width, w1, w2, w4, octets, InWidth, big_endian, elements}

-- The integer is in range, and the bytes taken are its wire form.
pub record IsInt (w : Width) (v : ℕ) (used : List ℕ) : Type 0 where
  pub in_width : InWidth w v
  pub used_is : used ≡ big_endian w v

abbrev value_of : Width → List ℕ → ℕ
value_of w1 bs = be8_of bs
value_of w2 bs = be16_of bs
value_of w4 bs = be32_of bs

put_u16-be16 : (a b : ℕ) → IsByte a → IsByte b → a ∷ b ∷ [] ≡ put_u16 (be16 a b)
unfolding put_u16
put_u16-be16 a b ha hb =
    let e0 : a ≡ be16 a b / 256 % 256 = omega arith in
    let e1 : b ≡ be16 a b % 256 = omega arith in
    ap (λ x. x ∷ b ∷ []) e0 ∙ ap (λ y. be16 a b / 256 % 256 ∷ y ∷ []) e1

put_u32-be32 :
    (a b c d : ℕ)
    → IsByte a
    → IsByte b
    → IsByte c
    → IsByte d
    → a ∷ b ∷ c ∷ d ∷ [] ≡ put_u32 (be32 a b c d)
unfolding put_u32
put_u32-be32 a b c d ha hb hc hd =
    let v = be32 a b c d in
    let e0 : a ≡ v / 2 ^ 24 % 256 = omega arith in
    let e1 : b ≡ v / 2 ^ 16 % 256 = omega arith in
    let e2 : c ≡ v / 256 % 256 = omega arith in
    let e3 : d ≡ v % 256 = omega arith in
    ap (λ x. x ∷ b ∷ c ∷ d ∷ []) e0
    ∙ (ap (λ x. v / 2 ^ 24 % 256 ∷ x ∷ c ∷ d ∷ []) e1
        ∙ (ap (λ x. v / 2 ^ 24 % 256 ∷ v / 2 ^ 16 % 256 ∷ x ∷ d ∷ []) e2
            ∙ ap (λ x. v / 2 ^ 24 % 256 ∷ v / 2 ^ 16 % 256 ∷ v / 256 % 256 ∷ x ∷ []) e3))

value_of-IsInt :
    (w : Width) (bs : List ℕ) → length bs ≡ octets w → All IsByte bs → IsInt w (value_of w bs) bs
unfolding big_endian
value_of-IsInt w1 (a ∷ []) l h = record { in_width = h.0; used_is = refl }
value_of-IsInt w2 (a ∷ b ∷ []) l h = record {
  in_width = omega (arith, h.0, h.1.0);
  used_is = put_u16-be16 a b h.0 h.1.0;
}
value_of-IsInt w4 (a ∷ b ∷ c ∷ d ∷ []) l h = record {
  in_width = omega (arith, h.0, h.1.0, h.1.1.0, h.1.1.1.0);
  used_is = put_u32-be32 a b c d h.0 h.1.0 h.1.1.0 h.1.1.1.0;
}
value_of-IsInt _ _ l h = absurd (omega arith)

word-IsInt : (w : Width) → Ensures (IsInt w) (read_exact (octets w) >>= λ bs. pure (value_of w bs))
word-IsInt w =
    Ensures-mapped (IsRun (octets w)) (IsInt w) (read_exact (octets w)) (value_of w)
      (Ensures-read_exact (octets w))
      (λ bs used r.
        subst (IsInt w (value_of w bs)) (sym r.used_is) (value_of-IsInt w bs r.length_is r.bytes))

pub read_int-IsInt : (w : Width) → Ensures (IsInt w) (read_int (octets w))
unfolding read_int
read_int-IsInt w1 = word-IsInt w1
read_int-IsInt w2 = word-IsInt w2
read_int-IsInt w4 = word-IsInt w4

-- So many integers in range, and their wire form.
pub record AreInts (w : Width) (n : ℕ) (vs : List ℕ) (used : List ℕ) : Type 0 where
  pub length_is : length vs ≡ n
  pub in_width : All (InWidth w) vs
  pub used_is : used ≡ elements w vs

read_elements-AreInts : (w : Width) (n : ℕ) → Ensures (AreInts w n) (read_elements (octets w) n)
unfolding read_elements elements
read_elements-AreInts w zero =
    Ensures-pure (AreInts w zero) [] (record { length_is = refl; in_width = tt; used_is = refl })
read_elements-AreInts w (suc n) =
    Ensures-bind (IsInt w) (AreInts w (suc n)) (read_int (octets w))
      (λ v. read_elements (octets w) n >>= λ vs. pure (v ∷ vs)) (read_int-IsInt w)
      (λ v bs i.
        Ensures-mapped (AreInts w n) (λ b cs. AreInts w (suc n) b (bs ++ cs))
          (read_elements (octets w) n) (λ vs. v ∷ vs) (read_elements-AreInts w n)
          (λ vs cs more. record {
            length_is = ap suc more.length_is;
            in_width = (i.in_width, more.in_width);
            used_is = ap (λ l. l ++ cs) i.used_is ∙ ap (λ l. big_endian w v ++ l) more.used_is;
          }))

-- A length field: the wire form of the number that it makes.
abbrev IsLength : List ℕ → List ℕ → Type 0
IsLength lenb used = IsInt w4 (be32_of lenb) used

-- What follows a length field within the limit: the field is the wire form of the length.
counted {ℓ} :
    {A : Type ℓ} (limit : ℕ) (body : ℕ → Reader A) (Q : ℕ → A → List ℕ → Type 0)
    (R : A → List ℕ → Type 0)
    → ((n : ℕ) → Ensures (Q n) (body n))
    → ((n : ℕ) (a : A) (bs : List ℕ) → n ≤ limit → Q n a bs → R a (put_u32 n ++ bs))
    → Ensures R
        (read_exact 4 >>= λ lenb. if ltb limit (be32_of lenb) then fail else body (be32_of lenb))
unfolding big_endian
counted limit body Q R each combine =
    Ensures-bind IsLength R (read_exact 4)
      (λ lenb. if ltb limit (be32_of lenb) then fail else body (be32_of lenb))
      (Ensures-weaken (IsRun 4) IsLength (read_exact 4) (Ensures-read_exact 4) (λ lenb used r.
        subst (IsInt w4 (be32_of lenb)) (sym r.used_is)
          (value_of-IsInt w4 lenb r.length_is r.bytes)))
      (λ lenb used i. elim (Bool-cases (ltb limit (be32_of lenb))) [
        | inl over ↦ rw over (Ensures-fail _)
        | inr within ↦ rw within (
            Ensures-weaken (Q (be32_of lenb)) _ (body (be32_of lenb)) (each (be32_of lenb))
              (λ a bs q.
                subst (λ l. R a (l ++ bs)) (sym i.used_is)
                  (combine (be32_of lenb) a bs (ground arith) q)))
      ])

-- A counted vector, and its wire form.
pub record IsVec (w : Width) (vs used : List ℕ) : Type 0 where
  pub length_le : length vs ≤ max_elements
  pub in_width : All (InWidth w) vs
  pub used_is : used ≡ put_u32 (length vs) ++ elements w vs

pub read_ints-IsVec : (w : Width) → Ensures (IsVec w) (read_ints (octets w))
unfolding read_ints
read_ints-IsVec w =
    counted max_elements (read_elements (octets w)) (AreInts w) (IsVec w) (read_elements-AreInts w)
      (λ n vs bs h q. record {
        length_le = omega (arith, q.length_is);
        in_width = q.in_width;
        used_is =
            ap (λ k. put_u32 k ++ bs) (sym q.length_is)
            ∙ ap (λ l. put_u32 (length vs) ++ l) q.used_is;
      })

-- A counted string, and its wire form.
pub record IsCounted (limit : ℕ) (bs used : List ℕ) : Type 0 where
  pub length_le : length bs ≤ limit
  pub used_is : used ≡ put_u32 (length bs) ++ bs

pub read_counted-IsCounted : (limit : ℕ) → Ensures (IsCounted limit) (read_counted limit)
unfolding read_counted
read_counted-IsCounted limit =
    counted limit read_exact IsRun (IsCounted limit) Ensures-read_exact (λ n bs used h q. record {
      length_le = omega (arith, q.length_is);
      used_is =
          ap (λ k. put_u32 k ++ used) (sym q.length_is)
          ∙ ap (λ l. put_u32 (length bs) ++ l) q.used_is;
    })
