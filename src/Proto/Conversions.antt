-- ===== src/Proto/Conversions.antt =====
-- One item of a format, read from a stream of bytes by the cases of readf's `switch (*fmt)`
-- (entry/src/main/cpp/protocol/proto_util.cpp).
use deskflow_harmonyos.Base.{
  ℕ, ◌+◌, ◌≤◌, ◌≡◌, ◌≢◌, refl, sym, ap, ◌∙◌, true, false, List, [], ◌∷◌, ◌++◌, append-nil, arith,
  ◌==◌, ==_iff, if◌then◌else◌, length, inl, inr, Bool-cases, ne→==_false, le→leb,
}
use mathlib.Core.Path.{subst}
use deskflow_harmonyos.Stream.{read_exact}
use deskflow_harmonyos.Proto.{Value, num, str, vec, raw, Mode, plain, spec, is_digit}
use deskflow_harmonyos.Proto.Encode.{digit_of_le, next_width_digit}
use deskflow_harmonyos.Proto.Read.{
  Reader, pure, fail, ◌>>=◌, be8_of, read_int, read_ints, read_counted, read_spec, read_char,
  read_from, max_string, max_raw,
}
use deskflow_harmonyos.Proto.Ensures.{
  Ensures, Ensures-pure, Ensures-fail, Ensures-bind, Ensures-mapped, Ensures-weaken,
  Ensures-read_exact, IsRun,
}
use deskflow_harmonyos.Proto.Canonical.{
  IsInt, read_int-IsInt, IsVec, read_ints-IsVec, IsCounted, read_counted-IsCounted,
}
use deskflow_harmonyos.Proto.Format.{Width, w1, w2, w4, octets}

-- One value of the kind that `make` builds, related to the bytes by Q.
pub record IsOne {A : Type 0} (make : A → Value) (Q : A → List ℕ → Type 0) (vs : List Value)
    (used : List ℕ) : Type 0 where
  pub item : A
  pub vs_is : vs ≡ make item ∷ []
  pub related : Q item used

-- The rule for one character of the format in front of others.
pub Ensures-cons :
    (c : ℕ) (fmt : List ℕ) (mode mode' : Mode) (U R : List Value → List ℕ → Type 0)
    → Ensures (λ r bs. (r.0 ≡ mode') × U r.1 bs) (read_char c mode)
    → ((us : List Value) (bs : List ℕ)
        → U us bs
        → Ensures (λ vs cs. R (us ++ vs) (bs ++ cs)) (read_from fmt mode'))
    → Ensures R (read_from (c ∷ fmt) mode)
unfolding read_from
Ensures-cons c fmt mode mode' U R first more =
    Ensures-bind (λ r bs. (r.0 ≡ mode') × U r.1 bs) R (read_char c mode)
      (λ r. read_from fmt r.0 >>= λ rest. pure (r.1 ++ rest)) first
      (λ r bs h.
        Ensures-mapped (λ vs cs. R (r.1 ++ vs) (bs ++ cs)) (λ vs cs. R vs (bs ++ cs))
          (read_from fmt r.0) (λ rest. r.1 ++ rest)
          (subst (λ m. Ensures (λ vs cs. R (r.1 ++ vs) (bs ++ cs)) (read_from fmt m)) (sym h.0)
            (more r.1 bs h.1))
          (λ vs cs q. q))

-- A character that reads nothing and changes the mode.
Ensures-silent :
    (c : ℕ) (fmt : List ℕ) (mode mode' : Mode) (R : List Value → List ℕ → Type 0)
    → read_char c mode ≡ pure (mode', [])
    → Ensures R (read_from fmt mode')
    → Ensures R (read_from (c ∷ fmt) mode)
Ensures-silent c fmt mode mode' R e more =
    Ensures-cons c fmt mode mode' (λ us bs. (us ≡ []) × (bs ≡ [])) R
      (rw e (Ensures-pure _ (mode', []) (refl, (refl, refl)))) (λ us bs h. rw (h.0, h.1) more)

read_char-percent : read_char b'%' plain ≡ pure (spec 0, [])
unfolding read_char
read_char-percent = refl

read_char_digit : (k : ℕ) → k ≤ 9 → read_char (b'0' + k) (spec 0) ≡ pure (spec k, [])
unfolding read_char
read_char_digit k h = rw (digit_of_le k h, next_width_digit k h) refl

-- A conversion letter in front of a format.
Ensures-letter :
    (c len : ℕ) (fmt : List ℕ) (U R : List Value → List ℕ → Type 0)
    → is_digit c ≡ false
    → Ensures U (read_spec c len)
    → ((us : List Value) (bs : List ℕ)
        → U us bs
        → Ensures (λ vs cs. R (us ++ vs) (bs ++ cs)) (read_from fmt plain))
    → Ensures R (read_from (c ∷ fmt) (spec len))
unfolding read_char
Ensures-letter c len fmt U R letter first more =
    Ensures-cons c fmt (spec len) plain U R
      (rw letter (
        Ensures-mapped U (λ r bs. (r.0 ≡ plain) × U r.1 bs) (read_spec c len) (λ vs. (plain, vs))
          first (λ vs bs h. (refl, h))))
      more

one_byte : (c : ℕ) (bs : List ℕ) → length bs ≡ 1 → (be8_of bs == c) ≡ true → bs ≡ c ∷ []
one_byte c (b ∷ []) l h = ap (λ x. x ∷ []) ((==_iff b c).0 h)
one_byte c [] l h = absurd (omega arith)
one_byte c (b ∷ b' ∷ bs) l h = absurd (omega arith)

pub read_char-itself :
    (c : ℕ)
    → c ≢ b'%'
    → Ensures (λ r bs. (r.0 ≡ plain) × ((r.1 ≡ []) × (bs ≡ c ∷ []))) (read_char c plain)
unfolding read_char
read_char-itself c h = rw (ne→==_false c b'%' h) (
    Ensures-bind (IsRun 1) (λ r bs. (r.0 ≡ plain) × ((r.1 ≡ []) × (bs ≡ c ∷ []))) (read_exact 1)
      (λ bs. if be8_of bs == c then pure (plain, []) else fail) (Ensures-read_exact 1)
      (λ bs used r. elim (Bool-cases (be8_of bs == c)) [
        | inl same ↦ rw same (
            Ensures-pure _ (plain, [])
              (refl, (refl, append-nil used ∙ (r.used_is ∙ one_byte c bs r.length_is same))))
        | inr other ↦ rw other (Ensures-fail _)
      ]))

module _ {A : Type 0} (make : A → Value) (Q : A → List ℕ → Type 0) where
  -- A read whose result becomes one value.
  Ensures-IsOne :
      (m : Reader A) → Ensures Q m → Ensures (IsOne make Q) (m >>= λ a. pure (make a ∷ []))
  Ensures-IsOne m h =
      Ensures-mapped Q (IsOne make Q) m (λ a. make a ∷ []) h
        (λ a bs q. record { item = a; vs_is = refl; related = q })

  -- Such a read in front of the rest of a format.
  pub Ensures-then :
      (c len : ℕ) (fmt : List ℕ) (S R : List Value → List ℕ → Type 0)
      → is_digit c ≡ false
      → Ensures (IsOne make Q) (read_spec c len)
      → Ensures S (read_from fmt plain)
      → ((a : A) (bs : List ℕ) (vs : List Value) (cs : List ℕ)
          → Q a bs
          → S vs cs
          → R (make a ∷ vs) (bs ++ cs))
      → Ensures R (read_from (c ∷ fmt) (spec len))
  Ensures-then c len fmt S R letter first more combine =
      Ensures-letter c len fmt (IsOne make Q) R letter first (λ us bs one.
        Ensures-weaken S _ (read_from fmt plain) more (λ vs cs q.
          subst (λ l. R (l ++ vs) (bs ++ cs)) (sym one.vs_is)
            (combine one.item bs vs cs one.related q)))

pub Ensures-percent :
    (fmt : List ℕ) (R : List Value → List ℕ → Type 0)
    → Ensures R (read_from fmt (spec 0))
    → Ensures R (read_from (b'%' ∷ fmt) plain)
Ensures-percent fmt R h = Ensures-silent b'%' fmt plain (spec 0) R read_char-percent h

pub Ensures-wide :
    (k : ℕ) (fmt : List ℕ) (R : List Value → List ℕ → Type 0)
    → k ≤ 9
    → Ensures R (read_from fmt (spec k))
    → Ensures R (read_from (b'%' ∷ (b'0' + k) ∷ fmt) plain)
Ensures-wide k fmt R h more =
    Ensures-percent _ R
      (Ensures-silent (b'0' + k) fmt (spec 0) (spec k) R (read_char_digit k h) more)

pub octets-le : (w : Width) → octets w ≤ 9
octets-le w1 = omega arith
octets-le w2 = omega arith
octets-le w4 = omega arith

pub reads_number : (w : Width) → Ensures (IsOne num (IsInt w)) (read_spec b'i' (octets w))
unfolding read_spec
reads_number w = Ensures-IsOne num (IsInt w) (read_int (octets w)) (read_int-IsInt w)

pub reads_vector : (w : Width) → Ensures (IsOne vec (IsVec w)) (read_spec b'I' (octets w))
unfolding read_spec
reads_vector w = Ensures-IsOne vec (IsVec w) (read_ints (octets w)) (read_ints-IsVec w)

pub reads_string : Ensures (IsOne str (IsCounted max_string)) (read_spec b's' 0)
unfolding read_spec
reads_string =
    Ensures-IsOne str (IsCounted max_string) (read_counted max_string)
      (read_counted-IsCounted max_string)

pub reads_blob : Ensures (IsOne raw (IsCounted max_raw)) (read_spec b'S' 0)
unfolding read_spec
reads_blob =
    Ensures-IsOne raw (IsCounted max_raw) (read_counted max_raw) (read_counted-IsCounted max_raw)

pub reads_wide_string : (k : ℕ) → 1 ≤ k → Ensures (IsOne str (IsRun k)) (read_spec b's' k)
unfolding read_spec
reads_wide_string k h =
    rw (le→leb 1 k h) (Ensures-IsOne str (IsRun k) (read_exact k) (Ensures-read_exact k))
