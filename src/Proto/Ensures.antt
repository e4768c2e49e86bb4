-- ===== src/Proto/Ensures.antt =====
-- What a successful call of the readers of entry/src/main/cpp/protocol/proto_util.cpp tells of its
-- result and of the bytes it took from the stream.
use deskflow_harmonyos.Base.{
  ℕ, zero, suc, ◌≤◌, ◌≡◌, refl, sym, ap, ◌∙◌, inl, inr, Option, none, some, List, [], ◌∷◌, ◌++◌,
  append_assoc, append-nil, arith, leb, Bool-cases, length, All, take, drop, length-append,
  take-append-drop, length-take, leb→le, leb-false,
}
use mathlib.Core.Path.{subst}
use mathlib.Core.Option.{some-injective, none-ne-some}
use deskflow_harmonyos.Base.Word.{IsByte}
use deskflow_harmonyos.Stream.{Stream, unread, read_exact}
use deskflow_harmonyos.Stream.Fill.{arrivals}
use deskflow_harmonyos.Stream.Read.{
  pending, Reads, read_exact-Reads, read_exact-Reads_buffered, read_exact_short,
}
use deskflow_harmonyos.Proto.Read.{Reader, pure, fail, ◌>>=◌}

-- The bytes `used` were taken from the stream, all that is left are bytes too, and the result and
-- the bytes taken are related by Q.
pub record Took {ℓ} {A : Type ℓ} (Q : A → List ℕ → Type 0) (a : A) (s t : Stream) : Type 0 where
  pub used : List ℕ
  pub related : Q a used
  pub pending_is : pending s ≡ used ++ pending t
  pub bytes_left : All IsByte (pending t)

-- On every stream of bytes, a result is related by Q to the bytes taken for it.
pub record Ensures {ℓ} {A : Type ℓ} (Q : A → List ℕ → Type 0) (m : Reader A) : Type ℓ where
  pub result : (s : Stream) (a : A) → All IsByte (pending s) → (m s).0 ≡ some a → Took Q a s (m s).1

pub Ensures-pure {ℓ} : {A : Type ℓ} (Q : A → List ℕ → Type 0) (a : A) → Q a [] → Ensures Q (pure a)
Ensures-pure Q a h = record {
  result = λ s b bytes e. record {
    used = [];
    related = subst (λ x. Q x []) (some-injective _ _ e) h;
    pending_is = refl;
    bytes_left = bytes;
  };
}

pub Ensures-fail {ℓ} : {A : Type ℓ} (Q : A → List ℕ → Type 0) → Ensures Q fail
Ensures-fail Q = record { result = λ s b bytes e. absurd (none-ne-some _ e) }

continue-Took {ℓ κ} :
    {A : Type ℓ} {B : Type κ} (Q : A → List ℕ → Type 0) (R : B → List ℕ → Type 0) (f : A → Reader B)
    (o : Option A) (s mid : Stream) (b : B)
    → ((a : A) → o ≡ some a → Took Q a s mid)
    → ((a : A) (bs : List ℕ) → Q a bs → Ensures (λ b cs. R b (bs ++ cs)) (f a))
    → (((λ (_ : Stream). (o, mid)) >>= f) s).0 ≡ some b
    → Took R b s (((λ (_ : Stream). (o, mid)) >>= f) s).1
continue-Took Q R f none s mid b first more e = absurd (none-ne-some _ e)
continue-Took Q R f (some a) s mid b first more e =
    let t = first a refl in
    let u = (more a t.used t.related).result mid b t.bytes_left e in
    record {
      used = t.used ++ u.used;
      related = u.related;
      pending_is =
          t.pending_is ∙ (ap (λ l. t.used ++ l) u.pending_is ∙ sym (append_assoc t.used u.used _));
      bytes_left = u.bytes_left;
    }

pub Ensures-bind {ℓ κ} :
    {A : Type ℓ} {B : Type κ} (Q : A → List ℕ → Type 0) (R : B → List ℕ → Type 0) (m : Reader A)
    (f : A → Reader B)
    → Ensures Q m
    → ((a : A) (bs : List ℕ) → Q a bs → Ensures (λ b cs. R b (bs ++ cs)) (f a))
    → Ensures R (m >>= f)
Ensures-bind Q R m f first more = record {
  result =
      λ s b bytes e. continue-Took Q R f (m s).0 s (m s).1 b (λ a. first.result s a bytes) more e;
}

-- A read whose result goes through a function.
pub Ensures-mapped {ℓ κ} :
    {A : Type ℓ} {B : Type κ} (Q : A → List ℕ → Type 0) (R : B → List ℕ → Type 0) (m : Reader A)
    (g : A → B)
    → Ensures Q m
    → ((a : A) (bs : List ℕ) → Q a bs → R (g a) bs)
    → Ensures R (m >>= λ a. pure (g a))
Ensures-mapped Q R m g first more =
    Ensures-bind Q R m (λ a. pure (g a)) first
      (λ a bs q. Ensures-pure _ (g a) (subst (R (g a)) (sym (append-nil bs)) (more a bs q)))

pub Ensures-weaken {ℓ} :
    {A : Type ℓ} (Q R : A → List ℕ → Type 0) (m : Reader A)
    → Ensures Q m
    → ((a : A) (bs : List ℕ) → Q a bs → R a bs)
    → Ensures R m
Ensures-weaken Q R m first more = record {
  result = λ s a bytes e.
      let t = first.result s a bytes e in
      record {
        used = t.used;
        related = more a t.used t.related;
        pending_is = t.pending_is;
        bytes_left = t.bytes_left;
      };
}

-- What readExact returns: as many bytes as were asked for, which are those taken.
pub record IsRun (n : ℕ) (bs used : List ℕ) : Type 0 where
  pub used_is : used ≡ bs
  pub length_is : length bs ≡ n
  pub bytes : All IsByte bs

All-drop : (n : ℕ) (l : List ℕ) → All IsByte l → All IsByte (drop n l)
All-drop zero l h = h
All-drop (suc n) [] h = h
All-drop (suc n) (b ∷ l) h = All-drop n l h.1

All-take : (n : ℕ) (l : List ℕ) → All IsByte l → All IsByte (take n l)
All-take zero l h = tt
All-take (suc n) [] h = h
All-take (suc n) (b ∷ l) h = (h.0, All-take n l h.1)

Reads-Took :
    (n : ℕ) (s : Stream) (bs : List ℕ) (r : Option (List ℕ) × Stream)
    → n ≤ length (pending s)
    → All IsByte (pending s)
    → r.0 ≡ some bs
    → Reads n s r
    → Took (IsRun n) bs s r.1
Reads-Took n s bs r h bytes e reads =
    let same : take n (pending s) ≡ bs = some-injective _ _ (sym reads.result_is ∙ e) in
    record {
      used = bs;
      related = record {
        used_is = refl;
        length_is = omega (arith, length-take n (pending s), ap length same);
        bytes = subst (All IsByte) same (All-take n (pending s) bytes);
      };
      pending_is =
          sym (take-append-drop n (pending s))
          ∙ (ap (λ l. l ++ drop n (pending s)) same ∙ ap (λ l. bs ++ l) (sym reads.pending_is));
      bytes_left = subst (All IsByte) (sym reads.pending_is) (All-drop n (pending s) bytes);
    }

-- readExact can only succeed in the two cases in which what it returns is known.
readable :
    (n : ℕ) (s : Stream) (bs : List ℕ)
    → (read_exact n s).0 ≡ some bs
    → Reads n s (read_exact n s) × (n ≤ length (pending s))
readable n s bs e =
    let bound = length-append (unread s) (arrivals s.incoming) in
    let refused = λ (h : (read_exact n s).0 ≡ none). none-ne-some bs (sym h ∙ e) in
    elim (Bool-cases (leb n (length (unread s)))) [
      | inl inside ↦ (
        read_exact-Reads_buffered n s (leb→le _ _ inside),
        omega (arith, bound, leb→le _ _ inside),
      )
      | inr beyond ↦ elim (Bool-cases s.connected) [
        | inl o ↦ elim (Bool-cases (leb n (length (pending s)))) [
          | inl enough ↦ (read_exact-Reads n s o (leb→le _ _ enough), leb→le _ _ enough)
          | inr short ↦ absurd (refused (read_exact_short n s (inl (leb-false _ _ short))))
        ]
        | inr closed ↦ absurd (refused (read_exact_short n s (inr (closed, leb-false _ _ beyond))))
      ]
    ]

pub Ensures-read_exact : (n : ℕ) → Ensures (IsRun n) (read_exact n)
Ensures-read_exact n = record {
  result = λ s bs bytes e.
      let r = readable n s bs e in Reads-Took n s bs (read_exact n s) r.1 bytes e r.0;
}
