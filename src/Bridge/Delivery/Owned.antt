-- ===== src/Bridge/Delivery/Owned.antt =====
-- The strings on the heap and those that wait in the queues of entry/src/main/cpp/napi_init.cpp.
use deskflow_harmonyos.Base.{
  ℕ, suc, ◌≤◌, ◌≡◌, ◌≢◌, refl, sym, ap, ◌∙◌, inl, inr, Bool, true, false, some, List, [], ◌∷◌, ◌++◌,
  arith, ◌==◌, ==_iff, ne→==_false, Bool-cases, if◌then◌else◌, if_true, if_false,
}
use mathlib.Core.Option.{some-injective, none-ne-some}
use deskflow_harmonyos.Bridge.Delivery.{string_at, delete}
use deskflow_harmonyos.Bridge.Delivery.Fifo.{first_of, without}

-- Queue and heap have the same addresses in the same order, rising from `lo` to below `next`.
abbrev pub Owned : ℕ → List (ℕ × ℕ) → List (ℕ × List ℕ) → ℕ → Type 0
Owned lo [] [] next = lo ≤ next
Owned lo ((f, a) ∷ q) ((b, text) ∷ h) next = (lo ≤ a) × (a ≡ b) × Owned (suc a) q h next
Owned lo _ _ next = ⊥

-- The texts that wait for a function, in order.
abbrev pub waiting : ℕ → List (ℕ × ℕ) → List (ℕ × List ℕ) → List (List ℕ)
waiting f ((g, a) ∷ q) ((b, text) ∷ h) = if f == g then text ∷ waiting f q h else waiting f q h
waiting f _ _ = []

Owned-le :
    (lo lo' : ℕ) (q : List (ℕ × ℕ)) (h : List (ℕ × List ℕ)) (next : ℕ)
    → lo' ≤ lo
    → Owned lo q h next
    → Owned lo' q h next
Owned-le lo lo' [] [] next le o = omega arith
Owned-le lo lo' ((f, a) ∷ q) ((b, text) ∷ h) next le (l, e, o) = (omega arith, e, o)
Owned-le lo lo' [] (_ ∷ _) next le o = elim o [ ]
Owned-le lo lo' (_ ∷ _) [] next le o = elim o [ ]

-- A new string goes to the end of both.
pub Owned-append :
    (lo : ℕ) (q : List (ℕ × ℕ)) (h : List (ℕ × List ℕ)) (next f : ℕ) (text : List ℕ)
    → Owned lo q h next
    → Owned lo (q ++ ((f, next) ∷ [])) (h ++ ((next, text) ∷ [])) (suc next)
Owned-append lo [] [] next f text o = (o, refl, omega arith)
Owned-append lo ((g, a) ∷ q) ((b, t) ∷ h) next f text (l, e, o) =
    (l, e, Owned-append (suc a) q h next f text o)
Owned-append lo [] (_ ∷ _) next f text o = elim o [ ]
Owned-append lo (_ ∷ _) [] next f text o = elim o [ ]

abbrev pub texts_for : ℕ → ℕ → List ℕ → List (List ℕ)
texts_for g f text = if g == f then text ∷ [] else []

pub either_append :
    (b : Bool) (t : List ℕ) (xs ys : List (List ℕ))
    → (if b then t ∷ (xs ++ ys) else xs ++ ys) ≡ (if b then t ∷ xs else xs) ++ ys
either_append true t xs ys = refl
either_append false t xs ys = refl

pub waiting-append :
    (lo : ℕ) (q : List (ℕ × ℕ)) (h : List (ℕ × List ℕ)) (next f g : ℕ) (text : List ℕ)
    → Owned lo q h next
    → waiting g (q ++ ((f, next) ∷ [])) (h ++ ((next, text) ∷ []))
      ≡ waiting g q h ++ texts_for g f text
waiting-append lo [] [] next f g text o = refl
waiting-append lo ((k, a) ∷ q) ((b, t) ∷ h) next f g text (l, e, o) =
    ap (λ ts. if g == k then t ∷ ts else ts) (waiting-append (suc a) q h next f g text o)
    ∙ either_append (g == k) t (waiting g q h) (texts_for g f text)
waiting-append lo [] (_ ∷ _) next f g text o = elim o [ ]
waiting-append lo (_ ∷ _) [] next f g text o = elim o [ ]

-- What taking the first string of a function does.
pub record Takes (lo f a : ℕ) (q : List (ℕ × ℕ)) (h : List (ℕ × List ℕ)) (next : ℕ) : Type 0 where
  pub text : List ℕ
  pub text_is : string_at a h ≡ some text
  pub lo_le : lo ≤ a
  pub first_is : waiting f q h ≡ text ∷ waiting f (without f q) (delete a h)
  pub others_are : (g : ℕ) → g ≢ f → waiting g (without f q) (delete a h) ≡ waiting g q h
  pub owned : Owned lo (without f q) (delete a h) next

-- A string in front that waits for another function stays.
passed :
    (lo f a k a' b : ℕ) (q : List (ℕ × ℕ)) (t : List ℕ) (h : List (ℕ × List ℕ)) (next : ℕ)
    → lo ≤ a'
    → a' ≡ b
    → (f == k) ≡ false
    → Takes (suc a') f a q h next
    → Takes lo f a ((k, a') ∷ q) ((b, t) ∷ h) next
unfolding without string_at delete
passed lo f a k a' b q t h next l same foreign later =
    let past : (a == b) ≡ false = ne→==_false a b (omega (arith, later.lo_le, same)) in
    record {
      text = later.text;
      text_is = rw past later.text_is;
      lo_le = omega (arith, later.lo_le);
      first_is = rw (foreign, past, foreign) later.first_is;
      others_are = λ g other.
          rw (foreign, past) (ap (λ ts. if g == k then t ∷ ts else ts) (later.others_are g other));
      owned = rw (foreign, past) (l, same, later.owned);
    }

pub taken :
    (lo f a : ℕ) (q : List (ℕ × ℕ)) (h : List (ℕ × List ℕ)) (next : ℕ)
    → Owned lo q h next
    → first_of f q ≡ some a
    → Takes lo f a q h next
unfolding first_of without string_at delete
taken lo f a [] [] next o e = absurd (none-ne-some a e)
taken lo f a [] (_ ∷ _) next o e = elim o [ ]
taken lo f a (_ ∷ _) [] next o e = elim o [ ]
taken lo f a ((k, a') ∷ q) ((b, t) ∷ h) next (l, same, o) e = elim (Bool-cases (f == k)) [
  | inl own ↦
      let is_a : a' ≡ a =
        some-injective _ _ (sym (if_true (f == k) (some a') (first_of f q) own) ∙ e) in
      let here : (a == b) ≡ true = (==_iff a b).1 (omega arith) in
      record {
        text = t;
        text_is = rw here refl;
        lo_le = omega arith;
        first_is = rw (own, here) refl;
        others_are =
            λ g other. let skip : (g == k) ≡ false = ground arith in rw (own, here, skip) refl;
        owned = rw (own, here) (Owned-le (suc a') lo q h next (omega arith) o);
      }
  | inr foreign ↦
      passed lo f a k a' b q t h next l same foreign (
        taken (suc a') f a q h next o
          (sym (if_false (f == k) (some a') (first_of f q) foreign) ∙ e))
]

pub Owned-later :
    (lo : ℕ) (q : List (ℕ × ℕ)) (h : List (ℕ × List ℕ)) (next : ℕ)
    → Owned lo q h next
    → Owned lo q h (suc next)
Owned-later lo [] [] next o = omega arith
Owned-later lo ((f, a) ∷ q) ((b, text) ∷ h) next (l, e, o) = (l, e, Owned-later (suc a) q h next o)
Owned-later lo [] (_ ∷ _) next o = elim o [ ]
Owned-later lo (_ ∷ _) [] next o = elim o [ ]

Owned-lo_le :
    (lo : ℕ) (q : List (ℕ × ℕ)) (h : List (ℕ × List ℕ)) (next : ℕ) → Owned lo q h next → lo ≤ next
Owned-lo_le lo [] [] next o = o
Owned-lo_le lo ((f, a) ∷ q) ((b, text) ∷ h) next (l, e, o) =
    omega (arith, Owned-lo_le (suc a) q h next o)
Owned-lo_le lo [] (_ ∷ _) next o = elim o [ ]
Owned-lo_le lo (_ ∷ _) [] next o = elim o [ ]

-- A string that is deleted as soon as it is made leaves the heap as it was.
pub delete_last :
    (lo : ℕ) (q : List (ℕ × ℕ)) (h : List (ℕ × List ℕ)) (next : ℕ) (text : List ℕ)
    → Owned lo q h next
    → delete next (h ++ ((next, text) ∷ [])) ≡ h
unfolding delete
delete_last lo [] [] next text o = rw ((==_iff next next).1 refl) refl
delete_last lo ((f, a) ∷ q) ((b, t) ∷ h) next text (l, e, o) =
    let past : (next == b) ≡ false =
      ne→==_false next b (omega (arith, e, Owned-lo_le (suc a) q h next o)) in
    rw past (ap (◌∷◌ (b, t)) (delete_last (suc a) q h next text o))
delete_last lo [] (_ ∷ _) next text o = elim o [ ]
delete_last lo (_ ∷ _) [] next text o = elim o [ ]
