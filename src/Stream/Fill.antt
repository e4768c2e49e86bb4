-- ===== src/Stream/Fill.antt =====
-- The recv loop of SocketStream::readExact.
use deskflow_harmonyos.Base.{
  ℕ, zero, suc, ◌-◌, ◌≤◌, ◌<◌, ◌≡◌, refl, sym, ap, ◌∙◌, inl, inr, false, none, some, List, [], ◌∷◌,
  ◌++◌, append_assoc, append-nil, arith, leb, Bool-cases, length, take, drop, length-append,
  take-append, drop-append, take-append_past, drop-append_past, leb→le, leb-false,
}
use deskflow_harmonyos.Stream.{
  RecvEvent, arrived, ended, interrupted, failed, stopped, Filled, put_back, fill,
}

-- The bytes that a script delivers before the connection ends in some way.
abbrev pub arrivals : List RecvEvent → List ℕ
arrivals [] = []
arrivals (arrived b bs ∷ evs) = b ∷ (bs ++ arrivals evs)
arrivals (interrupted ∷ evs) = arrivals evs
arrivals (ended ∷ evs) = []
arrivals (failed ∷ evs) = []
arrivals (stopped ∷ evs) = []

arrivals-put_back :
    (bs : List ℕ) (evs : List RecvEvent) → arrivals (put_back bs evs) ≡ bs ++ arrivals evs
arrivals-put_back [] evs = refl
arrivals-put_back (b ∷ bs) evs = refl

-- A fill that got `n` bytes of `bytes` behind `got`.
pub record Fills (n : ℕ) (got bytes : List ℕ) (f : Filled) : Type 0 where
  pub result_is : f.result ≡ some (got ++ take n bytes)
  pub left_is : arrivals f.left ≡ drop n bytes
  pub not_stopped : f.by_stop ≡ false

Fills-arrived :
    (b : ℕ) (bs later : List ℕ) (n : ℕ) (got : List ℕ) (f : Filled)
    → length bs ≤ n
    → Fills (n - length bs) (got ++ (b ∷ bs)) later f
    → Fills (suc n) got (b ∷ (bs ++ later)) f
Fills-arrived b bs later n got f h r = record {
  result_is =
      r.result_is
      ∙ ap some (
          append_assoc got (b ∷ bs) _
          ∙ ap (λ l. got ++ (b ∷ l)) (sym (take-append_past bs later n _ (omega arith))));
  left_is = r.left_is ∙ sym (drop-append_past bs later n _ (omega arith));
  not_stopped = r.not_stopped;
}

pub fill-Fills :
    (evs : List RecvEvent) (n : ℕ) (got : List ℕ)
    → n ≤ length (arrivals evs)
    → Fills n got (arrivals evs) (fill evs n got)
unfolding fill
fill-Fills [] zero got h = record {
  result_is = ap some (sym (append-nil got));
  left_is = refl;
  not_stopped = refl;
}
fill-Fills [] (suc n) got h = absurd (omega arith)
fill-Fills (e ∷ evs) zero got h = record {
  result_is = ap some (sym (append-nil got));
  left_is = refl;
  not_stopped = refl;
}
fill-Fills (arrived b bs ∷ evs) (suc n) got h = elim (Bool-cases (leb (length bs) n)) [
  | inl whole ↦ rw whole (
      Fills-arrived b bs (arrivals evs) n got _ (leb→le _ _ whole) (
        fill-Fills evs (n - length bs) (got ++ (b ∷ bs))
          (omega (arith, length-append bs (arrivals evs), leb→le _ _ whole))))
  | inr part ↦ rw part (record {
    result_is = ap (λ l. some (got ++ (b ∷ l))) (sym (take-append n bs _ (ground arith)));
    left_is = arrivals-put_back (drop n bs) evs ∙ sym (drop-append n bs _ (ground arith));
    not_stopped = refl;
  })
]
fill-Fills (ended ∷ evs) (suc n) got h = absurd (omega arith)
fill-Fills (interrupted ∷ evs) (suc n) got h = fill-Fills evs (suc n) got h
fill-Fills (failed ∷ evs) (suc n) got h = absurd (omega arith)
fill-Fills (stopped ∷ evs) (suc n) got h = absurd (omega arith)

pub fill_short :
    (evs : List RecvEvent) (n : ℕ) (got : List ℕ)
    → length (arrivals evs) < n
    → (fill evs n got).result ≡ none
unfolding fill
fill_short evs zero got h = absurd (omega arith)
fill_short [] (suc n) got h = refl
fill_short (arrived b bs ∷ evs) (suc n) got h = elim (Bool-cases (leb (length bs) n)) [
  | inl whole ↦ rw whole (
      fill_short evs (n - length bs) (got ++ (b ∷ bs))
        (omega (arith, length-append bs (arrivals evs), leb→le _ _ whole)))
  | inr part ↦ absurd (omega (arith, length-append bs (arrivals evs), leb-false _ _ part))
]
fill_short (ended ∷ evs) (suc n) got h = refl
fill_short (interrupted ∷ evs) (suc n) got h = fill_short evs (suc n) got h
fill_short (failed ∷ evs) (suc n) got h = refl
fill_short (stopped ∷ evs) (suc n) got h = refl
