-- ===== src/Bridge/Inject/Trail.antt =====
-- The smooth movement of entry/src/main/cpp/napi_init.cpp: where it ends, and what it counts.
use deskflow_harmonyos.Base.{
  ℕ, zero, suc, ◌+◌, ◌^◌, ◌<◌, ◌≤◌, ◌≡◌, refl, sym, ap, ◌∙◌, Option, none, some, List, [], ◌∷◌,
  ◌++◌, append_assoc, append-nil, length, arith, ℤ, pos, negsuc, ◌+ℤ◌, ◌-ℤ◌, pos_part, neg_part,
  if◌then◌else◌, int_laws,
}
use mathlib.Core.Path.{subst}
use deskflow_harmonyos.Client.{MouseEvent, move, is_zero}
use deskflow_harmonyos.Bridge.Inject.{
  pointer_event, inject_mouse_move_to, Route, Doubles, eased, eased_between, Movement, trail_from,
  mouse_trail,
}

pub same_int : (a b : ℤ) → pos_part a + neg_part b ≡ pos_part b + neg_part a → a ≡ b
same_int (pos n) (pos m) h = let e : n ≡ m = omega arith in ap pos e
same_int (pos n) (negsuc m) h = absurd (omega arith)
same_int (negsuc n) (pos m) h = absurd (omega arith)
same_int (negsuc n) (negsuc m) h = let e : n ≡ m = omega arith in ap negsuc e

there : (a b : ℤ) → a +ℤ (b -ℤ a) ≡ b
there a b = same_int (a +ℤ (b -ℤ a)) b (omega int_laws)

-- An int32_t.
abbrev pub IsInt32 : ℤ → Type 0
IsInt32 (pos n) = n < 2 ^ 31
IsInt32 (negsuc n) = n < 2 ^ 31

-- What IEEE 754 says of doubles that are whole numbers of 32 bits: these are exact.
pub record ExactInts (N : Type 0) (d : Doubles N) : Type 0 where
  pub div_same :
      (n : ℕ)
      → IsInt32 (pos (suc n))
      → d.div (d.of_int (pos (suc n))) (d.of_int (pos (suc n))) ≡ d.of_int (pos 1)
  pub sub_ints :
      (a b : ℤ)
      → IsInt32 a
      → IsInt32 b
      → IsInt32 (a -ℤ b)
      → d.sub (d.of_int a) (d.of_int b) ≡ d.of_int (a -ℤ b)
  pub mul_zeros : d.mul (d.of_int (pos 0)) (d.of_int (pos 0)) ≡ d.of_int (pos 0)
  pub mul_one : (a : ℤ) → IsInt32 a → d.mul (d.of_int a) (d.of_int (pos 1)) ≡ d.of_int a
  pub truncated_int : (a : ℤ) → IsInt32 a → d.truncated (d.of_int a) ≡ a

-- At the last step the curve has reached 1.
eased_last :
    {N : Type 0} (d : Doubles N) (n : ℕ)
    → ExactInts N d
    → IsInt32 (pos (suc n))
    → eased d (pos (suc n)) (suc n) ≡ d.of_int (pos 1)
unfolding eased ◌-ℤ◌
eased_last d n exact small =
    let one = d.of_int (pos 1) in
    let nothing : d.sub one (d.div (d.of_int (pos (suc n))) (d.of_int (pos (suc n))))
        ≡ d.of_int (pos 0) =
      ap (d.sub one) (exact.div_same n small)
      ∙ exact.sub_ints (pos 1) (pos 1) (omega arith) (omega arith) (omega arith) in
    ap (λ t. d.sub one (d.mul t t)) nothing
    ∙ (ap (d.sub one) exact.mul_zeros
        ∙ exact.sub_ints (pos 1) (pos 0) (omega arith) (omega arith) (omega arith))

eased_there :
    {N : Type 0} (d : Doubles N) (n : ℕ) (from to : ℤ)
    → ExactInts N d
    → IsInt32 (pos (suc n))
    → IsInt32 (to -ℤ from)
    → eased_between d (pos (suc n)) (suc n) from to ≡ to
unfolding eased_between
eased_there d n from to exact small way =
    let whole_way : d.truncated (d.mul (d.of_int (to -ℤ from)) (eased d (pos (suc n)) (suc n)))
        ≡ to -ℤ from =
      ap (λ e. d.truncated (d.mul (d.of_int (to -ℤ from)) e)) (eased_last d n exact small)
      ∙ (ap d.truncated (exact.mul_one (to -ℤ from) way) ∙ exact.truncated_int (to -ℤ from) way) in
    ap (λ p. from +ℤ p) whole_way ∙ there from to

-- Where step `i` of a trail puts the pointer.
abbrev step_event : {N : Type 0} → Doubles N → Route → ℕ → MouseEvent
step_event d r i =
    pointer_event move none (eased_between d r.steps i r.x0 r.x1)
      (eased_between d r.steps i r.y0 r.y1)

-- What a trail of `n` steps counts and injects.
pub record Counts (n : ℕ) (t : Movement) : Type 0 where
  pub fails_bound : t.fails ≤ n
  pub events_bound : length t.events ≤ n
  pub none_missed : n ≤ length t.events + t.fails

counted :
    (o : Option ℤ) (x y : ℤ) (n : ℕ) (t : Movement)
    → Counts n t
    → Counts (suc n) (record {
      fails = if is_zero (inject_mouse_move_to o x y).0 then t.fails else suc t.fails;
      events = (inject_mouse_move_to o x y).1 ++ t.events;
    })
unfolding inject_mouse_move_to
counted none x y n t h = record {
  fails_bound = omega (arith, h.fails_bound);
  events_bound = omega (arith, h.events_bound);
  none_missed = omega (arith, h.none_missed);
}
counted (some ret) x y n t h = record {
  fails_bound = ground (arith, h.fails_bound);
  events_bound = omega (arith, h.events_bound);
  none_missed = ground (arith, h.none_missed);
}

trail_from-Counts :
    {N : Type 0} (d : Doubles N) (answers : ℕ → Option ℤ) (r : Route) (n i : ℕ)
    → Counts n (trail_from d answers r n i)
unfolding trail_from
trail_from-Counts d answers r zero i = record {
  fails_bound = omega arith;
  events_bound = omega arith;
  none_missed = omega arith;
}
trail_from-Counts d answers r (suc n) i =
    counted (answers i) _ _ n (trail_from d answers r n (suc i))
      (trail_from-Counts d answers r n (suc i))

moved_last :
    (o : Option ℤ) (x y ret : ℤ)
    → o ≡ some ret
    → (inject_mouse_move_to o x y).1 ≡ pointer_event move none x y ∷ []
unfolding inject_mouse_move_to
moved_last none x y ret h = absurd cc
moved_last (some r) x y ret h = refl

-- The events of a trail whose last step gets its event.
record EndsWith (e : MouseEvent) (events : List MouseEvent) : Type 0 where
  before : List MouseEvent
  splits : events ≡ before ++ (e ∷ [])

trail_from-EndsWith :
    {N : Type 0} (d : Doubles N) (answers : ℕ → Option ℤ) (r : Route) (n i k : ℕ) (ret : ℤ)
    → k ≡ n + i
    → answers k ≡ some ret
    → EndsWith (step_event d r k) (trail_from d answers r (suc n) i).events
unfolding trail_from
trail_from-EndsWith d answers r zero i k ret e h =
    let same : i ≡ k = omega arith in
    record {
      before = [];
      splits =
          append-nil (inject_mouse_move_to (answers i) _ _).1
          ∙ (moved_last (answers i) _ _ ret (ap answers same ∙ h)
              ∙ ap (λ j. step_event d r j ∷ []) same);
    }
trail_from-EndsWith d answers r (suc n) i k ret e h =
    let later = trail_from-EndsWith d answers r n (suc i) k ret (omega arith) h in
    let (_, first) =
      inject_mouse_move_to (answers i) (eased_between d r.steps i r.x0 r.x1)
        (eased_between d r.steps i r.y0 r.y1) in
    record {
      before = first ++ later.before;
      splits = ap (λ l. first ++ l) later.splits ∙ sym (append_assoc first later.before _);
    }

-- What injectMouseTrail has done at its end.
pub record Arrives (r : Route) (n : ℕ) (t : Movement) : Type 0 where
  pub before : List MouseEvent
  pub events_are : t.events ≡ before ++ (pointer_event move none r.x1 r.y1 ∷ [])
  pub fails_bound : t.fails ≤ n
  pub events_bound : length t.events ≤ n
  pub none_missed : n ≤ length t.events + t.fails

-- Where doubles that are whole numbers of 32 bits are exact, and the number of steps and both ways
-- fit an int32_t: a movement of n + 1 steps whose last step gets an event ends exactly at the
-- target; it injects at most one event for each step, and each step without one is among the
-- failures that it counts.
pub mouse_trail-Arrives :
    {N : Type 0} (d : Doubles N) (answers : ℕ → Option ℤ) (r : Route) (n : ℕ) (ret : ℤ)
    → ExactInts N d
    → r.steps ≡ pos (suc n)
    → IsInt32 (pos (suc n))
    → IsInt32 (r.x1 -ℤ r.x0)
    → IsInt32 (r.y1 -ℤ r.y0)
    → answers (suc n) ≡ some ret
    → Arrives r (suc n) (mouse_trail d answers r)
unfolding mouse_trail
mouse_trail-Arrives d answers r n ret exact e small wide high h =
    let rounds : pos_part r.steps ≡ suc n = ap pos_part e in
    let t = trail_from d answers r (suc n) 1 in
    let last = trail_from-EndsWith d answers r n 1 (suc n) ret (omega arith) h in
    let counts = trail_from-Counts d answers r (suc n) 1 in
    let at_end = λ (from to : ℤ) (way : IsInt32 (to -ℤ from)).
      ap (λ k. eased_between d k (suc n) from to) e ∙ eased_there d n from to exact small way in
    let arrived : Arrives r (suc n) t = record {
      before = last.before;
      events_are =
          last.splits
          ∙ (ap (λ x. last.before ++ (pointer_event move none x (step_event d r (suc n)).y ∷ []))
                (at_end r.x0 r.x1 wide)
              ∙ ap (λ y. last.before ++ (pointer_event move none r.x1 y ∷ []))
                  (at_end r.y0 r.y1 high));
      fails_bound = counts.fails_bound;
      events_bound = counts.events_bound;
      none_missed = counts.none_missed;
    } in
    subst (λ k. Arrives r (suc n) (trail_from d answers r k 1)) (sym rounds) arrived
