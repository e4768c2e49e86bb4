-- ===== src/Bridge/Inject/Tests.antt =====
-- A smooth movement over fixed-point numbers.
use deskflow_harmonyos.Base.{
  ℕ, suc, ◌+◌, ◌*◌, ◌/◌, ◌≡◌, refl, ap, ◌∙◌, some, arith, ℤ, pos, negsuc, ◌+ℤ◌, ◌-ℤ◌, pos_part,
  neg_part, sub_ℕ, int_laws,
}
use native.Mathlib.Nat.{mul-div_cancel_left}
use deskflow_harmonyos.Bridge.Inject.{Route, Doubles, eased, eased_between, mouse_trail}
use deskflow_harmonyos.Bridge.Inject.Trail.{same_int, ExactInts, Arrives, mouse_trail-Arrives}

-- Units of 1/1024.
abbrev whole_units : ℤ → ℤ
whole_units a = sub_ℕ (pos_part a * 1024) (neg_part a * 1024)

abbrev quotient : ℤ → ℤ → ℤ
quotient (pos a) (pos b) = pos (a * 1024 / b)
quotient (pos a) (negsuc b) = sub_ℕ 0 (a * 1024 / suc b)
quotient (negsuc a) (pos b) = sub_ℕ 0 (suc a * 1024 / b)
quotient (negsuc a) (negsuc b) = pos (suc a * 1024 / suc b)

abbrev product : ℤ → ℤ → ℤ
product a b =
    sub_ℕ ((pos_part a * pos_part b + neg_part a * neg_part b) / 1024)
      ((pos_part a * neg_part b + neg_part a * pos_part b) / 1024)

abbrev fixed_point : Doubles ℤ
fixed_point = record {
  of_int = whole_units;
  div = quotient;
  sub = ◌-ℤ◌;
  mul = product;
  truncated = λ a. sub_ℕ (pos_part a / 1024) (neg_part a / 1024);
}

units_parts :
    (a : ℤ)
    → (pos_part (whole_units a) ≡ pos_part a * 1024)
      × (neg_part (whole_units a) ≡ neg_part a * 1024)
units_parts (pos n) = (ground (arith), ground (arith))
units_parts (negsuc n) = (ground (arith), ground (arith))

quotient_same :
    (n : ℕ) → quotient (whole_units (pos (suc n))) (whole_units (pos (suc n))) ≡ pos 1024
quotient_same n =
    let m = suc n * 1024 in
    let at_m : whole_units (pos (suc n)) ≡ pos m = ground (arith) in
    ap (λ k. quotient k k) at_m ∙ ap pos (mul-div_cancel_left 1024 {n = m} (omega arith))

product_one : (a : ℤ) → product (whole_units a) (pos 1024) ≡ whole_units a
product_one (pos n) = ground (arith)
product_one (negsuc n) = ground (arith)

truncated_units : (a : ℤ) → fixed_point.truncated (whole_units a) ≡ a
truncated_units (pos n) = ground (arith)
truncated_units (negsuc n) = ground (arith)

fixed_point-ExactInts : ExactInts ℤ fixed_point
fixed_point-ExactInts = record {
  div_same = λ n _. quotient_same n;
  sub_ints = λ a b _ _ _.
      same_int (whole_units a -ℤ whole_units b) (whole_units (a -ℤ b))
        (omega (int_laws, units_parts a, units_parts b, units_parts (a -ℤ b)));
  mul_zeros = refl;
  mul_one = λ a _. product_one a;
  truncated_int = λ a _. truncated_units a;
}

abbrev route : Route
route = record {
  x0 = pos 10;
  y0 = pos 20;
  x1 = pos 30;
  y1 = pos 5;
  steps = pos 2;
  interval_ms = pos 5;
}

mouse_trail-Arrives_example : Arrives route 2 (mouse_trail fixed_point (λ i. some (pos 0)) route)
unfolding ◌-ℤ◌
mouse_trail-Arrives_example =
    mouse_trail-Arrives fixed_point (λ i. some (pos 0)) route 1 (pos 0) fixed_point-ExactInts refl
      (omega arith) (omega arith) (omega arith) refl

-- Step 1 of 2 has gone three quarters of the way.
eased_half : eased_between fixed_point (pos 2) 1 (pos 10) (pos 30) ≡ pos 25
unfolding eased_between eased ◌-ℤ◌ ◌+ℤ◌
eased_half = refl
