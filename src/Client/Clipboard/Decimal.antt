-- ===== src/Client/Clipboard/Decimal.antt =====
-- std::to_string and std::stoull agree: the announced size of a transfer is read back.
use mathlib.Core.Path.{subst}
use deskflow_harmonyos.Base.{
  ℕ, zero, suc, ◌+◌, ◌-◌, ◌*◌, ◌/◌, ◌%◌, ◌^◌, ◌<◌, ◌≡◌, sym, ap, ◌∙◌, true, List, [], ◌∷◌, ltb,
  if_true, if_false, Bool-cases, inl, inr, arith,
}
use deskflow_harmonyos.Proto.{is_digit}
use deskflow_harmonyos.Client.Clipboard.Size.{
  digits_onto, to_string, digits_value, unsigned_value, signed_value, stoull, parse_size,
}

-- The powers that bound numbers of so many digits.
abbrev ten_to : ℕ → ℕ
ten_to zero = 1
ten_to (suc k) = 10 * ten_to k

digits_value-digit :
    (acc d v : ℕ) (cs : List ℕ)
    → d < 10
    → acc * 10 + d ≡ v
    → digits_value acc ((b'0' + d) ∷ cs) ≡ digits_value v cs
unfolding digits_value
digits_value-digit acc d v cs h k =
    let e : acc * 10 + (b'0' + d - b'0') ≡ v = omega arith in
    let digit : is_digit (b'0' + d) ≡ true = ground arith in
    if_true (is_digit (b'0' + d)) _ acc digit ∙ ap (λ n. digits_value n cs) e

-- A number below ten is its own last digit.
last_digit :
    (n : ℕ) (rest : List ℕ) → n < 10 → digits_value 0 ((b'0' + n % 10) ∷ rest) ≡ digits_value n rest
last_digit n rest h = digits_value-digit 0 (n % 10) n rest (omega arith) (omega arith)

digits_value-digits_onto :
    (k n : ℕ) (rest : List ℕ)
    → n < ten_to (suc k)
    → digits_value 0 (digits_onto (suc k) n rest) ≡ digits_value n rest
unfolding digits_onto
digits_value-digits_onto zero n rest h =
    ap (digits_value 0) (if_true (ltb n 10) _ _ (ground arith)) ∙ last_digit n rest (omega arith)
digits_value-digits_onto (suc k) n rest h = elim (Bool-cases (ltb n 10)) [
  | inl e ↦ ap (digits_value 0) (if_true (ltb n 10) _ _ e) ∙ last_digit n rest (ground arith)
  | inr e ↦
      ap (digits_value 0) (if_false (ltb n 10) _ _ e)
      ∙ (digits_value-digits_onto k (n / 10) ((b'0' + n % 10) ∷ rest) (omega arith)
          ∙ digits_value-digit (n / 10) (n % 10) n rest (omega arith) (omega arith))
]

-- A list that starts with a digit.
abbrev StartsWithDigit : List ℕ → Type 0
StartsWithDigit [] = ⊥
StartsWithDigit (c ∷ cs) = is_digit c ≡ true

digits_onto-StartsWithDigit :
    (k n : ℕ) (rest : List ℕ) → StartsWithDigit (digits_onto (suc k) n rest)
unfolding digits_onto
digits_onto-StartsWithDigit zero n rest = ground arith
digits_onto-StartsWithDigit (suc k) n rest = elim (Bool-cases (ltb n 10)) [
  | inl e ↦ subst StartsWithDigit (sym (if_true (ltb n 10) _ _ e)) (ground arith)
  | inr e ↦
      subst StartsWithDigit (sym (if_false (ltb n 10) _ _ e))
        (digits_onto-StartsWithDigit k (n / 10) ((b'0' + n % 10) ∷ rest))
]

parse_size-digits :
    (cs : List ℕ)
    → StartsWithDigit cs
    → digits_value 0 cs < 2 ^ 64
    → parse_size cs ≡ digits_value 0 cs
unfolding parse_size stoull signed_value unsigned_value
parse_size-digits [] d h = absurd d
parse_size-digits (c ∷ cs) d h = ground arith

-- The size that sendClipboard announces, printed by std::to_string, is read back by std::stoull
-- as the same number, for every size below 2 ^ 64.
pub parse_size-to_string : (n : ℕ) → n < 2 ^ 64 → parse_size (to_string n) ≡ n
unfolding to_string digits_value
parse_size-to_string n h =
    let value = digits_value-digits_onto 19 n [] (omega arith) in
    parse_size-digits (digits_onto 20 n []) (digits_onto-StartsWithDigit 19 n [])
      (omega (arith, value))
    ∙ value
