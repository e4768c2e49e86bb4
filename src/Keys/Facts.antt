-- ===== src/Keys/Facts.antt =====
-- What keysymToKeycode does with whole classes of key identifiers.
use deskflow_harmonyos.Base.{
  Bool-cases, ℕ, not, inl, inr, ◌⊎◌, zero, suc, ◌+◌, ◌-◌, ◌%◌, ◌^◌, ◌<◌, ◌≡◌, refl, sym, Bool, true,
  false, ◌&&◌, ◌||◌, none, some, List, [], ◌∷◌, arith, ◌==◌, codes,
}
use deskflow_harmonyos.Base.Word.{to_i16, to_u32}
use deskflow_harmonyos.Keys.Codes.{kc_a}
use deskflow_harmonyos.Keys.{keycode_of, is_letter, keysym_to_keycode}

-- The low 16 bits survive the detour through int16_t and uint32_t.
pub low_16_bits : (w : ℕ) → w < 2 ^ 16 → to_u32 (to_i16 w) % 2 ^ 16 ≡ w
low_16_bits w h = ground arith

-- A key identifier that arrived sign-extended from an int16_t has the key code of the identifier.
pub keysym_to_keycode_sign_extended :
    (w : ℕ) → w < 2 ^ 16 → keysym_to_keycode (to_u32 (to_i16 w)) ≡ keysym_to_keycode w
unfolding keysym_to_keycode
keysym_to_keycode_sign_extended w h =
    let e : w % 2 ^ 16 ≡ w = omega arith in rw (low_16_bits w h, e)

abbrev pub is_mapped : ℕ → Bool
is_mapped k = elim (keysym_to_keycode k) [ none ↦ false | some _ ↦ true ]

pub mem : ℕ → List ℕ → Bool
mem k [] = false
mem k (x ∷ xs) = k == x || mem k xs

same : Bool → Bool → Bool
same true b = b
same false b = not b

same→eq : (a b : Bool) → same a b ≡ true → a ≡ b
unfolding same
same→eq true b h = sym h
same→eq false true h = cc
same→eq false false h = refl

-- The printable ASCII characters that stand on shifted keys, without `*`, `#`, `@` and `+`.
abbrev pub shifted_symbols : List ℕ
shifted_symbols = codes "!\"$%&()<>:?^_{|}~"

-- Two tests give the same answers on the first `count` numbers.
agree : (ℕ → Bool) → (ℕ → Bool) → ℕ → Bool
agree f g zero = true
agree f g (suc count) = same (f count) (g count) && agree f g count

agree→eq : (f g : ℕ → Bool) (count : ℕ) → agree f g count ≡ true → (i : ℕ) → i < count → f i ≡ g i
unfolding agree
agree→eq f g zero both i below = absurd (omega arith)
agree→eq f g (suc count) both i below = elim (Bool-cases (i == count)) [
  | inl last ↦
      (let e : i ≡ count = ground arith in rw e (same→eq (f count) (g count) (ground arith)))
  | inr before ↦ agree→eq f g count (ground arith) i (ground arith)
]

abbrev printable_is_mapped : ℕ → Bool
printable_is_mapped i = is_mapped (0x20 + i)

abbrev is_no_shifted_symbol : ℕ → Bool
is_no_shifted_symbol i = not (mem (0x20 + i) shifted_symbols)

agree_on_printable : agree printable_is_mapped is_no_shifted_symbol 95 ≡ true
unfolding agree keysym_to_keycode mem same
agree_on_printable = refl

-- A printable ASCII character has a key code exactly if it is none of the listed symbols on shifted
-- keys.
pub is_mapped-shifted_symbols :
    (i : ℕ) → i < 95 → is_mapped (0x20 + i) ≡ not (mem (0x20 + i) shifted_symbols)
is_mapped-shifted_symbols i h =
    agree→eq printable_is_mapped is_no_shifted_symbol 95 agree_on_printable i h

letter_key :
    (k i : ℕ)
    → k ≡ b'a' + i ⊎ k ≡ b'A' + i
    → i < 26
    → keycode_of k ≡ some (record { base = kc_a; offset = i })
unfolding keycode_of
letter_key k i e h =
    let letter : is_letter k ≡ true = ground arith in
    let rank : k % 32 - 1 ≡ i = omega arith in rw (letter, rank)

-- A letter has the same key code in lower case and in upper case, and the codes follow the alphabet.
pub keysym_to_keycode_letters :
    (i : ℕ)
    → i < 26
    → (keysym_to_keycode (b'a' + i) ≡ some (record { base = kc_a; offset = i }))
      × (keysym_to_keycode (b'A' + i) ≡ some (record { base = kc_a; offset = i }))
unfolding keysym_to_keycode
keysym_to_keycode_letters i h = (
  letter_key ((b'a' + i) % 2 ^ 16) i (inl (omega arith)) h,
  letter_key ((b'A' + i) % 2 ^ 16) i (inr (omega arith)) h,
)
