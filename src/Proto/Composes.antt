-- ===== src/Proto/Composes.antt =====
-- What holds of readExact and of `pure` and `fail`, and passes from two calls to one after the
-- other, holds of readf with every format.
use deskflow_harmonyos.Base.{
  ℕ, zero, suc, List, [], ◌∷◌, ◌++◌, leb, ltb, ◌==◌, if◌then◌else◌, if_both,
}
use deskflow_harmonyos.Base.Word.{be32_of}
use deskflow_harmonyos.Stream.{read_exact}
use deskflow_harmonyos.Proto.{Value, num, str, vec, raw, Mode, plain, spec, is_digit, next_width}
use deskflow_harmonyos.Proto.Read.{
  Reader, pure, fail, ◌>>=◌, be8_of, be16_of, read_int, read_elements, max_elements, max_string,
  max_raw, read_ints, read_counted, read_spec, read_char, read_from, readf,
}

pub record Composes (P : (A : Type 0) → Reader A → Type 0) : Type 1 where
  pub of_pure : (A : Type 0) (a : A) → P A (pure a)
  pub of_fail : (A : Type 0) → P A fail
  pub of_bind :
      (A B : Type 0) (m : Reader A) (f : A → Reader B)
      → P A m
      → ((a : A) → P B (f a))
      → P B (m >>= f)
  pub of_read_exact : (n : ℕ) → P (List ℕ) (read_exact n)

module _ (P : (A : Type 0) → Reader A → Type 0) (rules : Composes P) where
  open rules use {of_pure, of_fail, of_bind, of_read_exact}

  -- A read whose result goes through a function.
  mapped : (A B : Type 0) (m : Reader A) (g : A → B) → P A m → P B (m >>= λ a. pure (g a))
  mapped A B m g h = of_bind A B m (λ a. pure (g a)) h (λ a. of_pure B (g a))

  read_int_lem : (len : ℕ) → P ℕ (read_int len)
  unfolding read_int
  read_int_lem len =
      let word = λ (n : ℕ) (value : List ℕ → ℕ). mapped _ _ _ value (of_read_exact n) in
      if_both (P ℕ) (len == 1) (word 1 be8_of) (
        if_both (P ℕ) (len == 2) (word 2 be16_of)
          (if_both (P ℕ) (len == 4) (word 4 be32_of) (of_fail ℕ)))

  read_elements_lem : (len count : ℕ) → P (List ℕ) (read_elements len count)
  unfolding read_elements
  read_elements_lem len zero = of_pure _ []
  read_elements_lem len (suc count) =
      of_bind _ _ _ (λ v. do vs ← read_elements len count; pure (v ∷ vs)) (read_int_lem len)
        (λ v. mapped _ _ _ (λ vs. v ∷ vs) (read_elements_lem len count))

  read_ints_lem : (len : ℕ) → P (List ℕ) (read_ints len)
  unfolding read_ints
  read_ints_lem len =
      of_bind _ _ _
        (λ lenb. if ltb max_elements (be32_of lenb) then fail else read_elements len (be32_of lenb))
        (of_read_exact 4)
        (λ lenb.
          if_both (P (List ℕ)) (ltb max_elements (be32_of lenb)) (of_fail _)
            (read_elements_lem len (be32_of lenb)))

  read_counted_lem : (limit : ℕ) → P (List ℕ) (read_counted limit)
  unfolding read_counted
  read_counted_lem limit =
      of_bind _ _ _ (λ lenb. if ltb limit (be32_of lenb) then fail else read_exact (be32_of lenb))
        (of_read_exact 4)
        (λ lenb.
          if_both (P (List ℕ)) (ltb limit (be32_of lenb)) (of_fail _)
            (of_read_exact (be32_of lenb)))

  -- A read whose result becomes one value.
  one_value :
      (A : Type 0) (m : Reader A) (make : A → Value)
      → P A m
      → P (List Value) (m >>= λ a. pure (make a ∷ []))
  one_value A m make h = mapped A _ m (λ a. make a ∷ []) h

  read_spec_lem : (c len : ℕ) → P (List Value) (read_spec c len)
  unfolding read_spec
  read_spec_lem c len =
      let Q = P (List Value) in
      if_both Q (c == b'i') (one_value _ _ num (read_int_lem len)) (
        if_both Q (c == b'I') (one_value _ _ vec (read_ints_lem len)) (
          if_both Q (c == b's')
            (if_both Q (leb 1 len) (one_value _ _ str (of_read_exact len))
              (one_value _ _ str (read_counted_lem max_string)))
            (if_both Q (c == b'S') (one_value _ _ raw (read_counted_lem max_raw))
              (if_both Q (c == b'%') (of_pure _ []) (of_fail _)))))

  read_char_lem : (c : ℕ) (mode : Mode) → P (Mode × List Value) (read_char c mode)
  unfolding read_char
  read_char_lem c plain =
      let Q = P (Mode × List Value) in
      if_both Q (c == b'%') (of_pure _ (spec 0, [])) (
        of_bind _ _ _ (λ bs. if be8_of bs == c then pure (plain, []) else fail) (of_read_exact 1)
          (λ bs. if_both Q (be8_of bs == c) (of_pure _ (plain, [])) (of_fail _)))
  read_char_lem c (spec len) =
      let Q = P (Mode × List Value) in
      if_both Q (is_digit c) (of_pure _ (spec (next_width len c), []))
        (mapped _ _ _ (λ vs. (plain, vs)) (read_spec_lem c len))

  read_from_lem : (fmt : List ℕ) (mode : Mode) → P (List Value) (read_from fmt mode)
  unfolding read_from
  read_from_lem [] plain = of_pure _ []
  read_from_lem [] (spec len) = of_fail _
  read_from_lem (c ∷ fmt) mode =
      of_bind _ _ _ (λ r. do rest ← read_from fmt r.0; pure (r.1 ++ rest)) (read_char_lem c mode)
        (λ r. mapped _ _ _ (λ rest. r.1 ++ rest) (read_from_lem fmt r.0))

  pub readf-Composes : (fmt : List ℕ) → P (List Value) (readf fmt)
  unfolding readf
  readf-Composes fmt = read_from_lem fmt plain
