-- ===== src/Proto/Read.antt =====
-- ProtoUtil::readf (entry/src/main/cpp/protocol/proto_util.cpp). A failing call leaves the stream
-- where it stopped reading; the destinations written before the failure are not kept, since every
-- caller returns at once.
use deskflow_harmonyos.Base.{
  ℕ, zero, suc, ◌*◌, Option, none, some, List, [], ◌∷◌, ◌++◌, leb, ltb, ◌==◌, if◌then◌else◌,
}
use deskflow_harmonyos.Base.Word.{be16, be32_of}
use deskflow_harmonyos.Stream.{Stream, read_exact}
use deskflow_harmonyos.Proto.{Value, num, str, vec, raw, Mode, plain, spec, is_digit, next_width}

abbrev pub Reader {ℓ} : Type ℓ → Type ℓ
Reader A = Stream → Option A × Stream

abbrev pub pure {ℓ} : {A : Type ℓ} → A → Reader A
pure a s = (some a, s)

abbrev pub fail {ℓ} : {A : Type ℓ} → Reader A
fail s = (none, s)

infixl 5 ◌>>=◌
abbrev pub ◌>>=◌ {ℓ κ} : {A : Type ℓ} {B : Type κ} → Reader A → (A → Reader B) → Reader B
◌>>=◌ m f s = elim (m s).0 [ none ↦ (none, (m s).1) | some a ↦ f a (m s).1 ]

abbrev pub be8_of : List ℕ → ℕ
be8_of (a ∷ []) = a
be8_of _ = 0

abbrev pub be16_of : List ℕ → ℕ
be16_of (a ∷ b ∷ []) = be16 a b
be16_of _ = 0

-- The `switch (len)` under `i`, and of one element under `I`.
unfoldable pub read_int : ℕ → Reader ℕ
read_int len =
    if len == 1
    then (do bs ← read_exact 1; pure (be8_of bs))
    else (if len == 2
        then (do bs ← read_exact 2; pure (be16_of bs))
        else (if len == 4 then (do bs ← read_exact 4; pure (be32_of bs)) else fail))

unfoldable pub read_elements : ℕ → ℕ → Reader (List ℕ)
read_elements len zero = pure []
read_elements len (suc count) = do v ← read_int len; vs ← read_elements len count; pure (v ∷ vs)

abbrev pub max_elements : ℕ
max_elements = 1048576

abbrev pub max_string : ℕ
max_string = 1024 * 1024

abbrev pub max_raw : ℕ
max_raw = 4 * 1024 * 1024

unfoldable pub read_ints : ℕ → Reader (List ℕ)
read_ints len = do
  lenb ← read_exact 4
  if ltb max_elements (be32_of lenb) then fail else read_elements len (be32_of lenb)

-- A counted run of bytes: `%s` with no width, and `%S`.
unfoldable pub read_counted : ℕ → Reader (List ℕ)
read_counted limit = do
  lenb ← read_exact 4
  if ltb limit (be32_of lenb) then fail else read_exact (be32_of lenb)

-- The `switch (*fmt)`; `%%` reads nothing.
unfoldable pub read_spec : ℕ → ℕ → Reader (List Value)
unfolding read_int read_ints read_counted
read_spec c len =
    if c == b'i'
    then (do v ← read_int len; pure (num v ∷ []))
    else (if c == b'I'
        then (do vs ← read_ints len; pure (vec vs ∷ []))
        else (if c == b's'
            then (if leb 1 len
                then (do bs ← read_exact len; pure (str bs ∷ []))
                else (do bs ← read_counted max_string; pure (str bs ∷ [])))
            else (if c == b'S'
                then (do bs ← read_counted max_raw; pure (raw bs ∷ []))
                else (if c == b'%' then pure [] else fail))))

-- One character of the format: the mode behind it, and the value read, if any.
unfoldable pub read_char : ℕ → Mode → Reader (Mode × List Value)
read_char c plain =
    if c == b'%'
    then pure (spec 0, [])
    else (do bs ← read_exact 1; if be8_of bs == c then pure (plain, []) else fail)
read_char c (spec len) =
    if is_digit c
    then pure (spec (next_width len c), [])
    else (do vs ← read_spec c len; pure (plain, vs))

-- A format that ends inside a conversion fails at its end.
unfoldable pub read_from : List ℕ → Mode → Reader (List Value)
read_from [] plain = pure []
read_from [] (spec len) = fail
read_from (c ∷ fmt) mode = do
  (mode', vs) ← read_char c mode
  rest ← read_from fmt mode'
  pure (vs ++ rest)

unfoldable pub readf : List ℕ → Reader (List Value)
readf fmt = read_from fmt plain
