-- ===== src/Proto.antt =====
-- ProtoUtil::writef of entry/src/main/cpp/protocol/proto_util.cpp, and the values that both
-- directions of the formatter carry. A format is the list of its characters' codes, a
-- std::string or byte vector the list of its bytes.
pub mod Read
pub mod Format
pub mod Encode
pub mod Decode
pub mod Composes
pub mod Ensures
pub mod Canonical
pub mod Conversions
pub mod Shapes
pub mod Buffered
pub mod Takes
pub mod Segments
pub mod Supply
pub mod RoundTrip
mod Tests
use deskflow_harmonyos.Base.{
  ℕ, ◌+◌, ◌-◌, ◌*◌, ◌%◌, ◌^◌, Bool, ◌&&◌, Option, none, some, List, [], ◌∷◌, ◌++◌, leb, ◌==◌,
  if◌then◌else◌, length, take, replicate,
}
use deskflow_harmonyos.Base.Word.{put_u16, put_u32}

-- A value handed over through the variable arguments: the 32-bit pattern of an integer, a
-- std::string, a vector of uint32_t, a counted run of raw bytes.
pub data Value : Type 0 where
  num : ℕ → Value
  str : List ℕ → Value
  vec : List ℕ → Value
  raw : List ℕ → Value

-- Where the scan of the format stands: at a plain character, or behind `%` with the width that
-- the digits read so far make (a uint32_t).
pub data Mode : Type 0 where
  plain : Mode
  spec : ℕ → Mode

abbrev pub is_digit : ℕ → Bool
is_digit c = leb b'0' c && leb c b'9'

abbrev pub next_width : ℕ → ℕ → ℕ
next_width len c = (len * 10 + (c - b'0')) % 2 ^ 32

-- The `switch (len)` under `i` and under `I`: other widths write nothing.
unfoldable pub put_int : ℕ → ℕ → List ℕ
unfolding put_u16 put_u32
put_int len v =
    if len == 1
    then v % 256 ∷ []
    else (if len == 2 then put_u16 (v % 2 ^ 16) else (if len == 4 then put_u32 v else []))

unfoldable pub put_ints : ℕ → List ℕ → List ℕ
put_ints len [] = []
put_ints len (v ∷ vs) = put_int len v ++ put_ints len vs

-- `%7s`: exactly `len` bytes, cut off or filled up with zeros.
unfoldable pub put_fixed : ℕ → List ℕ → List ℕ
put_fixed len s = take len s ++ replicate (len - length s) 0

-- One case of the `switch (*fmt)`: the bytes written and the arguments left. `none` stands for a
-- missing argument or one of another type, where va_arg has no defined behaviour.
unfoldable pub convert_int : ℕ → List Value → Option (List ℕ × List Value)
convert_int len (num v ∷ args) = some (put_int len v, args)
convert_int len _ = none

unfoldable pub convert_ints : ℕ → List Value → Option (List ℕ × List Value)
convert_ints len (vec vs ∷ args) = some (put_u32 (length vs) ++ put_ints len vs, args)
convert_ints len _ = none

unfoldable pub convert_str : ℕ → List Value → Option (List ℕ × List Value)
convert_str len (str s ∷ args) =
    some ((if leb 1 len then put_fixed len s else put_u32 (length s) ++ s), args)
convert_str len _ = none

-- `n` and `data` come as one value here, so the run holds its `n` bytes.
unfoldable pub convert_raw : List Value → Option (List ℕ × List Value)
convert_raw (raw s ∷ args) = some (put_u32 (length s) ++ s, args)
convert_raw _ = none

unfoldable pub convert : ℕ → ℕ → List Value → Option (List ℕ × List Value)
unfolding convert_int convert_ints convert_str convert_raw
convert c len args =
    if c == b'i'
    then convert_int len args
    else (if c == b'I'
        then convert_ints len args
        else (if c == b's'
            then convert_str len args
            else (if c == b'S'
                then convert_raw args
                else (if c == b'%' then some (b'%' ∷ [], args) else some ([], args)))))

pub record Written : Type 0 where
  pub bytes : List ℕ
  pub mode : Mode
  pub args : List Value

abbrev in_plain : Option (List ℕ × List Value) → Option Written
in_plain none = none
in_plain (some (bs, args)) = some (record { bytes = bs; mode = plain; args = args })

-- One character of the format.
unfoldable pub write_char : ℕ → Mode → List Value → Option Written
unfolding convert
write_char c plain args =
    if c == b'%'
    then some (record { bytes = []; mode = spec 0; args = args })
    else some (record { bytes = c ∷ []; mode = plain; args = args })
write_char c (spec len) args =
    if is_digit c
    then some (record { bytes = []; mode = spec (next_width len c); args = args })
    else in_plain (convert c len args)

infixl 5 ◌>>=◌
abbrev pub ◌>>=◌ {ℓ κ} : {A : Type ℓ} {B : Type κ} → Option A → (A → Option B) → Option B
none >>= f = none
some a >>= f = f a

-- What the rest of a format appends to the output.
unfoldable pub write_from : List ℕ → Mode → List Value → Option (List ℕ)
unfolding write_char
write_from [] mode args = some []
write_from (c ∷ fmt) mode args = do
  w ← write_char c mode args
  rest ← write_from fmt w.mode w.args
  some (w.bytes ++ rest)

-- writef(out, fmt, ...) appends this to `out`.
unfoldable pub writef : List ℕ → List Value → Option (List ℕ)
unfolding write_from
writef fmt args = write_from fmt plain args
