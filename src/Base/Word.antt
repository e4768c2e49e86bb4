-- ===== src/Base/Word.antt =====
-- Machine words as native numbers: a w-bit integer is its bit pattern, below 2 ^ w.
use deskflow_harmonyos.Base.{
  ℕ, ◌+◌, ◌-◌, ◌*◌, ◌/◌, ◌%◌, ◌^◌, ◌<◌, ◌≡◌, List, [], ◌∷◌, length, refl, ltb, if◌then◌else◌, ℤ,
  pos, negsuc, arith,
}

abbrev pub IsByte : ℕ → Type 0
IsByte b = b < 256

-- The int16_t that a 16-bit pattern stands for.
abbrev pub to_i16 : ℕ → ℤ
to_i16 w = if ltb w 0x8000 then pos w else negsuc (0xffff - w)

-- static_cast<uint32_t> of an int32_t or an int16_t: the value modulo 2 ^ 32.
abbrev pub to_u32 : ℤ → ℕ
to_u32 (pos n) = n % 2 ^ 32
to_u32 (negsuc n) = 0xffff_ffff - n % 2 ^ 32

-- Big-endian integers, as the source puts them together by shifts and `|`.
abbrev pub be16 : ℕ → ℕ → ℕ
be16 a b = a * 256 + b

abbrev pub be32 : ℕ → ℕ → ℕ → ℕ → ℕ
be32 a b c d = ((a * 256 + b) * 256 + c) * 256 + d

-- putU16 and putU32: the bytes of an integer, highest first.
unfoldable pub put_u16 : ℕ → List ℕ
put_u16 v = v / 256 % 256 ∷ v % 256 ∷ []

unfoldable pub put_u32 : ℕ → List ℕ
put_u32 v = v / 2 ^ 24 % 256 ∷ v / 2 ^ 16 % 256 ∷ v / 256 % 256 ∷ v % 256 ∷ []

pub length-put_u32 : (n : ℕ) → 4 ≡ length (put_u32 n)
unfolding put_u32
length-put_u32 n = refl

-- The integer that four bytes make; the source's array of four zeros otherwise.
abbrev pub be32_of : List ℕ → ℕ
be32_of (a ∷ b ∷ c ∷ d ∷ []) = be32 a b c d
be32_of _ = 0

pub be16-put_u16 : (v : ℕ) → v < 2 ^ 16 → be16 (v / 256 % 256) (v % 256) ≡ v
be16-put_u16 v h = omega arith

pub be32_of-put_u32 : (v : ℕ) → v < 2 ^ 32 → be32_of (put_u32 v) ≡ v
unfolding put_u32
be32_of-put_u32 v h = omega arith
