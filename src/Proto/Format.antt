-- ===== src/Proto/Format.antt =====
-- The formats that protocol_types.h writes, as lists of items, and the wire form of a message that
-- they describe. It says nothing of scanning a format string, so that writef and readf can be
-- compared with it.
use deskflow_harmonyos.Base.{ℕ, ◌+◌, ◌^◌, ◌≤◌, ◌<◌, ◌≡◌, ◌≢◌, List, [], ◌∷◌, ◌++◌, length, All}
use deskflow_harmonyos.Base.Word.{put_u16, put_u32}
use deskflow_harmonyos.Proto.{Value, num, str, vec, raw}
use deskflow_harmonyos.Proto.Read.{max_elements, max_string, max_raw}

pub data Width : Type 0 where
  w1 w2 w4 : Width

pub data Item : Type 0 where
  byte : ℕ → Item
  int : Width → Item
  ints : Width → Item
  text : Item
  fixed : ℕ → Item
  run : Item

abbrev pub octets : Width → ℕ
octets w1 = 1
octets w2 = 2
octets w4 = 4

-- The format string of a list of items.
unfoldable pub render : List Item → List ℕ
render [] = []
render (byte c ∷ is) = c ∷ render is
render (int w ∷ is) = b'%' ∷ (b'0' + octets w) ∷ b'i' ∷ render is
render (ints w ∷ is) = b'%' ∷ (b'0' + octets w) ∷ b'I' ∷ render is
render (text ∷ is) = b'%' ∷ b's' ∷ render is
render (fixed k ∷ is) = b'%' ∷ (b'0' + k) ∷ b's' ∷ render is
render (run ∷ is) = b'%' ∷ b'S' ∷ render is

abbrev pub InWidth : Width → ℕ → Type 0
InWidth w v = v < 256 ^ octets w

-- The values have the items' types, and lie in the ranges that both directions support.
abbrev pub Fits : List Item → List Value → Type 0
Fits [] [] = Unit
Fits (byte c ∷ is) vs = (c ≢ b'%') × (c < 256) × Fits is vs
Fits (int w ∷ is) (num v ∷ vs) = InWidth w v × Fits is vs
Fits (ints w ∷ is) (vec l ∷ vs) = (length l ≤ max_elements) × All (InWidth w) l × Fits is vs
Fits (text ∷ is) (str s ∷ vs) = (length s ≤ max_string) × Fits is vs
Fits (fixed k ∷ is) (str s ∷ vs) = (1 ≤ k) × (k ≤ 9) × (k ≡ length s) × Fits is vs
Fits (run ∷ is) (raw s ∷ vs) = (length s ≤ max_raw) × Fits is vs
Fits _ _ = ⊥

-- An integer of so many octets, highest octet first.
unfoldable pub big_endian : Width → ℕ → List ℕ
unfolding put_u16 put_u32
big_endian w1 v = v ∷ []
big_endian w2 v = put_u16 v
big_endian w4 v = put_u32 v

unfoldable pub elements : Width → List ℕ → List ℕ
elements w [] = []
elements w (v ∷ vs) = big_endian w v ++ elements w vs

-- The wire form of the values.
unfoldable pub encode : List Item → List Value → List ℕ
encode (byte c ∷ is) vs = c ∷ encode is vs
encode (int w ∷ is) (num v ∷ vs) = big_endian w v ++ encode is vs
encode (ints w ∷ is) (vec l ∷ vs) = put_u32 (length l) ++ (elements w l ++ encode is vs)
encode (text ∷ is) (str s ∷ vs) = put_u32 (length s) ++ (s ++ encode is vs)
encode (fixed k ∷ is) (str s ∷ vs) = s ++ encode is vs
encode (run ∷ is) (raw s ∷ vs) = put_u32 (length s) ++ (s ++ encode is vs)
encode _ _ = []
