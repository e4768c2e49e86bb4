-- ===== src/Proto/Shapes.antt =====
-- The values that readf of entry/src/main/cpp/protocol/proto_util.cpp returns for a format, whatever
-- arrives: their types and sizes, and the bytes taken for them.
use deskflow_harmonyos.Base.{
  ℕ, ◌≤◌, ◌<◌, ◌≡◌, ◌≢◌, refl, sym, ap, ◌∙◌, some, List, [], ◌∷◌, ◌++◌, append_assoc, length, All,
}
use deskflow_harmonyos.Base.Word.{IsByte, put_u32}
use deskflow_harmonyos.Stream.{Stream}
use deskflow_harmonyos.Stream.Read.{pending}
use deskflow_harmonyos.Proto.{Value, num, str, vec, raw, plain, writef}
use deskflow_harmonyos.Proto.Encode.{writef-encode}
use deskflow_harmonyos.Proto.Read.{read_from, readf, max_string, max_raw}
use deskflow_harmonyos.Proto.Ensures.{Ensures, Ensures-pure, Ensures-weaken, IsRun}
use deskflow_harmonyos.Proto.Canonical.{IsInt, IsVec, IsCounted}
use deskflow_harmonyos.Proto.Conversions.{
  Ensures-cons, Ensures-then, Ensures-percent, Ensures-wide, read_char-itself, octets-le,
  reads_number, reads_vector, reads_string, reads_blob, reads_wide_string,
}
use deskflow_harmonyos.Proto.Format.{
  Item, byte, int, ints, text, fixed, run, octets, render, Fits, big_endian, elements, encode,
}

-- The formats that readf can meet: no `%` outside a conversion, and widths of one digit.
abbrev pub IsFormat : List Item → Type 0
IsFormat [] = Unit
IsFormat (byte c ∷ is) = (c ≢ b'%') × (c < 256) × IsFormat is
IsFormat (fixed k ∷ is) = (1 ≤ k) × (k ≤ 9) × IsFormat is
IsFormat (_ ∷ is) = IsFormat is

-- The values fit the items, and the bytes are their wire form.
pub record IsWire (is : List Item) (vs : List Value) (used : List ℕ) : Type 0 where
  pub fits : Fits is vs
  pub used_is : used ≡ encode is vs

counted_is :
    (s : List ℕ) {bs cs rest : List ℕ}
    → bs ≡ put_u32 (length s) ++ s
    → cs ≡ rest
    → bs ++ cs ≡ put_u32 (length s) ++ (s ++ rest)
counted_is s {cs = cs} e q =
    ap (λ l. l ++ cs) e
    ∙ (append_assoc (put_u32 (length s)) s cs ∙ ap (λ x. put_u32 (length s) ++ (s ++ x)) q)

read_from-IsWire :
    (is : List Item) → IsFormat is → Ensures (IsWire is) (read_from (render is) plain)
unfolding read_from render encode
read_from-IsWire [] h = Ensures-pure (IsWire []) [] (record { fits = tt; used_is = refl })
read_from-IsWire (byte c ∷ is) (h, small, more) =
    Ensures-cons c (render is) plain plain (λ us bs. (us ≡ []) × (bs ≡ c ∷ []))
      (IsWire (byte c ∷ is)) (read_char-itself c h)
      (λ us bs u.
        Ensures-weaken (IsWire is) _ (read_from (render is) plain) (read_from-IsWire is more)
          (λ vs cs q.
            rw (u.0, u.1) (record { fits = (h, small, q.fits); used_is = ap (◌∷◌ c) q.used_is })))
read_from-IsWire (int w ∷ is) h =
    Ensures-wide (octets w) (b'i' ∷ render is) (IsWire (int w ∷ is)) (octets-le w) (
      Ensures-then num (IsInt w) b'i' (octets w) (render is) (IsWire is) (IsWire (int w ∷ is)) refl
        (reads_number w) (read_from-IsWire is h)
        (λ v bs vs cs i q. record {
          fits = (i.in_width, q.fits);
          used_is = ap (λ l. l ++ cs) i.used_is ∙ ap (λ l. big_endian w v ++ l) q.used_is;
        }))
read_from-IsWire (ints w ∷ is) h =
    Ensures-wide (octets w) (b'I' ∷ render is) (IsWire (ints w ∷ is)) (octets-le w) (
      Ensures-then vec (IsVec w) b'I' (octets w) (render is) (IsWire is) (IsWire (ints w ∷ is)) refl
        (reads_vector w) (read_from-IsWire is h)
        (λ l bs vs cs i q. record {
          fits = (i.length_le, i.in_width, q.fits);
          used_is =
              ap (λ l. l ++ cs) i.used_is
              ∙ (append_assoc (put_u32 (length l)) (elements w l) cs
                  ∙ ap (λ x. put_u32 (length l) ++ (elements w l ++ x)) q.used_is);
        }))
read_from-IsWire (text ∷ is) h = Ensures-percent (b's' ∷ render is) (IsWire (text ∷ is)) (
    Ensures-then str (IsCounted max_string) b's' 0 (render is) (IsWire is) (IsWire (text ∷ is)) refl
      reads_string (read_from-IsWire is h)
      (λ s bs vs cs i q. record {
        fits = (i.length_le, q.fits);
        used_is = counted_is s i.used_is q.used_is;
      }))
read_from-IsWire (fixed k ∷ is) (lo, hi, h) =
    Ensures-wide k (b's' ∷ render is) (IsWire (fixed k ∷ is)) hi (
      Ensures-then str (IsRun k) b's' k (render is) (IsWire is) (IsWire (fixed k ∷ is)) refl
        (reads_wide_string k lo) (read_from-IsWire is h)
        (λ s bs vs cs r q. record {
          fits = (lo, hi, sym r.length_is, q.fits);
          used_is = ap (λ l. l ++ cs) r.used_is ∙ ap (λ l. s ++ l) q.used_is;
        }))
read_from-IsWire (run ∷ is) h = Ensures-percent (b'S' ∷ render is) (IsWire (run ∷ is)) (
    Ensures-then raw (IsCounted max_raw) b'S' 0 (render is) (IsWire is) (IsWire (run ∷ is)) refl
      reads_blob (read_from-IsWire is h)
      (λ s bs vs cs i q. record {
        fits = (i.length_le, q.fits);
        used_is = counted_is s i.used_is q.used_is;
      }))

-- Whatever bytes a stream delivers, the values that readf returns fit the items of its format, and
-- what it has taken from the stream is exactly their wire form.
pub readf-IsWire :
    (is : List Item) (s : Stream) (vs : List Value)
    → IsFormat is
    → All IsByte (pending s)
    → (readf (render is) s).0 ≡ some vs
    → Fits is vs × (pending s ≡ encode is vs ++ pending (readf (render is) s).1)
unfolding readf
readf-IsWire is s vs h bytes e =
    let t = (read_from-IsWire is h).result s vs bytes e in
    (
      t.related.fits,
      t.pending_is ∙ ap (λ l. l ++ pending (readf (render is) s).1) t.related.used_is,
    )

-- What readf has taken from a stream of bytes is what writef writes for the values that it returned.
pub writef-readf :
    (is : List Item) (s : Stream) (vs : List Value)
    → IsFormat is
    → All IsByte (pending s)
    → (readf (render is) s).0 ≡ some vs
    → ((out : List ℕ) × (writef (render is) vs ≡ some out)
        × (pending s ≡ out ++ pending (readf (render is) s).1))
writef-readf is s vs h bytes e =
    let w = readf-IsWire is s vs h bytes e in (encode is vs, writef-encode is vs w.0, w.1)
