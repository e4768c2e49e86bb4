-- ===== src/Proto/Encode.antt =====
-- writef against the wire form of a message.
use deskflow_harmonyos.Base.{
  ℕ, ◌+◌, ◌-◌, ◌≤◌, ◌≡◌, ◌≢◌, refl, ap, ◌∙◌, true, false, some, List, [], ◌∷◌, ◌++◌, append_assoc,
  append-nil, arith, length, take-all, All, ne→==_false, le→leb,
}
use deskflow_harmonyos.Base.Word.{put_u32}
use deskflow_harmonyos.Proto.{
  Value, num, str, vec, raw, plain, is_digit, next_width, put_int, put_ints, put_fixed, convert,
  write_char, write_from, writef,
}
use deskflow_harmonyos.Proto.Format.{
  Width, w1, w2, w4, Item, byte, int, ints, text, fixed, run, octets, render, InWidth, Fits,
  big_endian, elements, encode,
}

put_int-big_endian : (w : Width) (v : ℕ) → InWidth w v → put_int (octets w) v ≡ big_endian w v
unfolding put_int big_endian
put_int-big_endian w1 v h = ap (λ (x : ℕ). x ∷ []) (omega arith)
put_int-big_endian w2 v h = ground arith
put_int-big_endian w4 v h = refl

put_ints-elements :
    (w : Width) (vs : List ℕ) → All (InWidth w) vs → put_ints (octets w) vs ≡ elements w vs
unfolding put_ints elements
put_ints-elements w [] h = refl
put_ints-elements w (v ∷ vs) h = rw (put_int-big_endian w v h.0, put_ints-elements w vs h.1)

put_fixed-eq : (k : ℕ) (s : List ℕ) → k ≡ length s → put_fixed k s ≡ s
unfolding put_fixed
put_fixed-eq k s h =
    let e : k - length s ≡ 0 = omega arith in rw (e, take-all k s (omega arith)) (append-nil s)

-- A width digit and a conversion character in front of a format.
write_conversion :
    (d c : ℕ) (fmt : List ℕ) (args vs : List Value) (bytes out : List ℕ)
    → is_digit d ≡ true
    → is_digit c ≡ false
    → convert c (next_width 0 d) args ≡ some (bytes, vs)
    → write_from fmt plain vs ≡ some out
    → write_from (b'%' ∷ d ∷ c ∷ fmt) plain args ≡ some (bytes ++ out)
unfolding write_from write_char
write_conversion d c fmt args vs bytes out hd hc h e = rw (hd, write_char, hc, h, e)

pub width_digit : (w : Width) → is_digit (b'0' + octets w) ≡ true
width_digit w1 = refl
width_digit w2 = refl
width_digit w4 = refl

convert-num :
    (w : Width) (v : ℕ) (vs : List Value)
    → InWidth w v
    → convert b'i' (next_width 0 (b'0' + octets w)) (num v ∷ vs) ≡ some (big_endian w v, vs)
unfolding convert
convert-num w1 v vs h = rw (put_int-big_endian w1 v h)
convert-num w2 v vs h = rw (put_int-big_endian w2 v h)
convert-num w4 v vs h = rw (put_int-big_endian w4 v h)

convert-vec :
    (w : Width) (l : List ℕ) (vs : List Value)
    → All (InWidth w) l
    → convert b'I' (next_width 0 (b'0' + octets w)) (vec l ∷ vs)
      ≡ some (put_u32 (length l) ++ elements w l, vs)
unfolding convert
convert-vec w1 l vs h = rw (put_ints-elements w1 l h)
convert-vec w2 l vs h = rw (put_ints-elements w2 l h)
convert-vec w4 l vs h = rw (put_ints-elements w4 l h)

pub next_width_digit : (k : ℕ) → k ≤ 9 → next_width 0 (b'0' + k) ≡ k
next_width_digit k h = omega arith

pub digit_of_le : (k : ℕ) → k ≤ 9 → is_digit (b'0' + k) ≡ true
digit_of_le k h = ground arith

convert_fixed :
    (k : ℕ) (s : List ℕ) (vs : List Value)
    → 1 ≤ k
    → k ≤ 9
    → k ≡ length s
    → convert b's' (next_width 0 (b'0' + k)) (str s ∷ vs) ≡ some (s, vs)
unfolding convert
convert_fixed k s vs lo hi h =
    rw (next_width_digit k hi, le→leb 1 k lo) (ap (λ l. some (l, vs)) (put_fixed-eq k s h))

write_byte :
    (c : ℕ) (fmt : List ℕ) (vs : List Value) (out : List ℕ)
    → c ≢ b'%'
    → write_from fmt plain vs ≡ some out
    → write_from (c ∷ fmt) plain vs ≡ some (c ∷ out)
unfolding write_from write_char
write_byte c fmt vs out h e = rw (ne→==_false c b'%' h, e)

write_counted :
    (c : ℕ) (s fmt : List ℕ) (args vs : List Value) (out : List ℕ)
    → is_digit c ≡ false
    → convert c 0 args ≡ some (put_u32 (length s) ++ s, vs)
    → write_from fmt plain vs ≡ some out
    → write_from (b'%' ∷ c ∷ fmt) plain args ≡ some (put_u32 (length s) ++ (s ++ out))
unfolding write_from write_char
write_counted c s fmt args vs out hc h e =
    rw (hc, write_char, h, e) (ap some (append_assoc (put_u32 (length s)) s out))

write_render :
    (is : List Item) (vs : List Value)
    → Fits is vs
    → write_from (render is) plain vs ≡ some (encode is vs)
unfolding render encode
write_render [] [] h = unfold write_from in refl
write_render [] (v ∷ vs) h = elim h [ ]
write_render (byte c ∷ is) vs (h, _, t) = write_byte c _ vs _ h (write_render is vs t)
write_render (int w ∷ is) (num v ∷ vs) (h, t) =
    write_conversion _ b'i' _ _ vs _ _ (width_digit w) refl (convert-num w v vs h)
      (write_render is vs t)
write_render (ints w ∷ is) (vec l ∷ vs) (_, h, t) =
    write_conversion _ b'I' _ _ vs _ _ (width_digit w) refl (convert-vec w l vs h)
      (write_render is vs t)
    ∙ ap some (append_assoc (put_u32 (length l)) (elements w l) _)
write_render (text ∷ is) (str s ∷ vs) (h, t) =
    write_counted b's' s _ _ vs _ refl (unfold convert in refl) (write_render is vs t)
write_render (fixed k ∷ is) (str s ∷ vs) (lo, hi, h, t) =
    write_conversion _ b's' _ _ vs _ _ (digit_of_le k hi) refl (convert_fixed k s vs lo hi h)
      (write_render is vs t)
write_render (run ∷ is) (raw s ∷ vs) (h, t) =
    write_counted b'S' s _ _ vs _ refl (unfold convert in refl) (write_render is vs t)
write_render (int w ∷ is) _ h = elim h [ ]
write_render (ints w ∷ is) _ h = elim h [ ]
write_render (text ∷ is) _ h = elim h [ ]
write_render (fixed k ∷ is) _ h = elim h [ ]
write_render (run ∷ is) _ h = elim h [ ]

-- writef writes the wire form of every message whose values fit its format.
pub writef-encode :
    (is : List Item) (vs : List Value) → Fits is vs → writef (render is) vs ≡ some (encode is vs)
unfolding writef
writef-encode is vs h = write_render is vs h
