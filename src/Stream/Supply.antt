-- ===== src/Stream/Supply.antt =====
-- How much a stream can still give: a bound that every read uses up by what it returns, and that
-- no write changes.
use mathlib.Core.Path.{subst}
use deskflow_harmonyos.Base.{
  ℕ, zero, suc, ◌+◌, ◌-◌, ◌≤◌, ◌≡◌, refl, sym, ap, ◌∙◌, Bool, Option, none, some, List, [], ◌∷◌,
  ◌++◌, arith, leb, ltb, ◌==◌, if_both, length, take, drop, length-append, length-take, length-drop,
  drop-drop, Bool-cases, inl, inr, if_true, if_false, leb→le, leb-false,
}
use deskflow_harmonyos.Base.Word.{be32_of, put_u32}
use deskflow_harmonyos.Stream.{
  RecvEvent, arrived, ended, interrupted, failed, stopped, Stream, unread, Filled, put_back, fill,
  settle, close, read_exact, read_body, read_frame, push_to_buffer, max_frame, write_all,
  write_frame,
}

-- All the bytes of a script, also behind an error.
unfoldable pub supply : List RecvEvent → ℕ
supply [] = 0
supply (arrived b bs ∷ evs) = suc (length bs) + supply evs
supply (_ ∷ evs) = supply evs

-- The bytes that a stream can still give.
unfoldable pub reserve_of : Stream → ℕ
unfolding supply
reserve_of s = length (unread s) + supply s.incoming

abbrev pub amount : Option (List ℕ) → ℕ
amount none = 0
amount (some bs) = length bs

abbrev pub HasLength : ℕ → Option (List ℕ) → Type 0
HasLength n none = Unit
HasLength n (some bs) = length bs ≡ n

record Fed (before n : ℕ) (f : Filled) : Type 0 where
  used : supply f.left + amount f.result ≤ before
  exact : HasLength n f.result

Fed-same :
    {before before' n n' : ℕ} {f : Filled}
    → before ≡ before'
    → n ≡ n'
    → Fed before n f
    → Fed before' n' f
Fed-same {before} {before'} {n} {n'} {f} e e' r =
    subst (λ m. Fed m n' f) e (subst (λ m. Fed before m f) e' r)

Fed-nothing :
    (evs : List RecvEvent) (n before : ℕ) (b : Bool)
    → supply evs ≤ before
    → Fed before n (record { result = none; left = evs; by_stop = b })
Fed-nothing evs n before b h = record { used = omega arith; exact = tt }

supply-put_back :
    (bs : List ℕ) (evs : List RecvEvent) → supply (put_back bs evs) ≡ length bs + supply evs
unfolding supply
supply-put_back [] evs = omega arith
supply-put_back (b ∷ bs) evs = refl

fill-Fed :
    (evs : List RecvEvent) (n : ℕ) (got : List ℕ)
    → Fed (supply evs + length got) (length got + n) (fill evs n got)
unfolding fill supply
fill-Fed [] zero got = record { used = omega arith; exact = omega arith }
fill-Fed [] (suc n) got = record { used = omega arith; exact = tt }
fill-Fed (e ∷ evs) zero got = record { used = omega arith; exact = omega arith }
fill-Fed (arrived b bs ∷ evs) (suc n) got = elim (Bool-cases (leb (length bs) n)) [
  | inl e ↦
      (let le = leb→le (length bs) n e in
        let l = length-append got (b ∷ bs) in
        subst (Fed _ _) (sym (if_true _ _ _ e))
          (Fed-same (omega arith) (omega arith) (fill-Fed evs (n - length bs) (got ++ (b ∷ bs)))))
  | inr e ↦
      (let lt = leb-false (length bs) n e in
        let l = length-append got (b ∷ take n bs) in
        subst (Fed _ _)
          (sym (if_false (leb (length bs) n) (fill evs (n - length bs) (got ++ (b ∷ bs))) _ e))
          (record {
            used =
                omega (arith, length-take n bs, length-drop n bs, supply-put_back (drop n bs) evs);
            exact = omega (arith, length-take n bs);
          }))
]
fill-Fed (ended ∷ evs) (suc n) got = Fed-nothing (ended ∷ evs) _ _ _ (omega arith)
fill-Fed (interrupted ∷ evs) (suc n) got = fill-Fed evs (suc n) got
fill-Fed (failed ∷ evs) (suc n) got = Fed-nothing evs _ _ _ (omega arith)
fill-Fed (stopped ∷ evs) (suc n) got = Fed-nothing evs _ _ _ (omega arith)

-- A read of `n` bytes that ends in `r`, from `before` bytes in reserve.
pub record Used (before n : ℕ) (r : Option (List ℕ) × Stream) : Type 0 where
  pub used : reserve_of r.1 + amount r.0 ≤ before
  pub exact : HasLength n r.0

settle-Used :
    (s : Stream) (f : Filled) (before n : ℕ)
    → Fed before n f
    → length (unread s) ≡ 0
    → Used before n (settle s f)
unfolding settle close reserve_of
settle-Used s f before n r h = elim (Bool-cases f.by_stop) [
  | inl e ↦
      subst (λ t. Used before n (f.result, t)) (sym (if_true f.by_stop _ _ e))
        (record { used = omega (arith, r.used); exact = r.exact })
  | inr e ↦
      subst (λ t. Used before n (f.result, t)) (sym (if_false f.by_stop _ _ e))
        (record { used = omega (arith, r.used); exact = r.exact })
]

pub read_exact-Used : (n : ℕ) (s : Stream) → Used (reserve_of s) n (read_exact n s)
unfolding read_exact reserve_of
read_exact-Used n s =
    let held = take n (unread s) in
    let s' = record s { buffer_pos = s.buffer_pos + length held } in
    let cut : unread s' ≡ drop (length held) (unread s) =
      (sym (drop-drop s.buffer_pos (length held) _ s.buffer refl)) in
    let left = ap length cut ∙ length-drop (length held) (unread s) in
    let size = length-take n (unread s) in
    elim (Bool-cases (length held == n)) [
      | inl e ↦
          subst (Used _ n) (sym (if_true (length held == n) (some held, s') _ e))
            (record { used = omega arith; exact = ground arith })
      | inr e ↦
          (let short : n ≤ length held → ⊥ = ground arith in
            subst (Used _ n) (sym (if_false (length held == n) (some held, s') _ e)) (
              if_both (Used _ n) s.connected
                (settle-Used s' _ _ n
                  (Fed-same (omega arith) (omega arith)
                    (fill-Fed s.incoming (n - length held) held))
                  (omega arith))
                (record { used = omega arith; exact = tt })))
    ]

record Takes (before : ℕ) (r : Option (List ℕ) × Stream) : Type 0 where
  used : reserve_of r.1 + amount r.0 ≤ before

read_body-Takes : (len : ℕ) (s : Stream) → Takes (reserve_of s) (read_body len s)
unfolding read_body
read_body-Takes len s =
    if_both (Takes _) (ltb max_frame len) (record { used = omega arith })
      (if_both (Takes _) (leb 1 len) (record { used = (read_exact-Used len s).used })
        (record { used = omega arith }))

push_to_buffer-reserve_of :
    (bytes : List ℕ) (s : Stream)
    → reserve_of (push_to_buffer bytes s) ≤ reserve_of s + length bytes
unfolding reserve_of push_to_buffer
push_to_buffer-reserve_of bytes s = omega (
  arith,
  length-drop s.buffer_pos (s.buffer ++ bytes),
  length-drop s.buffer_pos s.buffer,
  length-append s.buffer bytes,
)

-- What a frame leaves once it is in the buffer: its length field is used up.
abbrev pub FrameUsed : ℕ → Option (List ℕ) → Stream → Type 0
FrameUsed before none s = Unit
FrameUsed before (some bytes) s = reserve_of (push_to_buffer bytes s) + 4 ≤ before

body-FrameUsed :
    (before : ℕ) (r : Option (List ℕ)) (s' : Stream)
    → reserve_of s' + amount r + 4 ≤ before
    → FrameUsed before r s'
body-FrameUsed before none s' h = tt
body-FrameUsed before (some bytes) s' h = omega (arith, push_to_buffer-reserve_of bytes s')

-- readFrame behind the attempt to read its length field.
abbrev after_length : Option (List ℕ) → Stream → Option (List ℕ) × Stream
after_length lenb s = elim lenb [ none ↦ (none, s) | some bs ↦ read_body (be32_of bs) s ]

after_length-FrameUsed :
    (before : ℕ) (lenb : Option (List ℕ)) (s : Stream)
    → Used before 4 (lenb, s)
    → FrameUsed before (after_length lenb s).0 (after_length lenb s).1
after_length-FrameUsed before none s r = tt
after_length-FrameUsed before (some bs) s r =
    body-FrameUsed before _ _
      (omega (arith, r.used, r.exact, (read_body-Takes (be32_of bs) s).used))

pub read_frame-FrameUsed : (s : Stream) → FrameUsed (reserve_of s) (read_frame s).0 (read_frame s).1
unfolding read_frame
read_frame-FrameUsed s =
    after_length-FrameUsed (reserve_of s) (read_exact 4 s).0 (read_exact 4 s).1
      (read_exact-Used 4 s)

write_all-reserve_of :
    (bytes : List ℕ) (s : Stream) → reserve_of (write_all bytes s).1 ≡ reserve_of s
unfolding write_all reserve_of
write_all-reserve_of bytes s = ground arith

pub write_frame-reserve_of :
    (bytes : List ℕ) (s : Stream) → reserve_of (write_frame bytes s).1 ≡ reserve_of s
unfolding write_frame
write_frame-reserve_of bytes s =
    let (ok, s1) = write_all (put_u32 (length bytes)) s in
    ground (arith, write_all-reserve_of (put_u32 (length bytes)) s, write_all-reserve_of bytes s1)
