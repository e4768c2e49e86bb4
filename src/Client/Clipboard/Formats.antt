-- ===== src/Client/Clipboard/Formats.antt =====
-- The clipboard container of marshalText and unmarshalText: what unmarshalText finds in any
-- well-formed container, and in the one that marshalText makes.
use deskflow_harmonyos.Base.{
  ℕ, ◌+◌, ◌%◌, ◌^◌, ◌<◌, ◌≡◌, refl, sym, ap, ◌∙◌, List, [], ◌∷◌, ◌++◌, All, ◌==◌, if◌then◌else◌,
  length, take, drop, length-append, take-append_length, drop-append_length, append_assoc,
  append-nil, arith, le→ltb,
}
use deskflow_harmonyos.Base.Word.{put_u32, length-put_u32, be32_of-put_u32}
use deskflow_harmonyos.Client.Clipboard.Container.{marshal_text, read_at, find_text, unmarshal_text}

-- A format and its payload.
abbrev pub Entry : Type 0
Entry = ℕ × List ℕ

unfoldable pub entries_bytes : List Entry → List ℕ
entries_bytes [] = []
entries_bytes ((f, p) ∷ es) = put_u32 f ++ (put_u32 (length p) ++ (p ++ entries_bytes es))

-- The number of entries, then each entry's format, size and payload.
unfoldable pub container_of : List Entry → List ℕ
unfolding entries_bytes
container_of es = put_u32 (length es) ++ entries_bytes es

-- The payload of the first entry of format 0.
unfoldable pub first_text : List Entry → List ℕ
first_text [] = []
first_text ((f, p) ∷ es) = if f == 0 then p else first_text es

-- Both numbers of an entry fit in their 32 bits.
abbrev pub EntryFits : Entry → Type 0
EntryFits (f, p) = (f < 2 ^ 32) × (length p < 2 ^ 32)

length-append-put_u32 :
    (done rest : List ℕ) (v : ℕ)
    → length (done ++ (put_u32 v ++ rest)) ≡ length done + (4 + length rest)
length-append-put_u32 done rest v = omega (
  arith,
  length-append done (put_u32 v ++ rest),
  length-append (put_u32 v) rest,
  length-put_u32 v,
)

read_at-put_u32 :
    (c done rest : List ℕ) (v off : ℕ)
    → c ≡ done ++ (put_u32 v ++ rest)
    → off ≡ length done
    → v < 2 ^ 32
    → read_at c off ≡ v
unfolding read_at
read_at-put_u32 c done rest v off e o h =
    let long = ap length e ∙ length-append-put_u32 done rest v in
    let here : take 4 (drop off c) ≡ put_u32 v =
      (rw e (
        rw (drop-append_length done (put_u32 v ++ rest) off o)
          (take-append_length (put_u32 v) rest 4 (length-put_u32 v)))) in
    rw (le→ltb (length c) (off + 4) (omega arith), here) (be32_of-put_u32 v h)

-- From the start of an entry on, the loop finds what the entries say.
find_text-entries :
    (es : List Entry) (c done : List ℕ) (off : ℕ)
    → c ≡ done ++ entries_bytes es
    → off ≡ length done
    → All EntryFits es
    → find_text c (length es) off ≡ first_text es
unfolding find_text first_text entries_bytes
find_text-entries [] c done off e o h = refl
find_text-entries ((f, p) ∷ es) c done off e o ((hf, hp), hs) =
    let e4 : c ≡ (done ++ put_u32 f) ++ (put_u32 (length p) ++ (p ++ entries_bytes es)) =
      (e ∙ sym (append_assoc done (put_u32 f) _)) in
    let e8 : c ≡ ((done ++ put_u32 f) ++ put_u32 (length p)) ++ (p ++ entries_bytes es) =
      (e4 ∙ sym (append_assoc (done ++ put_u32 f) (put_u32 (length p)) _)) in
    let en : c ≡ (((done ++ put_u32 f) ++ put_u32 (length p)) ++ p) ++ entries_bytes es =
      (e8 ∙ sym (append_assoc _ p (entries_bytes es))) in
    let l4 = length-append done (put_u32 f) in
    let l8 = length-append (done ++ put_u32 f) (put_u32 (length p)) in
    let ln = length-append ((done ++ put_u32 f) ++ put_u32 (length p)) p in
    let lc = ap length en ∙ length-append _ (entries_bytes es) in
    let lf = length-put_u32 f in
    let lp = length-put_u32 (length p) in
    let format = read_at-put_u32 c done _ f off e o hf in
    let size = read_at-put_u32 c (done ++ put_u32 f) _ (length p) (off + 4) e4 (omega arith) hp in
    let payload : take (length p) (drop (off + 8) c) ≡ p =
      (rw e8 (
        rw
          (drop-append_length ((done ++ put_u32 f) ++ put_u32 (length p)) (p ++ entries_bytes es)
            (off + 8) (omega arith))
          (take-append_length p (entries_bytes es) (length p) refl))) in
    let later =
      find_text-entries es c (((done ++ put_u32 f) ++ put_u32 (length p)) ++ p) (off + 8 + length p)
        en (omega arith) hs in
    let room = le→ltb (length c) (off + 8) (omega arith) in
    let whole = le→ltb (length c) (off + 8 + length p) (omega arith) in
    rw (format, size, room, whole, payload, later) refl

-- In a container of any entries, fewer than 2 ^ 32 of them and each with a format and a size below
-- 2 ^ 32, unmarshalText finds the payload of the first entry of format 0, and the empty text where
-- there is none.
pub unmarshal_text-container_of :
    (es : List Entry)
    → length es < 2 ^ 32
    → All EntryFits es
    → unmarshal_text (container_of es) ≡ first_text es
unfolding unmarshal_text container_of
unmarshal_text-container_of es h hs =
    let size = length-append-put_u32 [] (entries_bytes es) (length es) in
    let count = read_at-put_u32 (container_of es) [] (entries_bytes es) (length es) 0 refl refl h in
    let found =
      (find_text-entries es (container_of es) (put_u32 (length es)) 4 refl
        (length-put_u32 (length es)) hs) in
    rw (le→ltb (length (container_of es)) 4 (omega arith), count) found

marshal_text-container_of :
    (text : List ℕ) → length text < 2 ^ 32 → marshal_text text ≡ container_of ((0, text) ∷ [])
unfolding marshal_text container_of entries_bytes
marshal_text-container_of text h =
    let size : length text % 2 ^ 32 ≡ length text = omega arith in rw (size, append-nil text) refl

-- A text of less than 2 ^ 32 bytes comes back from the container that marshalText makes of it.
pub unmarshal_text-marshal_text :
    (text : List ℕ) → length text < 2 ^ 32 → unmarshal_text (marshal_text text) ≡ text
unfolding first_text
unmarshal_text-marshal_text text h =
    ap unmarshal_text (marshal_text-container_of text h)
    ∙ unmarshal_text-container_of ((0, text) ∷ []) (omega arith) ((omega arith, h), tt)

pub length-marshal_text : (text : List ℕ) → length (marshal_text text) ≡ 12 + length text
unfolding marshal_text
length-marshal_text text = omega (
  arith,
  length-append-put_u32 (put_u32 1) (put_u32 (length text % 2 ^ 32) ++ text) 0,
  length-append-put_u32 [] text (length text % 2 ^ 32),
  length-put_u32 1,
)
