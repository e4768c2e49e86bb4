-- ===== src/Proto/Supply.antt =====
-- Whatever readf meets, it never leaves more to read than there was.
use deskflow_harmonyos.Base.{ℕ, ◌≤◌, Option, none, some, List, arith}
use deskflow_harmonyos.Stream.{Stream}
use deskflow_harmonyos.Stream.Supply.{reserve_of, read_exact-Used}
use deskflow_harmonyos.Proto.Read.{Reader, ◌>>=◌, readf}
use deskflow_harmonyos.Proto.Composes.{Composes, readf-Composes}

abbrev Shrinks : (A : Type 0) → Reader A → Type 0
Shrinks A m = (s : Stream) → reserve_of (m s).1 ≤ reserve_of s

then_left :
    (A B : Type 0) (f : A → Reader B)
    → ((a : A) → Shrinks B (f a))
    → (o : Option A) (s : Stream) (before : ℕ) → reserve_of s ≤ before
    → reserve_of (◌>>=◌ (λ _. (o, s)) f s).1 ≤ before
then_left A B f k none s before h = h
then_left A B f k (some a) s before h = omega (arith, k a s)

Shrinks-Composes : Composes Shrinks
Shrinks-Composes = record {
  of_pure = λ A a s. omega arith;
  of_fail = λ A s. omega arith;
  of_bind = λ A B m f h k s. then_left A B f k (m s).0 (m s).1 (reserve_of s) (h s);
  of_read_exact = λ n s. omega (arith, (read_exact-Used n s).used);
}

-- Whatever readf meets, accepted or not, it leaves no more to read than there was.
pub readf-reserve_of : (fmt : List ℕ) (s : Stream) → reserve_of (readf fmt s).1 ≤ reserve_of s
readf-reserve_of fmt s = readf-Composes Shrinks Shrinks-Composes fmt s
