-- ===== src/Client/Clipboard/Size.antt =====
-- std::to_string and std::stoull as the clipboard code uses them: the announced size of a transfer
-- travels in decimal.
use deskflow_harmonyos.Base.{
  ℕ, zero, suc, ◌+◌, ◌-◌, ◌*◌, ◌/◌, ◌%◌, ◌^◌, Bool, true, false, ◌&&◌, ◌||◌, Option, none, some,
  List, [], ◌∷◌, leb, ltb, ◌==◌, if◌then◌else◌,
}
use deskflow_harmonyos.Proto.{is_digit}

-- The digits of a number in front of `rest`; the first argument bounds their count.
unfoldable pub digits_onto : ℕ → ℕ → List ℕ → List ℕ
digits_onto zero n rest = rest
digits_onto (suc k) n rest =
    let shorter = (b'0' + n % 10) ∷ rest in
    let longer = digits_onto k (n / 10) shorter in if ltb n 10 then shorter else longer

-- std::to_string of a size_t, which has at most 20 digits.
unfoldable pub to_string : ℕ → List ℕ
unfolding digits_onto
to_string n = digits_onto 20 n []

abbrev pub is_space : ℕ → Bool
is_space c = c == 0x20 || leb 0x09 c && leb c 0x0d

-- The value of the leading digits behind `acc`.
unfoldable pub digits_value : ℕ → List ℕ → ℕ
digits_value acc [] = acc
digits_value acc (c ∷ cs) = if is_digit c then digits_value (acc * 10 + (c - b'0')) cs else acc

-- strtoull at the digits: std::invalid_argument without a digit, std::out_of_range from 2 ^ 64 on.
unfoldable pub unsigned_value : Bool → List ℕ → Option ℕ
unfolding digits_value
unsigned_value negative [] = none
unsigned_value negative (c ∷ cs) =
    let v = digits_value 0 (c ∷ cs) in
    if is_digit c
    then (if leb (2 ^ 64) v then none else some (if negative then (2 ^ 64 - v) % 2 ^ 64 else v))
    else none

unfoldable pub signed_value : List ℕ → Option ℕ
unfolding unsigned_value
signed_value [] = none
signed_value (c ∷ cs) =
    if c == b'-'
    then unsigned_value true cs
    else (if c == b'+' then unsigned_value false cs else unsigned_value false (c ∷ cs))

-- std::stoull: white space, an optional sign, digits; what follows them is ignored.
unfoldable pub stoull : List ℕ → Option ℕ
unfolding signed_value
stoull [] = none
stoull (c ∷ cs) = if is_space c then stoull cs else signed_value (c ∷ cs)

-- The handler's try block: 0 on any exception.
unfoldable pub parse_size : List ℕ → ℕ
unfolding stoull
parse_size bytes = elim (stoull bytes) [ none ↦ 0 | some n ↦ n ]
