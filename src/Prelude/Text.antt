-- ===== src/Prelude/Text.antt =====
-- Go strings as lists of bytes, and the decimal text of numbers (package strconv).
use Prim.Native.Nat.{ℕ, zero, suc, ◌+◌, ◌-◌, ◌*◌, ◌/◌, ◌%◌, ◌<◌, ◌≤◌}
use Prim.Native.Char.{code}
use Prim.Native.String.{String}
use mathlib.Core.Path.{◌≡◌, refl, ap, ◌∙◌}
use mathlib.Core.Bool.{Bool, true, false, ◌&&◌, ◌||◌}
use mathlib.Core.List.{List, [], ◌∷◌, ◌++◌}
use mathlib.Core.Option.{Option, none, some}
use native.Mathlib.Omega.{arith}
use mathlib.Core.Logic.{inl, inr}
use fastgql.Prelude.Tests.{ltb, leb, ◌==◌, if◌then◌else◌, Bool-cases}
use fastgql.Prelude.Int.{ℤ, pos, negsuc, pos_part, neg_part}

abbrev pub Bytes : Type 0
Bytes = List ℕ

-- The bytes of an ASCII literal.
abbrev pub codes : String → Bytes
codes String.[] = []
codes (String.◌∷◌ c s) = code c ∷ codes s

abbrev pub bytes_eq : Bytes → Bytes → Bool
bytes_eq [] [] = true
bytes_eq (a ∷ s) (b ∷ t) = a == b && bytes_eq s t
bytes_eq [] (b ∷ t) = false
bytes_eq (a ∷ s) [] = false

-- The decimal digits of n, most significant first, for fuel above n.
digits : ℕ → ℕ → Bytes
digits zero n = []
digits (suc fuel) n =
    let more = digits fuel (n / 10) in
    if ltb n 10 then (b'0' + n) ∷ [] else more ++ (b'0' + n % 10) ∷ []

-- `strconv.Itoa`.
unfoldable pub itoa : ℤ → Bytes
unfolding digits
itoa (pos n) = digits (suc n) n
itoa (negsuc n) = b'-' ∷ digits (suc (suc n)) (suc n)

-- The number that digits spell behind n.
read_digits : Bytes → ℕ → Option ℕ
read_digits [] n = some n
read_digits (c ∷ s) n =
    if leb b'0' c && leb c b'9' then read_digits s (n * 10 + (c - b'0')) else none

abbrev below : ℕ → Option ℕ → Option ℕ
below bound none = none
below bound (some n) = if ltb n bound then some n else none

-- The digits of `strconv.ParseInt`: one at least, all of them decimal, and a value below the bound.
unfoldable pub parse_digits : Bytes → ℕ → Option ℕ
unfolding read_digits
parse_digits [] bound = none
parse_digits (c ∷ s) bound = below bound (read_digits (c ∷ s) 0)

abbrev pub negated : Option ℕ → Option ℤ
negated none = none
negated (some zero) = some (pos zero)
negated (some (suc n)) = some (negsuc n)

abbrev pub positive : Option ℕ → Option ℤ
positive none = none
positive (some n) = some (pos n)

-- `strconv.ParseInt(s, 10, bits)`, with half = 2 ^ (bits - 1): an optional sign, then digits.
unfoldable pub parse_int : ℕ → Bytes → Option ℤ
unfolding parse_digits
parse_int half [] = none
parse_int half (c ∷ s) =
    if c == b'-'
    then negated (parse_digits s (half + 1))
    else if c == b'+'
    then positive (parse_digits s half)
    else positive (parse_digits (c ∷ s) half)

read_digits-append :
    (s : Bytes) (d n m : ℕ)
    → d < 10
    → read_digits s n ≡ some m
    → read_digits (s ++ (b'0' + d) ∷ []) n ≡ some (m * 10 + d)
unfolding read_digits
read_digits-append [] d n m small h = ground arith
read_digits-append (c ∷ s) d n m small h =
    ground (arith, read_digits-append s d (n * 10 + (c - b'0')) m small)

ltb→lt : (a b : ℕ) → ltb a b ≡ true → a < b
ltb→lt a b h = ground arith

ltb→le : (a b : ℕ) → ltb a b ≡ false → b ≤ a
ltb→le a b h = ground arith

one_digit : (n : ℕ) → n < 10 → read_digits ((b'0' + n) ∷ []) 0 ≡ some n
unfolding read_digits
one_digit n h = ground arith

read_digits-digits : (fuel n : ℕ) → n < fuel → read_digits (digits fuel n) 0 ≡ some n
unfolding digits
read_digits-digits zero n h = absurd (omega arith)
read_digits-digits (suc fuel) n h = elim (Bool-cases (ltb n 10)) [
  | inl small ↦ rw small (one_digit n (ltb→lt n 10 small))
  | inr large ↦ rw large (
      read_digits-append (digits fuel (n / 10)) (n % 10) 0 (n / 10) (omega arith)
        (read_digits-digits fuel (n / 10) (grind (arith, ltb→le)))
      ∙ ap some (omega arith))
]

digits-cons : (fuel n : ℕ) → n < fuel → (c : ℕ) × (s : Bytes) × (digits fuel n ≡ c ∷ s) × (b'0' ≤ c)
unfolding digits
digits-cons zero n h = absurd (omega arith)
digits-cons (suc fuel) n h = elim (Bool-cases (ltb n 10)) [
  | inl small ↦ (b'0' + n, [], rw small refl, omega arith)
  | inr large ↦
      let (c, s, e, le) = digits-cons fuel (n / 10) (grind (arith, ltb→le)) in
      (c, s ++ (b'0' + n % 10) ∷ [], rw (large, e) refl, le)
]

parse_digits-digits :
    (fuel n bound : ℕ) → n < fuel → parse_digits (digits fuel n) bound ≡ below bound (some n)
unfolding parse_digits
parse_digits-digits fuel n bound h =
    let (c, s, e, le) = digits-cons fuel n h in
    rw e (read_value (c ∷ s) (c, s, refl) (rw e at (read_digits-digits fuel n h)))
  where
    read_value :
        (t : Bytes)
        → ((c : ℕ) × (s : Bytes) × (t ≡ c ∷ s))
        → read_digits t 0 ≡ some n
        → parse_digits t bound ≡ below bound (some n)
    read_value [] (c, s, e) r = cc
    read_value (c ∷ s) _ r = rw r refl

parse_int-positive :
    (half : ℕ) (t : Bytes) (c : ℕ) (s : Bytes)
    → t ≡ c ∷ s
    → b'0' ≤ c
    → parse_int half t ≡ positive (parse_digits t half)
unfolding parse_int
parse_int-positive half t c s e le = rw e (ground arith)

parse_int-itoa_pos : (half n : ℕ) → parse_int half (itoa (pos n)) ≡ positive (below half (some n))
unfolding itoa
parse_int-itoa_pos half n =
    let (c, s, e, le) = digits-cons (suc n) n (omega arith) in
    parse_int-positive half (digits (suc n) n) c s e le
    ∙ ap positive (parse_digits-digits (suc n) n half (omega arith))

parse_int-itoa_neg :
    (half n : ℕ) → parse_int half (itoa (negsuc n)) ≡ negated (below (half + 1) (some (suc n)))
unfolding itoa parse_int
parse_int-itoa_neg half n =
    ap negated (parse_digits-digits (suc (suc n)) (suc n) (half + 1) (omega arith))

-- Every number that fits is read back from its decimal text.
pub parse_int-itoa :
    (half : ℕ) (i : ℤ) → pos_part i < half → neg_part i ≤ half → parse_int half (itoa i) ≡ some i
parse_int-itoa half (pos n) fits _ = parse_int-itoa_pos half n ∙ ground arith
parse_int-itoa half (negsuc n) _ fits = parse_int-itoa_neg half n ∙ ground arith

-- A number that does not fit is refused.
pub parse_int-itoa_large :
    (half : ℕ) (i : ℤ)
    → ¬ ((pos_part i < half) × (neg_part i ≤ half))
    → parse_int half (itoa i) ≡ none
parse_int-itoa_large half (pos n) large = parse_int-itoa_pos half n ∙ ground (arith, large)
parse_int-itoa_large half (negsuc n) large = parse_int-itoa_neg half n ∙ ground (arith, large)

pub bytes_eq_refl : (s : Bytes) → bytes_eq s s ≡ true
bytes_eq_refl [] = refl
bytes_eq_refl (a ∷ s) = rw (bytes_eq_refl s) (ground arith)

-- `strconv.Quote` of printable ASCII.
abbrev pub quoted : Bytes → Bytes
quoted [] = b'"' ∷ []
quoted (c ∷ s) = if c == b'"' || c == b'\\' then b'\\' ∷ c ∷ quoted s else c ∷ quoted s

abbrev pub quote : Bytes → Bytes
quote s = b'"' ∷ quoted s

-- `strings.HasPrefix` and `strings.HasSuffix`.
abbrev pub has_prefix : Bytes → Bytes → Bool
has_prefix s [] = true
has_prefix [] (c ∷ t) = false
has_prefix (d ∷ s) (c ∷ t) = d == c && has_prefix s t

abbrev pub has_suffix : Bytes → Bytes → Bool
has_suffix [] t = bytes_eq [] t
has_suffix (c ∷ s) t = bytes_eq (c ∷ s) t || has_suffix s t
