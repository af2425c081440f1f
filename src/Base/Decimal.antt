-- ===== src/Base/Decimal.antt =====
-- `%d`, and `strconv.ParseUint` and `strconv.ParseInt` with base 10 and 64 bits, on unsigned texts.
use bydb.Base.Tests.{Bool-cases, leb, ltb, if◌then◌else◌}
use bydb.Base.Texts.{Text}
use bydb.Base.Lists.{All}
use Prim.Native.Nat.{ℕ, zero, suc, ◌+◌, ◌-◌, ◌*◌, ◌/◌, ◌%◌, ◌^◌, ◌<◌}
use mathlib.Core.Path.{◌≡◌, refl, sym, ap, ◌∙◌}
use mathlib.Core.Bool.{Bool, true, false, ◌&&◌}
use mathlib.Core.List.{[], ◌∷◌}
use mathlib.Core.Option.{Option, none, some}
use mathlib.Core.Logic.{◌≢◌, inl, inr}
use native.Mathlib.Omega.{arith}

-- `\d`
abbrev pub is_digit : ℕ → Bool
is_digit c = leb b'0' c && leb c b'9'

pub data Parsed : Type 0 where
  value : ℕ → Parsed
  syntax_error range_error : Parsed

parse_digits : ℕ → ℕ → Text → Parsed
parse_digits bound n [] = value n
parse_digits bound n (c ∷ cs) =
    let next = n * 10 + (c - b'0') in
    let rest = parse_digits bound next cs in
    if is_digit c then if ltb next bound then rest else range_error else syntax_error

unfoldable pub parse_uint : Text → Parsed
unfolding parse_digits
parse_uint [] = syntax_error
parse_uint (c ∷ cs) = parse_digits (2 ^ 64) 0 (c ∷ cs)

abbrev int_of : Parsed → Option ℕ
int_of (value n) = if ltb n (2 ^ 63) then some n else none
int_of _ = none

-- `ParseInt` on a text with no sign; `none` is either error.
unfoldable pub parse_int : Text → Option ℕ
unfolding parse_uint
parse_int t = int_of (parse_uint t)

-- The number that `ParseUint` returns, beside its error too.
abbrev pub uint_value : Parsed → ℕ
uint_value (value n) = n
uint_value syntax_error = 0
uint_value range_error = 2 ^ 64 - 1

abbrev pub is_value : Parsed → Bool
is_value (value n) = true
is_value _ = false

-- The digits of `n` in front of `rest`; the fuel bounds the number of digits.
print_onto : ℕ → ℕ → Text → Text
print_onto zero n rest = rest
print_onto (suc fuel) n rest =
    let more = print_onto fuel (n / 10) ((n % 10 + b'0') ∷ rest) in
    if ltb n 10 then (n + b'0') ∷ rest else more

-- `fmt.Sprintf("%d", n)`
unfoldable pub print_uint : ℕ → Text
unfolding print_onto
print_uint n = print_onto (suc n) n []

module _ (bound : ℕ) where
  parse_digits-digit :
      (m d : ℕ) (rest : Text)
      → d < 10
      → m * 10 + d < bound
      → parse_digits bound m ((d + b'0') ∷ rest) ≡ parse_digits bound (m * 10 + d) rest
  unfolding parse_digits
  parse_digits-digit m d rest h k =
      let e : m * 10 + (d + b'0' - b'0') ≡ m * 10 + d = omega arith in rw e (ground arith)

  parse_digits-print_onto :
      (fuel n : ℕ) (rest : Text)
      → n < fuel
      → n < bound
      → parse_digits bound 0 (print_onto fuel n rest) ≡ parse_digits bound n rest
  unfolding print_onto
  parse_digits-print_onto zero n rest h k = absurd (omega arith)
  parse_digits-print_onto (suc fuel) n rest h k = elim (Bool-cases (ltb n 10)) [
    | inl small ↦ rw small (
        parse_digits-digit 0 n rest (ground arith) (omega arith)
        ∙ ap (λ (j : ℕ). parse_digits bound j rest) (omega arith))
    | inr large ↦ rw large (
        parse_digits-print_onto fuel (n / 10) _ (ground arith) (omega arith)
        ∙ parse_digits-digit (n / 10) (n % 10) rest (omega arith) (omega arith)
        ∙ ap (λ (j : ℕ). parse_digits bound j rest) (omega arith))
  ]

print_onto-ne-nil : (fuel n : ℕ) (rest : Text) → n < fuel → print_onto fuel n rest ≢ []
unfolding print_onto
print_onto-ne-nil zero n rest h = absurd (omega arith)
print_onto-ne-nil (suc fuel) n rest h = elim (Bool-cases (ltb n 10)) [
  | inl small ↦ rw small (λ e. cc)
  | inr large ↦ rw large (print_onto-ne-nil fuel (n / 10) _ (ground arith))
]

pub print_uint-ne-nil : (n : ℕ) → print_uint n ≢ []
unfolding print_uint
print_uint-ne-nil n = print_onto-ne-nil (suc n) n [] (omega arith)

parse_uint-digits : (t : Text) → t ≢ [] → parse_uint t ≡ parse_digits (2 ^ 64) 0 t
unfolding parse_uint
parse_uint-digits [] h = absurd (h refl)
parse_uint-digits (c ∷ cs) h = refl

-- `ParseUint` reads back what `%d` prints of a uint64.
pub parse_uint-print_uint : (n : ℕ) → n < 2 ^ 64 → parse_uint (print_uint n) ≡ value n
parse_uint-print_uint n h =
    parse_uint-digits _ (print_uint-ne-nil n)
    ∙ unfold print_uint parse_digits in
      parse_digits-print_onto (2 ^ 64) (suc n) n [] (omega arith) h

parse_digits-lt :
    (bound n : ℕ) (t : Text) (m : ℕ) → n < bound → parse_digits bound n t ≡ value m → m < bound
unfolding parse_digits
parse_digits-lt bound n [] m h e = ground arith
parse_digits-lt bound n (c ∷ cs) m h e =
    ground (arith, parse_digits-lt bound (n * 10 + (c - b'0')) cs m)

-- A successful `ParseUint` fits a uint64.
pub parse_uint-lt : (t : Text) (n : ℕ) → parse_uint t ≡ value n → n < 2 ^ 64
unfolding parse_uint
parse_uint-lt [] n h = absurd (cc)
parse_uint-lt (c ∷ cs) n h = parse_digits-lt (2 ^ 64) 0 (c ∷ cs) n (omega arith) h

parse_digits-is_digit :
    (bound n : ℕ) (t : Text) (m : ℕ)
    → parse_digits bound n t ≡ value m
    → All (λ c. is_digit c ≡ true) t
unfolding parse_digits
parse_digits-is_digit bound n [] m e = tt
parse_digits-is_digit bound n (c ∷ cs) m e =
    (ground arith, parse_digits-is_digit bound (n * 10 + (c - b'0')) cs m (ground arith))

-- `%d` prints a uint64 in digits.
pub print_uint-is_digit : (n : ℕ) → n < 2 ^ 64 → All (λ c. is_digit c ≡ true) (print_uint n)
print_uint-is_digit n h =
    parse_digits-is_digit (2 ^ 64) 0 (print_uint n) n
      (sym (parse_uint-digits (print_uint n) (print_uint-ne-nil n)) ∙ parse_uint-print_uint n h)

-- `ParseInt` reads back what `%d` prints of a number that fits an int64.
pub parse_int-print_uint : (n : ℕ) → n < 2 ^ 63 → parse_int (print_uint n) ≡ some n
unfolding parse_int
parse_int-print_uint n h = ap int_of (parse_uint-print_uint n (omega arith)) ∙ ground arith

-- A successful `ParseInt` fits an int64.
pub parse_int-lt : (t : Text) (n : ℕ) → parse_int t ≡ some n → n < 2 ^ 63
unfolding parse_int
parse_int-lt t n h = int_of-lt (parse_uint t) h
  where
    int_of-lt : (p : Parsed) → int_of p ≡ some n → n < 2 ^ 63
    int_of-lt (value m) e = ground arith
    int_of-lt syntax_error e = cc
    int_of-lt range_error e = cc
