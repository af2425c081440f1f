-- ===== src/Command/Pattern/Defs.antt =====
-- The patterns of command/command.go: sequences of literal text and groups between `^` and `$`,
-- matched as Go's `regexp` does, the longest group first, with a retreat where the rest fails.
use bydb.Base.{
  ℕ, Bool, not, ◌||◌, Text, strip_prefix, List, [], ◌∷◌, ◌++◌, Option, none, some, ◌==◌,
  if◌then◌else◌,
}
use bydb.Base.Decimal.{is_digit}

-- `\S`, `\d` and `.`
pub data Class : Type 0 where
  nonspace digit any : Class

abbrev pub is_space : ℕ → Bool
is_space c = c == 9 || c == 10 || c == 12 || c == 13 || c == 32

abbrev pub member : Class → ℕ → Bool
member nonspace c = not (is_space c)
member digit c = is_digit c
member any c = not (c == 10)

-- `plus k` is a group `(k+)`, and `braces` is `({.*})`.
pub data Piece : Type 0 where
  lit : Text → Piece
  plus : Class → Piece
  braces : Piece

abbrev pub Matcher : Type 0
Matcher = Text → Option (List Text)

-- A group of any length, and the groups behind it.
abbrev pub Captured : Type 0
Captured = Option (Text × List Text)

abbrev pub or_stop : ℕ → Captured → Captured → Captured
or_stop c (some (w, gs)) stop = some (c ∷ w, gs)
or_stop c none stop = stop

-- The group may end here, if the rest matches.
abbrev pub stop_at : Option (List Text) → Captured
stop_at none = none
stop_at (some gs) = some ([], gs)

unfoldable pub many : (ℕ → Bool) → Matcher → Text → Captured
many p rest [] = stop_at (rest [])
many p rest (c ∷ cs) =
    let longer = many p rest cs in
    if p c then or_stop c longer (stop_at (rest (c ∷ cs))) else stop_at (rest (c ∷ cs))

abbrev pub grouped : (Text → Text) → Captured → Option (List Text)
grouped f none = none
grouped f (some (w, gs)) = some (f w ∷ gs)

unfoldable pub one_or_more : (ℕ → Bool) → Matcher → Matcher
one_or_more p rest [] = none
one_or_more p rest (c ∷ cs) = if p c then grouped (λ w. c ∷ w) (many p rest cs) else none

abbrev pub after_lit : Text → Matcher → Matcher
after_lit s rest t = elim (strip_prefix s t) [ none ↦ none | some u ↦ rest u ]

abbrev pub in_braces : Matcher → Matcher
in_braces rest t =
    grouped (λ w. b'{' ∷ (w ++ b'}' ∷ [])) (many (member any) (after_lit (b'}' ∷ []) rest) t)

unfoldable pub matches : List Piece → Matcher
unfolding many one_or_more
matches [] [] = some []
matches [] (c ∷ cs) = none
matches (lit s ∷ ps) t = after_lit s (matches ps) t
matches (plus k ∷ ps) t = one_or_more (member k) (matches ps) t
matches (braces ∷ ps) t = after_lit (b'{' ∷ []) (in_braces (matches ps)) t

-- `FindStringSubmatch`: the whole match, then the groups. `none` is no match.
unfoldable pub find_string_submatch : List Piece → Matcher
find_string_submatch ps t = elim (matches ps t) [ none ↦ none | some gs ↦ some (t ∷ gs) ]
