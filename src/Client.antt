-- ===== src/Client.antt =====
-- client.go: what the client lets through to the server. The commands are those of `Hello` in
-- api/api.go: the prefixes and the patterns of `CommandFormats`.
pub mod Forms
pub mod Validate
pub mod Session
use bydb.Base.{
  ℕ, Bool, true, false, ◌&&◌, leb, Text, codes, List, [], ◌∷◌, map, Option, none, some, ◌==◌,
  text_eq, if◌then◌else◌, ◌+◌,
}
use bydb.Command.Pattern.Defs.{Piece, matches}
use bydb.Command.Types.{CommandFormat}

pub record CommandEntry : Type 0 where
  pub prefix : Text
  pub pattern : List Piece

-- The command list of `Hello`, as the client reads it.
abbrev pub entry_of : CommandFormat → CommandEntry
entry_of f = record { prefix = f.prefix; pattern = f.pattern }

unfoldable pub hello : List CommandFormat → List CommandEntry
hello fs = map entry_of fs

-- `strings.ToLower` as far as a comparison with ASCII letters goes: the upper case letters of ASCII, the
-- dotted capital I and the Kelvin sign are the runes whose lower case is another letter of ASCII.
abbrev pub lower_rune : ℕ → ℕ
lower_rune c =
    if leb b'A' c && leb c b'Z'
    then c + 32
    else if c == 304
    then b'i'
    else if c == 8490
    then b'k'
    else c

-- `"exit" == s.ToLower(input)`
unfoldable pub is_exit : Text → Bool
is_exit input = text_eq (map lower_rune input) (codes "exit")

-- `s.Split(input, " ")[0]`
unfoldable pub first_word : Text → Text
first_word [] = []
first_word (c ∷ cs) = let rest = first_word cs in if c == b' ' then [] else c ∷ rest

pub data Validation : Type 0 where
  accepted no_command : Validation
  invalid : Text → Validation

abbrev pub matched : Text → Option (List Text) → Validation
matched prefix none = invalid prefix
matched prefix (some _) = accepted

-- `r.MatchString(input)` and its outcome.
abbrev pub formed : CommandEntry → Text → Validation
formed e input = matched e.prefix (matches e.pattern input)

-- The loop over the commands.
unfoldable pub check : List CommandEntry → Text → Validation
unfolding first_word
check [] input = no_command
check (e ∷ es) input =
    let rest = check es input in
    if text_eq (first_word input) e.prefix then formed e input else rest

-- `validate`
unfoldable pub validate : List CommandEntry → Text → Validation
unfolding check is_exit
validate commands input = if is_exit input then accepted else check commands input

-- What a line that the prompt returns leads to.
pub data Step : Type 0 where
  stop : Step
  call_crud : Text → Step

-- The body of the loop of `main`.
unfoldable pub step : Text → Step
unfolding is_exit
step result = if is_exit result then stop else call_crud result
