-- ===== src/Command/Safe.antt =====
-- No parser of a command format reads a group that its regular expression does not have.
use bydb.Base.{
  ℕ, ◌+◌, All, ◌≡◌, ◌≢◌, refl, Text, List, [], ◌∷◌, Option, inl, inr, Bool-cases, Option-cases,
  length, arith,
}
use bydb.Base.Decimal.{parse_int}
use bydb.Document.{Document}
use bydb.Command.Pattern.Defs.{Piece, lit, plus, braces, matches, find_string_submatch}
use bydb.Command.Pattern.Spells.{Spells, matches_sound}
use bydb.Command.Types.{Command, new_command, index_panic, Result, err, CommandFormat}
use bydb.Command.Formats.{
  parse_command, command_formats, first_format, test, run, parse_get, parse_del, parse_put,
  parse_post, parse_search, parse_create_part, parse_delete_part, parse_join_node,
  parse_remove_node,
}

-- The number of groups of a pattern.
abbrev pub groups : List Piece → ℕ
groups [] = 0
groups (lit s ∷ ps) = groups ps
groups (plus k ∷ ps) = 1 + groups ps
groups (braces ∷ ps) = 1 + groups ps

pub Spells-groups :
    (ps : List Piece) (gs : List Text) (t : Text) → Spells ps gs t → length gs ≡ groups ps
Spells-groups [] [] t h = refl
Spells-groups [] (g ∷ gs) t h = absurd h
Spells-groups (lit s ∷ ps) gs t (u, e, h) = Spells-groups ps gs u h
Spells-groups (plus k ∷ ps) [] t h = absurd h
Spells-groups (plus k ∷ ps) (g ∷ gs) t (u, e, n, w, h) = omega (arith, Spells-groups ps gs u h)
Spells-groups (braces ∷ ps) [] t h = absurd h
Spells-groups (braces ∷ ps) (g ∷ gs) t (x, u, e, d, w, h) = omega (arith, Spells-groups ps gs u h)

-- The parser of a format does not panic on as many groups as its pattern has.
abbrev IsSafe : Text → CommandFormat → Type 0
IsSafe raw f =
    (gs : List Text)
    → length gs ≡ groups f.pattern
    → f.parser (new_command raw) (raw ∷ gs) ≢ err index_panic

run_safe : (f : CommandFormat) (raw : Text) → IsSafe raw f → run f raw ≢ err index_panic
unfolding run find_string_submatch
run_safe f raw safe h = elim (Option-cases (matches f.pattern raw)) [
  | inl e ↦ ground arith
  | inr (gs, e) ↦
      safe gs (Spells-groups f.pattern gs raw (matches_sound f.pattern raw gs e)) (ground arith)
]

first_format_safe :
    (fs : List CommandFormat) (raw : Text)
    → All (IsSafe raw) fs
    → first_format fs raw ≢ err index_panic
unfolding first_format
first_format_safe [] raw safe h = cc
first_format_safe (f ∷ fs) raw safe h = elim (Bool-cases (test f raw)) [
  | inl e ↦ run_safe f raw safe.0 (rw e at h)
  | inr e ↦ first_format_safe fs raw safe.1 (rw e at h)
]

module _ (unmarshal : Text → Option Document) where
  get_safe :
      (raw : Text) (gs : List Text)
      → length gs ≡ 2
      → parse_get (new_command raw) (raw ∷ gs) ≢ err index_panic
  unfolding parse_get
  get_safe raw [] n h = absurd (omega arith)
  get_safe raw (a ∷ []) n h = absurd (omega arith)
  get_safe raw (a ∷ b ∷ gs) n h = cc

  del_safe :
      (raw : Text) (gs : List Text)
      → length gs ≡ 3
      → parse_del (new_command raw) (raw ∷ gs) ≢ err index_panic
  unfolding parse_del
  del_safe raw [] n h = absurd (omega arith)
  del_safe raw (a ∷ []) n h = absurd (omega arith)
  del_safe raw (a ∷ b ∷ []) n h = absurd (omega arith)
  del_safe raw (a ∷ b ∷ c ∷ gs) n h = elim (Option-cases (parse_int c)) [
    | inl e ↦ ground arith
    | inr (x, e) ↦ ground arith
  ]

  put_safe :
      (raw : Text) (gs : List Text)
      → length gs ≡ 2
      → parse_put unmarshal (new_command raw) (raw ∷ gs) ≢ err index_panic
  unfolding parse_put
  put_safe raw [] n h = absurd (omega arith)
  put_safe raw (a ∷ []) n h = absurd (omega arith)
  put_safe raw (a ∷ b ∷ gs) n h = ground arith

  post_safe :
      (raw : Text) (gs : List Text)
      → length gs ≡ 1
      → parse_post unmarshal (new_command raw) (raw ∷ gs) ≢ err index_panic
  unfolding parse_post
  post_safe raw [] n h = absurd (omega arith)
  post_safe raw (a ∷ gs) n h = ground arith

  search_safe :
      (raw : Text) (gs : List Text)
      → length gs ≡ 2
      → parse_search (new_command raw) (raw ∷ gs) ≢ err index_panic
  unfolding parse_search
  search_safe raw [] n h = absurd (omega arith)
  search_safe raw (a ∷ []) n h = absurd (omega arith)
  search_safe raw (a ∷ b ∷ gs) n h = cc

  one_safe :
      (parser : Command → List Text → Result Command) (raw : Text)
      → ((g : Text) (gs : List Text) → parser (new_command raw) (raw ∷ g ∷ gs) ≢ err index_panic)
      → (gs : List Text) → length gs ≡ 1
      → parser (new_command raw) (raw ∷ gs) ≢ err index_panic
  one_safe parser raw safe [] n h = absurd (omega arith)
  one_safe parser raw safe (g ∷ gs) n h = safe g gs h

  -- No text makes `ParseCommand` panic by an index out of range.
  pub parse_command_safe : (raw : Text) → parse_command unmarshal raw ≢ err index_panic
  unfolding parse_command parse_create_part parse_delete_part parse_join_node parse_remove_node
  parse_command_safe raw = first_format_safe (command_formats unmarshal) raw (
    get_safe raw,
    (
      del_safe raw,
      (
        put_safe raw,
        (
          post_safe raw,
          (
            search_safe raw,
            (
              one_safe parse_create_part raw (λ g gs e. cc),
              (
                one_safe parse_delete_part raw (λ g gs e. cc),
                (
                  one_safe parse_join_node raw (λ g gs e. cc),
                  (one_safe parse_remove_node raw (λ g gs e. cc), tt),
                ),
              ),
            ),
          ),
        ),
      ),
    ),
  )
