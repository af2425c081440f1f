-- ===== src/Client/Forms.antt =====
-- The client's loop over the commands against the loop of `ParseCommand` over the formats.
use bydb.Base.{
  Bool, true, false, ◌≡◌, refl, sym, ap, Text, List, [], ◌∷◌, ◌++◌, Option, none, some, elem, All,
  Bool-cases, inl, inr, text_eq, text_eq_iff, text_eq_refl, strip_prefix, arith,
}
use bydb.Command.Formats.{test, run, first_format}
use bydb.Command.Pattern.Defs.{matches, find_string_submatch}
use bydb.Command.Types.{
  Command, CommandFormat, Result, err, invalid_format, unknown_command, new_command,
}
use bydb.Client.{hello, first_word, Validation, accepted, matched, check}

abbrev pub is_accepted : Validation → Bool
is_accepted accepted = true
is_accepted _ = false

-- Whether a result is no error of the form of a command.
abbrev pub is_formed : Result Command → Bool
is_formed (err unknown_command) = false
is_formed (err (invalid_format p)) = false
is_formed _ = true

first_word-strip_prefix :
    (p raw rest : Text)
    → elem b' ' p ≡ false
    → strip_prefix (p ++ b' ' ∷ []) raw ≡ some rest
    → first_word raw ≡ p
unfolding first_word
first_word-strip_prefix [] [] rest h e = cc
first_word-strip_prefix [] (x ∷ raw) rest h e = ground arith
first_word-strip_prefix (c ∷ p) [] rest h e = cc
first_word-strip_prefix (c ∷ p) (x ∷ raw) rest h e =
    ground (arith, first_word-strip_prefix p raw rest)

-- A first word that no space follows is the whole text.
elem-first_word :
    (p raw : Text)
    → first_word raw ≡ p
    → strip_prefix (p ++ b' ' ∷ []) raw ≡ none
    → elem b' ' raw ≡ false
unfolding first_word
elem-first_word p [] f e = refl
elem-first_word [] (x ∷ raw) f e = ground arith
elem-first_word (c ∷ p) (x ∷ raw) f e = ground (arith, elem-first_word p raw)

strip_prefix-spaceless :
    (p raw : Text) → elem b' ' raw ≡ false → strip_prefix (p ++ b' ' ∷ []) raw ≡ none
strip_prefix-spaceless [] [] h = refl
strip_prefix-spaceless [] (x ∷ raw) h = ground arith
strip_prefix-spaceless (c ∷ p) [] h = refl
strip_prefix-spaceless (c ∷ p) (x ∷ raw) h = ground (arith, strip_prefix-spaceless p raw)

abbrev present : Option Text → Bool
present s = elim s [ none ↦ false | some _ ↦ true ]

test_lem :
    (f : CommandFormat) (raw : Text)
    → test f raw ≡ present (strip_prefix (f.prefix ++ b' ' ∷ []) raw)
unfolding test
test_lem f raw = refl

first_format-spaceless :
    (fs : List CommandFormat) (raw : Text)
    → elem b' ' raw ≡ false
    → first_format fs raw ≡ err unknown_command
unfolding first_format
first_format-spaceless [] raw h = refl
first_format-spaceless (f ∷ fs) raw h =
    rw (test_lem f raw, strip_prefix-spaceless f.prefix raw h) (first_format-spaceless fs raw h)

-- A format whose prefix has no space, whose pattern starts with the prefix and a space, and whose
-- parser finds no fault with the form.
pub record IsFormat (f : CommandFormat) : Type 0 where
  pub spaceless : elem b' ' f.prefix ≡ false
  pub headed :
      (t : Text) → strip_prefix (f.prefix ++ b' ' ∷ []) t ≡ none → matches f.pattern t ≡ none
  pub keeps : (c : Command) (parts : List Text) → is_formed (f.parser c parts) ≡ true

abbrev submatch : Text → Option (List Text) → Option (List Text)
submatch raw r = elim r [ none ↦ none | some gs ↦ some (raw ∷ gs) ]

abbrev run_on : CommandFormat → Text → Option (List Text) → Result Command
run_on f raw r = elim (submatch raw r) [
  | none ↦ err (invalid_format f.prefix)
  | some parts ↦ f.parser (new_command raw) parts
]

run_lem : (f : CommandFormat) (raw : Text) → run f raw ≡ run_on f raw (matches f.pattern raw)
unfolding run find_string_submatch
run_lem f raw = refl

run-formed :
    (f : CommandFormat) (raw : Text) (r : Option (List Text))
    → IsFormat f
    → is_accepted (matched f.prefix r) ≡ is_formed (run_on f raw r)
run-formed f raw none g = refl
run-formed f raw (some gs) g = sym (g.keeps (new_command raw) (raw ∷ gs))

pub check-formed :
    (fs : List CommandFormat) (raw : Text)
    → All IsFormat fs
    → is_accepted (check (hello fs) raw) ≡ is_formed (first_format fs raw)
unfolding check hello first_format
check-formed [] raw g = refl
check-formed (f ∷ fs) raw g =
    by_prefix (check-formed fs raw g.1) (strip_prefix (f.prefix ++ b' ' ∷ []) raw) refl
  where
    by_prefix :
        is_accepted (check (hello fs) raw) ≡ is_formed (first_format fs raw)
        → (r : Option Text) → strip_prefix (f.prefix ++ b' ' ∷ []) raw ≡ r
        → is_accepted (check (hello (f ∷ fs)) raw) ≡ is_formed (first_format (f ∷ fs) raw)
    by_prefix again (some rest) e =
        rw
          (
            test_lem f raw,
            e,
            first_word-strip_prefix f.prefix raw rest g.0.spaceless e,
            text_eq_refl f.prefix,
          )
          (rw (run_lem f raw) (run-formed f raw (matches f.pattern raw) g.0))
    by_prefix again none e = elim (Bool-cases (text_eq (first_word raw) f.prefix)) [
      | inr other ↦ rw (test_lem f raw, e, other) again
      | inl same ↦
          rw
            (
              test_lem f raw,
              e,
              same,
              first_format-spaceless fs raw
                  (elem-first_word f.prefix raw ((text_eq_iff (first_word raw) f.prefix).0 same) e),
            )
            (ap (λ r. is_accepted (matched f.prefix r)) (g.0.headed raw e))
    ]
