-- ===== src/Client/Validate.antt =====
-- The client's `validate`, with the commands of `Hello`, against `ParseCommand` of command/command.go.
use bydb.Base.{
  true, false, ◌≡◌, refl, ap, Text, List, [], ◌∷◌, ◌++◌, Option, none, some, elem, All,
  strip_prefix, arith,
}
use bydb.Document.{Document}
use bydb.Command.Formats.{
  parse_get, parse_del, parse_put, parse_post, parse_search, parse_create_part, parse_delete_part,
  parse_join_node, parse_remove_node, parse_command, command_formats,
}
use bydb.Command.Pattern.Defs.{Piece, lit, matches}
use bydb.Command.Types.{Command, CommandParser}
use bydb.Client.{hello, validate, is_exit}
use bydb.Client.Forms.{is_accepted, is_formed, IsFormat, check-formed}

matches-lit :
    (s t : Text) (ps : List Piece) → strip_prefix s t ≡ none → matches (lit s ∷ ps) t ≡ none
unfolding matches
matches-lit s t ps e =
    ap
      (λ (r : Option Text). elim r as (λ _. Option (List Text)) [
        | none ↦ none
        | some u ↦ matches ps u
      ])
      e

is_formed-get : (c : Command) (parts : List Text) → is_formed (parse_get c parts) ≡ true
unfolding parse_get
is_formed-get c parts = ground arith

is_formed-del : (c : Command) (parts : List Text) → is_formed (parse_del c parts) ≡ true
unfolding parse_del
is_formed-del c parts = ground arith

is_formed-search : (c : Command) (parts : List Text) → is_formed (parse_search c parts) ≡ true
unfolding parse_search
is_formed-search c parts = ground arith

is_formed-create_part :
    (c : Command) (parts : List Text) → is_formed (parse_create_part c parts) ≡ true
unfolding parse_create_part
is_formed-create_part c parts = ground arith

is_formed-delete_part :
    (c : Command) (parts : List Text) → is_formed (parse_delete_part c parts) ≡ true
unfolding parse_delete_part
is_formed-delete_part c parts = ground arith

is_formed-join_node : (c : Command) (parts : List Text) → is_formed (parse_join_node c parts) ≡ true
unfolding parse_join_node
is_formed-join_node c parts = ground arith

is_formed-remove_node :
    (c : Command) (parts : List Text) → is_formed (parse_remove_node c parts) ≡ true
unfolding parse_remove_node
is_formed-remove_node c parts = ground arith

format :
    (prefix : Text) (ps : List Piece) {parser : CommandParser}
    → elem b' ' prefix ≡ false
    → ((c : Command) (parts : List Text) → is_formed (parser c parts) ≡ true)
    → IsFormat
        (record { prefix = prefix; pattern = lit (prefix ++ b' ' ∷ []) ∷ ps; parser = parser })
format prefix ps h k = record {
  spaceless = h;
  headed = λ t. matches-lit (prefix ++ b' ' ∷ []) t ps;
  keeps = k;
}

module _ (unmarshal : Text → Option Document) where
  is_formed-put : (c : Command) (parts : List Text) → is_formed (parse_put unmarshal c parts) ≡ true
  unfolding parse_put
  is_formed-put c parts = ground arith

  is_formed-post :
      (c : Command) (parts : List Text) → is_formed (parse_post unmarshal c parts) ≡ true
  unfolding parse_post
  is_formed-post c parts = ground arith

  command_formats-IsFormat : All IsFormat (command_formats unmarshal)
  command_formats-IsFormat = (
    format _ _ refl is_formed-get,
    (
      format _ _ refl is_formed-del,
      (
        format _ _ refl is_formed-put,
        (
          format _ _ refl is_formed-post,
          (
            format _ _ refl is_formed-search,
            (
              format _ _ refl is_formed-create_part,
              (
                format _ _ refl is_formed-delete_part,
                (format _ _ refl is_formed-join_node, (format _ _ refl is_formed-remove_node, tt)),
              ),
            ),
          ),
        ),
      ),
    ),
  )

  -- A line that is not "exit" passes the client's `validate`, with the commands of `Hello`, exactly when
  -- `ParseCommand` has no fault to find with its form: neither an unknown command nor a text that the
  -- pattern of its format does not match.
  pub validate-parse_command :
      (raw : Text)
      → is_exit raw ≡ false
      → is_accepted (validate (hello (command_formats unmarshal)) raw)
        ≡ is_formed (parse_command unmarshal raw)
  unfolding validate parse_command
  validate-parse_command raw e =
      rw e (check-formed (command_formats unmarshal) raw command_formats-IsFormat)
