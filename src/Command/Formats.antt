-- ===== src/Command/Formats.antt =====
-- `CommandFormats` and `ParseCommand` of command/command.go. The JSON decoder is a parameter.
use bydb.Base.{
  Bool, true, false, Text, codes, strip_prefix, List, [], ◌∷◌, ◌++◌, Option, none, some,
  if◌then◌else◌,
}
use bydb.Base.Int.{pos}
use bydb.Base.Decimal.{parse_int}
use bydb.Document.{Document}
use bydb.Command.Pattern.Defs.{Piece, lit, plus, braces, nonspace, digit, any, find_string_submatch}
use bydb.Command.Types.{
  get, put, del, post, search, create_part, delete_part, join_node, remove_node, Command,
  new_command, invalid_format, json_error, ts_range, unknown_command, index_panic, Result, ok, err,
  ◌>>=◌, or_error, CommandFormat,
}

-- `(f *CommandFormat) Test`
unfoldable pub test : CommandFormat → Text → Bool
test f raw = elim (strip_prefix (f.prefix ++ b' ' ∷ []) raw) [ none ↦ false | some _ ↦ true ]

-- `(f *CommandFormat) Run`
unfoldable pub run : CommandFormat → Text → Result Command
run f raw = elim (find_string_submatch f.pattern raw) [
  | none ↦ err (invalid_format f.prefix)
  | some parts ↦ f.parser (new_command raw) parts
]

-- The patterns of the nine formats. `one_token s` is `^s(\S+)$`.
abbrev pub one_token : Text → List Piece
one_token s = lit s ∷ plus nonspace ∷ []

abbrev pub get_pattern : List Piece
get_pattern = lit (codes "GET ") ∷ plus nonspace ∷ lit (codes " ") ∷ plus nonspace ∷ []

abbrev pub del_pattern : List Piece
del_pattern =
    lit (codes "DEL ")
    ∷ plus nonspace
    ∷ lit (codes " ")
    ∷ plus nonspace
    ∷ lit (codes " ")
    ∷ plus digit
    ∷ []

abbrev pub put_pattern : List Piece
put_pattern = lit (codes "PUT ") ∷ plus digit ∷ lit (codes " ") ∷ braces ∷ []

abbrev pub post_pattern : List Piece
post_pattern = lit (codes "POST ") ∷ braces ∷ []

abbrev pub search_pattern : List Piece
search_pattern = lit (codes "SEARCH ") ∷ plus nonspace ∷ lit (codes " ") ∷ plus any ∷ []

abbrev pub remove_node_pattern : List Piece
remove_node_pattern = lit (codes "REMOVE_NODE ") ∷ plus digit ∷ []

-- The parsers of the formats. `parts` is what `FindStringSubmatch` returns.
unfoldable pub parse_get : Command → List Text → Result Command
parse_get cmd (_ ∷ part ∷ id ∷ _) = ok (record cmd { type = get; part = part; id = id })
parse_get cmd _ = err index_panic

unfoldable pub parse_del : Command → List Text → Result Command
parse_del cmd (_ ∷ part ∷ id ∷ stamp ∷ _) = do
  ts ← or_error ts_range (parse_int stamp)
  ok (record cmd { type = del; part = part; id = id; ts = pos ts })
parse_del cmd _ = err index_panic

unfoldable pub parse_search : Command → List Text → Result Command
parse_search cmd (_ ∷ part ∷ query ∷ _) =
    ok (record cmd { type = search; part = part; query = query })
parse_search cmd _ = err index_panic

unfoldable pub parse_create_part : Command → List Text → Result Command
parse_create_part cmd (_ ∷ part ∷ _) =
    ok (record cmd { type = create_part; part = part; is_part = true })
parse_create_part cmd _ = err index_panic

unfoldable pub parse_delete_part : Command → List Text → Result Command
parse_delete_part cmd (_ ∷ part ∷ _) =
    ok (record cmd { type = delete_part; part = part; is_part = true })
parse_delete_part cmd _ = err index_panic

unfoldable pub parse_join_node : Command → List Text → Result Command
parse_join_node cmd (_ ∷ id ∷ _) = ok (record cmd { type = join_node; id = id })
parse_join_node cmd _ = err index_panic

unfoldable pub parse_remove_node : Command → List Text → Result Command
parse_remove_node cmd (_ ∷ id ∷ _) = ok (record cmd { type = remove_node; id = id })
parse_remove_node cmd _ = err index_panic

module _ (unmarshal : Text → Option Document) where
  unfoldable pub parse_put : Command → List Text → Result Command
  parse_put cmd (_ ∷ stamp ∷ body ∷ _) = do
    doc ← or_error json_error (unmarshal body)
    ts ← or_error ts_range (parse_int stamp)
    ok (record cmd {
      type = put;
      string_doc = body;
      bytes_doc = body;
      doc = doc;
      part = doc.part;
      id = doc.id;
      ts = pos ts;
    })
  parse_put cmd _ = err index_panic

  unfoldable pub parse_post : Command → List Text → Result Command
  parse_post cmd (_ ∷ body ∷ _) = do
    doc ← or_error json_error (unmarshal body)
    ok (record cmd {
      type = post;
      string_doc = body;
      bytes_doc = body;
      doc = doc;
      part = doc.part;
      id = doc.id;
      ts = doc.created;
    })
  parse_post cmd _ = err index_panic

  abbrev pub command_formats : List CommandFormat
  command_formats =
      record { prefix = codes "GET"; pattern = get_pattern; parser = parse_get }
      ∷ record { prefix = codes "DEL"; pattern = del_pattern; parser = parse_del }
      ∷ record { prefix = codes "PUT"; pattern = put_pattern; parser = parse_put }
      ∷ record { prefix = codes "POST"; pattern = post_pattern; parser = parse_post }
      ∷ record { prefix = codes "SEARCH"; pattern = search_pattern; parser = parse_search }
      ∷ record {
        prefix = codes "CREATE_PART";
        pattern = one_token (codes "CREATE_PART ");
        parser = parse_create_part;
      }
      ∷ record {
        prefix = codes "DELETE_PART";
        pattern = one_token (codes "DELETE_PART ");
        parser = parse_delete_part;
      }
      ∷ record {
        prefix = codes "JOIN_NODE";
        pattern = one_token (codes "JOIN_NODE ");
        parser = parse_join_node;
      }
      ∷ record {
        prefix = codes "REMOVE_NODE";
        pattern = remove_node_pattern;
        parser = parse_remove_node;
      }
      ∷ []

-- The loop of `ParseCommand` over the formats.
unfoldable pub first_format : List CommandFormat → Text → Result Command
first_format [] raw = err unknown_command
first_format (f ∷ fs) raw = let rest = first_format fs raw in if test f raw then run f raw else rest

unfoldable pub parse_command : (Text → Option Document) → Text → Result Command
unfolding first_format
parse_command unmarshal raw = first_format (command_formats unmarshal) raw
