-- ===== src/Machine/Lookup.antt =====
-- `Lookup` of statemachine/statemachine.go and `Search` of statemachine/shard.go.
use bydb.Base.{Text, codes, List, [], ◌∷◌, ◌++◌, Option, none, some, if◌then◌else◌}
use bydb.Document.{Document}
use bydb.Response.{Response, not_found, success}
use bydb.Codec.{SearchMatch, SearchResult, Json}
use bydb.Bleve.{Hit, Bleve}
use bydb.Bolt.Defs.{Bolt}
use bydb.Command.Types.{
  CommandType, get, put, del, post, search, delete_part, Command, full_id, ok, err,
}
use bydb.Command.Formats.{parse_command}
use bydb.Shard.Defs.{Shard, get_document_string}
use bydb.Machine.Entry.{get_first_rune, find_command_in_pending}
use bydb.Machine.Update.{Machine}

-- What a lookup ends with; `failed` is a returned error.
pub data Answer : Type 0 where
  answered : Response → Answer
  failed panicked : Answer

abbrev pub found_response : Option Text → Response
found_response none = not_found
found_response (some doc) = success doc

module _ (B : Bolt) where
  unfoldable pub get_partition_shard : Machine B.Db → Text → Option (Shard B.Db)
  get_partition_shard m part = m.shards (get_first_rune part)

  unfoldable pub lookup_get_request_in_state : Machine B.Db → Command → Answer
  unfolding get_partition_shard
  lookup_get_request_in_state m cmd = elim (get_partition_shard m cmd.part) [
    | none ↦ failed
    | some shard ↦ answered (found_response (get_document_string B shard (full_id cmd) cmd.part))
  ]

  -- The switch over the type of a pending command; `state` is what follows the switch.
  abbrev pub from_pending : CommandType → Command → Answer → Answer
  from_pending del c state = answered not_found
  from_pending delete_part c state = answered not_found
  from_pending post c state = answered (success c.string_doc)
  from_pending put c state = answered (success c.string_doc)
  from_pending _ c state = state

  abbrev pub from_queue : Option Command → Answer → Answer
  from_queue none state = state
  from_queue (some c) state = from_pending c.type c state

  unfoldable pub lookup_get_request : Machine B.Db → Command → Answer
  lookup_get_request m cmd =
      from_queue (find_command_in_pending m.pending cmd) (lookup_get_request_in_state m cmd)

  module _ (J : Json) where
    abbrev cons_match :
        Hit → Option Document → Option (List SearchMatch) → Option (List SearchMatch)
    cons_match hit none rest = none
    cons_match hit (some doc) none = none
    cons_match hit (some doc) (some ms) = some ((record { score = hit.score; doc = doc }) ∷ ms)

    abbrev add_match : Hit → Option Text → Option (List SearchMatch) → Option (List SearchMatch)
    add_match hit none rest = rest
    add_match hit (some raw) rest = cons_match hit (J.unmarshal raw) rest

    -- The loop over the hits; `none` is a JSON error.
    unfoldable pub matches_of : B.Db → Text → List Hit → Option (List SearchMatch)
    matches_of d part [] = some []
    matches_of d part (hit ∷ hits) = add_match hit (B.get d part hit.id) (matches_of d part hits)

    abbrev pub result_of : Option (List SearchMatch) → Option SearchResult
    result_of none = none
    result_of (some ms) = some (record { matches = ms })

    -- The transaction of `Search`, on the hits; `none` is an error.
    abbrev pub matches_in : B.Db → Text → Option (List Hit) → Option SearchResult
    matches_in d part none = none
    matches_in d part (some hits) =
        if B.has_bucket d part
        then result_of (matches_of d part hits)
        else some (record { matches = [] })

    module _ (V : Bleve) where
      -- `(p *Shard) Search`
      unfoldable pub search_shard : Shard B.Db → Text → Text → Option SearchResult
      unfolding matches_of
      search_shard s part query =
          matches_in s.block part
            (V.search s.index (codes "+part:" ++ (part ++ (codes " " ++ query))))

      abbrev marshalled : Option Text → Answer
      marshalled none = failed
      marshalled (some body) = answered (success body)

      abbrev printed : Option SearchResult → Answer
      printed none = failed
      printed (some r) = marshalled (J.marshal r)

      unfoldable pub lookup_search_request : Machine B.Db → Command → Answer
      unfolding get_partition_shard search_shard
      lookup_search_request m cmd = elim (get_partition_shard m cmd.part) [
        | none ↦ failed
        | some shard ↦ printed (search_shard shard cmd.part cmd.query)
      ]

      unfoldable pub lookup_command : CommandType → Machine B.Db → Command → Answer
      lookup_command get m cmd = lookup_get_request m cmd
      lookup_command search m cmd = lookup_search_request m cmd
      lookup_command _ m cmd = panicked

      -- `Lookup`
      unfoldable pub lookup : Machine B.Db → Text → Answer
      unfolding lookup_command
      lookup m raw = elim (parse_command J.unmarshal raw) [
        | err _ ↦ failed
        | ok cmd ↦ lookup_command cmd.type m cmd
      ]
