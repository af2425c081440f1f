-- ===== src/Api/Defs.antt =====
-- The gRPC handler `Crud` of api/api.go. The Raft node host is a parameter: what it answers to each
-- call. The calls that the handler makes are part of its result.
use bydb.Base.{
  ℕ, ◌+◌, ◌%◌, ◌^◌, Bool, Text, codes, List, [], ◌∷◌, Option, none, some, ltb, ◌==◌, if◌then◌else◌,
}
use bydb.Base.Decimal.{Parsed, value, parse_uint}
use bydb.Document.{Document}
use bydb.Response.{Response}
use bydb.Command.Types.{
  CommandType, get, put, del, post, search, create_part, delete_part, join_node, remove_node,
  Command, ok, err,
}
use bydb.Command.Formats.{parse_command}

-- proto/bydb.proto: the message `Response`.
pub record Reply : Type 0 where
  pub code : ℕ
  pub document : Text
  pub duration : ℕ

-- `membership.Nodes`, in the order in which `range` comes to them, and the id of the last change.
pub record Membership : Type 0 where
  pub nodes : List (ℕ × Text)
  pub config_change_id : ℕ

pub data Call : Type 0 where
  sync_propose : Text → Call
  sync_read : Text → Call
  get_membership : Call
  add_replica : ℕ → Text → ℕ → Call
  delete_replica : ℕ → ℕ → Call

-- The node host, for one shard: `none` and `false` are errors.
pub record NodeHost : Type 0 where
  pub propose : Text → Option ℕ
  pub read : Text → Option Response
  pub membership : Option Membership
  pub adds : ℕ → Text → ℕ → Bool
  pub deletes : ℕ → ℕ → Bool

-- `getHttpResponseString`
unfoldable pub get_http_response_string : ℕ → Text
get_http_response_string code =
    if code == 200
    then codes "ok"
    else if code == 404
    then codes "not found"
    else if code == 405
    then codes "unknown command"
    else if code == 409
    then codes "conflict"
    else codes "unknown code"

-- The loop that looks for the highest id.
unfoldable pub max_id : ℕ → List (ℕ × Text) → ℕ
max_id m [] = m
max_id m ((idx, host) ∷ nodes) = max_id (if ltb m idx then idx else m) nodes

-- The calls made, and the reply; `none` is a returned error.
pub record Handled : Type 0 where
  pub calls : List Call
  pub reply : Option Reply

module _ (nh : NodeHost) (duration : ℕ) where
  abbrev replied : ℕ → Text → Option Reply
  replied code document = some (record { code = code; document = document; duration = duration })

  abbrev proposed : Option ℕ → Option Reply
  proposed none = none
  proposed (some code) = replied code (get_http_response_string code)

  abbrev was_read : Option Response → Option Reply
  was_read none = none
  was_read (some r) = replied r.code r.body

  abbrev changed : Bool → Option Reply
  changed b = if b then replied 200 (codes "ok") else none

  unfoldable pub join_to : Text → Option Membership → Handled
  join_to address none = record { calls = get_membership ∷ []; reply = none }
  join_to address (some m) =
      let id = (max_id 0 m.nodes + 1) % 2 ^ 64 in
      record {
        calls = get_membership ∷ add_replica id address m.config_change_id ∷ [];
        reply = changed (nh.adds id address m.config_change_id);
      }

  -- The membership comes first, so that its error does.
  abbrev pub remove_parsed : Membership → Parsed → Handled
  remove_parsed m (value id) = record {
    calls = get_membership ∷ delete_replica id m.config_change_id ∷ [];
    reply = changed (nh.deletes id m.config_change_id);
  }
  remove_parsed m _ = record { calls = get_membership ∷ []; reply = none }

  unfoldable pub remove_from : Text → Option Membership → Handled
  remove_from id none = record { calls = get_membership ∷ []; reply = none }
  remove_from id (some m) = remove_parsed m (parse_uint id)

  abbrev propose_raw : Text → Handled
  propose_raw raw = record { calls = sync_propose raw ∷ []; reply = proposed (nh.propose raw) }

  abbrev read_raw : Text → Handled
  read_raw raw = record { calls = sync_read raw ∷ []; reply = was_read (nh.read raw) }

  -- The switch over the command's type; its default case has no command type left.
  unfoldable pub dispatch : CommandType → Command → Text → Handled
  unfolding join_to remove_from
  dispatch put cmd raw = propose_raw raw
  dispatch post cmd raw = propose_raw raw
  dispatch del cmd raw = propose_raw raw
  dispatch create_part cmd raw = propose_raw raw
  dispatch delete_part cmd raw = propose_raw raw
  dispatch get cmd raw = read_raw raw
  dispatch search cmd raw = read_raw raw
  dispatch join_node cmd raw = join_to cmd.id nh.membership
  dispatch remove_node cmd raw = remove_from cmd.id nh.membership

  -- `Crud`. A command that does not parse is answered with no duration.
  unfoldable pub crud : (Text → Option Document) → Text → Handled
  unfolding dispatch
  crud unmarshal raw = elim (parse_command unmarshal raw) [
    | err _ ↦ record {
      calls = [];
      reply = some (record { code = 400; document = codes "bad request format"; duration = 0 });
    }
    | ok cmd ↦ dispatch cmd.type cmd raw
  ]
