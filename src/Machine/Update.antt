-- ===== src/Machine/Update.antt =====
-- `Update` of statemachine/statemachine.go. `order` is the order in which `range s.shardMap` comes
-- to the shards, which Go leaves open.
use bydb.Base.{
  ℕ, zero, suc, ◌+◌, Bool, true, false, not, Text, List, [], ◌∷◌, ◌++◌, Option, none, some, map,
  filter, ltb, ◌==◌, if◌then◌else◌,
}
use bydb.Base.Int.{int_eq}
use bydb.Document.{Document}
use bydb.Bolt.Defs.{Bolt}
use bydb.Command.Types.{
  CommandType, get, put, del, post, search, create_part, delete_part, join_node, remove_node,
  Command, Result, ok, err,
}
use bydb.Command.Formats.{parse_command}
use bydb.Shard.Defs.{Shard, find_existing_documents_for_updates}
use bydb.Machine.Entry.{LogEntry, UpdateEntry, get_first_rune, find_command_in_pending}

pub record Machine (Db : Type 0) : Type 0 where
  pub shards : ℕ → Option (Shard Db)
  pub meta_db : Db
  pub last_index : ℕ
  pub pending : List UpdateEntry

-- An entry with what the pending queue says of it, and whether the state must be searched.
abbrev pub Looked : Type 0
Looked = UpdateEntry × Bool

unfoldable pub seen_in_pending : CommandType → Command → UpdateEntry → UpdateEntry
seen_in_pending create_part c e = record e { part_exists = true }
seen_in_pending delete_part c e = record e { part_exists = false }
seen_in_pending _ c e = record e { part_exists = true; existing_doc = some c.doc }

abbrev pub looked : UpdateEntry → Option Command → Looked
looked e none = (e, true)
looked e (some c) = (seen_in_pending c.type c e, false)

unfoldable pub look_in_pending : List UpdateEntry → UpdateEntry → Looked
unfolding seen_in_pending
look_in_pending pending e = looked e (find_command_in_pending pending e.cmd)

-- `stateSearchDocs`
abbrev pub count_searches : List Looked → ℕ
count_searches [] = 0
count_searches ((e, needed) ∷ es) = (if needed then 1 else 0) + count_searches es

-- What the switch over the command's type does with an entry.
pub data Verdict : Type 0 where
  ignored accepted : Verdict
  refused : ℕ → Verdict

abbrev judge_existing : Command → Bool → Option Document → Verdict
judge_existing cmd exists none = refused 404
judge_existing cmd exists (some doc) =
    if not exists
    then refused 404
    else if not (int_eq doc.updated cmd.ts)
    then refused 409
    else accepted

abbrev judge_new : Bool → Option Document → Verdict
judge_new false doc = refused 404
judge_new true (some doc) = refused 409
judge_new true none = accepted

unfoldable pub judge : CommandType → Command → Bool → Option Document → Verdict
judge put cmd exists doc = judge_existing cmd exists doc
judge del cmd exists doc = judge_existing cmd exists doc
judge post cmd exists doc = judge_new exists doc
judge create_part cmd exists doc = if exists then refused 409 else accepted
judge delete_part cmd exists doc = if exists then accepted else refused 404
judge get cmd exists doc = ignored
judge search cmd exists doc = ignored
judge join_node cmd exists doc = ignored
judge remove_node cmd exists doc = ignored

abbrev pub verdict : UpdateEntry → Verdict
verdict e = judge e.cmd.type e.cmd e.part_exists e.existing_doc

-- The queue and the log entries, which an update writes.
pub record Progress : Type 0 where
  pub pending : List UpdateEntry
  pub updates : List LogEntry

abbrev pub set_value : List LogEntry → ℕ → ℕ → List LogEntry
set_value [] i v = []
set_value (u ∷ us) zero v = (record u { value = v }) ∷ us
set_value (u ∷ us) (suc i) v = u ∷ set_value us i v

abbrev pub answer : List LogEntry → Option ℕ → ℕ → List LogEntry
answer us none v = us
answer us (some i) v = set_value us i v

-- The queue holds the entry's pointer, so it sees the field `Entry` nulled.
abbrev pub settle_by : Verdict → Progress → UpdateEntry → Progress
settle_by ignored p e = p
settle_by (refused code) p e = record p { updates = answer p.updates e.entry code }
settle_by accepted p e = record {
  pending = p.pending ++ (record e { entry = none }) ∷ [];
  updates = answer p.updates e.entry 200;
}

unfoldable pub settle : Progress → List UpdateEntry → Progress
settle p [] = p
settle p (e ∷ es) = settle (settle_by (verdict e) p e) es

-- The entries that the loop over the updates builds; a parse error is a panic.
abbrev pub new_entry : ℕ → LogEntry → Command → UpdateEntry
new_entry i u cmd = record {
  entry = some i;
  cmd = cmd;
  existing_doc = none;
  part_exists = false;
  index = u.index;
  shard_id = get_first_rune cmd.part;
}

abbrev pub cons_entry :
    ℕ → LogEntry → Result Command → Option (List UpdateEntry) → Option (List UpdateEntry)
cons_entry i u (err _) rest = none
cons_entry i u (ok cmd) none = none
cons_entry i u (ok cmd) (some es) = some (new_entry i u cmd ∷ es)

unfoldable pub parse_updates :
    (Text → Option Document) → ℕ → List LogEntry → Option (List UpdateEntry)
parse_updates unmarshal i [] = some []
parse_updates unmarshal i (u ∷ us) =
    cons_entry i u (parse_command unmarshal u.cmd) (parse_updates unmarshal (i + 1) us)

abbrev pub of_shard : ℕ → List UpdateEntry → List UpdateEntry
of_shard c es = filter (λ e. e.shard_id == c) es

module _ (B : Bolt) (unmarshal : Text → Option Document) where
  -- The state is searched for every entry of the shard, if it must be for one.
  unfoldable pub find_existing :
      Shard B.Db → List UpdateEntry → List UpdateEntry → Option (List UpdateEntry)
  unfolding look_in_pending
  find_existing shard pending es =
      let seen = map (look_in_pending pending) es in
      let entries = map (λ (l : Looked). l.0) seen in
      if ltb 0 (count_searches seen)
      then find_existing_documents_for_updates B unmarshal shard entries
      else some entries

  abbrev pub settled : Progress → Option (List UpdateEntry) → Progress × Bool
  settled p none = (p, false)
  settled p (some es) = (settle p es, true)

  abbrev pub settle_shard : Progress → Shard B.Db → List UpdateEntry → Progress × Bool
  settle_shard p shard [] = (p, true)
  settle_shard p shard (e ∷ es) = settled p (find_existing shard p.pending (e ∷ es))

  abbrev pub at_shard : Progress → Option (Shard B.Db) → List UpdateEntry → Progress × Bool
  at_shard p none es = (p, true)
  at_shard p (some shard) es = settle_shard p shard es

  -- The loop over the shards. `false` is the error of a search, which ends the loop.
  unfoldable pub update_shards :
      List ℕ → (ℕ → Option (Shard B.Db)) → List UpdateEntry → Progress → Progress × Bool
  unfolding find_existing settle
  update_shards [] shards es p = (p, true)
  update_shards (c ∷ cs) shards es p =
      let (p', fine) = at_shard p (shards c) (of_shard c es) in
      let rest = update_shards cs shards es p' in if fine then rest else (p', false)

  pub record Updated : Type 0 where
    pub machine : Machine B.Db
    pub updates : List LogEntry
    pub fine : Bool

  abbrev finished : Machine B.Db → Progress × Bool → Updated
  finished m (p, fine) = record {
    machine = record m { pending = p.pending };
    updates = p.updates;
    fine = fine;
  }

  -- `Update`; `none` is the panic on a command that does not parse.
  unfoldable pub update : List ℕ → Machine B.Db → List LogEntry → Option Updated
  update order m us = elim (parse_updates unmarshal 0 us) [
    | none ↦ none
    | some es ↦ some (
        finished m (update_shards order m.shards es (record { pending = m.pending; updates = us })))
  ]
