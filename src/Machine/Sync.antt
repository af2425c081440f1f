-- ===== src/Machine/Sync.antt =====
-- `Sync`, `Open` and the stored index of statemachine/statemachine.go. The goroutines of `Sync` work
-- on different shards; they are run in the order of the map. A panic in one ends the program.
use bydb.Base.{
  ℕ, Bool, true, Text, codes, List, [], ◌∷◌, Option, none, some, ltb, ◌==◌, if◌then◌else◌,
}
use bydb.Base.Decimal.{print_uint, parse_uint, uint_value, is_value}
use bydb.Bleve.{Bleve}
use bydb.Bolt.Defs.{Bolt}
use bydb.Shard.Defs.{Shard, Outcome, done, failed, panicked, ◌>>=◌, or_failed, apply_updates}
use bydb.Machine.Entry.{UpdateEntry}
use bydb.Machine.Update.{Machine, of_shard}

-- The loop of `findHighestIndexInPending`.
unfoldable pub highest_index : ℕ → List UpdateEntry → ℕ
highest_index i [] = i
highest_index i (e ∷ es) = highest_index (if ltb i e.index then e.index else i) es

abbrev pub set_shard : {S : Type 0} → (ℕ → Option S) → ℕ → S → ℕ → Option S
set_shard shards c s k = if c == k then some s else shards k

abbrev pub meta_bucket : Text
meta_bucket = codes "meta"

abbrev pub meta_key : Text
meta_key = codes "lastUpdateIndex"

abbrev pub alphabet : List ℕ
alphabet = codes "abcdefghijklmnopqrstuvwxyz0123456789"

module _ (B : Bolt) where
  -- The text of the stored index; none if there is no bucket, no value or an empty one.
  abbrev pub stored_index : B.Db → Option Text
  stored_index d = if B.has_bucket d meta_bucket then B.get d meta_bucket meta_key else none

  abbrev pub read_index : Option Text → ℕ × Bool
  read_index none = (0, true)
  read_index (some []) = (0, true)
  read_index (some (c ∷ cs)) =
      let parsed = parse_uint (c ∷ cs) in (uint_value parsed, is_value parsed)

  -- `getLastUpdateIndex`: the machine, the index and whether there was no error.
  unfoldable pub get_last_update_index : Machine B.Db → Machine B.Db × ℕ × Bool
  get_last_update_index m =
      let (i, fine) = read_index (stored_index m.meta_db) in (record m { last_index = i }, i, fine)

  abbrev pub commit : B.Db → Outcome B.Db
  commit d = if B.commits d then done d else failed

  -- `updateLastUpdateIndex`
  unfoldable pub update_last_update_index : Machine B.Db → Outcome (Machine B.Db)
  update_last_update_index m =
      if B.has_bucket m.meta_db meta_bucket
      then (do
        d ← or_failed (B.put m.meta_db meta_bucket meta_key (print_uint m.last_index))
        d' ← commit d
        done (record m { meta_db = d' }))
      else panicked

  module _ (V : Bleve) where
    -- The goroutine of a shard; an error of `ApplyUpdates` is a panic.
    abbrev pub must : Outcome (Shard B.Db) → Outcome (Shard B.Db)
    must (done s) = done s
    must failed = panicked
    must panicked = panicked

    abbrev pub sync_shard : Option (Shard B.Db) → List UpdateEntry → Outcome (Option (Shard B.Db))
    sync_shard none es = done none
    sync_shard (some s) [] = done (some s)
    sync_shard (some s) (e ∷ es) = do s' ← must (apply_updates B V s (e ∷ es)); done (some s')

    abbrev pub put_shard :
        (ℕ → Option (Shard B.Db)) → ℕ → Option (Shard B.Db) → ℕ → Option (Shard B.Db)
    put_shard shards c none = shards
    put_shard shards c (some s) = set_shard shards c s

    unfoldable pub sync_shards :
        List ℕ → List UpdateEntry → (ℕ → Option (Shard B.Db)) → Outcome (ℕ → Option (Shard B.Db))
    sync_shards [] pending shards = done shards
    sync_shards (c ∷ cs) pending shards = do
      s ← sync_shard (shards c) (of_shard c pending)
      sync_shards cs pending (put_shard shards c s)

    -- `Sync`
    unfoldable pub sync : List ℕ → Machine B.Db → Outcome (Machine B.Db)
    unfolding highest_index sync_shards update_last_update_index
    sync order m = do
      shards ← sync_shards order m.pending m.shards
      update_last_update_index (record m {
        shards = shards;
        last_index = highest_index m.last_index m.pending;
        pending = [];
      })

  -- `openShardMap`: the first shard that fails to open ends the loop.
  unfoldable pub open_shard_map :
      (ℕ → Option (Shard B.Db))
      → List ℕ
      → (ℕ → Option (Shard B.Db))
      → Outcome (ℕ → Option (Shard B.Db))
  open_shard_map open_shard [] shards = done shards
  open_shard_map open_shard (c ∷ cs) shards = do
    s ← or_failed (open_shard c)
    open_shard_map open_shard cs (set_shard shards c s)

  -- `Open`, from what is on disk.
  unfoldable pub open_machine :
      (ℕ → Option (Shard B.Db)) → Option B.Db → Outcome (Machine B.Db × ℕ × Bool)
  unfolding open_shard_map get_last_update_index
  open_machine open_shard open_meta = do
    shards ← open_shard_map open_shard alphabet (λ c. none)
    opened ← or_failed open_meta
    created ← or_failed (B.create_bucket opened meta_bucket)
    d ← commit created
    done (
        get_last_update_index
          (record { shards = shards; meta_db = d; last_index = 0; pending = [] }))
