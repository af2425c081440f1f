-- ===== src/Tests/Machines.antt =====
-- Examples for statemachine/statemachine.go and statemachine/shard.go.
use bydb.Tests.Runs.{run_update}
use bydb.Bolt.Model.{get}
use bydb.Base.{
  ℕ, Bool, true, false, ◌≡◌, refl, ◌≢◌, Text, codes, List, [], ◌∷◌, Option, none, some, All,
  text_eq, Distinct, elem, filter, ◌<◌, ◌≤◌, arith,
}
use bydb.Base.Decimal.{parse_uint, print_uint, parse_int}
use bydb.Bolt.Model.{Store, assoc_bolt, has_bucket, lookup, without, set_bucket, put, get, delete}
use bydb.Command.Formats.{parse_command, test, run, parse_del}
use bydb.Command.Pattern.Defs.{matches, find_string_submatch}
use bydb.Command.Types.{ok}
use bydb.Machine.Entry.{LogEntry, UpdateEntry, concerns}
use bydb.Machine.Index.{highest_index_lem, get_last_update_index-sync, IsIndexOf}
use bydb.Machine.Lookup.{lookup_get_request}
use bydb.Machine.Queue.{IsQueued}
use bydb.Machine.Queues.{update-order_irrelevant}
use bydb.Machine.Reads.{lookup_get_request-sync}
use bydb.Machine.Solo.{update_solo, queued}
use bydb.Bleve.{IndexOp}
use bydb.Machine.Sync.{
  set_shard, sync_shards, update_last_update_index, sync, highest_index, get_last_update_index,
}
use bydb.Machine.Update.{Machine, Updated, update, of_shard}
use bydb.Shard.Applied.{apply_updates-at_key, at_key}
use bydb.Shard.Defs.{done, apply_updates, apply_entries, apply_command}
use bydb.Tests.Fixtures.{
  create_a, empty_shard, doc_a, doc_b, decode, bleve, shard, shards, order, order', machine_with,
  get_a, del_a, post_b, entry_of, log_entry,
}

pub del_a_parsed : parse_command decode (codes "DEL p a 5") ≡ ok del_a
unfolding parse_command test run matches find_string_submatch parse_del parse_int parse_uint
del_a_parsed = refl

update_solo_example :
    update assoc_bolt decode order (machine_with []) (log_entry 9 del_a ∷ [])
    ≡ some (record {
      machine =
          machine_with (queued assoc_bolt decode (log_entry 9 del_a) del_a true (some doc_a) ∷ []);
      updates = record (log_entry 9 del_a) { value = 200 } ∷ [];
      fine = true;
    })
unfolding has_bucket lookup text_eq bydb.Base.Int.int_eq
update_solo_example =
    update_solo assoc_bolt decode order (machine_with []) (log_entry 9 del_a) del_a shard
      (some doc_a) (refl, (refl, tt)) refl refl refl del_a_parsed refl (unfold get text_eq in refl)

-- The two queues of the examples: a deletion and a conflicting write, and an emptied partition.
abbrev pub pending : List UpdateEntry
pending = entry_of 4 del_a ∷ entry_of 6 post_b ∷ []

pub pending-IsQueued : All IsQueued pending
pending-IsQueued = (
  record { shard = refl; kind = refl; body = tt },
  (record { shard = refl; kind = refl; body = (refl, λ e. cc) }, tt),
)

-- What `Sync` makes of them.
abbrev pub synced_machine : Machine Store
synced_machine = record (machine_with []) {
  shards = set_shard (set_shard shards b'a' empty_shard) b'p' (record {
    index = (IndexOp.delete (codes "p:a") ∷ IndexOp.index (codes "p:b") doc_b ∷ []) ∷ [];
    block = (codes "p", (codes "p:b", codes "{b}") ∷ []) ∷ [];
  });
  meta_db = (codes "meta", (codes "lastUpdateIndex", codes "6") ∷ []) ∷ [];
  last_index = 6;
}

pub sync-pending : sync assoc_bolt bleve order (machine_with pending) ≡ done synced_machine
unfolding sync sync_shards highest_index update_last_update_index apply_updates apply_entries
    apply_command has_bucket lookup put delete without set_bucket text_eq print_uint
sync-pending = refl

lookup_get_request-sync_example :
    lookup_get_request assoc_bolt synced_machine get_a
    ≡ lookup_get_request assoc_bolt (machine_with pending) get_a
lookup_get_request-sync_example =
    lookup_get_request-sync assoc_bolt bleve order (machine_with pending) synced_machine get_a
      (refl, (refl, tt)) refl shard refl pending-IsQueued (unfold concerns text_eq in tt)
      sync-pending

apply_updates-at_key_example :
    at_key assoc_bolt ((codes "p", (codes "p:b", codes "{b}") ∷ []) ∷ []) get_a ≡ none
unfolding concerns text_eq
apply_updates-at_key_example =
    apply_updates-at_key assoc_bolt bleve shard
      (record {
        index = (IndexOp.delete (codes "p:a") ∷ IndexOp.index (codes "p:b") doc_b ∷ []) ∷ [];
        block = (codes "p", (codes "p:b", codes "{b}") ∷ []) ∷ [];
      })
      pending get_a pending-IsQueued
      (unfold apply_updates apply_entries apply_command has_bucket lookup put delete without
          set_bucket text_eq in
        refl)
      (unfold concerns text_eq in tt)

get_last_update_index-sync_example :
    get_last_update_index assoc_bolt synced_machine ≡ (synced_machine, 6, true)
unfolding highest_index
get_last_update_index-sync_example =
    get_last_update_index-sync assoc_bolt bleve order (machine_with pending) synced_machine
      sync-pending (omega arith)

highest_index_lem_example :
    (3 ≤ highest_index 3 pending)
    × All (λ e. e.index ≤ highest_index 3 pending) pending
    × IsIndexOf (highest_index 3 pending) 3 pending
highest_index_lem_example = highest_index_lem 3 pending

-- A batch of two commands on the empty queue.
abbrev batch : List LogEntry
batch = log_entry 9 del_a ∷ log_entry 10 create_a ∷ []

-- The queue has the entries in the order of the shards.
abbrev deletion : UpdateEntry
deletion = queued assoc_bolt decode (log_entry 9 del_a) del_a true (some doc_a)

abbrev creation : UpdateEntry
creation = queued assoc_bolt decode (log_entry 10 create_a) create_a false none

abbrev updated_to : List UpdateEntry → Updated assoc_bolt decode
updated_to es = record {
  machine = machine_with es;
  updates =
      record (log_entry 9 del_a) { value = 200 }
      ∷ record (log_entry 10 create_a) { value = 200 }
      ∷ [];
  fine = true;
}

update-batch :
    update assoc_bolt decode order (machine_with []) batch
    ≡ some (updated_to (creation ∷ deletion ∷ []))
unfolding run_update
update-batch = refl

update-batch_reversed :
    update assoc_bolt decode order' (machine_with []) batch
    ≡ some (updated_to (deletion ∷ creation ∷ []))
unfolding run_update
update-batch_reversed = refl

update-order_irrelevant_example :
    of_shard b'p' (creation ∷ deletion ∷ []) ≡ of_shard b'p' (deletion ∷ creation ∷ [])
update-order_irrelevant_example =
    update-order_irrelevant assoc_bolt decode order order' (machine_with []) batch
      (updated_to (creation ∷ deletion ∷ [])) (updated_to (deletion ∷ creation ∷ [])) b'p'
      (refl, (refl, tt)) (refl, (refl, tt)) refl refl tt update-batch update-batch_reversed refl
      refl
