-- ===== src/Tests/Batches.antt =====
-- Examples for what a batch does not see of itself and of deletions in the queue.
use bydb.Tests.Runs.{run_update}
use bydb.Bolt.Model.{create_bucket, names, get}
use bydb.Machine.Batches.{stale_read}
use bydb.Machine.Lookup.{answered}
use bydb.Response.{success, not_found}
use bydb.Tests.Fixtures.{delete_p, create_p}
use bydb.Base.{ℕ, true, ◌≡◌, refl, codes, List, [], ◌∷◌, none, some, text_eq}
use bydb.Base.Decimal.{print_uint}
use bydb.Bolt.Model.{Store, assoc_bolt, has_bucket, lookup, without, set_bucket, put, get, delete}
use bydb.Machine.Batches.{delete_part_twice}
use bydb.Machine.Reposts.{post-after_del}
use bydb.Tests.Machines.{pending, pending-IsQueued, synced_machine, sync-pending}
use bydb.Machine.Entry.{UpdateEntry, concerns}
use bydb.Machine.Lookup.{lookup_get_request}
use bydb.Machine.Solo.{queued}
use bydb.Bleve.{IndexOp}
use bydb.Machine.Sync.{set_shard, sync_shards, update_last_update_index, sync, highest_index}
use bydb.Machine.Update.{Machine, update}
use bydb.Shard.Defs.{done, panicked, apply_updates, apply_entries, apply_command}
use bydb.Tests.Fixtures.{
  empty_shard, decode, bleve, shard, shards, order, machine_with, get_a, del_a, post_a, post_b,
  delete_p, entry_of, log_entry,
}

-- Behind a deletion and an insertion, the deleted document is inserted anew.
post-after_del_example :
    (update assoc_bolt decode order (machine_with pending) (log_entry 9 post_a ∷ [])
      ≡ some (record {
        machine = machine_with pending;
        updates = record (log_entry 9 post_a) { value = 409 } ∷ [];
        fine = true;
      }))
    × (update assoc_bolt decode order synced_machine (log_entry 9 post_a ∷ [])
        ≡ some (record {
          machine = record synced_machine {
            pending = queued assoc_bolt decode (log_entry 9 post_a) post_a true none ∷ [];
          };
          updates = record (log_entry 9 post_a) { value = 200 } ∷ [];
          fine = true;
        }))
post-after_del_example =
    post-after_del assoc_bolt bleve decode order order (machine_with pending) synced_machine
      (log_entry 9 post_a) post_a del_a shard (refl, (refl, tt)) (refl, (refl, tt)) refl refl refl
      pending-IsQueued (unfold run_update in refl) refl (unfold concerns text_eq in refl) refl
      sync-pending

delete_part_twice_example :
    apply_updates assoc_bolt bleve shard (entry_of 4 delete_p ∷ entry_of 5 delete_p ∷ []) ≡ panicked
delete_part_twice_example =
    delete_part_twice assoc_bolt bleve shard (entry_of 4 delete_p) (entry_of 5 delete_p) [] refl
      refl refl

-- A partition that is deleted and created anew, and what `Sync` makes of it.
abbrev emptying : List UpdateEntry
emptying = entry_of 4 delete_p ∷ entry_of 5 create_p ∷ []

abbrev emptied_machine : Machine Store
emptied_machine = record (machine_with []) {
  shards =
      set_shard (set_shard shards b'a' empty_shard) b'p'
        (record { index = (IndexOp.delete (codes "p:a") ∷ []) ∷ []; block = (codes "p", []) ∷ [] });
  meta_db = (codes "meta", (codes "lastUpdateIndex", codes "5") ∷ []) ∷ [];
  last_index = 5;
}

sync-emptying : sync assoc_bolt bleve order (machine_with emptying) ≡ done emptied_machine
unfolding sync sync_shards highest_index update_last_update_index apply_updates apply_entries
    apply_command has_bucket lookup put delete without set_bucket create_bucket names text_eq
    print_uint
sync-emptying = refl

stale_read_example :
    (lookup_get_request assoc_bolt (machine_with emptying) get_a ≡ answered (success (codes "{a}")))
    × (lookup_get_request assoc_bolt emptied_machine get_a ≡ answered not_found)
stale_read_example =
    stale_read assoc_bolt bleve order (machine_with emptying) emptied_machine shard
      (entry_of 4 delete_p) (entry_of 5 create_p) get_a b'{' (codes "a}") (refl, (refl, tt)) refl
      refl refl (record { shard = refl; kind = refl; body = tt })
      (record { shard = refl; kind = refl; body = tt }) refl refl refl refl
      (unfold get lookup text_eq in refl) sync-emptying

-- Two insertions of one document in one batch are both accepted.
abbrev insertion : ℕ → UpdateEntry
insertion i = queued assoc_bolt decode (log_entry i post_b) post_b true none

insertions_in_one_batch :
    update assoc_bolt decode order (machine_with []) (log_entry 9 post_b ∷ log_entry 10 post_b ∷ [])
    ≡ some (record {
      machine = machine_with (insertion 9 ∷ insertion 10 ∷ []);
      updates =
          record (log_entry 9 post_b) { value = 200 }
          ∷ record (log_entry 10 post_b) { value = 200 }
          ∷ [];
      fine = true;
    })
unfolding run_update
insertions_in_one_batch = refl

-- The second of two batches is refused.
insertion_in_next_batch :
    update assoc_bolt decode order (machine_with (insertion 9 ∷ [])) (log_entry 10 post_b ∷ [])
    ≡ some (record {
      machine = machine_with (insertion 9 ∷ []);
      updates = record (log_entry 10 post_b) { value = 409 } ∷ [];
      fine = true;
    })
unfolding run_update
insertion_in_next_batch = refl
