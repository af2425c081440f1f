-- ===== src/Tests/Stores.antt =====
-- Examples for a machine as a document store: a partition is created, a document posted, the queue
-- synced, and the document deleted.
use bydb.Base.{
  ap, sym, ◌∙◌, some_inj, ℕ, true, false, ◌≡◌, refl, codes, List, [], ◌∷◌, none, some, text_eq,
  ◌==◌, if◌then◌else◌, arith,
}
use bydb.Api.Defs.{NodeHost, crud, get_http_response_string}
use bydb.Api.Served.{value_of, crud-answers}
use bydb.Base.Decimal.{print_uint}
use bydb.Bleve.{IndexOp}
use bydb.Bolt.Model.{
  Store, assoc_bolt, has_bucket, lookup, without, set_bucket, create_bucket, put, get,
}
use bydb.Command.Formats.{parse_command}
use bydb.Command.Types.{Command, ok}
use bydb.Machine.Entry.{UpdateEntry, concerns}
use bydb.Machine.Lookup.{lookup_get_request, answered, found_response}
use bydb.Machine.Firm.{IsReadable}
use bydb.Machine.Refines.{store_of, Runs-answers, Runs-reads, Runs-next}
use bydb.Machine.Represented.{IsRange, answer_of}
use bydb.Machine.Runs.{answers, store_behind, Runs, stays, updates, syncs}
use bydb.Machine.Solo.{queued}
use bydb.Machine.Sync.{set_shard, sync_shards, update_last_update_index, sync, highest_index}
use bydb.Machine.Update.{Machine, Updated, update}
use bydb.Shard.Defs.{Shard, done, non_empty, apply_updates, apply_entries, apply_command}
use bydb.Tests.Fixtures.{
  decode, bleve, empty_shard, doc_a, create_p, post_a, del_a, get_a, log_entry, machine_with,
}
use bydb.Tests.Machines.{del_a_parsed}
use bydb.Tests.Runs.{run_update}

abbrev order : List ℕ
order = codes "p"

-- An open shard for the partition "p", with nothing in it.
abbrev start : Machine Store
start = record (machine_with []) { shards = λ c. if c == b'p' then some empty_shard else none }

abbrev created : UpdateEntry
created = queued assoc_bolt decode (log_entry 4 create_p) create_p false none

abbrev posted : UpdateEntry
posted = queued assoc_bolt decode (log_entry 5 post_a) post_a true none

abbrev answered_with : List UpdateEntry → ℕ → Command → Updated assoc_bolt decode
answered_with pending i cmd = record {
  machine = record start { pending = pending };
  updates = record (log_entry i cmd) { value = 200 } ∷ [];
  fine = true;
}

create_run :
    update assoc_bolt decode order start (log_entry 4 create_p ∷ [])
    ≡ some (answered_with (created ∷ []) 4 create_p)
unfolding run_update
create_run = refl

post_run :
    update assoc_bolt decode order
      (record start { pending = created ∷ [] })
      (log_entry 5 post_a ∷ [])
    ≡ some (answered_with (created ∷ posted ∷ []) 5 post_a)
unfolding run_update
post_run = refl

-- What the sync makes of the queue.
abbrev filled_shard : Shard Store
filled_shard = record {
  index = (IndexOp.index (codes "p:a") doc_a ∷ []) ∷ [];
  block = (codes "p", (codes "p:a", codes "{a}") ∷ []) ∷ [];
}

abbrev filled : Machine Store
filled = record start {
  shards = set_shard start.shards b'p' filled_shard;
  meta_db = (codes "meta", (codes "lastUpdateIndex", codes "5") ∷ []) ∷ [];
  last_index = 5;
}

sync_run :
    sync assoc_bolt bleve order (record start { pending = created ∷ posted ∷ [] }) ≡ done filled
unfolding sync sync_shards highest_index update_last_update_index apply_updates apply_entries
    apply_command has_bucket lookup put create_bucket without set_bucket text_eq print_uint
sync_run = refl

create_p_parsed : parse_command decode (codes "CREATE_PART p") ≡ ok create_p
unfolding run_update
create_p_parsed = refl

post_a_parsed : parse_command decode (codes "POST {a}") ≡ ok post_a
unfolding run_update
post_a_parsed = refl

start-IsRange :
    (pending : List UpdateEntry) → IsRange assoc_bolt order (record start { pending = pending })
start-IsRange pending = record { distinct = (refl, tt); covers = λ c s e. ground arith }

filled-IsRange : IsRange assoc_bolt order filled
filled-IsRange = record { distinct = (refl, tt); covers = λ c s e. ground arith }

start-IsReadable : IsReadable decode (store_of assoc_bolt bleve decode start)
unfolding get lookup
start-IsReadable p i raw e = absurd (ground arith)

example_run : Runs assoc_bolt bleve decode start ((create_p, 200) ∷ (post_a, 200) ∷ []) filled
unfolding concerns text_eq get lookup
example_run =
    updates order start filled (log_entry 4 create_p) create_p 200
      (answered_with (created ∷ []) 4 create_p) ((post_a, 200) ∷ []) (start-IsRange [])
      create_p_parsed refl (record { shard = empty_shard; opened = refl; clear = tt }) create_run
      refl
      (updates order (record start { pending = created ∷ [] }) filled (log_entry 5 post_a) post_a
        200 (answered_with (created ∷ posted ∷ []) 5 post_a) [] (start-IsRange (created ∷ []))
        post_a_parsed refl (record { shard = empty_shard; opened = refl; clear = λ e. tt }) post_run
        refl
        (syncs order (record start { pending = created ∷ posted ∷ [] }) filled filled []
          (start-IsRange (created ∷ posted ∷ [])) sync_run (stays filled)))

Runs-answers_example :
    200 ∷ 200 ∷ []
    ≡ answers decode (store_of assoc_bolt bleve decode start) (create_p ∷ post_a ∷ [])
Runs-answers_example =
    Runs-answers assoc_bolt bleve decode start filled ((create_p, 200) ∷ (post_a, 200) ∷ []) refl
      start-IsReadable example_run

Runs-reads_example :
    lookup_get_request assoc_bolt filled get_a
    ≡ answered (
        found_response (
          non_empty (
            (store_behind decode
                (store_of assoc_bolt bleve decode start)
                (create_p ∷ post_a ∷ [])).text
              (codes "p")
              (codes "a"))))
Runs-reads_example =
    Runs-reads assoc_bolt bleve decode start filled ((create_p, 200) ∷ (post_a, 200) ∷ []) get_a
      filled_shard refl start-IsReadable example_run refl tt

Runs-next_example :
    let σ = store_behind decode (store_of assoc_bolt bleve decode start) (create_p ∷ post_a ∷ []) in
    (r : Updated assoc_bolt decode) × (update assoc_bolt decode order filled
        (log_entry 9 del_a ∷ [])
      ≡ some r)
    × (r.fine ≡ true)
    × (r.updates ≡ record (log_entry 9 del_a) { value = answer_of decode σ del_a } ∷ [])
Runs-next_example =
    Runs-next assoc_bolt bleve decode start filled ((create_p, 200) ∷ (post_a, 200) ∷ []) order
      (log_entry 9 del_a) del_a refl start-IsReadable example_run filled-IsRange del_a_parsed refl
      (record { shard = filled_shard; opened = refl; clear = tt })

-- A node host in front of the machine, which answers the deletion of the document.
abbrev node_host : NodeHost
node_host = record {
  propose = λ raw. some 200;
  read = λ raw. none;
  membership = none;
  adds = λ id address change. true;
  deletes = λ id change. true;
}

abbrev deleted : Updated assoc_bolt decode
deleted = record {
  machine = record filled {
    pending = queued assoc_bolt decode (log_entry 9 del_a) del_a true (some doc_a) ∷ [];
  };
  updates = record (log_entry 9 del_a) { value = 200 } ∷ [];
  fine = true;
}

delete_run : update assoc_bolt decode order filled (log_entry 9 del_a ∷ []) ≡ some deleted
unfolding run_update
delete_run = refl

crud-answers_example :
    let code : ℕ =
      answer_of decode
        (store_behind decode (store_of assoc_bolt bleve decode start) (create_p ∷ post_a ∷ []))
        del_a in
    (crud node_host 7 decode (codes "DEL p a 5")).reply
    ≡ some (record { code = code; document = get_http_response_string code; duration = 7 })
crud-answers_example =
    crud-answers assoc_bolt bleve decode node_host 7 start filled
      ((create_p, 200) ∷ (post_a, 200) ∷ []) order 9 (codes "DEL p a 5") del_a refl start-IsReadable
      example_run filled-IsRange del_a_parsed refl
      (record { shard = filled_shard; opened = refl; clear = tt })
      (λ r e f.
        ap (λ (x : Updated assoc_bolt decode). value_of x.updates) (some_inj (sym delete_run ∙ e)))
