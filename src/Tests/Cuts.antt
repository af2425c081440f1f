-- ===== src/Tests/Cuts.antt =====
-- Examples for the ways to cut a log into batches.
use bydb.Base.{true, false, ◌≡◌, refl, List, [], ◌∷◌, some}
use bydb.Bolt.Model.{assoc_bolt}
use bydb.Machine.Batches.{batch_mate}
use bydb.Machine.Entry.{LogEntry, UpdateEntry}
use bydb.Machine.Pieces.{update-append}
use bydb.Machine.Update.{
  Updated, update, find_existing, new_entry, of_shard, verdict, accepted, refused,
}
use bydb.Tests.Fixtures.{
  decode, shard, empty_shard, order, machine_with, entry_of, log_entry, del_a, doc_a, post_b,
  post_q, create_a, create_ab,
}
use bydb.Tests.Runs.{run_update}

abbrev updated_to : List UpdateEntry → List LogEntry → Updated assoc_bolt decode
updated_to pending us = record { machine = machine_with pending; updates = us; fine = true }

-- An insertion waits; a deletion and the same insertion come.
abbrev queue : List UpdateEntry
queue = entry_of 4 post_b ∷ []

abbrev deletion : UpdateEntry
deletion = record (entry_of 9 del_a) { existing_doc = some doc_a }

abbrev first_answer : LogEntry
first_answer = record (log_entry 9 del_a) { value = 200 }

abbrev second_answer : LogEntry
second_answer = record (log_entry 10 post_b) { value = 409 }

whole :
    update assoc_bolt decode order
      (machine_with queue)
      (log_entry 9 del_a ∷ log_entry 10 post_b ∷ [])
    ≡ some (updated_to (entry_of 4 post_b ∷ deletion ∷ []) (first_answer ∷ second_answer ∷ []))
unfolding run_update
whole = refl

first_piece :
    update assoc_bolt decode order (machine_with queue) (log_entry 9 del_a ∷ [])
    ≡ some (updated_to (entry_of 4 post_b ∷ deletion ∷ []) (first_answer ∷ []))
unfolding run_update
first_piece = refl

second_piece :
    update assoc_bolt decode order
      (machine_with (entry_of 4 post_b ∷ deletion ∷ []))
      (log_entry 10 post_b ∷ [])
    ≡ some (updated_to (entry_of 4 post_b ∷ deletion ∷ []) (second_answer ∷ []))
unfolding run_update
second_piece = refl

update-append_example :
    of_shard b'p' (entry_of 4 post_b ∷ deletion ∷ [])
    ≡ of_shard b'p' (entry_of 4 post_b ∷ deletion ∷ [])
update-append_example =
    update-append assoc_bolt decode order (machine_with queue) (log_entry 9 del_a ∷ [])
      (log_entry 10 post_b ∷ []) (new_entry 0 (log_entry 9 del_a) del_a ∷ [])
      (new_entry 0 (log_entry 10 post_b) post_b ∷ [])
      (updated_to (entry_of 4 post_b ∷ deletion ∷ []) (first_answer ∷ second_answer ∷ []))
      (updated_to (entry_of 4 post_b ∷ deletion ∷ []) (first_answer ∷ []))
      (updated_to (entry_of 4 post_b ∷ deletion ∷ []) (second_answer ∷ [])) b'p' shard
      (refl, (refl, tt)) refl refl
      (record { shard = refl; kind = refl; body = (refl, λ e. cc) }, tt) (unfold run_update in refl)
      (unfold run_update in refl) (unfold run_update in (tt, tt)) (unfold run_update in (refl, tt))
      (unfold run_update in ((refl, tt), tt)) whole first_piece second_piece refl refl refl

-- An insertion into a partition whose creation waits.
abbrev creating : List UpdateEntry
creating = record (entry_of 4 create_a) { part_exists = false } ∷ []

abbrev insertion : UpdateEntry
insertion = new_entry 0 (log_entry 9 post_q) post_q

abbrev mate : UpdateEntry
mate = new_entry 1 (log_entry 10 create_ab) create_ab

batch_mate_example :
    (find_existing assoc_bolt decode empty_shard creating (insertion ∷ [])
      ≡ some (record insertion { part_exists = true } ∷ []))
    × (verdict (record insertion { part_exists = true }) ≡ accepted)
    × (find_existing assoc_bolt decode empty_shard creating (insertion ∷ mate ∷ [])
        ≡ some (record insertion { part_exists = false } ∷ mate ∷ []))
    × (verdict (record insertion { part_exists = false }) ≡ refused 404)
batch_mate_example =
    batch_mate assoc_bolt decode empty_shard creating insertion mate mate create_a
      (unfold run_update in refl) refl refl refl (unfold run_update in refl)
      (unfold run_update in refl) (unfold run_update in refl)

-- So the answer depends on where the log is cut.
insertion_in_own_batch :
    update assoc_bolt decode order (machine_with creating) (log_entry 9 post_q ∷ [])
    ≡ some (
        updated_to
          (record (entry_of 4 create_a) { part_exists = false } ∷ entry_of 9 post_q ∷ [])
          (record (log_entry 9 post_q) { value = 200 } ∷ []))
unfolding run_update
insertion_in_own_batch = refl

insertion_with_mate :
    update assoc_bolt decode order
      (machine_with creating)
      (log_entry 9 post_q ∷ log_entry 10 create_ab ∷ [])
    ≡ some (
        updated_to
          (record (entry_of 4 create_a) { part_exists = false }
            ∷ record (entry_of 10 create_ab) { part_exists = false }
            ∷ [])
          (record (log_entry 9 post_q) { value = 404 }
            ∷ record (log_entry 10 create_ab) { value = 200 }
            ∷ []))
unfolding run_update
insertion_with_mate = refl
