-- ===== src/Tests/Lives.antt =====
-- Examples for the life of a state machine.
use bydb.Base.Decimal.{parse_uint}
use bydb.Base.{
  ℕ, Bool, true, ◌≡◌, refl, ◌<◌, List, [], ◌∷◌, Option, some, All, arith, codes, text_eq,
  if◌then◌else◌, ◌==◌,
}
use bydb.Bolt.Model.{Store, assoc_bolt, has_bucket, get, lookup, without, set_bucket, create_bucket}
use bydb.Machine.Close.{close, Reached-close}
use bydb.Machine.Durable.{
  Reached, opened, updated, IsDurable, Reached-IsDurable, Reached-IsQueued, open_machine-replays,
}
use bydb.Machine.Queue.{IsQueued}
use bydb.Machine.Sync.{open_machine, open_shard_map, get_last_update_index}
use bydb.Machine.Update.{Machine, Updated, update}
use bydb.Machine.Solo.{update_solo, queued}
use bydb.Shard.Defs.{Shard, Outcome, done}
use bydb.Tests.Fixtures.{
  bleve, decode, shard, empty_shard, machine_with, order, log_entry, del_a, doc_a,
}
use bydb.Tests.Machines.{del_a_parsed}

abbrev files : ℕ → Option (Shard Store)
files c = if c == b'p' then some shard else some empty_shard

-- A meta database that a machine left behind, at the index 3.
abbrev meta_files : Store
meta_files = (codes "meta", (codes "lastUpdateIndex", codes "3") ∷ []) ∷ []

abbrev pub machine_of : Outcome (Machine Store × ℕ × Bool) → Machine Store
machine_of (done r) = r.0
machine_of _ = machine_with []

start : Machine Store
unfolding open_machine open_shard_map
start = machine_of (open_machine assoc_bolt files (some meta_files))

open-files : open_machine assoc_bolt files (some meta_files) ≡ done (start, 3, true)
unfolding open_machine open_shard_map get_last_update_index start has_bucket get lookup
    create_bucket without set_bucket text_eq parse_uint
open-files = refl

-- Behind an accepted deletion.
abbrev waiting : Updated assoc_bolt decode
waiting = record {
  machine = record start {
    pending = queued assoc_bolt decode (log_entry 9 del_a) del_a true (some doc_a) ∷ [];
  };
  updates = record (log_entry 9 del_a) { value = 200 } ∷ [];
  fine = true;
}

update-deletion : update assoc_bolt decode order start (log_entry 9 del_a ∷ []) ≡ some waiting
unfolding start open_machine open_shard_map get_last_update_index has_bucket get lookup
    create_bucket without set_bucket text_eq bydb.Base.Int.int_eq
update-deletion =
    update_solo assoc_bolt decode order start (log_entry 9 del_a) del_a shard (some doc_a)
      (refl, (refl, tt)) refl refl refl del_a_parsed refl refl

waiting-Reached : Reached assoc_bolt bleve decode waiting.machine
unfolding start open_machine open_shard_map get_last_update_index has_bucket get lookup
    create_bucket without set_bucket text_eq parse_uint
waiting-Reached =
    updated order start waiting.machine (log_entry 9 del_a ∷ []) waiting
      (opened files meta_files start 3 open-files) ((omega arith, omega arith), tt) update-deletion
      refl

Reached-IsDurable_example : IsDurable assoc_bolt waiting.machine
Reached-IsDurable_example = Reached-IsDurable assoc_bolt bleve decode waiting-Reached

Reached-IsQueued_example : All IsQueued waiting.machine.pending
Reached-IsQueued_example = Reached-IsQueued assoc_bolt bleve decode waiting-Reached

reopen : open_machine assoc_bolt files (some waiting.machine.meta_db) ≡ done (start, 3, true)
unfolding start open_machine open_shard_map get_last_update_index has_bucket get lookup
    create_bucket without set_bucket text_eq parse_uint
reopen = refl

open_machine-replays_example :
    (true ≡ true)
    × (3 ≡ waiting.machine.last_index)
    × (start.last_index ≡ 3)
    × (start.pending ≡ [])
    × All (λ e. 3 < e.index) waiting.machine.pending
open_machine-replays_example =
    open_machine-replays assoc_bolt bleve decode files waiting.machine start 3 true waiting-Reached
      reopen

Reached-close_example : close true waiting.machine ≡ done true
Reached-close_example = Reached-close assoc_bolt bleve decode true waiting-Reached
