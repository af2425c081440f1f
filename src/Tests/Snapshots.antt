-- ===== src/Tests/Snapshots.antt =====
-- Examples for the snapshots of statemachine/statemachine.go, and for `Tar` of zipper/zipper.go.
use bydb.Base.{
  ℕ, true, ◌≡◌, refl, ◌↔◌, ◌≤◌, Text, codes, List, [], ◌∷◌, Option, some, length, text_eq, arith,
}
use bydb.Base.Decimal.{print_uint, parse_uint}
use bydb.Bolt.Model.{Store, assoc_bolt, lookup, without, has_bucket, get, set_bucket, create_bucket}
use bydb.Dir.{root_path, data_path, meta_db_path, snapshot_path}
use bydb.Files.{FileSystem, overlay, or_empty}
use bydb.Files.Model.{Files, assoc_files, write}
use bydb.Machine.Recovery.{recover-prepare}
use bydb.Machine.Snapshot.{target_path, prepare_snapshot, save_snapshot, recover_from_snapshot}
use bydb.Machine.Sync.{get_last_update_index, open_machine, open_shard_map}
use bydb.Machine.Update.{Machine}
use bydb.Tests.Fixtures.{machine_with, empty_shard, entry_of, put_a}
use bydb.Shard.Defs.{Shard}
use bydb.Tests.Lives.{machine_of}
use bydb.Zipper.{regular, directory, Header, Archive, untar, extract_all, extract}
use bydb.Zipper.Names.{header_name, remove_all, removed, starts_with}
use bydb.Zipper.RoundTrip.{untar-tar, file_at}
use bydb.Zipper.Tar.{Visit, Writer, tar, add_files, add_file, archive_of}

-- A file system in which each path can be examined.
abbrev files : FileSystem
files = record assoc_files { exists = λ fs p. true }

abbrev writer : Writer
writer = record { takes_header = λ n. true; takes_body = λ n b. true }

-- The data of a node: a directory and the meta database.
abbrev visits : List Visit
visits =
    record { path = codes "n1/data"; info = some directory }
    ∷ file_at (codes "n1/data") (codes "meta.bolt")
    ∷ []

abbrev headers : List Header
headers =
    record { name = []; typeflag = directory; body = some [] }
    ∷ record { name = codes "meta.bolt"; typeflag = regular; body = some (codes "6") }
    ∷ []

abbrev sent : Files
sent = (codes "n1/data/meta.bolt", codes "6") ∷ []

abbrev received : Files
received = (codes "n2/data/meta.bolt", codes "4") ∷ []

abbrev restored : Files
restored = (codes "n2/data/meta.bolt", codes "6") ∷ []

tar-visits : tar files writer (codes "n1/data") sent visits ≡ (headers, true)
unfolding tar add_files add_file header_name remove_all removed starts_with lookup text_eq
tar-visits = refl

untar-headers :
    untar files (codes "n2/data") received (some (archive_of headers)) ≡ (restored, true)
unfolding untar extract_all extract write without lookup overlay text_eq
untar-headers = refl

untar-tar_example :
    (lookup (codes "n2/data/meta.bolt") restored ≡ some (codes "6"))
    ↔ (length (or_empty (lookup (codes "n2/data/meta.bolt") received)) ≤ length (codes "6"))
untar-tar_example =
    untar-tar files writer (codes "n1/data") (codes "n2/data") sent received restored
      (record { path = codes "n1/data"; info = some directory } ∷ []) [] headers (codes "meta.bolt")
      (codes "6") (λ e. cc) (unfold starts_with in refl)
      (unfold header_name remove_all removed starts_with in ((λ e. cc), tt)) tt
      (unfold lookup text_eq in refl) tar-visits untar-headers

-- A toy format, for archives that are a directory and one file.
abbrev pack : List Header → Text
pack [] = []
pack (h ∷ []) = or_empty h.body
pack (h ∷ h' ∷ hs) = or_empty h'.body

abbrev unpack : Text → Option Archive
unpack t = some (
    archive_of (
      record { name = []; typeflag = directory; body = some [] }
      ∷ record { name = codes "meta.bolt"; typeflag = regular; body = some t }
      ∷ []))

abbrev stored : Option Text → Store
stored t = (codes "meta", (codes "lastUpdateIndex", or_empty t) ∷ []) ∷ []

abbrev sender : Machine Store
sender = record (machine_with []) { last_index = 6; meta_db = stored (some (codes "6")) }

-- A node that is behind, with a write in its queue.
abbrev receiver : Machine Store
receiver = machine_with (entry_of 4 put_a ∷ [])

-- The machine of that node behind its recovery: its open databases are as they were.
abbrev recovered : Machine Store
recovered = record receiver { last_index = (get_last_update_index assoc_bolt receiver).1 }

abbrev open_shard : ℕ → Option (Shard Store)
open_shard c = some empty_shard

-- The machine that opens from the files of that node.
reopened : Machine Store
unfolding open_machine open_shard_map
reopened = machine_of (open_machine assoc_bolt open_shard (some (stored (some (codes "6")))))

abbrev key : Text
key = codes "n1/snapshots/6.tgz"

abbrev with_snapshot : Files
with_snapshot = (key, codes "6") ∷ sent

recover-prepare_example :
    (key ≡ target_path assoc_bolt files (codes "n1") 6)
    × (6 ≡ sender.last_index)
    × (reopened.last_index ≡ sender.last_index)
unfolding data_path root_path
recover-prepare_example =
    recover-prepare assoc_bolt files stored writer pack unpack (codes "n1") (codes "n2") visits
      (record { path = codes "n1/data"; info = some directory } ∷ []) [] headers sent with_snapshot
      received restored sender sender receiver recovered reopened key (codes "6") (codes "6")
      open_shard 6 true refl (unfold lookup text_eq meta_db_path data_path root_path in refl)
      (unfold lookup text_eq meta_db_path data_path root_path in refl)
      (unfold meta_db_path data_path root_path in refl) (unfold data_path root_path in λ e. cc)
      (unfold starts_with data_path root_path in refl)
      (unfold header_name remove_all removed starts_with data_path root_path in ((λ e. cc), tt)) tt
      (unfold prepare_snapshot target_path tar add_files add_file header_name remove_all removed
          starts_with lookup text_eq write without overlay get_last_update_index has_bucket get
          print_uint parse_uint data_path snapshot_path root_path in
        refl)
      (unfold tar add_files add_file header_name remove_all removed starts_with lookup text_eq write
          without data_path root_path in
        refl)
      (unfold save_snapshot lookup text_eq in refl) refl
      (unfold meta_db_path data_path root_path lookup text_eq in omega arith)
      (unfold recover_from_snapshot untar extract_all extract write without lookup overlay text_eq
          get_last_update_index has_bucket get parse_uint meta_db_path data_path root_path in
        refl)
      (unfold lookup text_eq reopened open_machine open_shard_map get_last_update_index has_bucket
          get create_bucket set_bucket without parse_uint meta_db_path data_path root_path in
        refl)
