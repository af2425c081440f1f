-- ===== src/Machine/Snapshot.antt =====
-- `PrepareSnapshot`, `SaveSnapshot` and `RecoverFromSnapshot` of statemachine/statemachine.go, over the
-- file system. The gzip and tar formats are parameters. `RecoverFromSnapshot` writes the files below
-- databases that stay open; nothing documents what these show then, and the model leaves them as they
-- were.
use bydb.Base.{ℕ, Bool, true, false, Text, codes, List, ◌++◌, Option, none, some, if◌then◌else◌}
use bydb.Base.Decimal.{print_uint}
use bydb.Bolt.Defs.{Bolt}
use bydb.Dir.{data_path, snapshot_path}
use bydb.Files.{FileSystem}
use bydb.Zipper.{Header, Archive, untar}
use bydb.Zipper.Tar.{Visit, Writer, tar}
use bydb.Machine.Sync.{get_last_update_index}
use bydb.Machine.Update.{Machine}

-- What `PrepareSnapshot` returns: the key is nil or the path, beside an error or none.
pub record Prepared (Fs Db : Type 0) : Type 0 where
  pub files : Fs
  pub machine : Machine Db
  pub key : Option Text
  pub fine : Bool

-- What `RecoverFromSnapshot` leaves, and whether it returns no error.
pub record Recovered (Fs Db : Type 0) : Type 0 where
  pub files : Fs
  pub machine : Machine Db
  pub fine : Bool

module _ (B : Bolt) (F : FileSystem) (prefix : Text) where
  -- The name of a snapshot's file, with `%d.tgz`.
  unfoldable pub target_path : ℕ → Text
  target_path i = F.join (snapshot_path F.join prefix) (print_uint i ++ codes ".tgz")

  module _ (w : Writer) (pack : List Header → Text) (visits : List Visit) where
    -- The archive goes to the start of the file that was opened; the errors of `Tar` are returned
    -- with the path.
    abbrev tarball : F.Fs → Machine B.Db → Text → Prepared F.Fs B.Db
    tarball fs m path =
        let (hs, fine) = tar F w (data_path F.join prefix) fs visits in
        record {
          files = (F.copy_to fs path (some (pack hs))).0;
          machine = m;
          key = some path;
          fine = fine;
        }

    abbrev pub without_file : F.Fs → Machine B.Db → Prepared F.Fs B.Db
    without_file fs m = record { files = fs; machine = m; key = none; fine = false }

    abbrev pub into_file : Machine B.Db → Text → F.Fs × Bool → Prepared F.Fs B.Db
    into_file m path (fs, true) = tarball fs m path
    into_file m path (fs, false) = without_file fs m

    -- `PrepareSnapshot`
    unfoldable pub prepare_snapshot : F.Fs → Machine B.Db → Prepared F.Fs B.Db
    unfolding target_path get_last_update_index
    prepare_snapshot fs m =
        let (m', i, fine) = get_last_update_index B m in
        let path = target_path i in
        if fine then into_file m' path (F.open_or_create fs path) else without_file fs m'

  -- `SaveSnapshot`: what is copied to the writer; `none` is an error.
  unfoldable pub save_snapshot : F.Fs → Text → Option Text
  save_snapshot fs path = F.content fs path

  abbrev reindexed : F.Fs → Machine B.Db × ℕ × Bool → Recovered F.Fs B.Db
  reindexed fs (m, i, fine) = record {
    files = fs;
    machine = record m { last_index = i };
    fine = fine;
  }

  -- The rest of `RecoverFromSnapshot` behind `Untar`.
  abbrev pub recovered : Machine B.Db → F.Fs × Bool → Recovered F.Fs B.Db
  recovered m (fs, true) = reindexed fs (get_last_update_index B m)
  recovered m (fs, false) = record { files = fs; machine = m; fine = false }

  -- `RecoverFromSnapshot`
  unfoldable pub recover_from_snapshot : F.Fs → Machine B.Db → Option Archive → Recovered F.Fs B.Db
  unfolding get_last_update_index
  recover_from_snapshot fs m zip = recovered m (untar F (data_path F.join prefix) fs zip)
