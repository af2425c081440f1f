-- ===== src/Dir.antt =====
-- dir/dir.go: the paths under the prefix of a node. `join` is `filepath.Join` of two parts.
use bydb.Base.{Text, codes}

module _ (join : Text → Text → Text) (prefix : Text) where
  unfoldable pub root_path : Text
  root_path = prefix

  unfoldable pub data_path : Text
  data_path = join root_path (codes "data")

  unfoldable pub meta_db_path : Text
  meta_db_path = join data_path (codes "meta.bolt")

  unfoldable pub raft_path : Text
  raft_path = join root_path (codes "raft")

  unfoldable pub block_path : Text
  block_path = join data_path (codes "block")

  unfoldable pub index_path : Text
  index_path = join data_path (codes "index")

  unfoldable pub snapshot_path : Text
  snapshot_path = join root_path (codes "snapshots")
