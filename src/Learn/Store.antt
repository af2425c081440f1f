-- ===== src/Learn/Store.antt =====
-- The store of learn/bolt-bleve/store.go: one directory for each partition, opened for each call. A
-- call that fails to open a file or an index leaves it as it was.
use bydb.Base.{Bool, false, ◌≡◌, Text, codes, Option, none, some, text_eq, if◌then◌else◌}
use bydb.Bolt.Defs.{Bolt}
use bydb.Shard.Defs.{Outcome, failed}
use bydb.Learn.Partition.{
  Document, SearchResult, Engine, Json, Partition, Changed, add, delete, get, search,
}

-- The files of the store and the calls that open them.
pub record Opening (B : Bolt) (E : Engine) : Type 0 where
  -- `filepath.Join`
  pub join : Text → Text → Text
  -- `bleve.New`
  pub new_index : Text → Option E.Index
  -- whether `bleve.Open` and `bolt.Open` succeed
  pub opens_index : Text → Bool
  pub opens_block : Text → Bool
  -- what a file that `bolt.Open` creates holds
  pub empty_block : B.Db
  pub empty-no_bucket : (p : Text) → B.has_bucket empty_block p ≡ false

module _ (B : Bolt) (E : Engine) (J : Json) (O : Opening B E) where
  -- What the directory of a partition holds; the block is its file block.bolt.
  pub record Directory : Type 0 where
    pub index : E.Index
    pub block : Option B.Db

  abbrev pub Disk : Type 0
  Disk = Text → Option Directory

  unfoldable pub set_directory : Disk → Text → Directory → Disk
  set_directory disk path dir p = if text_eq path p then some dir else disk p

  -- A disk behind an opening, and what was opened.
  abbrev pub Opened : Type 0 → Type 0
  Opened A = Disk × Option A

  abbrev pub created : Disk → Text → Option E.Index → Opened E.Index
  created disk path none = (disk, none)
  created disk path (some index) =
      (set_directory disk path (record { index = index; block = none }), some index)

  abbrev pub open_or_new : Disk → Text → Option Directory → Opened E.Index
  open_or_new disk path none = created disk path (O.new_index path)
  open_or_new disk path (some dir) = (disk, if O.opens_index path then some dir.index else none)

  -- `openOrCreateBleve`
  unfoldable pub open_or_create_bleve : Disk → Text → Opened E.Index
  unfolding set_directory
  open_or_create_bleve disk path = open_or_new disk path (disk path)

  abbrev pub block_of : Option Directory → Option B.Db
  block_of none = none
  block_of (some dir) = dir.block

  -- `bolt.Open` on a file that may not exist.
  abbrev pub or_empty : Option B.Db → B.Db
  or_empty none = O.empty_block
  or_empty (some d) = d

  abbrev pub directory_of : Partition B E J → Directory
  directory_of p = record { index = p.index; block = some p.block }

  abbrev pub with_block : Text → Text → Opened E.Index → Opened (Partition B E J)
  with_block name path (disk, none) = (disk, none)
  with_block name path (disk, some index) =
      let p : Partition B E J = record {
        index = index;
        block = or_empty (block_of (disk path));
        name = name;
      } in
      if O.opens_block (O.join path (codes "block.bolt"))
      then (set_directory disk path (directory_of p), some p)
      else (disk, none)

  -- `OpenPartition`
  unfoldable pub open_partition : Disk → Text → Text → Opened (Partition B E J)
  unfolding open_or_create_bleve
  open_partition disk name path = with_block name path (open_or_create_bleve disk path)

  module _ (base : Text) where
    abbrev pub path_of : Text → Text
    path_of part = O.join (O.join base (codes "part")) part

    -- `getPartition`
    unfoldable pub get_partition : Disk → Text → Opened (Partition B E J)
    unfolding open_partition
    get_partition disk part = open_partition disk part (path_of part)

    -- A call that changes the partition, which is closed behind it.
    abbrev pub closed : Disk → Text → Changed B E J → Disk × Bool
    closed disk part (p, fine) = (set_directory disk (path_of part) (directory_of p), fine)

    abbrev pub change :
        (Partition B E J → Changed B E J) → Text → Opened (Partition B E J) → Disk × Bool
    change f part (disk, none) = (disk, false)
    change f part (disk, some p) = closed disk part (f p)

    abbrev pub ask :
        {A : Type 0} → (Partition B E J → Outcome A) → Option (Partition B E J) → Outcome A
    ask f none = failed
    ask f (some p) = f p

    -- `Put`
    unfoldable pub put : Disk → Document → Disk × Bool
    unfolding get_partition add
    put disk doc = change (λ p. add B E J p doc) doc.part (get_partition disk doc.part)

    -- `store.Delete`
    unfoldable pub delete_from : Disk → Text → Text → Disk × Bool
    unfolding get_partition delete
    delete_from disk part id = change (λ p. delete B E J p id) part (get_partition disk part)

    -- `store.Get`
    unfoldable pub get_from : Disk → Text → Text → Disk × Outcome Document
    unfolding get_partition get
    get_from disk part id =
        let (disk', o) = get_partition disk part in (disk', ask (λ p. get B E J p id) o)

    -- `store.Search`
    unfoldable pub search_in : Disk → Text → Text → Disk × Outcome SearchResult
    unfolding get_partition search
    search_in disk part query =
        let (disk', o) = get_partition disk part in (disk', ask (λ p. search B E J p query) o)
