-- ===== src/Learn/Partition.antt =====
-- The partition of learn/bolt-bleve/store.go: a BoltDB file and a Bleve index. The index is written
-- inside the transaction on the file, which alone is rolled back.
use bydb.Base.{Bool, true, false, Text, List, [], ◌∷◌, Option, none, some, if◌then◌else◌}
use bydb.Bleve.{Hit}
use bydb.Bolt.Defs.{Bolt}
use bydb.Document.{Float64, Fields}
use bydb.Shard.Defs.{Outcome, failed, panicked, done, ◌>>=◌, or_failed}

-- learn/bolt-bleve/document.go; `fields` is its `Data`.
pub record Document : Type 0 where
  pub id : Text
  pub part : Text
  pub fields : Fields

pub record SearchMatch : Type 0 where
  pub score : Float64
  pub doc : Document

pub record SearchResult : Type 0 where
  pub matches : List SearchMatch

-- Bleve by its calls for one document. What a call leaves, and whether it had no error.
pub record Engine : Type 1 where
  pub Index : Type 0
  pub index : Index → Text → Fields → Index × Bool
  pub delete : Index → Text → Index × Bool
  pub search : Index → Text → Option (List Hit)

-- `encoding/json` on the trial's documents; `none` is an error.
pub record Json : Type 0 where
  pub marshal : Document → Option Text
  pub unmarshal : Text → Option Document

module _ (B : Bolt) (E : Engine) (J : Json) where
  pub record Partition : Type 0 where
    pub index : E.Index
    pub block : B.Db
    pub name : Text

  -- What an operation leaves of the partition, and whether it had no error.
  abbrev pub Changed : Type 0
  Changed = Partition × Bool

  -- The end of a transaction: the call of the index, then the commit.
  abbrev pub finished : Partition → B.Db → E.Index × Bool → Changed
  finished p d (index, false) = (record p { index = index }, false)
  finished p d (index, true) =
      if B.commits d
      then (record p { index = index; block = d }, true)
      else (record p { index = index }, false)

  abbrev pub indexed : Partition → Document → Option B.Db → Changed
  indexed p doc none = (p, false)
  indexed p doc (some d) = finished p d (E.index p.index doc.id doc.fields)

  abbrev pub put_raw : Partition → Document → Text → Option B.Db → Changed
  put_raw p doc raw none = (p, false)
  put_raw p doc raw (some d) = indexed p doc (B.put d p.name doc.id raw)

  abbrev pub add_raw : Partition → Document → Option Text → Changed
  add_raw p doc none = (p, false)
  add_raw p doc (some raw) = put_raw p doc raw (B.create_bucket p.block p.name)

  -- `Add`
  unfoldable pub add : Partition → Document → Changed
  add p doc = add_raw p doc (J.marshal doc)

  abbrev pub unindexed : Partition → Text → Option B.Db → Changed
  unindexed p id none = (p, false)
  unindexed p id (some d) = finished p d (E.delete p.index id)

  abbrev pub delete_raw : Partition → Text → Option B.Db → Changed
  delete_raw p id none = (p, false)
  delete_raw p id (some d) = unindexed p id (B.delete d p.name id)

  -- `Delete`
  unfoldable pub delete : Partition → Text → Changed
  delete p id = delete_raw p id (B.create_bucket p.block p.name)

  -- `json.Unmarshal(v, ret)`, where `v` may be nil.
  abbrev pub unmarshal_raw : Option Text → Option Document
  unmarshal_raw none = J.unmarshal []
  unmarshal_raw (some raw) = J.unmarshal raw

  -- `Get`; a nil bucket is a panic.
  unfoldable pub get : Partition → Text → Outcome Document
  get p id =
      if B.has_bucket p.block p.name
      then or_failed (unmarshal_raw (B.get p.block p.name id))
      else panicked

  abbrev pub match_of : Float64 → Option Document → Outcome SearchMatch
  match_of score none = failed
  match_of score (some doc) = done (record { score = score; doc = doc })

  -- A hit that the store does not hold is passed over.
  abbrev pub matched :
      Float64 → Option Text → Outcome (List SearchMatch) → Outcome (List SearchMatch)
  matched score none rest = rest
  matched score (some raw) rest = do
    found ← match_of score (J.unmarshal raw)
    others ← rest
    done (found ∷ others)

  -- The loop over the hits.
  unfoldable pub matches_of : Partition → List Hit → Outcome (List SearchMatch)
  matches_of p [] = done []
  matches_of p (h ∷ hs) =
      let rest = matches_of p hs in
      if B.has_bucket p.block p.name
      then matched h.score (B.get p.block p.name h.id) rest
      else panicked

  -- `Search`
  unfoldable pub search : Partition → Text → Outcome SearchResult
  unfolding matches_of
  search p query = do
    hits ← or_failed (E.search p.index query)
    found ← matches_of p hits
    done (record { matches = found })
