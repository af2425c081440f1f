-- ===== src/Bleve.antt =====
-- The full-text index as the program uses it. An index is known by the batches committed to it, in
-- order: what it answers is a function of these.
use bydb.Base.{Bool, Text, List, Option}
use bydb.Document.{Document, Float64}

-- What one batch asks for.
pub data IndexOp : Type 0 where
  index : Text → Document → IndexOp
  delete : Text → IndexOp

abbrev pub Batch : Type 0
Batch = List IndexOp

abbrev pub Index : Type 0
Index = List Batch

pub record Hit : Type 0 where
  pub id : Text
  pub score : Float64

pub record Bleve : Type 0 where
  -- whether `batch.Index(id, doc)` succeeds
  pub indexable : Text → Document → Bool
  -- whether `index.Batch(batch)` succeeds
  pub commits : Index → Batch → Bool
  -- the hits of a query string; `none` is a returned error
  pub search : Index → Text → Option (List Hit)
