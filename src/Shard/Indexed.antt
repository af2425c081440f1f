-- ===== src/Shard/Indexed.antt =====
-- What the search index of a shard holds, by the operations of its batches in order.
use bydb.Base.{
  ◌≡◌, refl, Text, List, [], ◌∷◌, ◌++◌, map, Option, none, some, text_eq, text_elem, if◌then◌else◌,
  arith,
}
use bydb.Bleve.{IndexOp, Batch, Index}
use bydb.Document.{Document}

-- What an operation leaves of the document with an id.
abbrev pub left_by_op : Text → IndexOp → Option Document → Option Document
left_by_op k (IndexOp.index id doc) old = if text_eq id k then some doc else old
left_by_op k (IndexOp.delete id) old = if text_eq id k then none else old

abbrev pub left_by_ops : Text → Batch → Option Document → Option Document
left_by_ops k [] old = old
left_by_ops k (o ∷ os) old = left_by_ops k os (left_by_op k o old)

abbrev pub left_by_batches : Text → Index → Option Document → Option Document
left_by_batches k [] old = old
left_by_batches k (b ∷ bs) old = left_by_batches k bs (left_by_ops k b old)

-- The document that the index holds under an id.
abbrev pub indexed : Index → Text → Option Document
indexed i k = left_by_batches k i none

pub left_by_ops-append :
    (k : Text) (os ps : Batch) (old : Option Document)
    → left_by_ops k (os ++ ps) old ≡ left_by_ops k ps (left_by_ops k os old)
left_by_ops-append k [] ps old = refl
left_by_ops-append k (o ∷ os) ps old = left_by_ops-append k os ps (left_by_op k o old)

left_by_batches-append :
    (k : Text) (bs : Index) (b : Batch) (old : Option Document)
    → left_by_batches k (bs ++ b ∷ []) old ≡ left_by_ops k b (left_by_batches k bs old)
left_by_batches-append k [] b old = refl
left_by_batches-append k (c ∷ bs) b old = left_by_batches-append k bs b (left_by_ops k c old)

pub indexed-append :
    (k : Text) (i : Index) (b : Batch) → indexed (i ++ b ∷ []) k ≡ left_by_ops k b (indexed i k)
indexed-append k i b = left_by_batches-append k i b none

-- Deleting some ids leaves a document exactly if its id is not among them.
pub left_by_ops-deletes :
    (k : Text) (ids : List Text) (old : Option Document)
    → left_by_ops k (map IndexOp.delete ids) old ≡ (if text_elem k ids then none else old)
left_by_ops-deletes k [] old = refl
left_by_ops-deletes k (id ∷ ids) old =
    ground (arith, left_by_ops-deletes k ids (if text_eq id k then none else old))
