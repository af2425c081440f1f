-- ===== src/Shard/Defs.antt =====
-- The shard of statemachine/shard.go over an interface to BoltDB and to the index. A read
-- transaction has no error of its own; a nil bucket is a panic where the source uses it.
use bydb.Base.{
  ◌≡◌, refl, true, false, ◌&&◌, Text, List, [], ◌∷◌, ◌++◌, Option, none, some, map, if◌then◌else◌,
}
use bydb.Document.{Document}
use bydb.Bleve.{IndexOp, Batch, Index, Bleve}
use bydb.Bolt.Defs.{Bolt}
use bydb.Command.Types.{
  CommandType, get, put, del, post, search, create_part, delete_part, join_node, remove_node,
  Command, full_id,
}
use bydb.Machine.Entry.{UpdateEntry}

pub record Shard (Db : Type 0) : Type 0 where
  pub index : Index
  pub block : Db

-- What a transaction's function or a goroutine ends with.
pub data Outcome {ℓ} (A : Type ℓ) : Type ℓ where
  failed panicked : Outcome A
  done : A → Outcome A

infixl 5 ◌>>=◌
abbrev pub ◌>>=◌ {ℓ κ} : {A : Type ℓ} {B : Type κ} → Outcome A → (A → Outcome B) → Outcome B
failed >>= next = failed
panicked >>= next = panicked
done x >>= next = next x

-- What ran to its end had a first part that did, and a second part behind it.
pub >>=-eq-done {ℓ κ} :
    {A : Type ℓ} {B : Type κ} (o : Outcome A) (next : A → Outcome B) {y : B}
    → o >>= next ≡ done y
    → (x : A) × (o ≡ done x) × (next x ≡ done y)
>>=-eq-done failed next e = cc
>>=-eq-done panicked next e = cc
>>=-eq-done (done x) next e = (x, refl, e)

abbrev pub or_failed {ℓ} : {A : Type ℓ} → Option A → Outcome A
or_failed none = failed
or_failed (some a) = done a

-- `raw == nil || len(raw) == 0`
abbrev pub non_empty : Option Text → Option Text
non_empty none = none
non_empty (some []) = none
non_empty (some (c ∷ cs)) = some (c ∷ cs)

module _ (B : Bolt) where
  -- `none` is `found == false`.
  unfoldable pub get_document_string : Shard B.Db → Text → Text → Option Text
  get_document_string s id part =
      if B.has_bucket s.block part then non_empty (B.get s.block part id) else none

  module _ (unmarshal : Text → Option Document) where
    -- The end of the loop's body, on the raw document; `none` is the JSON error.
    abbrev found_document : UpdateEntry → Option Text → Option UpdateEntry
    found_document e none = some e
    found_document e (some raw) = elim (unmarshal raw) [
      | none ↦ none
      | some doc ↦ some (record e { part_exists = true; existing_doc = some doc })
    ]

    abbrev in_bucket : B.Db → UpdateEntry → Option UpdateEntry
    in_bucket d e =
        if e.cmd.is_part
        then some e
        else found_document e (non_empty (B.get d e.cmd.part (full_id e.cmd)))

    abbrev find_document_at : B.Db → UpdateEntry → Option Document → Option UpdateEntry
    find_document_at d e (some doc) = some e
    find_document_at d e none =
        if B.has_bucket d e.cmd.part
        then in_bucket d (record e { part_exists = true })
        else some (record e { part_exists = false })

    -- The body of the loop of `FindExistingDocumentsForUpdates`.
    unfoldable pub find_existing_document : Shard B.Db → UpdateEntry → Option UpdateEntry
    find_existing_document s e = find_document_at s.block e e.existing_doc

    abbrev pub cons_found :
        Option UpdateEntry → Option (List UpdateEntry) → Option (List UpdateEntry)
    cons_found none rest = none
    cons_found (some e) none = none
    cons_found (some e) (some es) = some (e ∷ es)

    -- `none` is the returned error.
    unfoldable pub find_existing_documents_for_updates :
        Shard B.Db → List UpdateEntry → Option (List UpdateEntry)
    find_existing_documents_for_updates s [] = some []
    find_existing_documents_for_updates s (e ∷ es) =
        cons_found (find_existing_document s e) (find_existing_documents_for_updates s es)

  module _ (V : Bleve) where
    -- The transaction's working copy, and the batch for the index.
    abbrev pub Working : Type 0
    Working = B.Db × Batch

    delete_part_in : Working → Text → Outcome Working
    delete_part_in (d, ops) part =
        if B.has_bucket d part
        then done (B.delete_bucket d part, ops ++ map IndexOp.delete (B.keys d part))
        else panicked

    abbrev index_in : Working → Command → Outcome Working
    index_in (d, ops) cmd =
        if V.indexable (full_id cmd) cmd.doc
        then done (d, ops ++ IndexOp.index (full_id cmd) cmd.doc ∷ [])
        else failed

    write_in : Working → Command → Outcome Working
    write_in (d, ops) cmd =
        if B.has_bucket d cmd.part
        then (do
          d' ← or_failed (B.put d cmd.part (full_id cmd) cmd.bytes_doc)
          index_in (d', ops) cmd)
        else panicked

    delete_in : Working → Command → Outcome Working
    delete_in (d, ops) cmd =
        if B.has_bucket d cmd.part
        then (do
          d' ← or_failed (B.delete d cmd.part (full_id cmd))
          done (d', ops ++ IndexOp.delete (full_id cmd) ∷ []))
        else panicked

    create_part_in : Working → Text → Outcome Working
    create_part_in (d, ops) part = do d' ← or_failed (B.create_bucket d part); done (d', ops)

    -- The body of the loop of `ApplyUpdates`, by the type of the command.
    unfoldable pub apply_command : CommandType → Working → Command → Outcome Working
    unfolding delete_part_in write_in delete_in create_part_in
    apply_command create_part w cmd = create_part_in w cmd.part
    apply_command delete_part w cmd = delete_part_in w cmd.part
    apply_command put w cmd = write_in w cmd
    apply_command post w cmd = write_in w cmd
    apply_command del w cmd = delete_in w cmd
    apply_command get w cmd = done w
    apply_command search w cmd = done w
    apply_command join_node w cmd = done w
    apply_command remove_node w cmd = done w

    unfoldable pub apply_entries : List UpdateEntry → Working → Outcome Working
    apply_entries [] w = done w
    apply_entries (e ∷ es) w = do w' ← apply_command e.cmd.type w e.cmd; apply_entries es w'

    -- The index takes its batch before the transaction commits.
    abbrev commit_working : Index → Working → Outcome (Shard B.Db)
    commit_working index (d, ops) =
        if V.commits index ops && B.commits d
        then done (record { index = index ++ ops ∷ []; block = d })
        else failed

    -- `ApplyUpdates`. A failure rolls the store back.
    unfoldable pub apply_updates : Shard B.Db → List UpdateEntry → Outcome (Shard B.Db)
    unfolding apply_entries
    apply_updates s es = do w ← apply_entries es (s.block, []); commit_working s.index w
