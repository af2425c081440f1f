-- ===== src/Shard/Searchable.antt =====
-- The search index of a shard against its store: `ApplyUpdates` keeps the two in step.
use bydb.Base.{
  some, true, ◌≡◌, ◌≢◌, refl, ap, sym, subst, ◌∙◌, Text, List, [], ◌∷◌, ◌++◌, map, Option, none,
  inl, inr, Option-cases, All, text_eq_iff, text_eq_refl, arith,
}
use bydb.Bleve.{IndexOp, Batch, Index, Bleve}
use bydb.Bolt.Defs.{Bolt}
use bydb.Command.Types.{CommandType, put, del, post, create_part, delete_part, Command, full_id}
use bydb.Document.{Document}
use bydb.Machine.Entry.{UpdateEntry}
use bydb.Shard.Defs.{Shard, >>=-eq-done, done, Working, apply_command, apply_entries, apply_updates}
use bydb.Shard.Indexed.{
  left_by_ops, indexed, left_by_ops-append, indexed-append, left_by_ops-deletes,
}
use bydb.Shard.Keys.{
  key_of, IsName, InStep, written-InStep, deleted-InStep, created-InStep, dropped-InStep,
}

-- The document of a write is what its body decodes to.
abbrev pub Decodes : (Text → Option Document) → CommandType → Command → Type 0
Decodes unmarshal put c = unmarshal c.bytes_doc ≡ some c.doc
Decodes unmarshal post c = unmarshal c.bytes_doc ≡ some c.doc
Decodes unmarshal _ c = Unit

-- A command whose partition has no colon in its name, with the document of its body.
abbrev pub IsFit : (Text → Option Document) → UpdateEntry → Type 0
IsFit unmarshal e = IsName e.cmd.part × Decodes unmarshal e.cmd.type e.cmd

module _ (B : Bolt) (V : Bleve) (unmarshal : Text → Option Document) where
  -- The working copy of a transaction that began with an index.
  abbrev InStepAt : Index → Working B V → Type 0
  InStepAt index w = InStep B unmarshal (λ k. left_by_ops k w.1 (indexed index k)) w.0

  appended-InStep :
      (index : Index) (d : B.Db) (ops more : Batch) (held : Text → Option Document)
      → ((k : Text) → held k ≡ left_by_ops k more (left_by_ops k ops (indexed index k)))
      → InStep B unmarshal held d
      → InStepAt index (d, ops ++ more)
  appended-InStep index d ops more held same s = record {
    keyed = s.keyed;
    agrees = λ p i n.
        left_by_ops-append (key_of p i) ops more (indexed index (key_of p i))
        ∙ sym (same (key_of p i))
        ∙ s.agrees p i n;
  }

  put-InStep :
      (index : Index) (c : Command) (d : B.Db) (ops : Batch) (w' : Working B V)
      → IsName c.part
      → unmarshal c.bytes_doc ≡ some c.doc
      → InStepAt index (d, ops)
      → apply_command B V put (d, ops) c ≡ done w'
      → InStepAt index w'
  unfolding apply_command
  put-InStep index c d ops w' n u s h =
      elim (Option-cases (B.put d c.part (full_id c) c.bytes_doc)) [
        | inl e ↦ absurd (ground arith)
        | inr (d', e) ↦
            let has : B.has_bucket d c.part ≡ true = ground arith in
            let out : w' ≡ (d', ops ++ IndexOp.index (full_id c) c.doc ∷ []) = ground arith in
            subst (InStepAt index) (sym out) (
              appended-InStep index d' ops (IndexOp.index (full_id c) c.doc ∷ []) _ (λ k. refl)
                (written-InStep B unmarshal (λ k. left_by_ops k ops (indexed index k)) d d' c.part
                  c.id c.bytes_doc c.doc n s has e u))
      ]

  del-InStep :
      (index : Index) (c : Command) (d : B.Db) (ops : Batch) (w' : Working B V)
      → IsName c.part
      → InStepAt index (d, ops)
      → apply_command B V del (d, ops) c ≡ done w'
      → InStepAt index w'
  unfolding apply_command
  del-InStep index c d ops w' n s h = elim (Option-cases (B.delete d c.part (full_id c))) [
    | inl e ↦ absurd (ground arith)
    | inr (d', e) ↦
        let has : B.has_bucket d c.part ≡ true = ground arith in
        let out : w' ≡ (d', ops ++ IndexOp.delete (full_id c) ∷ []) = ground arith in
        subst (InStepAt index) (sym out) (
          appended-InStep index d' ops (IndexOp.delete (full_id c) ∷ []) _ (λ k. refl)
            (deleted-InStep B unmarshal (λ k. left_by_ops k ops (indexed index k)) d d' c.part c.id
              n s has e))
  ]

  apply_command-InStep :
      (index : Index) (t : CommandType) (c : Command) (w w' : Working B V)
      → IsName c.part
      → Decodes unmarshal t c
      → InStepAt index w
      → apply_command B V t w c ≡ done w'
      → InStepAt index w'
  unfolding apply_command
  apply_command-InStep index put c (d, ops) w' n u s h = put-InStep index c d ops w' n u s h
  apply_command-InStep index post c (d, ops) w' n u s h = put-InStep index c d ops w' n u s h
  apply_command-InStep index del c (d, ops) w' n u s h = del-InStep index c d ops w' n s h
  apply_command-InStep index create_part c (d, ops) w' n u s h =
      elim (Option-cases (B.create_bucket d c.part)) [
        | inl e ↦ absurd (ground arith)
        | inr (d', e) ↦
            let out : w' ≡ (d', ops) = ground arith in
            subst (InStepAt index) (sym out) (created-InStep B unmarshal _ d d' c.part s e)
      ]
  apply_command-InStep index delete_part c (d, ops) w' n u s h =
      let out : w' ≡ (B.delete_bucket d c.part, ops ++ map IndexOp.delete (B.keys d c.part)) =
        ground arith in
      subst (InStepAt index) (sym out) (
        appended-InStep index (B.delete_bucket d c.part) ops (map IndexOp.delete (B.keys d c.part))
          _
          (λ k. sym (left_by_ops-deletes k (B.keys d c.part) (left_by_ops k ops (indexed index k))))
          (dropped-InStep B unmarshal (λ k. left_by_ops k ops (indexed index k)) d c.part s))
  apply_command-InStep index _ c w w' n u s h =
      let out : w' ≡ w = ground arith in subst (InStepAt index) (sym out) s

  apply_entries-InStep :
      (index : Index) (es : List UpdateEntry) (w w' : Working B V)
      → All (IsFit unmarshal) es
      → InStepAt index w
      → apply_entries B V es w ≡ done w'
      → InStepAt index w'
  unfolding apply_entries
  apply_entries-InStep index [] w w' n s h =
      let out : w' ≡ w = ground arith in subst (InStepAt index) (sym out) s
  apply_entries-InStep index (e ∷ es) w w' n s h =
      let (v, now, later) =
        >>=-eq-done (apply_command B V e.cmd.type w e.cmd) (apply_entries B V es) h in
      apply_entries-InStep index es v w' n.1
        (apply_command-InStep index e.cmd.type e.cmd w v n.0.0 n.0.1 s now) later

  -- `ApplyUpdates` keeps the search index and the store of a shard in step, for commands on partitions
  -- with no colon in their names and writes of the documents of their bodies: each stored document is
  -- under the key of its partition, and the index holds under such a key what the stored text decodes
  -- to, and no document if the store holds none.
  pub apply_updates-InStep :
      (s s' : Shard B.Db) (es : List UpdateEntry)
      → All (IsFit unmarshal) es
      → InStep B unmarshal (indexed s.index) s.block
      → apply_updates B V s es ≡ done s'
      → InStep B unmarshal (indexed s'.index) s'.block
  unfolding apply_updates
  apply_updates-InStep s s' es n i h =
      let ((d, ops), e, c) = >>=-eq-done (apply_entries B V es (s.block, [])) _ h in
      let out : s' ≡ record { index = s.index ++ ops ∷ []; block = d } = ground arith in
      let after = apply_entries-InStep s.index es (s.block, []) (d, ops) n i e in
      subst (λ (r : Shard B.Db). InStep B unmarshal (indexed r.index) r.block) (sym out)
        (record {
          keyed = after.keyed;
          agrees = λ p j m. indexed-append (key_of p j) s.index ops ∙ after.agrees p j m;
        })

module _ (B : Bolt) (V : Bleve) where
  -- When `ApplyUpdates` of just the deletion of a document succeeds, and a document of another
  -- partition has the same key, the store still holds what it held of the other document, but the index
  -- no longer has it.
  pub deletion_shares_key :
      (s s' : Shard B.Db) (e : UpdateEntry) (q : Command)
      → e.cmd.type ≡ del
      → e.cmd.part ≢ q.part
      → full_id e.cmd ≡ full_id q
      → apply_updates B V s (e ∷ []) ≡ done s'
      → (B.get s'.block q.part (full_id q) ≡ B.get s.block q.part (full_id q))
        × (indexed s'.index (full_id q) ≡ none)
  unfolding apply_updates apply_entries apply_command
  deletion_shares_key s s' e q t ne same h =
      elim (Option-cases (B.delete s.block e.cmd.part (full_id e.cmd))) [
        | inl x ↦ absurd (ground arith)
        | inr (d, x) ↦
            let has : B.has_bucket s.block e.cmd.part ≡ true = ground arith in
            let out : s' ≡ record {
              index = s.index ++ (IndexOp.delete (full_id e.cmd) ∷ []) ∷ [];
              block = d;
            } =
              ground arith in
            (
              ground (
                arith,
                out,
                B.get-delete s.block d e.cmd.part (full_id e.cmd) q.part (full_id q),
                text_eq_iff e.cmd.part q.part,
              ),
              ap (λ (r : Shard B.Db). indexed r.index (full_id q)) out
                  ∙ indexed-append (full_id q) s.index (IndexOp.delete (full_id e.cmd) ∷ [])
                  ∙ rw (same, text_eq_refl (full_id q)) refl,
            )
      ]
