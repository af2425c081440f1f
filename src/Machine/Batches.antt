-- ===== src/Machine/Batches.antt =====
-- Where `Update` departs from handling its commands one by one: the queue that it consults does not
-- hold the commands of its own batch, and a creation in it hides the deletion before it.
use bydb.Base.{
  Option, ℕ, true, false, ◌≡◌, ap, ◌∙◌, Text, List, [], ◌∷◌, none, some, inl, inr, Option-cases,
  text_eq_refl, text_eq_iff, elem, Distinct, ==_refl, arith,
}
use bydb.Bleve.{Bleve}
use bydb.Bolt.Defs.{Bolt}
use bydb.Document.{Document}
use bydb.Command.Types.{post, create_part, delete_part, Command, full_id}
use bydb.Shard.Defs.{
  Shard, done, >>=-eq-done, panicked, apply_command, apply_updates, find_existing_document,
  find_existing_documents_for_updates,
}
use bydb.Response.{success, not_found}
use bydb.Shard.Applied.{at_key}
use bydb.Machine.Synced.{must-eq-done, sync-eq-done, sync_shards-at}
use bydb.Machine.Sync.{sync, sync_shard, must}
use bydb.Machine.Lookup.{answered, lookup_get_request}
use bydb.Machine.Reads.{lookup_get_request-shard}
use bydb.Machine.Entry.{UpdateEntry, concerns, get_first_rune, find_command_in_pending}
use bydb.Machine.Queue.{IsQueued, last_concerning}
use bydb.Machine.Update.{
  Machine, of_shard, find_existing, accepted, refused, verdict, judge, look_in_pending,
}

-- While the creation of a partition that the shard does not have yet is the last pending command to
-- concern an insertion into it, the insertion is accepted when the shard has no other command in the
-- batch, and is refused with 404 when the batch holds behind it a command of the shard that the queue
-- does not speak for.
pub batch_mate :
    (B : Bolt) (unmarshal : Text → Option Document) (s : Shard B.Db) (pending : List UpdateEntry)
    (e f f' : UpdateEntry) (c : Command)
    → find_command_in_pending pending e.cmd ≡ some c
    → c.type ≡ create_part
    → e.cmd.type ≡ post
    → e.existing_doc ≡ none
    → B.has_bucket s.block e.cmd.part ≡ false
    → find_command_in_pending pending f.cmd ≡ none
    → find_existing_document B unmarshal s f ≡ some f'
    → let alone : UpdateEntry = record e { part_exists = true } in
      let with_mate : UpdateEntry = record e { part_exists = false } in
      (find_existing B unmarshal s pending (e ∷ []) ≡ some (alone ∷ []))
      × (verdict alone ≡ accepted)
      × (find_existing B unmarshal s pending (e ∷ f ∷ []) ≡ some (with_mate ∷ f' ∷ []))
      × (verdict with_mate ≡ refused 404)
unfolding find_existing look_in_pending find_existing_documents_for_updates judge
batch_mate B unmarshal s pending e f f' c found created inserts fresh absent' unknown read =
    let read_anew : find_existing_document B unmarshal s (record e { part_exists = true })
        ≡ some (record e { part_exists = false }) =
      unfold find_existing_document in rw (fresh, absent') in
    (
      rw (found, created),
      rw (inserts, fresh),
      rw (found, unknown, created, read_anew, read),
      rw inserts,
    )

module _ (B : Bolt) (V : Bleve) where
  -- Two accepted deletions of one partition, next to one another in a shard's queue, make the
  -- transaction of `Sync` dereference a bucket that is not there.
  pub delete_part_twice :
      (s : Shard B.Db) (e f : UpdateEntry) (es : List UpdateEntry)
      → e.cmd.type ≡ delete_part
      → f.cmd.type ≡ delete_part
      → f.cmd.part ≡ e.cmd.part
      → apply_updates B V s (e ∷ f ∷ es) ≡ panicked
  unfolding apply_updates apply_command
  delete_part_twice s e f es te tf p = ground (
    arith,
    B.has_bucket-delete_bucket s.block e.cmd.part f.cmd.part,
    text_eq_refl e.cmd.part,
    text_eq_refl f.cmd.part,
  )

  -- A partition that is deleted and created anew holds nothing, once both are applied.
  recreated_part :
      (s s' : Shard B.Db) (e f : UpdateEntry) (q : Command)
      → e.cmd.type ≡ delete_part
      → f.cmd.type ≡ create_part
      → e.cmd.part ≡ q.part
      → apply_updates B V s (e ∷ f ∷ []) ≡ done s'
      → at_key B s'.block q ≡ none
  unfolding apply_updates apply_command
  recreated_part s s' e f q te tf p h =
      elim (Option-cases (B.create_bucket (B.delete_bucket s.block e.cmd.part) f.cmd.part)) [
        | inl x ↦ absurd (ground arith)
        | inr (d, x) ↦ ground (
          arith,
          B.get-create (B.delete_bucket s.block e.cmd.part) d f.cmd.part q.part (full_id q),
          B.get-delete_bucket s.block e.cmd.part q.part (full_id q),
          text_eq_iff e.cmd.part q.part,
        )
      ]

  -- A deletion and a new creation of a partition, both pending, let a document of the old partition
  -- be read, which the partition no longer holds: before `Sync` the read finds it, and behind a `Sync`
  -- that succeeds it does not.
  pub stale_read :
      (order : List ℕ) (m m' : Machine B.Db) (s : Shard B.Db) (e f : UpdateEntry) (q : Command)
      (c : ℕ) (cs : Text)
      → Distinct order
      → elem (get_first_rune q.part) order ≡ true
      → m.shards (get_first_rune q.part) ≡ some s
      → m.pending ≡ e ∷ f ∷ []
      → IsQueued e
      → IsQueued f
      → e.cmd.type ≡ delete_part
      → f.cmd.type ≡ create_part
      → e.cmd.part ≡ q.part
      → f.cmd.part ≡ q.part
      → at_key B s.block q ≡ some (c ∷ cs)
      → sync B V order m ≡ done m'
      → (lookup_get_request B m q ≡ answered (success (c ∷ cs)))
        × (lookup_get_request B m' q ≡ answered not_found)
  stale_read order m m' s e f q c cs d i o pending we wf te tf pe pf held h = (before, after)
    where
      last : last_concerning q (e ∷ f ∷ []) ≡ some f.cmd
      last =
          let part : f.cmd.is_part ≡ true = rw tf at wf.kind in
          unfold concerns in ground (arith, text_eq_iff q.part f.cmd.part)

      before : lookup_get_request B m q ≡ answered (success (c ∷ cs))
      before = lookup_get_request-shard B m q s o ∙ rw (pending, last, tf, held)

      own : of_shard (get_first_rune q.part) (e ∷ f ∷ []) ≡ e ∷ f ∷ []
      own =
          let x : e.shard_id ≡ get_first_rune q.part = we.shard ∙ ap get_first_rune pe in
          let y : f.shard_id ≡ get_first_rune q.part = wf.shard ∙ ap get_first_rune pf in
          ground (arith, ==_refl (get_first_rune q.part))

      after : lookup_get_request B m' q ≡ answered not_found
      after =
          let y = sync-eq-done B V order m m' h in
          let at =
            sync_shards-at B V order m.pending m.shards m'.shards (get_first_rune q.part) d i
              y.applied in
          let applied : sync_shard B V (some s) (e ∷ f ∷ [])
              ≡ done (m'.shards (get_first_rune q.part)) =
            rw (o, pending, own) at at in
          let (s', x, r) = >>=-eq-done (must B V (apply_updates B V s (e ∷ f ∷ []))) _ applied in
          let gone = recreated_part s s' e f q te tf pe (must-eq-done B V _ x) in
          let opened : m'.shards (get_first_rune q.part) ≡ some s' = ground arith in
          lookup_get_request-shard B m' q s' opened ∙ rw (y.drained, gone)
