-- ===== src/Machine/Reads.antt =====
-- A read gives the same answer before and after `Sync`: the pending queue hides the delay.
use bydb.Base.{
  ℕ, true, ◌≡◌, ◌≢◌, refl, sym, ap, ◌∙◌, Text, List, [], ◌∷◌, Option, none, some, All, All-map,
  elem, Distinct, arith,
}
use bydb.Response.{success}
use bydb.Bleve.{Bleve}
use bydb.Bolt.Defs.{Bolt}
use bydb.Command.Types.{CommandType, put, del, post, delete_part, Command, full_id}
use bydb.Shard.Defs.{Shard, done, non_empty, get_document_string}
use bydb.Shard.Applied.{
  IsDecisive, IsDecisiveType, left_by, left_by_last, at_key, apply_entries-at_key,
}
use bydb.Machine.Entry.{UpdateEntry, get_first_rune}
use bydb.Machine.Queue.{
  IsQueued, HasBody, last_concerning, last_concerning-All, find-last_concerning,
  last_concerning-of_shard, All-of_shard,
}
use bydb.Machine.Update.{Machine, of_shard}
use bydb.Machine.Sync.{sync}
use bydb.Machine.Synced.{sync-eq-done, sync-applied}
use bydb.Machine.Lookup.{
  Answer, answered, found_response, from_queue, from_pending, get_partition_shard,
  lookup_get_request, lookup_get_request_in_state,
}

module _ (B : Bolt) where
  -- The guard on the bucket adds nothing to what the store holds.
  pub get_document_string_lem :
      (s : Shard B.Db) (q : Command)
      → get_document_string B s (full_id q) q.part ≡ non_empty (at_key B s.block q)
  unfolding get_document_string
  get_document_string_lem s q = ground (arith, B.get-no_bucket s.block q.part (full_id q))

  pub body_of :
      (es : List UpdateEntry) (q c : Command)
      → All IsQueued es
      → last_concerning q es ≡ some c
      → HasBody c.type c
  body_of es q c a h =
      last_concerning-All (λ d. HasBody d.type d) es q c
        (All-map IsQueued (λ e. HasBody e.cmd.type e.cmd) es (λ e w. w.body) a) h

  written_body :
      (c : Command)
      → HasBody put c
      → answered (success c.string_doc) ≡ answered (found_response (non_empty (some c.bytes_doc)))
  written_body c (same, filled) = rw (← same) (shown c.bytes_doc filled)
    where
      shown :
          (t : Text)
          → t ≢ []
          → answered (success t) ≡ answered (found_response (non_empty (some t)))
      shown [] ne = absurd (ne refl)
      shown (x ∷ xs) ne = refl

  -- What a decisive pending command answers is what it leaves in the store.
  pub from_pending-left_by :
      (t : CommandType) (c : Command) (state : Option Text)
      → IsDecisiveType t
      → HasBody t c
      → (other : Answer)
      → from_pending B t c other ≡ answered (found_response (non_empty (left_by t c state)))
  from_pending-left_by put c state d b other = written_body c b
  from_pending-left_by post c state d b other = written_body c b
  from_pending-left_by del c state d b other = refl
  from_pending-left_by delete_part c state d b other = refl
  from_pending-left_by _ c state d b other = absurd d

  -- The queue in front of the state answers as the state does behind it.
  from_queue-left_by :
      (o : Option Command) (state : Option Text)
      → IsDecisive o
      → ((c : Command) → o ≡ some c → HasBody c.type c)
      → from_queue B o (answered (found_response (non_empty state)))
        ≡ answered (found_response (non_empty (left_by_last o state)))
  from_queue-left_by none state d b = refl
  from_queue-left_by (some c) state d b = from_pending-left_by c.type c state d (b c refl) _

  -- A read at an open shard: the queue in front of the store.
  pub lookup_get_request-shard :
      (m : Machine B.Db) (q : Command) (s : Shard B.Db)
      → m.shards (get_first_rune q.part) ≡ some s
      → lookup_get_request B m q
        ≡ from_queue B
            (last_concerning q m.pending)
            (answered (found_response (non_empty (at_key B s.block q))))
  unfolding lookup_get_request lookup_get_request_in_state
  lookup_get_request-shard m q s e = rw (
    find-last_concerning q m.pending,
    lookup_get_request_in_state,
    get_partition_shard,
    e,
    get_document_string_lem s q,
  )

  module _ (V : Bleve) where
    -- `GET` gives the same answer before and after a `Sync` that succeeds and covers the document's
    -- shard, which is open, unless the last pending command that concerns the document is the
    -- creation of its partition.
    pub lookup_get_request-sync :
        (order : List ℕ) (m m' : Machine B.Db) (q : Command)
        → Distinct order
        → elem (get_first_rune q.part) order ≡ true
        → (s : Shard B.Db) → m.shards (get_first_rune q.part) ≡ some s
        → All IsQueued m.pending
        → IsDecisive (last_concerning q m.pending)
        → sync B V order m ≡ done m'
        → lookup_get_request B m' q ≡ lookup_get_request B m q
    lookup_get_request-sync order m m' q distinct covered s open' queued decisive h =
        let c : ℕ = get_first_rune q.part in
        let y = sync-eq-done B V order m m' h in
        let same = last_concerning-of_shard q m.pending queued in
        let (s', e', w, applied, block) =
          sync-applied B V order m m' c s distinct covered open' h in
        let left : at_key B s'.block q
            ≡ left_by_last (last_concerning q (of_shard c m.pending)) (at_key B s.block q) =
          ap (λ d. at_key B d q) block
          ∙ apply_entries-at_key B V (of_shard c m.pending) q (s.block, []) w
              (All-of_shard IsQueued c m.pending queued) applied (rw same decisive) in
        lookup_get_request-shard m' q s' e'
        ∙ ap
            (λ (p : List UpdateEntry).
              from_queue B (last_concerning q p)
                (answered (found_response (non_empty (at_key B s'.block q)))))
            y.drained
        ∙ ap (λ (t : Option Text). answered (found_response (non_empty t)))
            (left ∙ ap (λ (o : Option Command). left_by_last o (at_key B s.block q)) same)
        ∙ sym (
            from_queue-left_by (last_concerning q m.pending) (at_key B s.block q) decisive
              (λ d. body_of m.pending q d queued))
        ∙ sym (lookup_get_request-shard m q s open')
