-- ===== src/Machine/Durable.antt =====
-- The life of a state machine: it opens from its files, takes updates and syncs, in any number and
-- order, and may stop at any point. What waits in the queue is lost then.
use bydb.Base.{
  ℕ, ◌<◌, some_inj, All-map, Option-cases, ◌^◌, Bool, true, ◌≡◌, refl, sym, ap, ◌∙◌, subst, Text,
  List, [], ◌∷◌, Option, none, some, All, inl, inr, text_eq_refl, arith,
}
use bydb.Base.Decimal.{parse_uint}
use bydb.Bleve.{Bleve}
use bydb.Bolt.Defs.{Bolt}
use bydb.Document.{Document}
use bydb.Machine.Entry.{LogEntry}
use bydb.Machine.Index.{get_last_update_index-sync}
use bydb.Machine.Invariant.{update-All, update-IsQueued}
use bydb.Machine.Queue.{IsQueued}
use bydb.Machine.Sync.{
  highest_index, sync, meta_bucket, meta_key, stored_index, read_index, get_last_update_index,
  commit, open_shard_map, open_machine, alphabet,
}
use bydb.Machine.Synced.{sync-eq-done}
use bydb.Machine.Update.{Machine, Updated, update, parse_updates}
use bydb.Shard.Defs.{Shard, done, or_failed, >>=-eq-done}
use bydb.Machine.Waits.{
  Waits, Handed, Waits-stable, highest_index-lt, uint_value-lt, parse_updates-Waits,
}

module _ (B : Bolt) where
  -- What is stored is what the machine knows, and every queued entry waits behind it.
  pub record IsDurable (m : Machine B.Db) : Type 0 where
    pub read : read_index B (stored_index B m.meta_db) ≡ (m.last_index, true)
    pub small : m.last_index < 2 ^ 64
    pub waiting : All (Waits m.last_index) m.pending

  read_index-lt : (o : Option Text) → (read_index B o).1 ≡ true → (read_index B o).0 < 2 ^ 64
  read_index-lt none h = omega arith
  read_index-lt (some []) h = omega arith
  read_index-lt (some (c ∷ cs)) h = uint_value-lt (c ∷ cs) (parse_uint (c ∷ cs)) refl h

  stored_index-create :
      (d d' : B.Db) → B.create_bucket d meta_bucket ≡ some d' → stored_index B d' ≡ stored_index B d
  stored_index-create d d' h = ground (
    arith,
    B.has_bucket-create d d' meta_bucket meta_bucket,
    B.get-create d d' meta_bucket meta_bucket meta_key,
    B.get-no_bucket d meta_bucket meta_key,
    text_eq_refl meta_bucket,
  )

  -- What `Open` makes of the files: an empty queue, and the index that they hold.
  pub open-eq-done :
      (files : ℕ → Option (Shard B.Db)) (meta_db : B.Db) (m : Machine B.Db) (i : ℕ) (fine : Bool)
      → open_machine B files (some meta_db) ≡ done (m, i, fine)
      → (m.pending ≡ [])
        × (m.last_index ≡ i)
        × (read_index B (stored_index B meta_db) ≡ (i, fine))
        × (read_index B (stored_index B m.meta_db) ≡ (i, fine))
  unfolding open_machine get_last_update_index
  open-eq-done files meta_db m i fine h =
      let (shards, x1, h1) = >>=-eq-done (open_shard_map B files alphabet (λ c. none)) _ h in
      let (created, x3, h3) = >>=-eq-done (or_failed (B.create_bucket meta_db meta_bucket)) _ h1 in
      let (d, x4, h4) = >>=-eq-done (commit B created) _ h3 in
      let same : created ≡ d = ground arith in
      let kept = stored_index-create meta_db d (ground arith) in
      let end : get_last_update_index B
            (record { shards = shards; meta_db = d; last_index = 0; pending = [] })
          ≡ (m, i, fine) =
        cc in
      let read : read_index B (stored_index B d) ≡ (i, fine) =
        ap (λ (r : Machine B.Db × ℕ × Bool). (r.1, r.2)) end in
      (
        ap (λ (r : Machine B.Db × ℕ × Bool). r.0.pending) (sym end),
        ap (λ (r : Machine B.Db × ℕ × Bool). r.0.last_index) (sym end)
            ∙ ap (λ (r : Machine B.Db × ℕ × Bool). r.1) end,
        ap (read_index B) (sym kept) ∙ read,
        ap (λ (r : Machine B.Db × ℕ × Bool). read_index B (stored_index B r.0.meta_db)) (sym end)
            ∙ read,
      )

  module _ (V : Bleve) (unmarshal : Text → Option Document) where
    -- A machine that can be reached: it opens from any files with no error, takes log entries that
    -- Raft has not handed before its index, and syncs. Each round over the shards has its own order.
    pub data Reached : Machine B.Db → Type 0 where
      opened :
          (files : ℕ → Option (Shard B.Db)) (meta_db : B.Db) (m : Machine B.Db) (i : ℕ)
          → open_machine B files (some meta_db) ≡ done (m, i, true)
          → Reached m
      updated :
          (order : List ℕ) (m m' : Machine B.Db) (us : List LogEntry) (r : Updated B unmarshal)
          → Reached m
          → All (Handed m.last_index) us
          → update B unmarshal order m us ≡ some r
          → r.machine ≡ m'
          → Reached m'
      synced :
          (order : List ℕ) (m m' : Machine B.Db)
          → Reached m
          → sync B V order m ≡ done m'
          → Reached m'

    opened-IsDurable :
        (files : ℕ → Option (Shard B.Db)) (meta_db : B.Db) (m : Machine B.Db) (i : ℕ)
        → open_machine B files (some meta_db) ≡ done (m, i, true)
        → IsDurable m
    opened-IsDurable files meta_db m i h =
        let (empty, index, before, now) = open-eq-done files meta_db m i true h in
        record {
          read = now ∙ ap (λ (j : ℕ). (j, true)) (sym index);
          small = omega (
            arith,
            index,
            read_index-lt (stored_index B m.meta_db) (ap (λ (p : ℕ × Bool). p.1) now),
            ap (λ (p : ℕ × Bool). p.0) now,
          );
          waiting = subst (All (Waits m.last_index)) (sym empty) tt;
        }

    synced-IsDurable :
        (order : List ℕ) (m m' : Machine B.Db)
        → IsDurable m
        → sync B V order m ≡ done m'
        → IsDurable m'
    synced-IsDurable order m m' d h =
        let y = sync-eq-done B V order m m' h in
        let below =
          highest_index-lt m.last_index (2 ^ 64) m.pending d.small
            (All-map (Waits m.last_index) _ m.pending (λ e w. w.1) d.waiting) in
        let stored : read_index B (stored_index B m'.meta_db)
            ≡ (highest_index m.last_index m.pending, true) =
          unfold get_last_update_index in
          ap (λ (r : Machine B.Db × ℕ × Bool). (r.1, r.2))
            (get_last_update_index-sync B V order m m' h below) in
        record {
          read = stored ∙ ap (λ (j : ℕ). (j, true)) (sym y.highest);
          small = rw y.highest below;
          waiting = subst (All (Waits m'.last_index)) (sym y.drained) tt;
        }

    update-same :
        (order : List ℕ) (m : Machine B.Db) (us : List LogEntry) (r : Updated B unmarshal)
        → update B unmarshal order m us ≡ some r
        → (r.machine.meta_db ≡ m.meta_db) × (r.machine.last_index ≡ m.last_index)
    unfolding update
    update-same order m us r h = elim (Option-cases (parse_updates unmarshal 0 us)) [
      | inl x ↦ absurd (ground arith)
      | inr (es, x) ↦
          let same = some_inj (rw (x, update) at h) in
          (
            ap (λ (v : Updated B unmarshal). v.machine.meta_db) (sym same),
            ap (λ (v : Updated B unmarshal). v.machine.last_index) (sym same),
          )
    ]

    updated-IsDurable :
        (order : List ℕ) (m : Machine B.Db) (us : List LogEntry) (r : Updated B unmarshal)
        → IsDurable m
        → All (Handed m.last_index) us
        → update B unmarshal order m us ≡ some r
        → IsDurable r.machine
    updated-IsDurable order m us r d a h =
        let waits =
          update-All (Waits m.last_index) (Waits-stable m.last_index) B unmarshal order m us r
            d.waiting (λ es. parse_updates-Waits unmarshal m.last_index 0 us es a) h in
        let (files, index) = update-same order m us r h in
        record {
          read = rw (files, index) d.read;
          small = rw index d.small;
          waiting = rw index waits;
        }

    -- Every machine that can be reached has stored its index, and all that its queue holds waits behind
    -- that index.
    pub Reached-IsDurable : {m : Machine B.Db} → Reached m → IsDurable m
    Reached-IsDurable (opened files meta_db m i h) = opened-IsDurable files meta_db m i h
    Reached-IsDurable (updated order m m' us r b a h e) =
        subst IsDurable e (updated-IsDurable order m us r (Reached-IsDurable b) a h)
    Reached-IsDurable (synced order m m' b h) = synced-IsDurable order m m' (Reached-IsDurable b) h

    -- The queue of every machine that can be reached is well-formed.
    pub Reached-IsQueued : {m : Machine B.Db} → Reached m → All IsQueued m.pending
    Reached-IsQueued (opened files meta_db m i h) =
        subst (All IsQueued) (sym (open-eq-done files meta_db m i true h).0) tt
    Reached-IsQueued (updated order m m' us r b a h e) =
        subst (λ (n : Machine B.Db). All IsQueued n.pending) e
          (update-IsQueued B unmarshal order m us r (Reached-IsQueued b) h)
    Reached-IsQueued (synced order m m' b h) =
        subst (All IsQueued) (sym (sync-eq-done B V order m m' h).drained) tt

    -- A machine that stops anywhere and opens again from its meta database, whatever became of the
    -- shards, gives Raft its index back, with no error, and every command that waited in the queue
    -- has an index behind that one, so Raft hands it again.
    pub open_machine-replays :
        (files : ℕ → Option (Shard B.Db)) (m m' : Machine B.Db) (i : ℕ) (fine : Bool)
        → Reached m
        → open_machine B files (some m.meta_db) ≡ done (m', i, fine)
        → (fine ≡ true)
          × (i ≡ m.last_index)
          × (m'.last_index ≡ i)
          × (m'.pending ≡ [])
          × All (λ e. i < e.index) m.pending
    open_machine-replays files m m' i fine r h =
        let d = Reached-IsDurable r in
        let (empty, index, before, now) = open-eq-done files m.meta_db m' i fine h in
        let same : (i, fine) ≡ (m.last_index, true) = sym before ∙ d.read in
        (
          ap (λ (p : ℕ × Bool). p.1) same,
          ap (λ (p : ℕ × Bool). p.0) same,
          index,
          empty,
          All-map (Waits m.last_index) _ m.pending
              (λ e w. omega (arith, w.0, ap (λ (p : ℕ × Bool). p.0) same)) d.waiting,
        )
