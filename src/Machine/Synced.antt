-- ===== src/Machine/Synced.antt =====
-- What `Sync` leaves: each shard of the map with its own entries applied, an empty queue and the
-- highest index.
use bydb.Base.{
  ℕ, true, false, ◌≡◌, refl, sym, ap, ◌∙◌, List, [], ◌∷◌, Option, none, some, inl, inr, Bool-cases,
  Option-cases, elem, Distinct, ==_iff, ==_refl, ◌==◌, arith,
}
use bydb.Base.Decimal.{print_uint}
use bydb.Bleve.{Bleve}
use bydb.Bolt.Defs.{Bolt}
use bydb.Shard.Defs.{
  Shard, Outcome, done, failed, panicked, >>=-eq-done, Working, apply_entries, apply_updates,
}
use bydb.Shard.Applied.{apply_updates-eq-done}
use bydb.Machine.Entry.{UpdateEntry}
use bydb.Machine.Update.{Machine, of_shard}
use bydb.Machine.Sync.{
  highest_index, meta_bucket, meta_key, update_last_update_index, must, sync_shard, put_shard,
  sync_shards, sync,
}

module _ (B : Bolt) (V : Bleve) where
  sync_shard-none :
      (o : Option (Shard B.Db)) (es : List UpdateEntry) → sync_shard B V o es ≡ done none → o ≡ none
  sync_shard-none none es h = refl
  sync_shard-none (some s) [] h = absurd (ground arith)
  sync_shard-none (some s) (e ∷ es) h =
      let (s', m, x) = >>=-eq-done (must B V (apply_updates B V s (e ∷ es))) _ h in
      absurd (ground arith)

  put_shard_self :
      (shards : ℕ → Option (Shard B.Db)) (c : ℕ) (s : Option (Shard B.Db)) (es : List UpdateEntry)
      → sync_shard B V (shards c) es ≡ done s
      → put_shard B V shards c s c ≡ s
  put_shard_self shards c none es h = sync_shard-none (shards c) es h
  put_shard_self shards c (some s) es h = rw (==_refl c)

  put_shard-ne :
      (shards : ℕ → Option (Shard B.Db)) (c k : ℕ) (s : Option (Shard B.Db))
      → (c == k) ≡ false
      → put_shard B V shards c s k ≡ shards k
  put_shard-ne shards c k none h = refl
  put_shard-ne shards c k (some s) h = rw h

  pub sync_shards-cons :
      (c : ℕ) (cs : List ℕ) (pending : List UpdateEntry) (shards shards' : ℕ → Option (Shard B.Db))
      → sync_shards B V (c ∷ cs) pending shards ≡ done shards'
      → (s : Option (Shard B.Db)) × (sync_shard B V (shards c) (of_shard c pending) ≡ done s)
        × (sync_shards B V cs pending (put_shard B V shards c s) ≡ done shards')
  unfolding sync_shards
  sync_shards-cons c cs pending shards shards' h =
      >>=-eq-done (sync_shard B V (shards c) (of_shard c pending)) _ h

  sync_shards-other :
      (cs : List ℕ) (pending : List UpdateEntry) (shards shards' : ℕ → Option (Shard B.Db)) (k : ℕ)
      → elem k cs ≡ false
      → sync_shards B V cs pending shards ≡ done shards'
      → shards' k ≡ shards k
  sync_shards-other [] pending shards shards' k n h = unfold sync_shards in ground arith
  sync_shards-other (c ∷ cs) pending shards shards' k n h =
      let (s, now, later) = sync_shards-cons c cs pending shards shards' h in
      sync_shards-other cs pending (put_shard B V shards c s) shards' k (ground arith) later
      ∙ put_shard-ne shards c k s (ground arith)

  -- Each shard of the order is left with exactly its own entries applied to what it was.
  pub sync_shards-at :
      (cs : List ℕ) (pending : List UpdateEntry) (shards shards' : ℕ → Option (Shard B.Db)) (k : ℕ)
      → Distinct cs
      → elem k cs ≡ true
      → sync_shards B V cs pending shards ≡ done shards'
      → sync_shard B V (shards k) (of_shard k pending) ≡ done (shards' k)
  sync_shards-at [] pending shards shards' k d i h = absurd (cc)
  sync_shards-at (c ∷ cs) pending shards shards' k d i h =
      let (s, now, later) = sync_shards-cons c cs pending shards shards' h in
      elim (Bool-cases (c == k)) [
        | inl same ↦
            let here : shards' c ≡ s =
              sync_shards-other cs pending (put_shard B V shards c s) shards' c d.0 later
              ∙ put_shard_self shards c s (of_shard c pending) now in
            rw (← (==_iff c k).0 same) (now ∙ ap done (sym here))
        | inr other ↦ rw (put_shard-ne shards c k s other) at (
            sync_shards-at cs pending (put_shard B V shards c s) shards' k d.1 (ground arith) later)
      ]

  -- What a successful `Sync` went through.
  pub record Synced (order : List ℕ) (m m' : Machine B.Db) : Type 0 where
    pub applied : sync_shards B V order m.pending m.shards ≡ done m'.shards
    pub drained : m'.pending ≡ []
    pub highest : m'.last_index ≡ highest_index m.last_index m.pending
    pub bucket : B.has_bucket m.meta_db meta_bucket ≡ true
    pub stored : B.put m.meta_db meta_bucket meta_key (print_uint m'.last_index) ≡ some m'.meta_db

  update-eq-done :
      (m m' : Machine B.Db)
      → update_last_update_index B m ≡ done m'
      → (B.has_bucket m.meta_db meta_bucket ≡ true)
        × (B.put m.meta_db meta_bucket meta_key (print_uint m.last_index) ≡ some m'.meta_db)
        × (m'.shards ≡ m.shards)
        × (m'.last_index ≡ m.last_index)
        × (m'.pending ≡ m.pending)
  unfolding update_last_update_index
  update-eq-done m m' h =
      elim (Option-cases (B.put m.meta_db meta_bucket meta_key (print_uint m.last_index))) [
        | inl e ↦ absurd (ground arith)
        | inr (d, e) ↦ (ground arith, ground arith, ground arith, ground arith, ground arith)
      ]

  pub sync-eq-done :
      (order : List ℕ) (m m' : Machine B.Db) → sync B V order m ≡ done m' → Synced order m m'
  unfolding sync
  sync-eq-done order m m' h =
      let (shards, applied, rest) = >>=-eq-done (sync_shards B V order m.pending m.shards) _ h in
      let (bucket, stored, same, index, pending) = update-eq-done _ m' rest in
      record {
        applied = applied ∙ ap done (sym same);
        drained = pending;
        highest = index;
        bucket = bucket;
        stored = rw (← index) at stored;
      }

  pub must-eq-done : (o : Outcome (Shard B.Db)) {s : Shard B.Db} → must B V o ≡ done s → o ≡ done s
  must-eq-done (done t) h = h
  must-eq-done failed h = cc
  must-eq-done panicked h = cc

  sync_shard-applied :
      (s : Shard B.Db) (o : Option (Shard B.Db)) (es : List UpdateEntry)
      → sync_shard B V (some s) es ≡ done o
      → (s' : Shard B.Db) × (o ≡ some s')
        × (w : Working B V) × (apply_entries B V es (s.block, []) ≡ done w)
        × (s'.block ≡ w.0)
  unfolding apply_entries
  sync_shard-applied s o [] h = (s, ground arith, (s.block, []), refl, refl)
  sync_shard-applied s o (e ∷ es) h =
      let (s', m, r) = >>=-eq-done (must B V (apply_updates B V s (e ∷ es))) _ h in
      let (w, applied, block) = apply_updates-eq-done B V s s' (e ∷ es) (must-eq-done _ m) in
      (s', ground arith, w, applied, block)

  -- An open shard that a successful `Sync` came by has its own entries applied to its store.
  pub sync-applied :
      (order : List ℕ) (m m' : Machine B.Db) (c : ℕ) (s : Shard B.Db)
      → Distinct order
      → elem c order ≡ true
      → m.shards c ≡ some s
      → sync B V order m ≡ done m'
      → (s' : Shard B.Db) × (m'.shards c ≡ some s')
        × (w : Working B V) × (apply_entries B V (of_shard c m.pending) (s.block, []) ≡ done w)
        × (s'.block ≡ w.0)
  sync-applied order m m' c s distinct covered open' h =
      let here =
        sync_shards-at order m.pending m.shards m'.shards c distinct covered
          (sync-eq-done order m m' h).applied in
      sync_shard-applied s (m'.shards c) (of_shard c m.pending) (rw open' at here)

  -- `Sync` opens no shard.
  pub sync-open :
      (order : List ℕ) (m m' : Machine B.Db) (c : ℕ) (s' : Shard B.Db)
      → Distinct order
      → sync B V order m ≡ done m'
      → m'.shards c ≡ some s'
      → (s : Shard B.Db) × (m.shards c ≡ some s)
  sync-open order m m' c s' distinct h e =
      let applied = (sync-eq-done order m m' h).applied in
      elim (Option-cases (m.shards c)) [
        | inr (s, f) ↦ (s, f)
        | inl f ↦ elim (Bool-cases (elem c order)) [
          | inl covered ↦
              let at =
                sync_shards-at order m.pending m.shards m'.shards c distinct covered applied in
              absurd (ground (arith, rw f at at))
          | inr not_covered ↦
              let same =
                sync_shards-other order m.pending m.shards m'.shards c not_covered applied in
              absurd (cc)
        ]
      ]
