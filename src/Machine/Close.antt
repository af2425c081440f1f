-- ===== src/Machine/Close.antt =====
-- `Close` of statemachine/statemachine.go: it closes the shard of each letter and digit, and a shard that
-- was never opened is a nil pointer there.
use bydb.Base.{
  ℕ, Bool, true, ◌||◌, ◌&&◌, ◌≡◌, refl, ap, sym, subst, elem, is_some, List, [], ◌∷◌, Option, none,
  some, if◌then◌else◌, arith,
}
use bydb.Bleve.{Bleve}
use bydb.Bolt.Defs.{Bolt}
use bydb.Document.{Document}
use bydb.Base.{Text}
use bydb.Shard.Defs.{Shard, Outcome, done, panicked, or_failed, >>=-eq-done}
use bydb.Machine.Durable.{Reached, opened, updated, synced}
use bydb.Machine.Entry.{UpdateEntry}
use bydb.Machine.Pieces.{update-shards}
use bydb.Machine.Sync.{
  alphabet, set_shard, put_shard, sync_shards, open_shard_map, open_machine, get_last_update_index,
  commit, meta_bucket,
}
use bydb.Machine.Synced.{sync-eq-done, sync_shards-cons}
use bydb.Machine.Update.{Machine}

module _ {Db : Type 0} where
  -- `closeShardMap`: whether it ends with no panic.
  unfoldable pub close_shard_map : List ℕ → (ℕ → Option (Shard Db)) → Bool
  close_shard_map [] shards = true
  close_shard_map (c ∷ cs) shards = is_some (shards c) && close_shard_map cs shards

  -- `Close`; `closes` is whether the meta database closes with no error.
  unfoldable pub close : Bool → Machine Db → Outcome Bool
  unfolding close_shard_map
  close closes m = if close_shard_map alphabet m.shards then done closes else panicked

  abbrev AllOpen : (ℕ → Option (Shard Db)) → Type 0
  AllOpen shards = (k : ℕ) → elem k alphabet ≡ true → is_some (shards k) ≡ true

  close_shard_map-done :
      (cs : List ℕ) (shards : ℕ → Option (Shard Db))
      → ((k : ℕ) → elem k cs ≡ true → is_some (shards k) ≡ true)
      → close_shard_map cs shards ≡ true
  unfolding close_shard_map
  close_shard_map-done [] shards h = refl
  close_shard_map-done (c ∷ cs) shards h =
      rw (h c (ground arith)) (close_shard_map-done cs shards (λ k e. h k (ground arith)))

module _ (B : Bolt) where
  open_shard_map-open :
      (files : ℕ → Option (Shard B.Db)) (cs : List ℕ) (shards r : ℕ → Option (Shard B.Db)) (k : ℕ)
      → open_shard_map B files cs shards ≡ done r
      → elem k cs || is_some (shards k) ≡ true
      → is_some (r k) ≡ true
  unfolding open_shard_map
  open_shard_map-open files [] shards r k h e =
      let same : shards ≡ r = cc in subst (λ f. is_some (f k) ≡ true) same e
  open_shard_map-open files (c ∷ cs) shards r k h e =
      let (s, x, y) = >>=-eq-done (or_failed (files c)) _ h in
      open_shard_map-open files cs (set_shard shards c s) r k y (ground arith)

  module _ (V : Bleve) (unmarshal : Text → Option Document) where
    put_shard-open :
        (shards : ℕ → Option (Shard B.Db)) (c k : ℕ) (s : Option (Shard B.Db))
        → is_some (shards k) ≡ true
        → is_some (put_shard B V shards c s k) ≡ true
    put_shard-open shards c k none h = h
    put_shard-open shards c k (some s) h = ground arith

    sync_shards-open :
        (cs : List ℕ) (pending : List UpdateEntry) (shards r : ℕ → Option (Shard B.Db)) (k : ℕ)
        → sync_shards B V cs pending shards ≡ done r
        → is_some (shards k) ≡ true
        → is_some (r k) ≡ true
    unfolding sync_shards
    sync_shards-open [] pending shards r k h e =
        let same : shards ≡ r = cc in subst (λ f. is_some (f k) ≡ true) same e
    sync_shards-open (c ∷ cs) pending shards r k h e =
        let (s, now, later) = sync_shards-cons B V c cs pending shards r h in
        sync_shards-open cs pending (put_shard B V shards c s) r k later
          (put_shard-open shards c k s e)

    open_machine-shards :
        (files : ℕ → Option (Shard B.Db)) (meta_db : B.Db) (m : Machine B.Db) (i : ℕ)
        → open_machine B files (some meta_db) ≡ done (m, i, true)
        → AllOpen m.shards
    unfolding open_machine get_last_update_index
    open_machine-shards files meta_db m i h k e =
        let (shards, x1, h1) = >>=-eq-done (open_shard_map B files alphabet (λ c. none)) _ h in
        let (created, x3, h3) =
          >>=-eq-done (or_failed (B.create_bucket meta_db meta_bucket)) _ h1 in
        let (d, x4, h4) = >>=-eq-done (commit B created) _ h3 in
        let end : get_last_update_index B
              (record { shards = shards; meta_db = d; last_index = 0; pending = [] })
            ≡ (m, i, true) =
          cc in
        let same : shards ≡ m.shards = ap (λ (r : Machine B.Db × ℕ × Bool). r.0.shards) end in
        subst (λ f. is_some (f k) ≡ true) same
          (open_shard_map-open files alphabet (λ c. none) shards k x1 (rw e refl))

    Reached-AllOpen : {m : Machine B.Db} → Reached B V unmarshal m → AllOpen m.shards
    Reached-AllOpen (opened files meta_db m i h) = open_machine-shards files meta_db m i h
    Reached-AllOpen (updated order m m' us r b a h e) =
        subst (λ (n : Machine B.Db). AllOpen n.shards) e
          (subst AllOpen (sym (update-shards B unmarshal order m us r h)) (Reached-AllOpen b))
    Reached-AllOpen (synced order m m' b h) = λ k e.
        sync_shards-open order m.pending m.shards m'.shards k
          (sync-eq-done B V order m m' h).applied (Reached-AllOpen b k e)

    -- `Close` of a machine that is reached from opened files by updates and syncs with no error does not
    -- panic: it ends with what the meta database ends with.
    pub Reached-close :
        (closes : Bool) {m : Machine B.Db} → Reached B V unmarshal m → close closes m ≡ done closes
    unfolding close
    Reached-close closes r = rw (close_shard_map-done alphabet _ (Reached-AllOpen r)) refl
