-- ===== src/Machine/Queues.antt =====
-- What `Update` leaves in the queue of each shard, whatever the order of the shards.
use mathlib.Core.List.{append-nil}
use bydb.Base.{
  ℕ, Bool, true, false, ◌≡◌, refl, sym, ap, ◌∙◌, subst, some_inj, Text, List, [], ◌∷◌, ◌++◌, Option,
  none, some, inl, inr, Bool-cases, Option-cases, All, elem, Distinct, filter-append, ==_iff, ◌==◌,
  arith,
}
use bydb.Document.{Document}
use bydb.Bolt.Defs.{Bolt}
use bydb.Shard.Defs.{Shard}
use bydb.Machine.Entry.{UpdateEntry, LogEntry}
use bydb.Machine.Queue.{IsQueued, All-of_shard}
use bydb.Machine.Stable.{find_existing-stable}
use bydb.Machine.Invariant.{at_shard-All, IsQueued-stable, parse_updates-IsQueued}
use bydb.Machine.Order.{
  AtShard, AtShard-stable, AtShard-of_shard, find_existing-of_shard, gained, at_shard-pending,
  accepted_found-here, accepted_found-other,
}
use bydb.Machine.Update.{
  Machine, Progress, of_shard, find_existing, at_shard, settled, settle_shard, update_shards,
  parse_updates, Updated, update,
}

module _ (B : Bolt) (unmarshal : Text → Option Document) where
  gained-here :
      (k : ℕ) (o : Option (Shard B.Db)) (queue es : List UpdateEntry)
      → All (AtShard k) es
      → of_shard k (gained B unmarshal o queue es) ≡ gained B unmarshal o queue es
  gained-here k none queue es a = refl
  gained-here k (some s) queue [] a = refl
  gained-here k (some s) queue (e ∷ es) a =
      accepted_found-here B unmarshal k (find_existing B unmarshal s queue (e ∷ es)) (λ fs.
        find_existing-stable (AtShard k) (AtShard-stable k) B unmarshal s queue (e ∷ es) fs a)

  gained-other :
      (c k : ℕ) (o : Option (Shard B.Db)) (queue es : List UpdateEntry)
      → (c == k) ≡ false
      → All (AtShard c) es
      → of_shard k (gained B unmarshal o queue es) ≡ []
  gained-other c k none queue es n a = refl
  gained-other c k (some s) queue [] n a = refl
  gained-other c k (some s) queue (e ∷ es) n a =
      accepted_found-other B unmarshal c k (find_existing B unmarshal s queue (e ∷ es)) n (λ fs.
        find_existing-stable (AtShard c) (AtShard-stable c) B unmarshal s queue (e ∷ es) fs a)

  settle_shard-found :
      (p : Progress) (s : Shard B.Db) (es : List UpdateEntry)
      → (settle_shard B unmarshal p s es).1 ≡ true
      → (xs : List UpdateEntry) × (find_existing B unmarshal s p.pending es ≡ some xs)
  unfolding find_existing
  settle_shard-found p s [] h = ([], refl)
  settle_shard-found p s (e ∷ es) h = read (find_existing B unmarshal s p.pending (e ∷ es)) h
    where
      read :
          (o : Option (List UpdateEntry))
          → (settled B unmarshal p o).1 ≡ true
          → (xs : List UpdateEntry) × (o ≡ some xs)
      read none x = absurd (cc)
      read (some xs) x = (xs, refl)

  module _ (shards : ℕ → Option (Shard B.Db)) (es : List UpdateEntry)
      (queued : All IsQueued es) where
    -- One round of the loop, at the shard `c`.
    abbrev round : ℕ → Progress → Progress × Bool
    round c p = at_shard B unmarshal p (shards c) (of_shard c es)

    round-IsQueued :
        (c : ℕ) (p : Progress) → All IsQueued p.pending → All IsQueued (round c p).0.pending
    round-IsQueued c p q =
        at_shard-All IsQueued IsQueued-stable B unmarshal p (shards c) (of_shard c es) q
          (All-of_shard IsQueued c es queued)

    abbrev pub gain : ℕ → List UpdateEntry → List UpdateEntry
    gain k queue = gained B unmarshal (shards k) queue (of_shard k es)

    round-pending :
        (c : ℕ) (p : Progress)
        → All IsQueued p.pending
        → (round c p).0.pending ≡ p.pending ++ gain c (of_shard c p.pending)
    round-pending c p q =
        at_shard-pending B unmarshal c p (shards c) (of_shard c es) q
          (All-of_shard IsQueued c es queued) (AtShard-of_shard c es)

    round-here :
        (k : ℕ) (p : Progress)
        → All IsQueued p.pending
        → of_shard k (round k p).0.pending ≡ of_shard k p.pending ++ gain k (of_shard k p.pending)
    round-here k p q =
        ap (of_shard k) (round-pending k p q)
        ∙ filter-append _ p.pending (gain k (of_shard k p.pending))
        ∙ ap (λ (l : List UpdateEntry). of_shard k p.pending ++ l)
            (gained-here k (shards k) (of_shard k p.pending) (of_shard k es)
              (AtShard-of_shard k es))

    round-other :
        (c k : ℕ) (p : Progress)
        → (c == k) ≡ false
        → All IsQueued p.pending
        → of_shard k (round c p).0.pending ≡ of_shard k p.pending
    round-other c k p n q =
        ap (of_shard k) (round-pending c p q)
        ∙ filter-append _ p.pending (gain c (of_shard c p.pending))
        ∙ ap (λ (l : List UpdateEntry). of_shard k p.pending ++ l)
            (gained-other c k (shards c) (of_shard c p.pending) (of_shard c es) n
              (AtShard-of_shard c es))
        ∙ append-nil (of_shard k p.pending)

    update_shards-other :
        (order : List ℕ) (k : ℕ) (p : Progress)
        → elem k order ≡ false
        → All IsQueued p.pending
        → of_shard k (update_shards B unmarshal order shards es p).0.pending ≡ of_shard k p.pending
    unfolding update_shards
    update_shards-other [] k p n q = refl
    update_shards-other (c ∷ cs) k p n q =
        let ne : (c == k) ≡ false = ground arith in
        elim (Bool-cases (round c p).1) [
          | inl fine ↦ rw fine (
              update_shards-other cs k (round c p).0 (ground arith) (round-IsQueued c p q)
              ∙ round-other c k p ne q)
          | inr broken ↦ rw broken (round-other c k p ne q)
        ]

    -- A round that does not end the loop with an error.
    update_shards-cons :
        (c : ℕ) (cs : List ℕ) (p : Progress)
        → (update_shards B unmarshal (c ∷ cs) shards es p).1 ≡ true
        → (update_shards B unmarshal (c ∷ cs) shards es p
            ≡ update_shards B unmarshal cs shards es (round c p).0)
          × ((update_shards B unmarshal cs shards es (round c p).0).1 ≡ true)
          × ((round c p).1 ≡ true)
    unfolding update_shards
    update_shards-cons c cs p h = elim (Bool-cases (round c p).1) [
      | inl fine ↦ (rw fine, rw fine at h, fine)
      | inr broken ↦ absurd (ground arith)
    ]

    update_shards-queue :
        (order : List ℕ) (k : ℕ) (p : Progress)
        → Distinct order
        → elem k order ≡ true
        → All IsQueued p.pending
        → (update_shards B unmarshal order shards es p).1 ≡ true
        → of_shard k (update_shards B unmarshal order shards es p).0.pending
          ≡ of_shard k p.pending ++ gain k (of_shard k p.pending)
    update_shards-queue [] k p d i q h = absurd (cc)
    update_shards-queue (c ∷ cs) k p d i q h =
        let (step, fine, now) = update_shards-cons c cs p h in
        let q' = round-IsQueued c p q in
        ap (λ (r : Progress × Bool). of_shard k r.0.pending) step ∙ elim (Bool-cases (c == k)) [
          | inl same ↦
              let e : c ≡ k = (==_iff c k).0 same in
              update_shards-other cs k (round c p).0 (rw e at (d.0)) q'
              ∙ subst
                  (λ (j : ℕ).
                    of_shard k (round j p).0.pending
                    ≡ of_shard k p.pending ++ gain k (of_shard k p.pending))
                  (sym e) (round-here k p q)
          | inr other ↦
              update_shards-queue cs k (round c p).0 d.1 (ground arith) q' fine
              ∙ ap (λ (l : List UpdateEntry). l ++ gain k l) (round-other c k p other q)
        ]

    -- A loop that ends with no error has found, at every shard, what its entries look for.
    pub update_shards-found :
        (order : List ℕ) (k : ℕ) (s : Shard B.Db) (p : Progress)
        → Distinct order
        → elem k order ≡ true
        → shards k ≡ some s
        → All IsQueued p.pending
        → (update_shards B unmarshal order shards es p).1 ≡ true
        → (xs : List UpdateEntry) × (find_existing B unmarshal s
              (of_shard k p.pending)
              (of_shard k es)
            ≡ some xs)
    update_shards-found [] k s p d i o q h = absurd (cc)
    update_shards-found (c ∷ cs) k s p d i o q h =
        let (step, fine, now) = update_shards-cons c cs p h in
        elim (Bool-cases (c == k)) [
          | inl same ↦
              let e : c ≡ k = (==_iff c k).0 same in
              let (xs, x) = settle_shard-found p s (of_shard k es) (
                subst
                  (λ (t : Option (Shard B.Db)). (at_shard B unmarshal p t (of_shard k es)).1 ≡ true)
                  o (subst (λ (j : ℕ). (round j p).1 ≡ true) e now)) in
              (
                xs,
                sym (
                      find_existing-of_shard B unmarshal s k p.pending (of_shard k es) q
                        (All-of_shard IsQueued k es queued) (AtShard-of_shard k es))
                    ∙ x,
              )
          | inr other ↦
              let (xs, x) =
                update_shards-found cs k s (round c p).0 d.1 (ground arith) o (round-IsQueued c p q)
                  fine in
              (
                xs,
                ap (λ l. find_existing B unmarshal s l (of_shard k es))
                      (sym (round-other c k p other q))
                    ∙ x,
              )
        ]

  -- One run, from the entries that the updates parse to.
  pub update-queue :
      (order : List ℕ) (m : Machine B.Db) (us : List LogEntry) (es : List UpdateEntry)
      (r : Updated B unmarshal) (k : ℕ)
      → (e : parse_updates unmarshal 0 us ≡ some es) → Distinct order
      → elem k order ≡ true
      → All IsQueued m.pending
      → update B unmarshal order m us ≡ some r
      → r.fine ≡ true
      → of_shard k r.machine.pending
        ≡ of_shard k m.pending
          ++ gained B unmarshal (m.shards k) (of_shard k m.pending) (of_shard k es)
  unfolding update
  update-queue order m us es r k e d i q h fine =
      let same = some_inj (rw (e, update) at h) in
      ap (λ (v : Updated B unmarshal). of_shard k v.machine.pending) (sym same)
      ∙ update_shards-queue m.shards es (parse_updates-IsQueued unmarshal 0 us es e) order k
          (record { pending = m.pending; updates = us }) d i q
          (ap (λ (v : Updated B unmarshal). v.fine) same ∙ fine)

  -- Two runs of `Update` on the same well-formed machine and log entries, in two orders of the same
  -- shards, that both end with no error leave the same queue at every shard of the map, so a `Sync`
  -- behind them applies the same commands there in the same order.
  pub update-order_irrelevant :
      (order order' : List ℕ) (m : Machine B.Db) (us : List LogEntry) (r r' : Updated B unmarshal)
      (k : ℕ)
      → Distinct order
      → Distinct order'
      → elem k order ≡ true
      → elem k order' ≡ true
      → All IsQueued m.pending
      → update B unmarshal order m us ≡ some r
      → update B unmarshal order' m us ≡ some r'
      → r.fine ≡ true
      → r'.fine ≡ true
      → of_shard k r.machine.pending ≡ of_shard k r'.machine.pending
  unfolding update
  update-order_irrelevant order order' m us r r' k d d' i i' q h h' fine fine' =
      elim (Option-cases (parse_updates unmarshal 0 us)) [
        | inl e ↦ absurd (unparsed e)
        | inr (es, e) ↦
            update-queue order m us es r k e d i q h fine
            ∙ sym (update-queue order' m us es r' k e d' i' q h' fine')
      ]
    where
      none-ne-some : none ≡ some r → ⊥
      none-ne-some e = cc

      unparsed : parse_updates unmarshal 0 us ≡ none → ⊥
      unparsed e = none-ne-some (rw (e, update) at h)
