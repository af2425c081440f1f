-- ===== src/Machine/Pieces.antt =====
-- Raft may cut the log into batches anywhere. When the queue that is found holds no command on a
-- partition of the batch, and no command of the second piece is concerned by one of the first, the
-- two pieces leave what the whole leaves.
use mathlib.Core.List.{append_assoc}
use bydb.Base.{
  ℕ, ◌+◌, true, false, length, ◌≡◌, sym, ap, ◌∙◌, subst, some_inj, Text, List, [], ◌∷◌, ◌++◌,
  Option, some, All, All-map, elem, Distinct, filter-append, Option-cases, inl, inr, arith,
}
use bydb.Bolt.Defs.{Bolt}
use bydb.Document.{Document}
use bydb.Machine.Detached.{
  detached_all, All-detached, All_of-detached, of_shard-detached, gained_at-detached,
}
use bydb.Machine.Entry.{LogEntry, UpdateEntry, get_first_rune, concerns, find_command_in_pending}
use bydb.Machine.Invariant.{update-IsQueued, parse_updates-IsQueued}
use bydb.Machine.Order.{gained, gained_at, AtShard, AtShard-of_shard}
use bydb.Machine.Queue.{
  IsQueued, last_concerning, last_concerning-of_shard, find-last_concerning, All-of_shard,
}
use bydb.Machine.Queues.{update-queue, update_shards-found}
use bydb.Machine.Plain.{IsPlain, Untouched}
use bydb.Machine.Split.{gained_at-append}
use bydb.Machine.Stable.{IsStable}
use bydb.Machine.Update.{Machine, of_shard, find_existing, parse_updates, Updated, update}
use bydb.Shard.Defs.{Shard}
use bydb.Machine.Renumbered.{parse_updates-detached, parse_updates-append}

-- What is pending and concerns the entry's command last is no command on its partition.
abbrev pub IsPlainIn : List UpdateEntry → UpdateEntry → Type 0
IsPlainIn queue e = IsPlain (last_concerning e.cmd queue)

IsPlainIn-stable : (queue : List UpdateEntry) → IsStable (IsPlainIn queue)
IsPlainIn-stable queue e e' c i n w = rw c w

Untouched-stable : (es : List UpdateEntry) → IsStable (Untouched es)
Untouched-stable es e e' c i n w = rw c w

-- The conditions at one shard.
IsPlain-at :
    (k : ℕ) (queue es : List UpdateEntry)
    → All IsQueued queue
    → All IsQueued es
    → All (AtShard k) es
    → All (IsPlainIn queue) es
    → All (λ e. IsPlain (find_command_in_pending (of_shard k queue) e.cmd)) es
IsPlain-at k queue [] q w i a = tt
IsPlain-at k queue (e ∷ es) q w i a =
    let at : get_first_rune e.cmd.part ≡ k = sym (w.0.shard) ∙ i.0 in
    let same : find_command_in_pending (of_shard k queue) e.cmd ≡ last_concerning e.cmd queue =
      find-last_concerning e.cmd (of_shard k queue)
      ∙ ap (λ (c : ℕ). last_concerning e.cmd (of_shard c queue)) (sym at)
      ∙ last_concerning-of_shard e.cmd queue q in
    (rw same a.0, IsPlain-at k queue es q w.1 i.1 a.1)

Untouched-at :
    (k : ℕ) (es fs : List UpdateEntry)
    → All (Untouched es) fs
    → All (Untouched (of_shard k es)) (of_shard k fs)
Untouched-at k es fs u =
    All-map (Untouched es) _ (of_shard k fs)
      (λ f. All-of_shard (λ e. concerns f.cmd e.cmd ≡ false) k es)
      (All-of_shard (Untouched es) k fs u)

module _ (B : Bolt) (unmarshal : Text → Option Document) where
  pub update-shards :
      (order : List ℕ) (m : Machine B.Db) (us : List LogEntry) (r : Updated B unmarshal)
      → update B unmarshal order m us ≡ some r
      → r.machine.shards ≡ m.shards
  unfolding update
  update-shards order m us r h = elim (Option-cases (parse_updates unmarshal 0 us)) [
    | inl x ↦ absurd (ground arith)
    | inr (es, x) ↦
        ap (λ (v : Updated B unmarshal). v.machine.shards) (sym (some_inj (rw (x, update) at h)))
  ]

  update-found :
      (order : List ℕ) (m : Machine B.Db) (us : List LogEntry) (es : List UpdateEntry)
      (r : Updated B unmarshal) (k : ℕ) (s : Shard B.Db)
      → parse_updates unmarshal 0 us ≡ some es
      → Distinct order
      → elem k order ≡ true
      → m.shards k ≡ some s
      → All IsQueued m.pending
      → update B unmarshal order m us ≡ some r
      → r.fine ≡ true
      → (xs : List UpdateEntry) × (find_existing B unmarshal s
            (of_shard k m.pending)
            (of_shard k es)
          ≡ some xs)
  unfolding update
  update-found order m us es r k s e d i o q h fine =
      let same = some_inj (rw (e, update) at h) in
      update_shards-found B unmarshal m.shards es (parse_updates-IsQueued unmarshal 0 us es e) order
        k s (record { pending = m.pending; updates = us }) d i o q
        (ap (λ (v : Updated B unmarshal). v.fine) same ∙ fine)

  -- One run at one open shard.
  update-at :
      (order : List ℕ) (m : Machine B.Db) (us : List LogEntry) (es : List UpdateEntry)
      (r : Updated B unmarshal) (k : ℕ) (s : Shard B.Db)
      → parse_updates unmarshal 0 us ≡ some es
      → Distinct order
      → elem k order ≡ true
      → m.shards k ≡ some s
      → All IsQueued m.pending
      → update B unmarshal order m us ≡ some r
      → r.fine ≡ true
      → of_shard k r.machine.pending
        ≡ of_shard k m.pending ++ gained_at B unmarshal s (of_shard k m.pending) (of_shard k es)
  update-at order m us es r k s e d i o q h fine =
      update-queue B unmarshal order m us es r k e d i q h fine
      ∙ ap
          (λ (t : Option (Shard B.Db)).
            of_shard k m.pending ++ gained B unmarshal t (of_shard k m.pending) (of_shard k es))
          o

  -- Entries that differ in their places alone add the same to a shard's queue.
  gained_at-places :
      (s : Shard B.Db) (k : ℕ) (queue gs fs : List UpdateEntry)
      → detached_all gs ≡ detached_all fs
      → gained_at B unmarshal s queue (of_shard k gs)
        ≡ gained_at B unmarshal s queue (of_shard k fs)
  gained_at-places s k queue gs fs same =
      sym (gained_at-detached B unmarshal s queue (of_shard k gs))
      ∙ ap (gained_at B unmarshal s queue)
          (sym (of_shard-detached k gs) ∙ ap (of_shard k) same ∙ of_shard-detached k fs)
      ∙ gained_at-detached B unmarshal s queue (of_shard k fs)

  -- On a well-formed queue, a batch given to `Update` at once, and its two pieces given one behind the
  -- other, all with no error, leave the same queue at an open shard of an order without repetition, if
  -- what the queue holds last concerning a command is never a command on its partition, and no command
  -- of the first piece concerns one of the second.
  pub update-append :
      (order : List ℕ) (m : Machine B.Db) (us vs : List LogEntry) (es fs : List UpdateEntry)
      (r r1 r2 : Updated B unmarshal) (k : ℕ) (s : Shard B.Db)
      → Distinct order
      → elem k order ≡ true
      → m.shards k ≡ some s
      → All IsQueued m.pending
      → parse_updates unmarshal 0 us ≡ some es
      → parse_updates unmarshal 0 vs ≡ some fs
      → All (IsPlainIn m.pending) es
      → All (IsPlainIn m.pending) fs
      → All (Untouched es) fs
      → update B unmarshal order m (us ++ vs) ≡ some r
      → update B unmarshal order m us ≡ some r1
      → update B unmarshal order r1.machine vs ≡ some r2
      → r.fine ≡ true
      → r1.fine ≡ true
      → r2.fine ≡ true
      → of_shard k r.machine.pending ≡ of_shard k r2.machine.pending
  update-append order m us vs es fs r r1 r2 k s d i o q pe pf ae af u h h1 h2 fine fine1 fine2 =
      let (gs, pg, same) = parse_updates-detached unmarshal 0 (0 + length us) vs fs pf in
      let whole = parse_updates-append unmarshal 0 us vs es gs pe pg in
      let ag = All_of-detached (IsPlainIn m.pending) (IsPlainIn-stable m.pending) gs (
        subst (All (IsPlainIn m.pending)) (sym same)
          (All-detached (IsPlainIn m.pending) (IsPlainIn-stable m.pending) fs af)) in
      let ug = All_of-detached (Untouched es) (Untouched-stable es) gs (
        subst (All (Untouched es)) (sym same)
          (All-detached (Untouched es) (Untouched-stable es) fs u)) in
      let qe = parse_updates-IsQueued unmarshal 0 us es pe in
      let qg = parse_updates-IsQueued unmarshal (0 + length us) vs gs pg in
      let queue = of_shard k m.pending in
      let both : of_shard k (es ++ gs) ≡ of_shard k es ++ of_shard k gs = filter-append _ es gs in
      let (xs, x) = update-found order m (us ++ vs) (es ++ gs) r k s whole d i o q h fine in
      let first = update-at order m us es r1 k s pe d i o q h1 fine1 in
      let second =
        update-at order r1.machine vs fs r2 k s pf d i
          (ap (λ (f : ℕ → Option (Shard B.Db)). f k) (update-shards order m us r1 h1) ∙ o)
          (update-IsQueued B unmarshal order m us r1 q h1) h2 fine2 in
      let cut =
        gained_at-append B unmarshal s queue (of_shard k es) (of_shard k gs) xs
          (IsPlain-at k m.pending (of_shard k es) q (All-of_shard IsQueued k es qe)
            (AtShard-of_shard k es) (All-of_shard (IsPlainIn m.pending) k es ae))
          (IsPlain-at k m.pending (of_shard k gs) q (All-of_shard IsQueued k gs qg)
            (AtShard-of_shard k gs) (All-of_shard (IsPlainIn m.pending) k gs ag))
          (Untouched-at k es gs ug) (ap (find_existing B unmarshal s queue) (sym both) ∙ x) in
      let gain = gained_at B unmarshal s queue (of_shard k es) in
      update-at order m (us ++ vs) (es ++ gs) r k s whole d i o q h fine
      ∙ ap (λ (l : List UpdateEntry). queue ++ gained_at B unmarshal s queue l) both
      ∙ ap (λ (l : List UpdateEntry). queue ++ l) cut
      ∙ sym (append_assoc queue gain (gained_at B unmarshal s (queue ++ gain) (of_shard k gs)))
      ∙ ap (λ (l : List UpdateEntry). (queue ++ gain) ++ l)
          (gained_at-places s k (queue ++ gain) gs fs same)
      ∙ ap (λ (l : List UpdateEntry). l ++ gained_at B unmarshal s l (of_shard k fs)) (sym first)
      ∙ sym second
