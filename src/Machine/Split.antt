-- ===== src/Machine/Split.antt =====
-- A shard's part of a batch, in two pieces: when the pending commands say nothing of a partition, and
-- no command of the second piece is concerned by the first, the pieces may be handled one by one.
use bydb.Base.{
  false, ◌≡◌, refl, sym, ap, ◌∙◌, subst, Text, List, [], ◌∷◌, ◌++◌, Option, none, some, All,
  All-map,
}
use bydb.Bolt.Defs.{Bolt}
use bydb.Document.{Document}
use bydb.Machine.Entry.{UpdateEntry, concerns}
use bydb.Machine.Order.{accepted_found, gained_at}
use bydb.Machine.Stable.{IsStable, find_existing-stable}
use bydb.Machine.Update.{find_existing}
use bydb.Shard.Defs.{Shard}
use bydb.Machine.Plain.{
  Untouched, accepted_of-append, accepted_of-All, both_found, PlainIn, find_existing-append,
  find_existing-Untouched,
}

module _ (B : Bolt) (unmarshal : Text → Option Document) where
  pub gained_at-found :
      (s : Shard B.Db) (queue es : List UpdateEntry)
      → gained_at B unmarshal s queue es
        ≡ accepted_found B unmarshal (find_existing B unmarshal s queue es)
  unfolding find_existing
  gained_at-found s queue [] = refl
  gained_at-found s queue (e ∷ es) = refl

  accepted_found-both :
      (o p : Option (List UpdateEntry)) (xs : List UpdateEntry)
      → both_found o p ≡ some xs
      → accepted_found B unmarshal (both_found o p)
        ≡ accepted_found B unmarshal o ++ accepted_found B unmarshal p
  accepted_found-both none p xs h = absurd (cc)
  accepted_found-both (some ys) none xs h = absurd (cc)
  accepted_found-both (some ys) (some zs) xs h = accepted_of-append ys zs

  -- What is stable and holds of the entries holds of what they add to the queue.
  gained_at-All :
      (P : UpdateEntry → Type 0)
      → IsStable P
      → (s : Shard B.Db) (queue es : List UpdateEntry) → All P es
      → All P (gained_at B unmarshal s queue es)
  gained_at-All P stable s queue es a = subst (All P) (sym (gained_at-found s queue es)) (
      each (find_existing B unmarshal s queue es)
        (λ fs h. find_existing-stable P stable B unmarshal s queue es fs a h))
    where
      each :
          (o : Option (List UpdateEntry))
          → ((fs : List UpdateEntry) → o ≡ some fs → All P fs)
          → All P (accepted_found B unmarshal o)
      each none h = tt
      each (some fs) h = accepted_of-All P stable fs (h fs refl)

  concerns-stable : (f : UpdateEntry) → IsStable (λ e. concerns f.cmd e.cmd ≡ false)
  concerns-stable f e e' c i n w = rw c w

  Untouched-gained :
      (s : Shard B.Db) (queue es fs : List UpdateEntry)
      → All (Untouched es) fs
      → All (Untouched (gained_at B unmarshal s queue es)) fs
  Untouched-gained s queue es fs u =
      All-map (Untouched es) _ fs
        (λ f. gained_at-All (λ e. concerns f.cmd e.cmd ≡ false) (concerns-stable f) s queue es) u

  -- What two pieces of a batch add to the shard's queue, at once and one behind the other.
  pub gained_at-append :
      (s : Shard B.Db) (queue es fs xs : List UpdateEntry)
      → All (PlainIn B unmarshal queue) es
      → All (PlainIn B unmarshal queue) fs
      → All (Untouched es) fs
      → find_existing B unmarshal s queue (es ++ fs) ≡ some xs
      → gained_at B unmarshal s queue (es ++ fs)
        ≡ gained_at B unmarshal s queue es
          ++ gained_at B unmarshal s (queue ++ gained_at B unmarshal s queue es) fs
  gained_at-append s queue es fs xs a b u h =
      let split = find_existing-append B unmarshal s queue es fs a b in
      gained_at-found s queue (es ++ fs)
      ∙ ap (accepted_found B unmarshal) split
      ∙ accepted_found-both (find_existing B unmarshal s queue es)
          (find_existing B unmarshal s queue fs) xs (sym split ∙ h)
      ∙ ap (λ l. l ++ accepted_found B unmarshal (find_existing B unmarshal s queue fs))
          (sym (gained_at-found s queue es))
      ∙ ap (λ o. gained_at B unmarshal s queue es ++ accepted_found B unmarshal o)
          (sym (
            find_existing-Untouched B unmarshal s queue (gained_at B unmarshal s queue es) fs
              (Untouched-gained s queue es fs u)))
      ∙ ap (λ l. gained_at B unmarshal s queue es ++ l)
          (sym (gained_at-found s (queue ++ gained_at B unmarshal s queue es) fs))
