-- ===== src/Machine/Stable.antt =====
-- The search for existing documents changes neither an entry's command, shard nor index: what depends
-- on these alone holds of the entries that it returns.
use bydb.Base.{
  some_inj, ◌≡◌, refl, subst, Text, List, [], ◌∷◌, Option, none, some, map, inl, inr, Bool-cases,
  All, ltb, arith,
}
use bydb.Document.{Document}
use bydb.Bolt.Defs.{Bolt}
use bydb.Command.Types.{CommandType, create_part, Command}
use bydb.Shard.Defs.{Shard, find_existing_documents_for_updates, find_existing_document, cons_found}
use bydb.Machine.Entry.{UpdateEntry, find_command_in_pending}
use bydb.Machine.Update.{
  Looked, looked, seen_in_pending, look_in_pending, count_searches, find_existing,
}

-- A property of an entry's command, shard and index.
abbrev pub IsStable : (UpdateEntry → Type 0) → Type 0
IsStable P =
    (e e' : UpdateEntry)
    → e'.cmd ≡ e.cmd
    → e'.shard_id ≡ e.shard_id
    → e'.index ≡ e.index
    → P e
    → P e'

module _ (P : UpdateEntry → Type 0) (stable : IsStable P) where
  seen-stable : (t : CommandType) (c : Command) (e : UpdateEntry) → P e → P (seen_in_pending t c e)
  unfolding seen_in_pending
  seen-stable create_part c e w = stable e _ refl refl refl w
  seen-stable _ c e w = stable e _ refl refl refl w

  looked-stable : (e : UpdateEntry) (o : Option Command) → P e → P (looked e o).0
  looked-stable e none w = w
  looked-stable e (some c) w = seen-stable c.type c e w

  look-stable :
      (pending es : List UpdateEntry)
      → All P es
      → All P (map (λ (l : Looked). l.0) (map (look_in_pending pending) es))
  unfolding look_in_pending
  look-stable pending [] a = a
  look-stable pending (e ∷ es) a =
      (looked-stable e (find_command_in_pending pending e.cmd) a.0, look-stable pending es a.1)

  module _ (B : Bolt) (unmarshal : Text → Option Document) where
    found-same :
        (s : Shard B.Db) (e e' : UpdateEntry)
        → find_existing_document B unmarshal s e ≡ some e'
        → (e'.cmd ≡ e.cmd) × (e'.shard_id ≡ e.shard_id) × (e'.index ≡ e.index)
    unfolding find_existing_document
    found-same s e e' h = (ground arith, ground arith, ground arith)

    found-stable :
        (s : Shard B.Db) (e : UpdateEntry) {e' : UpdateEntry}
        → P e
        → find_existing_document B unmarshal s e ≡ some e'
        → P e'
    found-stable s e {e'} w h =
        let (cmd, shard, index) = found-same s e e' h in stable e e' cmd shard index w

    cons_found-stable :
        (s : Shard B.Db) (e : UpdateEntry) (o : Option UpdateEntry)
        (rest : Option (List UpdateEntry)) {es' : List UpdateEntry}
        → ((f : UpdateEntry) → o ≡ some f → P f)
        → ((fs : List UpdateEntry) → rest ≡ some fs → All P fs)
        → cons_found B unmarshal o rest ≡ some es'
        → All P es'
    cons_found-stable s e none rest p q h = absurd (cc)
    cons_found-stable s e (some f) none p q h = absurd (cc)
    cons_found-stable s e (some f) (some fs) p q h =
        subst (All P) (some_inj h) (p f refl, q fs refl)

    every_found_stable :
        (s : Shard B.Db) (es es' : List UpdateEntry)
        → All P es
        → find_existing_documents_for_updates B unmarshal s es ≡ some es'
        → All P es'
    unfolding find_existing_documents_for_updates
    every_found_stable s [] es' a h = subst (All P) (some_inj h) tt
    every_found_stable s (e ∷ es) es' a h =
        cons_found-stable s e (find_existing_document B unmarshal s e)
          (find_existing_documents_for_updates B unmarshal s es) (λ f. found-stable s e a.0)
          (λ fs. every_found_stable s es fs a.1) h

    pub find_existing-stable :
        (s : Shard B.Db) (pending es es' : List UpdateEntry)
        → All P es
        → find_existing B unmarshal s pending es ≡ some es'
        → All P es'
    unfolding find_existing
    find_existing-stable s pending es es' a h =
        let seen = map (look_in_pending pending) es in
        elim (Bool-cases (ltb 0 (count_searches seen))) [
          | inl some' ↦ every_found_stable s _ es' (look-stable pending es a) (rw some' at h)
          | inr none' ↦ subst (All P) (some_inj (rw none' at h)) (look-stable pending es a)
        ]
