-- ===== src/Machine/Searches.antt =====
-- `Sync` and `Search` of statemachine/: the search index of a shard stays in step with its store, and a
-- search then has a match for each hit of its partition and drops those of other partitions.
use bydb.Base.{
  none, ℕ, true, false, Bool, ◌==◌, ◌&&◌, if◌then◌else◌, ◌≡◌, refl, ap, sym, ◌∙◌, Text, List, [],
  ◌∷◌, Option, some, map, All, ◌++◌, codes, Bool-cases, elem, Distinct, is_some, Option-cases, inl,
  inr, arith,
}
use bydb.Bleve.{Bleve, Hit}
use bydb.Bolt.Defs.{Bolt}
use bydb.Codec.{Json, SearchMatch, SearchResult}
use bydb.Document.{Document, Float64}
use bydb.Machine.Entry.{UpdateEntry}
use bydb.Machine.Lookup.{matches_of, search_shard}
use bydb.Machine.Queue.{All-of_shard}
use bydb.Machine.Sync.{sync, sync_shard, must}
use bydb.Machine.Synced.{must-eq-done, sync-eq-done, sync_shards-at}
use bydb.Machine.Update.{Machine, of_shard}
use bydb.Shard.Defs.{Shard, done, >>=-eq-done, apply_updates}
use bydb.Shard.Indexed.{indexed}
use bydb.Shard.Keys.{decoded, IsName, InStep, key_of}
use bydb.Shard.Searchable.{IsFit, apply_updates-InStep}

module _ (B : Bolt) (V : Bleve) (unmarshal : Text → Option Document) where
  sync_shard-InStep :
      (s : Shard B.Db) (o : Option (Shard B.Db)) (es : List UpdateEntry)
      → All (IsFit unmarshal) es
      → InStep B unmarshal (indexed s.index) s.block
      → sync_shard B V (some s) es ≡ done o
      → (s' : Shard B.Db) × (o ≡ some s') × InStep B unmarshal (indexed s'.index) s'.block
  sync_shard-InStep s o [] n i h = (s, ground arith, i)
  sync_shard-InStep s o (e ∷ es) n i h =
      let (s', x, y) = >>=-eq-done (must B V (apply_updates B V s (e ∷ es))) _ h in
      (
        s',
        ground arith,
        apply_updates-InStep B V unmarshal s s' (e ∷ es) n i (must-eq-done B V _ x),
      )

  -- A `Sync` that succeeds keeps the search index and the store of each open shard of its order without
  -- repetition in step, when the commands of the queue are on partitions with no colon in their names
  -- and write the documents of their bodies: each stored document is under the key of its partition, and
  -- the index holds under such a key what the stored text decodes to, and no document if the store
  -- holds none.
  pub sync-InStep :
      (order : List ℕ) (m m' : Machine B.Db) (k : ℕ) (s : Shard B.Db)
      → Distinct order
      → elem k order ≡ true
      → m.shards k ≡ some s
      → All (IsFit unmarshal) m.pending
      → InStep B unmarshal (indexed s.index) s.block
      → sync B V order m ≡ done m'
      → (s' : Shard B.Db) × (m'.shards k ≡ some s') × InStep B unmarshal (indexed s'.index) s'.block
  sync-InStep order m m' k s d i o n step h =
      sync_shard-InStep s (m'.shards k) (of_shard k m.pending)
        (All-of_shard (IsFit unmarshal) k m.pending n) step
        (ap (λ r. sync_shard B V r (of_shard k m.pending)) (sym o)
          ∙ sync_shards-at B V order m.pending m.shards m'.shards k d i
              (sync-eq-done B V order m m' h).applied)

-- Whether a text begins with another.
unfoldable pub has_prefix : Text → Text → Bool
has_prefix [] t = true
has_prefix (c ∷ p) [] = false
has_prefix (c ∷ p) (d ∷ t) = c == d && has_prefix p t

-- Whether an id of the index is of a partition: it begins with the name and a colon.
unfoldable pub is_of_part : Text → Text → Bool
unfolding has_prefix
is_of_part part id = has_prefix (part ++ b':' ∷ []) id

-- Those of some hits that are of a partition.
unfoldable pub hits_of : Text → List Hit → List Hit
unfolding is_of_part
hits_of part [] = []
hits_of part (t ∷ ts) = if is_of_part part t.id then t ∷ hits_of part ts else hits_of part ts

has_prefix-key_of : (p i : Text) → has_prefix (p ++ b':' ∷ []) (key_of p i) ≡ true
unfolding has_prefix
has_prefix-key_of [] i = ground arith
has_prefix-key_of (c ∷ p) i = ground (arith, has_prefix-key_of p i)

key_of-has_prefix :
    (p k : Text) → has_prefix (p ++ b':' ∷ []) k ≡ true → (i : Text) × (k ≡ key_of p i)
unfolding has_prefix
key_of-has_prefix [] [] h = cc
key_of-has_prefix [] (d ∷ k) h = (k, ground arith)
key_of-has_prefix (c ∷ p) [] h = cc
key_of-has_prefix (c ∷ p) (d ∷ k) h =
    let (i, e) = key_of-has_prefix p k (ground arith) in (i, ground (arith, e))

module _ (B : Bolt) (J : Json) where
  -- What a match shows of a hit: its score, and the document that the index holds.
  abbrev pub shown : SearchMatch → Float64 × Option Document
  shown m = (m.score, some m.doc)

  abbrev pub hit_for : (Text → Option Document) → Hit → Float64 × Option Document
  hit_for held t = (t.score, held t.id)

  -- The index holds the document of a hit.
  abbrev pub IsHeld : (Text → Option Document) → Hit → Type 0
  IsHeld held t = is_some (held t.id) ≡ true

  hit_decoded :
      (held : Text → Option Document) (d : B.Db) (part : Text) (t : Hit)
      → InStep B J.unmarshal held d
      → IsName part
      → is_of_part part t.id ≡ true
      → held t.id ≡ decoded B J.unmarshal (B.get d part t.id)
  unfolding is_of_part
  hit_decoded held d part t s n h =
      let (i, e) = key_of-has_prefix part t.id h in
      ap held e ∙ s.agrees part i n ∙ ap (λ k. decoded B J.unmarshal (B.get d part k)) (sym e)

  -- The bucket of a partition holds no document under the id of another.
  hit_elsewhere :
      (held : Text → Option Document) (d : B.Db) (part : Text) (t : Hit)
      → InStep B J.unmarshal held d
      → is_of_part part t.id ≡ false
      → B.get d part t.id ≡ none
  unfolding is_of_part
  hit_elsewhere held d part t s h = elim (Option-cases (B.get d part t.id)) [
    | inl e ↦ e
    | inr (raw, e) ↦
        let (n, (i, k)) = s.keyed part t.id (ap is_some e) in
        let there = ap (has_prefix (part ++ b':' ∷ [])) k ∙ has_prefix-key_of part i in
        absurd (cc (h, there))
  ]

  matches_of-hits :
      (held : Text → Option Document) (d : B.Db) (part : Text) (hits : List Hit)
      → InStep B J.unmarshal held d
      → IsName part
      → All (IsHeld held) hits
      → (ms : List SearchMatch) × (matches_of B J d part hits ≡ some ms)
        × (map shown ms ≡ map (hit_for held) (hits_of part hits))
  unfolding matches_of hits_of
  matches_of-hits held d part [] s n a = ([], refl, refl)
  matches_of-hits held d part (t ∷ hits) s n a =
      let (ms, found, same) = matches_of-hits held d part hits s n a.1 in
      elim (Bool-cases (is_of_part part t.id)) [
        | inr out ↦ (ms, rw (hit_elsewhere held d part t s out, found) refl, rw out same)
        | inl within ↦
            let here = hit_decoded held d part t s n within in
            elim (Option-cases (B.get d part t.id)) [
              | inl x ↦ absurd (ground (arith, here, a.0))
              | inr (raw, x) ↦ elim (Option-cases (J.unmarshal raw)) [
                | inl y ↦ absurd (ground (arith, here, a.0))
                | inr (doc, y) ↦
                    let held_doc : held t.id ≡ some doc = here ∙ rw (x, y) refl in
                    (
                      (record { score = t.score; doc = doc }) ∷ ms,
                      rw (x, y, found) refl,
                      rw (within, held_doc) (ap ((t.score, some doc) ∷◌) same),
                    )
              ]
            ]
      ]

  no_hits :
      (held : Text → Option Document) (d : B.Db) (part : Text) (hits : List Hit)
      → InStep B J.unmarshal held d
      → IsName part
      → B.has_bucket d part ≡ false
      → All (IsHeld held) hits
      → [] ≡ map (hit_for held) (hits_of part hits)
  unfolding hits_of
  no_hits held d part [] s n e a = refl
  no_hits held d part (t ∷ hits) s n e a = elim (Bool-cases (is_of_part part t.id)) [
    | inr out ↦ rw out (no_hits held d part hits s n e a.1)
    | inl within ↦
        let none_held =
          hit_decoded held d part t s n within
          ∙ ap (decoded B J.unmarshal) (B.get-no_bucket d part t.id e) in
        absurd (ground (arith, none_held, a.0))
  ]

  -- A search on a shard whose index is in step with its store, of a partition with no colon in its name,
  -- succeeds whenever the index gives hits of documents that it holds: it has a match for each hit
  -- whose id begins with the partition's name and a colon, in the same order, with its score and the
  -- document that the index holds, and none for any other hit.
  pub search_shard-hits :
      (V : Bleve) (s : Shard B.Db) (part query : Text) (hits : List Hit)
      → InStep B J.unmarshal (indexed s.index) s.block
      → IsName part
      → V.search s.index (codes "+part:" ++ (part ++ (codes " " ++ query))) ≡ some hits
      → All (IsHeld (indexed s.index)) hits
      → (r : SearchResult) × (search_shard B J V s part query ≡ some r)
        × (map shown r.matches ≡ map (hit_for (indexed s.index)) (hits_of part hits))
  unfolding search_shard
  search_shard-hits V s part query hits i n found a =
      elim (Bool-cases (B.has_bucket s.block part)) [
        | inl there ↦
            let (ms, found_ms, same) = matches_of-hits (indexed s.index) s.block part hits i n a in
            (record { matches = ms }, rw (found, there, found_ms) refl, same)
        | inr closed ↦ (
          record { matches = [] },
          rw (found, closed) refl,
          no_hits (indexed s.index) s.block part hits i n closed a,
        )
      ]
