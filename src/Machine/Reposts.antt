-- ===== src/Machine/Reposts.antt =====
-- A POST of a document whose deletion waits in the queue: what `Update` of statemachine/statemachine.go
-- answers before the next `Sync` and behind it.
use mathlib.Core.List.{append-nil}
use bydb.Base.{
  ℕ, Bool, subst, true, false, ◌≡◌, refl, ap, ◌∙◌, Text, List, [], ◌∷◌, Option, none, some, All,
  elem, Distinct,
}
use bydb.Bleve.{Bleve}
use bydb.Bolt.Defs.{Bolt}
use bydb.Document.{Document}
use bydb.Command.Types.{del, post, Command, ok}
use bydb.Command.Formats.{parse_command}
use bydb.Shard.Defs.{Shard, done}
use bydb.Shard.Applied.{at_key, left_by}
use bydb.Shard.Buckets.{there_by}
use bydb.Shard.Folded.{
  LeftBy, folded-LeftBy, folded-of_shard, there_behind, text_behind, apply_entries-folded,
}
use bydb.Machine.Entry.{LogEntry, UpdateEntry, get_first_rune}
use bydb.Machine.Invariant.{new_entry-IsQueued}
use bydb.Machine.Queue.{IsQueued, is_part_type, last_concerning, find-last_concerning, All-of_shard}
use bydb.Machine.Solo.{queued, update_found, update_solo}
use bydb.Machine.Sync.{sync}
use bydb.Machine.Synced.{sync-eq-done, sync-applied}
use bydb.Machine.Told.{told_by, find_existing_told}
use bydb.Machine.Update.{Machine, update, of_shard}

module _ (B : Bolt) (V : Bleve) (unmarshal : Text → Option Document) where
  -- What the queue leaves of a document that it deletes last.
  deleted_behind :
      (es : List UpdateEntry) (q c : Command) (exists : Bool) (text : Option Text)
      → last_concerning q es ≡ some c
      → c.type ≡ del
      → (there_behind q es exists ≡ true) × (text_behind q es text ≡ none)
  deleted_behind es q c exists text last is_del =
      let (a, there) : LeftBy (λ t c. there_by t) (some c) exists (there_behind q es exists) =
        subst (λ o. LeftBy (λ t c. there_by t) o exists (there_behind q es exists)) last
          (folded-LeftBy (λ t c. there_by t) q es exists) in
      let (b, left) : LeftBy left_by (some c) text (text_behind q es text) =
        subst (λ o. LeftBy left_by o text (text_behind q es text)) last
          (folded-LeftBy left_by q es text) in
      (there ∙ ap (λ t. there_by t a) is_del, left ∙ ap (λ t. left_by t c b) is_del)

  -- When the deletion of a document is the last command of a well-formed queue to concern it, and the
  -- shard of the document is open, `Update` of one POST of it refuses it with 409 and leaves the
  -- machine as it was, whatever the store holds; once a `Sync` has succeeded, the same POST is
  -- accepted with 200 and queued. The rounds over the shards are without repetition and have the
  -- shard.
  pub post-after_del :
      (order order' : List ℕ) (m m' : Machine B.Db) (u : LogEntry) (cmd c : Command)
      (s : Shard B.Db)
      → Distinct order
      → Distinct order'
      → elem (get_first_rune cmd.part) order ≡ true
      → elem (get_first_rune cmd.part) order' ≡ true
      → m.shards (get_first_rune cmd.part) ≡ some s
      → All IsQueued m.pending
      → parse_command unmarshal u.cmd ≡ ok cmd
      → cmd.type ≡ post
      → last_concerning cmd m.pending ≡ some c
      → c.type ≡ del
      → sync B V order' m ≡ done m'
      → (update B unmarshal order m (u ∷ [])
          ≡ some (record { machine = m; updates = record u { value = 409 } ∷ []; fine = true }))
        × (update B unmarshal order m' (u ∷ [])
            ≡ some (record {
              machine = record m' { pending = queued B unmarshal u cmd true none ∷ [] };
              updates = record u { value = 200 } ∷ [];
              fine = true;
            }))
  post-after_del order order' m m' u cmd c s distinct distinct' covered covered' open' queue parsed
        is_post last is_del synced =
      let k : ℕ = get_first_rune cmd.part in
      let plain : cmd.is_part ≡ false =
        (new_entry-IsQueued unmarshal 0 u cmd parsed).kind ∙ ap is_part_type is_post in
      let told =
        find_existing_told B unmarshal s m.pending u cmd c
          (find-last_concerning cmd m.pending ∙ last) in
      let before =
        update_found B unmarshal order m u cmd s (there_by c.type true) (told_by c.type c) distinct
          covered open' parsed (rw is_post refl) told in
      let (s', here, w, applied, block) =
        sync-applied B V order' m m' k s distinct' covered' open' synced in
      let (there, text) =
        apply_entries-folded B V (of_shard k m.pending) cmd (s.block, []) w
          (All-of_shard IsQueued k m.pending queue) applied in
      let (there', text') =
        deleted_behind m.pending cmd c (B.has_bucket s.block cmd.part) (at_key B s.block cmd) last
          is_del in
      let bucket : B.has_bucket s'.block cmd.part ≡ true =
        ap (λ d. B.has_bucket d cmd.part) block
        ∙ there
        ∙ folded-of_shard (λ t c. there_by t) cmd m.pending (B.has_bucket s.block cmd.part) queue
        ∙ there' in
      let gone : at_key B s'.block cmd ≡ none =
        ap (λ d. at_key B d cmd) block
        ∙ text
        ∙ folded-of_shard left_by cmd m.pending (at_key B s.block cmd) queue
        ∙ text' in
      let behind =
        update_solo B unmarshal order m' u cmd s' none distinct covered here
          (sync-eq-done B V order' m m' synced).drained parsed (rw is_post refl)
          (rw (plain, gone) refl) in
      (before ∙ rw (is_post, is_del, append-nil m.pending) refl, behind ∙ rw (is_post, bucket) refl)
