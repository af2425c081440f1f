-- ===== src/Tests/Searches.antt =====
-- Examples for the search index of statemachine/shard.go.
use bydb.Base.{map, All, ◌≡◌, refl, codes, List, [], ◌∷◌, ◌++◌, none, some, text_eq}
use bydb.Base.Decimal.{print_uint}
use bydb.Bleve.{Bleve, Hit, IndexOp}
use bydb.Bolt.Model.{
  Store, assoc_bolt, has_bucket, lookup, without, set_bucket, create_bucket, put, get, delete,
}
use bydb.Codec.{Json, SearchResult}
use bydb.Command.Grammar.{Request, del, denoted}
use bydb.Command.Types.{Command}
use bydb.Machine.Entry.{UpdateEntry}
use bydb.Machine.Lookup.{search_shard}
use bydb.Machine.Searches.{sync-InStep, search_shard-hits, shown, hits_of, is_of_part, has_prefix}
use bydb.Machine.Sync.{set_shard, sync, sync_shards, update_last_update_index, highest_index}
use bydb.Machine.Update.{Machine}
use bydb.Shard.Defs.{Shard, done, apply_updates, apply_entries, apply_command}
use bydb.Shard.Indexed.{indexed}
use bydb.Shard.Keys.{InStep}
use bydb.Shard.Searchable.{IsFit, apply_updates-InStep, deletion_shares_key}
use bydb.Tests.Fixtures.{
  decode, machine_with, put_a, create_p, order, bleve, doc_q, doc_a, create_a, post_q, entry_of,
  empty_shard, shard,
}

abbrev pending : List UpdateEntry
pending = entry_of 4 create_a ∷ entry_of 6 post_q ∷ []

abbrev written : Shard Store
written = record {
  index = (IndexOp.index (codes "a:q") doc_q ∷ []) ∷ [];
  block = (codes "a", (codes "a:q", codes "{q}") ∷ []) ∷ [];
}

abbrev synced : Machine Store
synced = record (machine_with []) {
  shards = set_shard (set_shard (machine_with []).shards b'a' written) b'p' shard;
  meta_db = (codes "meta", (codes "lastUpdateIndex", codes "6") ∷ []) ∷ [];
  last_index = 6;
}

empty-InStep : InStep assoc_bolt decode (indexed []) []
unfolding get lookup
empty-InStep = record { keyed = λ p k h. cc; agrees = λ p i n. refl }

sync-pending : sync assoc_bolt bleve order (machine_with pending) ≡ done synced
unfolding sync sync_shards highest_index update_last_update_index apply_updates apply_entries
    apply_command has_bucket lookup put delete without set_bucket create_bucket text_eq print_uint
sync-pending = refl

pending-IsFit : All (IsFit decode) pending
unfolding text_eq
pending-IsFit = ((refl, tt), ((refl, refl), tt))

sync-InStep_example :
    (s : Shard Store) × (some written ≡ some s) × InStep assoc_bolt decode (indexed s.index) s.block
sync-InStep_example =
    sync-InStep assoc_bolt bleve decode order (machine_with pending) synced b'a' empty_shard
      (refl, (refl, tt)) refl refl pending-IsFit empty-InStep sync-pending

-- A shard with documents of two partitions.
abbrev pending_of_two : List UpdateEntry
pending_of_two = pending ++ entry_of 7 create_p ∷ entry_of 8 put_a ∷ []

abbrev of_two : Shard Store
of_two = record {
  index = (IndexOp.index (codes "a:q") doc_q ∷ IndexOp.index (codes "p:a") doc_a ∷ []) ∷ [];
  block =
      (codes "p", (codes "p:a", codes "{a}") ∷ [])
      ∷ (codes "a", (codes "a:q", codes "{q}") ∷ [])
      ∷ [];
}

of_two-InStep : InStep assoc_bolt decode (indexed of_two.index) of_two.block
of_two-InStep =
    apply_updates-InStep assoc_bolt bleve decode empty_shard of_two pending_of_two
      (unfold text_eq in ((refl, tt), ((refl, refl), ((refl, tt), ((refl, refl), tt)))))
      empty-InStep
      (unfold apply_updates apply_entries apply_command has_bucket lookup put without set_bucket
          create_bucket text_eq in
        refl)

hit_a : Hit
hit_a = record { id = codes "p:a"; score = 2 }

hit_q : Hit
hit_q = record { id = codes "a:q"; score = 1 }

-- An index that hits both.
abbrev finder : Bleve
finder = record bleve { search = λ index query. some (hit_a ∷ hit_q ∷ []) }

abbrev json : Json
json = record { unmarshal = decode; marshal = λ r. none }

search_shard-hits_example :
    (r : SearchResult) × (search_shard assoc_bolt json finder of_two (codes "a") (codes "text:x")
      ≡ some r)
    × (map (shown assoc_bolt json) r.matches ≡ (1, some doc_q) ∷ [])
unfolding hits_of is_of_part has_prefix hit_a hit_q text_eq
search_shard-hits_example =
    search_shard-hits assoc_bolt json finder of_two (codes "a") (codes "text:x")
      (hit_a ∷ hit_q ∷ []) of_two-InStep refl refl (refl, (refl, tt))

-- The document "b:c" of the partition "a" has the key of the document "c" of the partition "a:b".
abbrev two_parts : Shard Store
two_parts = record {
  index = (IndexOp.index (codes "a:b:c") doc_q ∷ IndexOp.index (codes "a:b:c") doc_a ∷ []) ∷ [];
  block =
      (codes "a", (codes "a:b:c", codes "{q}") ∷ [])
      ∷ (codes "a:b", (codes "a:b:c", codes "{a}") ∷ [])
      ∷ [];
}

abbrev del_c : Command
del_c = denoted (del (codes "a:b") (codes "c") (codes "5") 5)

abbrev get_bc : Command
get_bc = denoted (Request.get (codes "a") (codes "b:c"))

abbrev left_over : Shard Store
left_over = record {
  index = two_parts.index ++ (IndexOp.delete (codes "a:b:c") ∷ []) ∷ [];
  block = (codes "a:b", []) ∷ (codes "a", (codes "a:b:c", codes "{q}") ∷ []) ∷ [];
}

deletion_shares_key_example :
    (get left_over.block (codes "a") (codes "a:b:c")
      ≡ get two_parts.block (codes "a") (codes "a:b:c"))
    × (indexed left_over.index (codes "a:b:c") ≡ none)
deletion_shares_key_example =
    deletion_shares_key assoc_bolt bleve two_parts left_over (entry_of 4 del_c) get_bc refl
      (λ e. cc) refl
      (unfold apply_updates apply_entries apply_command has_bucket lookup put delete without
          set_bucket text_eq in
        refl)
