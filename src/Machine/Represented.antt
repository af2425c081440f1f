-- ===== src/Machine/Represented.antt =====
-- The document store that a machine stands for: what its shards hold, with the queue in front of them.
use bydb.Base.{
  ℕ, Bool, true, false, ◌&&◌, ◌≡◌, sym, ap, ◌∙◌, Text, List, [], Option, none, some, some_inj, All,
  elem, Distinct, text_eq, text_eq_iff, ◌==◌, if◌then◌else◌, arith,
}
use bydb.Document.{Document}
use bydb.Bleve.{Bleve}
use bydb.Bolt.Defs.{Bolt}
use bydb.Command.Types.{CommandType, put, del, post, create_part, delete_part, Command}
use bydb.Machine.Entry.{get_first_rune, concerns}
use bydb.Machine.Queue.{IsQueued, is_part_type, All-of_shard}
use bydb.Machine.Solo.{status, alters, decoded}
use bydb.Machine.Sync.{sync}
use bydb.Machine.Synced.{sync-applied, sync-open, sync-eq-done}
use bydb.Machine.Update.{Machine, of_shard}
use bydb.Shard.Applied.{at_key, left_by}
use bydb.Shard.Buckets.{there_by}
use bydb.Shard.Defs.{Shard, done, non_empty}
use bydb.Shard.Folded.{there_behind, text_behind, folded-of_shard, apply_entries-folded}

-- The specification: which partitions there are, and the text of each document by partition and id.
pub record Store : Type 0 where
  pub has : Text → Bool
  pub text : Text → Text → Option Text

abbrev with_text : Store → Command → Option Text → Store
with_text σ c t = record σ {
  text = λ p i. if text_eq p c.part && text_eq i c.id then t else σ.text p i;
}

-- What an accepted command does to the store.
abbrev pub carry_out : CommandType → Command → Store → Store
carry_out create_part c σ = record σ { has = λ p. if text_eq p c.part then true else σ.has p }
carry_out delete_part c σ = record {
  has = λ p. if text_eq p c.part then false else σ.has p;
  text = λ p i. if text_eq p c.part then none else σ.text p i;
}
carry_out put c σ = with_text σ c (some c.bytes_doc)
carry_out post c σ = with_text σ c (some c.bytes_doc)
carry_out del c σ = with_text σ c none
carry_out _ c σ = σ

-- The command in a changed store against the command behind a queue.
pub carry_out-text :
    (t : CommandType) (q c : Command) (σ : Store)
    → c.is_part ≡ is_part_type t
    → (if concerns q c then left_by t c (σ.text q.part q.id) else σ.text q.part q.id)
      ≡ (carry_out t c σ).text q.part q.id
unfolding concerns
carry_out-text t q c σ k = ground arith

pub carry_out-has :
    (t : CommandType) (q c : Command) (σ : Store) (doc : Option Document)
    → c.is_part ≡ is_part_type t
    → alters t ≡ true
    → (status t c (σ.has c.part) doc == 200) ≡ true
    → (if concerns q c then there_by t (σ.has q.part) else σ.has q.part)
      ≡ (carry_out t c σ).has q.part
unfolding concerns
carry_out-has t q c σ doc k a h = ground (arith, text_eq_iff q.part c.part)

module _ (unmarshal : Text → Option Document) where
  -- The document that a command finds in the store.
  abbrev pub document_at : Store → Command → Option Document
  document_at σ c = or_none (decoded unmarshal c.is_part (non_empty (σ.text c.part c.id)))
    where
      or_none : Option (Option Document) → Option Document
      or_none none = none
      or_none (some doc) = doc

  -- What the store answers to a command, and what it is then.
  abbrev pub answer_of : Store → Command → ℕ
  answer_of σ c = status c.type c (σ.has c.part) (document_at σ c)

  abbrev pub handled : Store → Command → Store
  handled σ c = if answer_of σ c == 200 then carry_out c.type c σ else σ

module _ (B : Bolt) where
  pub record Represents (m : Machine B.Db) (σ : Store) : Type 0 where
    pub there :
        (q : Command) (s : Shard B.Db)
        → m.shards (get_first_rune q.part) ≡ some s
        → there_behind q m.pending (B.has_bucket s.block q.part) ≡ σ.has q.part
    pub held :
        (q : Command) (s : Shard B.Db)
        → m.shards (get_first_rune q.part) ≡ some s
        → text_behind q m.pending (at_key B s.block q) ≡ σ.text q.part q.id

  -- The order of a range over the shards, which has each open one, once.
  pub record IsRange (order : List ℕ) (m : Machine B.Db) : Type 0 where
    pub distinct : Distinct order
    pub covers : (c : ℕ) (s : Shard B.Db) → m.shards c ≡ some s → elem c order ≡ true

  -- `Sync` leaves the store that the machine stands for.
  pub sync-Represents :
      (V : Bleve) (order : List ℕ) (m m' : Machine B.Db) (σ : Store)
      → IsRange order m
      → All IsQueued m.pending
      → sync B V order m ≡ done m'
      → Represents m σ
      → Represents m' σ
  sync-Represents V order m m' σ range queued h r = record {
    there = λ q s' e. (synced q s' e).0;
    held = λ q s' e. (synced q s' e).1;
  }
    where
      synced :
          (q : Command) (s' : Shard B.Db)
          → m'.shards (get_first_rune q.part) ≡ some s'
          → (there_behind q m'.pending (B.has_bucket s'.block q.part) ≡ σ.has q.part)
            × (text_behind q m'.pending (at_key B s'.block q) ≡ σ.text q.part q.id)
      synced q s' e =
          let c : ℕ = get_first_rune q.part in
          let (s, o) = sync-open B V order m m' c s' range.distinct h e in
          let (t, f, w, applied, block) =
            sync-applied B V order m m' c s range.distinct (range.covers c s o) o h in
          let same : s'.block ≡ w.0 =
            ap (λ (x : Shard B.Db). x.block) (some_inj (sym e ∙ f)) ∙ block in
          let (there, held) =
            apply_entries-folded B V (of_shard c m.pending) q (s.block, []) w
              (All-of_shard IsQueued c m.pending queued) applied in
          rw ((sync-eq-done B V order m m' h).drained, same)
            (
              there
                  ∙ folded-of_shard (λ t c. there_by t) q m.pending (B.has_bucket s.block q.part)
                      queued
                  ∙ r.there q s o,
              held ∙ folded-of_shard left_by q m.pending (at_key B s.block q) queued ∙ r.held q s o,
            )
