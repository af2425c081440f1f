-- ===== src/Machine/Refines.antt =====
-- A state machine against a document store: its answers and its reads.
use bydb.Base.{
  ℕ, Bool, true, false, ◌≡◌, refl, ◌∙◌, Text, List, [], ◌∷◌, ◌++◌, Option, none, some, inl, inr,
  Option-cases, map,
}
use bydb.Document.{Document}
use bydb.Bleve.{Bleve}
use bydb.Bolt.Defs.{Bolt}
use bydb.Command.Types.{Command, ok}
use bydb.Command.Formats.{parse_command}
use bydb.Machine.Answers.{update-Represents}
use bydb.Machine.Entry.{LogEntry, get_first_rune}
use bydb.Machine.Fresh.{IsSound}
use bydb.Machine.Firm.{IsReadable}
use bydb.Machine.Queue.{HasBody, last_concerning}
use bydb.Machine.Represented.{Store, answer_of, IsRange}
use bydb.Machine.Lookup.{answered, found_response, from_queue, lookup_get_request}
use bydb.Machine.Reads.{body_of, lookup_get_request-shard, from_pending-left_by}
use bydb.Machine.Solo.{alters}
use bydb.Machine.Update.{Machine, Updated, update}
use bydb.Shard.Applied.{at_key, left_by, IsDecisive}
use bydb.Shard.Defs.{Shard, non_empty}
use bydb.Shard.Folded.{LeftBy, folded-LeftBy}
use bydb.Machine.Runs.{answers, store_behind, IsMet, Runs, Stands, met-IsReady, Runs-Stands}

module _ (B : Bolt) (V : Bleve) (unmarshal : Text → Option Document) where
  -- A read of a document finds the text of the store.
  Stands-read :
      (m : Machine B.Db) (σ : Store) (q : Command) (s : Shard B.Db)
      → Stands B V unmarshal m σ
      → m.shards (get_first_rune q.part) ≡ some s
      → IsDecisive (last_concerning q m.pending)
      → lookup_get_request B m q ≡ answered (found_response (non_empty (σ.text q.part q.id)))
  Stands-read m σ q s w e decisive =
      lookup_get_request-shard B m q s e
      ∙ read_by (last_concerning q m.pending) decisive (λ c. body_of B m.pending q c w.queued)
          (rw (w.represents.held q s e) at (folded-LeftBy left_by q m.pending (at_key B s.block q)))
    where
      read_by :
          (o : Option Command)
          → IsDecisive o
          → ((c : Command) → o ≡ some c → HasBody c.type c)
          → LeftBy left_by o (at_key B s.block q) (σ.text q.part q.id)
          → from_queue B o (answered (found_response (non_empty (at_key B s.block q))))
            ≡ answered (found_response (non_empty (σ.text q.part q.id)))
      read_by none d b left = rw left refl
      read_by (some c) d b (before, left) =
          rw left (from_pending-left_by B c.type c before d (b c refl) _)

  -- The store that a machine with an empty queue holds.
  abbrev pub store_of : Machine B.Db → Store
  store_of m = record {
    has = λ p. has_at (m.shards (get_first_rune p)) p;
    text = λ p i. text_at (m.shards (get_first_rune p)) p (p ++ b':' ∷ i);
  }
    where
      has_at : Option (Shard B.Db) → Text → Bool
      has_at none p = false
      has_at (some s) p = B.has_bucket s.block p

      text_at : Option (Shard B.Db) → Text → Text → Option Text
      text_at none p k = none
      text_at (some s) p k = B.get s.block p k

  store_of-IsSound : (m : Machine B.Db) → IsSound (store_of m)
  store_of-IsSound m p i h = elim (Option-cases (m.shards (get_first_rune p))) [
    | inl e ↦ rw e refl
    | inr (s, e) ↦ rw e (B.get-no_bucket s.block p (p ++ b':' ∷ i) (rw e at h))
  ]

  drained-Stands :
      (m : Machine B.Db)
      → m.pending ≡ []
      → IsReadable unmarshal (store_of m)
      → Stands B V unmarshal m (store_of m)
  drained-Stands m drained readable = record {
    represents = record {
      there = λ q s e. rw (drained, e) refl;
      held = λ q s e. rw (drained, e) refl;
    };
    queued = rw drained tt;
    firm = rw drained tt;
    readable = readable;
    sound = store_of-IsSound m;
    fresh = λ q. rw drained tt;
  }

  -- A machine answers as a document store does. From an empty queue, over stored documents that decode,
  -- a run of updates of one altering command each, and of syncs that succeed wherever they come, with
  -- any order of the range over the open shards, gives each command exactly the answer of the store that
  -- the commands before it leave. The shard of each command is open, and the last pending command
  -- that concerns it, if it is on a document, is not the deletion of that document.
  pub Runs-answers :
      (m m' : Machine B.Db) (taken : List (Command × ℕ))
      → m.pending ≡ []
      → IsReadable unmarshal (store_of m)
      → Runs B V unmarshal m taken m'
      → map (λ t. t.1) taken ≡ answers unmarshal (store_of m) (map (λ t. t.0) taken)
  Runs-answers m m' taken drained readable run =
      (Runs-Stands B V unmarshal m m' taken (store_of m) run (drained-Stands m drained readable)).0

  -- A machine holds what a document store holds. Behind a run, from an empty queue over stored
  -- documents that decode, of updates of one altering command each and of syncs that succeed
  -- wherever they come, with any order of the range over the open shards, a read of a document
  -- whose shard is open finds the text of the store that the commands of the run leave, unless the
  -- last pending command that concerns the document is the creation of its partition. In the run
  -- the shard of each command is open, and the last pending command that concerns it, if it is on a
  -- document, is not the deletion of that document.
  pub Runs-reads :
      (m m' : Machine B.Db) (taken : List (Command × ℕ)) (q : Command) (s : Shard B.Db)
      → m.pending ≡ []
      → IsReadable unmarshal (store_of m)
      → Runs B V unmarshal m taken m'
      → m'.shards (get_first_rune q.part) ≡ some s
      → IsDecisive (last_concerning q m'.pending)
      → let σ = store_behind unmarshal (store_of m) (map (λ t. t.0) taken) in
        lookup_get_request B m' q ≡ answered (found_response (non_empty (σ.text q.part q.id)))
  Runs-reads m m' taken q s drained readable run =
      Stands-read m' (store_behind unmarshal (store_of m) (map (λ t. t.0) taken)) q s
        (Runs-Stands B V unmarshal m m' taken (store_of m) run
          (drained-Stands m drained readable)).1

  -- The next command is answered. Behind a run, from an empty queue over stored documents that
  -- decode, of updates of one altering command each and of syncs that succeed wherever they come,
  -- `Update` of one more altering command, with any order of the range over the open shards,
  -- returns with no error and with the answer of the store that the commands of the run leave. The
  -- shard of each command, also of the last, is open, and the last pending command that concerns
  -- it, if it is on a document, is not the deletion of that document.
  pub Runs-next :
      (m m' : Machine B.Db) (taken : List (Command × ℕ)) (order : List ℕ) (u : LogEntry)
      (cmd : Command)
      → m.pending ≡ []
      → IsReadable unmarshal (store_of m)
      → Runs B V unmarshal m taken m'
      → IsRange B order m'
      → parse_command unmarshal u.cmd ≡ ok cmd
      → alters cmd.type ≡ true
      → IsMet B V unmarshal m' cmd
      → let σ = store_behind unmarshal (store_of m) (map (λ t. t.0) taken) in
        (r : Updated B unmarshal) × (update B unmarshal order m' (u ∷ []) ≡ some r)
        × (r.fine ≡ true)
        × (r.updates ≡ record u { value = answer_of unmarshal σ cmd } ∷ [])
  Runs-next m m' taken order u cmd drained readable run range parsed altering met =
      let σ = store_behind unmarshal (store_of m) (map (λ t. t.0) taken) in
      let s : Stands B V unmarshal m' σ =
        (Runs-Stands B V unmarshal m m' taken (store_of m) run
          (drained-Stands m drained readable)).1 in
      let (r, e, ended) =
        update-Represents B unmarshal order m' u cmd σ range s.queued parsed altering
          (met-IsReady B V unmarshal m' σ cmd s met) s.represents in
      (r, e, ended.fine, ended.updates)
