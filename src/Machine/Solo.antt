-- ===== src/Machine/Solo.antt =====
-- One command on a machine with an empty queue: `Update` gives it the status that a document store
-- owes it, and queues it exactly when it is accepted.
use mathlib.Core.List.{append-nil}
use bydb.Base.{
  ℕ, Bool, true, false, ◌≡◌, refl, ap, ◌∙◌, subst, Text, List, [], ◌∷◌, ◌++◌, Option, none, some,
  inl, inr, Bool-cases, Option-cases, elem, Distinct, ==_iff, ◌==◌, if◌then◌else◌, arith,
}
use bydb.Base.Int.{int_eq}
use bydb.Document.{Document}
use bydb.Bolt.Defs.{Bolt}
use bydb.Command.Types.{
  CommandType, get, put, del, post, search, create_part, delete_part, join_node, remove_node,
  Command, ok, full_id,
}
use bydb.Command.Formats.{parse_command}
use bydb.Shard.Defs.{Shard, find_existing_documents_for_updates, find_existing_document, non_empty}
use bydb.Shard.Applied.{at_key}
use bydb.Machine.Entry.{LogEntry, UpdateEntry, get_first_rune, find_command_in_pending}
use bydb.Machine.Update.{
  Machine, judge, Verdict, accepted, refused, Progress, settle_by, settle, new_entry, parse_updates,
  find_existing, settle_shard, update_shards, update,
}

-- The specification: the status of a command, from whether its partition exists and from the
-- document that the store holds under its id.
abbrev pub status_of_change : Command → Option Document → ℕ
status_of_change cmd none = 404
status_of_change cmd (some doc) = if int_eq doc.updated cmd.ts then 200 else 409

abbrev pub status_of_insert : Option Document → ℕ
status_of_insert none = 200
status_of_insert (some doc) = 409

abbrev pub status : CommandType → Command → Bool → Option Document → ℕ
status create_part cmd exists doc = if exists then 409 else 200
status delete_part cmd exists doc = if exists then 200 else 404
status post cmd exists doc = if exists then status_of_insert doc else 404
status put cmd exists doc = if exists then status_of_change cmd doc else 404
status del cmd exists doc = if exists then status_of_change cmd doc else 404
status _ cmd exists doc = 0

abbrev pub alters : CommandType → Bool
alters get = false
alters search = false
alters join_node = false
alters remove_node = false
alters _ = true

abbrev pub verdict_of : ℕ → Verdict
verdict_of n = if n == 200 then accepted else refused n

judge-status :
    (t : CommandType) (cmd : Command) (exists : Bool) (doc : Option Document)
    → alters t ≡ true
    → judge t cmd exists doc ≡ verdict_of (status t cmd exists doc)
unfolding judge
judge-status t cmd exists doc h = ground arith

-- The document of a raw text, if a document is looked for; the outer `none` is a JSON error.
abbrev pub decoded : (Text → Option Document) → Bool → Option Text → Option (Option Document)
decoded unmarshal true raw = some none
decoded unmarshal false none = some none
decoded unmarshal false (some raw) = elim (unmarshal raw) [
  | none ↦ none
  | some doc ↦ some (some doc)
]

module _ (B : Bolt) (unmarshal : Text → Option Document) where
  found_solo :
      (s : Shard B.Db) (i : ℕ) (u : LogEntry) (cmd : Command) (doc : Option Document)
      → decoded unmarshal cmd.is_part (non_empty (at_key B s.block cmd)) ≡ some doc
      → find_existing_document B unmarshal s (new_entry i u cmd)
        ≡ some (record (new_entry i u cmd) {
          part_exists = B.has_bucket s.block cmd.part;
          existing_doc = doc;
        })
  unfolding find_existing_document
  found_solo s i u cmd doc h = ground (arith, B.get-no_bucket s.block cmd.part (full_id cmd))

  update_shards-skip :
      (order : List ℕ) (shards : ℕ → Option (Shard B.Db)) (e : UpdateEntry) (p : Progress)
      → elem e.shard_id order ≡ false
      → update_shards B unmarshal order shards (e ∷ []) p ≡ (p, true)
  unfolding update_shards
  update_shards-skip [] shards e p h = refl
  update_shards-skip (c ∷ cs) shards e p h =
      let ne : (e.shard_id == c) ≡ false = ground arith in
      rw ne (elim (Option-cases (shards c)) [
        | inl x ↦ rw x (update_shards-skip cs shards e p (ground arith))
        | inr (s, x) ↦ rw x (update_shards-skip cs shards e p (ground arith))
      ])

  update_shards_solo :
      (order : List ℕ) (shards : ℕ → Option (Shard B.Db)) (e : UpdateEntry) (p : Progress)
      (s : Shard B.Db)
      → Distinct order
      → elem e.shard_id order ≡ true
      → shards e.shard_id ≡ some s
      → update_shards B unmarshal order shards (e ∷ []) p ≡ settle_shard B unmarshal p s (e ∷ [])
  unfolding update_shards
  update_shards_solo [] shards e p s d i o = absurd (cc)
  update_shards_solo (c ∷ cs) shards e p s d i o = elim (Bool-cases (e.shard_id == c)) [
    | inl same ↦
        let at : e.shard_id ≡ c = (==_iff e.shard_id c).0 same in
        let r : Progress × Bool = settle_shard B unmarshal p s (e ∷ []) in
        rw (same, subst (λ (k : ℕ). shards k ≡ some s) at o) (ended r (rw (← at) at (d.0)))
    | inr other ↦
        let rest = update_shards_solo cs shards e p s d.1 (ground arith) o in
        rw other (elim (Option-cases (shards c)) [ inl x ↦ rw x rest | inr (t, x) ↦ rw x rest ])
  ]
    where
      ended :
          (r : Progress × Bool)
          → elem e.shard_id cs ≡ false
          → (if r.1 then update_shards B unmarshal cs shards (e ∷ []) r.0 else (r.0, false)) ≡ r
      ended (q, true) gone = update_shards-skip cs shards e q gone
      ended (q, false) gone = refl

  -- The entry that an accepted command leaves in the queue.
  abbrev pub queued : LogEntry → Command → Bool → Option Document → UpdateEntry
  queued u cmd exists doc = record (new_entry 0 u cmd) {
    entry = none;
    part_exists = exists;
    existing_doc = doc;
  }

  abbrev pub queue_of : ℕ → UpdateEntry → List UpdateEntry
  queue_of code e = if code == 200 then e ∷ [] else []

  settled_solo :
      (pending : List UpdateEntry) (u : LogEntry) (cmd : Command) (exists : Bool)
      (doc : Option Document)
      → alters cmd.type ≡ true
      → settle
          (record { pending = pending; updates = u ∷ [] })
          (record (new_entry 0 u cmd) { part_exists = exists; existing_doc = doc } ∷ [])
        ≡ record {
          pending = pending ++ queue_of (status cmd.type cmd exists doc) (queued u cmd exists doc);
          updates = record u { value = status cmd.type cmd exists doc } ∷ [];
        }
  unfolding settle
  settled_solo pending u cmd exists doc h =
      rw (judge-status cmd.type cmd exists doc h) (settled_by (status cmd.type cmd exists doc))
    where
      settled_by :
          (n : ℕ)
          → settle_by
              (verdict_of n)
              (record { pending = pending; updates = u ∷ [] })
              (record (new_entry 0 u cmd) { part_exists = exists; existing_doc = doc })
            ≡ record {
              pending = pending ++ queue_of n (queued u cmd exists doc);
              updates = record u { value = n } ∷ [];
            }
      settled_by n = ground (arith, append-nil pending)

  -- What the store says of one entry that no pending command concerns.
  pub find_existing_stored :
      (s : Shard B.Db) (pending : List UpdateEntry) (u : LogEntry) (q : Command)
      (doc : Option Document)
      → find_command_in_pending pending q ≡ none
      → decoded unmarshal q.is_part (non_empty (at_key B s.block q)) ≡ some doc
      → find_existing B unmarshal s pending (new_entry 0 u q ∷ [])
        ≡ some (
            record (new_entry 0 u q) {
              part_exists = B.has_bucket s.block q.part;
              existing_doc = doc;
            }
            ∷ [])
  unfolding find_existing find_existing_documents_for_updates
  find_existing_stored s pending u q doc h stored = rw (h, found_solo s 0 u q doc stored)

  pub parse_updates_solo :
      (u : LogEntry) (cmd : Command)
      → parse_command unmarshal u.cmd ≡ ok cmd
      → parse_updates unmarshal 0 (u ∷ []) ≡ some (new_entry 0 u cmd ∷ [])
  unfolding parse_updates
  parse_updates_solo u cmd h = rw h

  -- One altering command, once what exists for it is known.
  pub update_found :
      (order : List ℕ) (m : Machine B.Db) (u : LogEntry) (cmd : Command) (s : Shard B.Db)
      (exists : Bool) (doc : Option Document)
      → Distinct order
      → elem (get_first_rune cmd.part) order ≡ true
      → m.shards (get_first_rune cmd.part) ≡ some s
      → parse_command unmarshal u.cmd ≡ ok cmd
      → alters cmd.type ≡ true
      → find_existing B unmarshal s m.pending (new_entry 0 u cmd ∷ [])
        ≡ some (record (new_entry 0 u cmd) { part_exists = exists; existing_doc = doc } ∷ [])
      → let code : ℕ = status cmd.type cmd exists doc in
        update B unmarshal order m (u ∷ [])
        ≡ some (record {
          machine = record m { pending = m.pending ++ queue_of code (queued u cmd exists doc) };
          updates = record u { value = code } ∷ [];
          fine = true;
        })
  unfolding update
  update_found order m u cmd s exists doc distinct covered open' parsed altering found = rw (
    parse_updates_solo u cmd parsed,
    update,
    update_shards_solo order m.shards (new_entry 0 u cmd) _ s distinct covered open',
    found,
    settled_solo m.pending u cmd exists doc altering,
  )

  -- On a machine with an empty queue, whose shard for the command is open and holds a document that
  -- decodes or none, `Update` of one altering command returns with the command's status in the log
  -- entry, and with the command in the queue exactly when that status is 200.
  pub update_solo :
      (order : List ℕ) (m : Machine B.Db) (u : LogEntry) (cmd : Command) (s : Shard B.Db)
      (doc : Option Document)
      → Distinct order
      → elem (get_first_rune cmd.part) order ≡ true
      → m.shards (get_first_rune cmd.part) ≡ some s
      → m.pending ≡ []
      → parse_command unmarshal u.cmd ≡ ok cmd
      → alters cmd.type ≡ true
      → decoded unmarshal cmd.is_part (non_empty (at_key B s.block cmd)) ≡ some doc
      → let code : ℕ = status cmd.type cmd (B.has_bucket s.block cmd.part) doc in
        update B unmarshal order m (u ∷ [])
        ≡ some (record {
          machine = record m {
            pending = queue_of code (queued u cmd (B.has_bucket s.block cmd.part) doc);
          };
          updates = record u { value = code } ∷ [];
          fine = true;
        })
  update_solo order m u cmd s doc distinct covered open' drained parsed altering stored =
      let exists : Bool = B.has_bucket s.block cmd.part in
      let none_waits : find_command_in_pending m.pending cmd ≡ none =
        rw drained (unfold find_command_in_pending in refl) in
      let code : ℕ = status cmd.type cmd exists doc in
      update_found order m u cmd s exists doc distinct covered open' parsed altering
        (find_existing_stored s m.pending u cmd doc none_waits stored)
      ∙ ap
          (λ (waiting : List UpdateEntry). some (record {
            machine = record m { pending = waiting ++ queue_of code (queued u cmd exists doc) };
            updates = record u { value = code } ∷ [];
            fine = true;
          }))
          drained
