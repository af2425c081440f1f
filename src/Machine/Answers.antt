-- ===== src/Machine/Answers.antt =====
-- `Update` and `Sync` against the document store that a machine stands for: commands one at a time, with
-- syncs wherever they come.
use bydb.Base.{
  ℕ, Bool, true, ◌≡◌, refl, sym, ap, ◌∙◌, subst, Text, List, [], ◌∷◌, ◌++◌, Option, some, All, inl,
  inr, Bool-cases, ◌==◌, if◌then◌else◌,
}
use bydb.Document.{Document}
use bydb.Bolt.Defs.{Bolt}
use bydb.Command.Types.{Command, ok}
use bydb.Command.Formats.{parse_command}
use bydb.Machine.Entry.{LogEntry, UpdateEntry, get_first_rune}
use bydb.Machine.Queue.{IsQueued, is_part_type, last_concerning}
use bydb.Machine.Invariant.{new_entry-IsQueued}
use bydb.Machine.Represented.{
  Store, carry_out, carry_out-text, carry_out-has, document_at, answer_of, handled, Represents,
  IsRange,
}
use bydb.Machine.Solo.{status, alters, decoded, queued, queue_of, update_found}
use bydb.Machine.Told.{TellsLast, foreseen}
use bydb.Machine.Update.{Machine, Updated, update}
use bydb.Shard.Applied.{at_key, left_by}
use bydb.Shard.Buckets.{there_by}
use bydb.Shard.Defs.{Shard, non_empty}
use bydb.Shard.Folded.{folded-append, there_behind, text_behind}

module _ (B : Bolt) (unmarshal : Text → Option Document) where
  -- A command that the machine is ready for: its shard is open, what the store that the machine stands
  -- for holds under its id decodes, and the last pending command that concerns it tells of that.
  pub record IsReady (m : Machine B.Db) (cmd : Command) : Type 0 where
    pub shard : Shard B.Db
    pub doc : Option Document
    pub opened : m.shards (get_first_rune cmd.part) ≡ some shard
    pub stored :
        decoded unmarshal cmd.is_part
          (non_empty (text_behind cmd m.pending (at_key B shard.block cmd)))
        ≡ some doc
    pub tells : TellsLast unmarshal cmd doc (last_concerning cmd m.pending)

  -- The fold over what an update adds to the queue.
  queue_of-there :
      (u : LogEntry) (q cmd : Command) (σ : Store) (exists : Bool) (told doc : Option Document)
      (n : ℕ)
      → cmd.is_part ≡ is_part_type cmd.type
      → alters cmd.type ≡ true
      → n ≡ status cmd.type cmd (σ.has cmd.part) doc
      → there_behind q
          (queue_of B unmarshal n (queued B unmarshal u cmd exists told))
          (σ.has q.part)
        ≡ (if n == 200 then carry_out cmd.type cmd σ else σ).has q.part
  queue_of-there u q cmd σ exists told doc n kind altering code = elim (Bool-cases (n == 200)) [
    | inl e ↦ rw e (carry_out-has cmd.type q cmd σ doc kind altering (rw (← code) e))
    | inr e ↦ rw e refl
  ]

  queue_of-held :
      (u : LogEntry) (q cmd : Command) (σ : Store) (exists : Bool) (told : Option Document) (n : ℕ)
      → cmd.is_part ≡ is_part_type cmd.type
      → text_behind q
          (queue_of B unmarshal n (queued B unmarshal u cmd exists told))
          (σ.text q.part q.id)
        ≡ (if n == 200 then carry_out cmd.type cmd σ else σ).text q.part q.id
  queue_of-held u q cmd σ exists told n kind = elim (Bool-cases (n == 200)) [
    | inl e ↦ rw e (carry_out-text cmd.type q cmd σ kind)
    | inr e ↦ rw e refl
  ]

  -- A queue that grows.
  appended-Represents :
      (m : Machine B.Db) (σ σ' : Store) (more : List UpdateEntry)
      → Represents B m σ
      → ((q : Command) → there_behind q more (σ.has q.part) ≡ σ'.has q.part)
      → ((q : Command) → text_behind q more (σ.text q.part q.id) ≡ σ'.text q.part q.id)
      → Represents B (record m { pending = m.pending ++ more }) σ'
  appended-Represents m σ σ' more r there held = record {
    there = λ q t e.
        folded-append (λ x c. there_by x) q m.pending more (B.has_bucket t.block q.part)
        ∙ ap (there_behind q more) (r.there q t e)
        ∙ there q;
    held = λ q t e.
        folded-append left_by q m.pending more (at_key B t.block q)
        ∙ ap (text_behind q more) (r.held q t e)
        ∙ held q;
  }

  document_at-doc :
      (σ : Store) (cmd : Command) (doc : Option Document)
      → decoded unmarshal cmd.is_part (non_empty (σ.text cmd.part cmd.id)) ≡ some doc
      → document_at unmarshal σ cmd ≡ doc
  document_at-doc σ cmd doc h = rw h refl

  -- What an update ends with: the answer of the store in the log entry, and the store's next state.
  pub record Answered (m : Machine B.Db) (σ : Store) (u : LogEntry) (cmd : Command)
      (r : Updated B unmarshal) : Type 0 where
    pub fine : r.fine ≡ true
    pub updates : r.updates ≡ record u { value = answer_of unmarshal σ cmd } ∷ []
    pub machine : Represents B r.machine (handled unmarshal σ cmd)
    pub added : UpdateEntry
    pub same : added.cmd ≡ cmd
    pub pending :
        r.machine.pending ≡ m.pending ++ queue_of B unmarshal (answer_of unmarshal σ cmd) added

  pub update-Represents :
      (order : List ℕ) (m : Machine B.Db) (u : LogEntry) (cmd : Command) (σ : Store)
      → IsRange B order m
      → All IsQueued m.pending
      → parse_command unmarshal u.cmd ≡ ok cmd
      → alters cmd.type ≡ true
      → IsReady m cmd
      → Represents B m σ
      → (r : Updated B unmarshal) × (update B unmarshal order m (u ∷ []) ≡ some r)
        × Answered m σ u cmd r
  update-Represents order m u cmd σ range well parsed altering ready r =
      let s : Shard B.Db = ready.shard in
      let kind = (new_entry-IsQueued unmarshal 0 u cmd parsed).kind in
      let seen = foreseen B unmarshal m s u cmd ready.doc kind well ready.tells ready.stored in
      let exists : Bool = there_behind cmd m.pending (B.has_bucket s.block cmd.part) in
      let there : exists ≡ σ.has cmd.part = r.there cmd s ready.opened in
      let n : ℕ = status cmd.type cmd exists seen.told in
      let known : n ≡ status cmd.type cmd (σ.has cmd.part) ready.doc =
        seen.same ∙ ap (λ b. status cmd.type cmd b ready.doc) there in
      let doc =
        document_at-doc σ cmd ready.doc (rw (r.held cmd s ready.opened) at (ready.stored)) in
      let code : n ≡ answer_of unmarshal σ cmd =
        known ∙ ap (status cmd.type cmd (σ.has cmd.part)) (sym doc) in
      let more : List UpdateEntry =
        queue_of B unmarshal n (queued B unmarshal u cmd exists seen.told) in
      (
        record {
          machine = record m { pending = m.pending ++ more };
          updates = record u { value = n } ∷ [];
          fine = true;
        },
        update_found B unmarshal order m u cmd s exists seen.told range.distinct
            (range.covers _ s ready.opened) ready.opened parsed altering seen.found,
        record {
          fine = refl;
          added = queued B unmarshal u cmd exists seen.told;
          same = refl;
          pending =
              ap
                (λ k.
                  m.pending ++ queue_of B unmarshal k (queued B unmarshal u cmd exists seen.told))
                code;
          updates = ap (λ k. record u { value = k } ∷ []) code;
          machine =
              subst
                (λ (k : ℕ).
                  Represents B (record m { pending = m.pending ++ more })
                    (if k == 200 then carry_out cmd.type cmd σ else σ))
                code
                (appended-Represents m σ _ more r
                  (λ q. queue_of-there u q cmd σ exists seen.told ready.doc n kind altering known)
                  (λ q. queue_of-held u q cmd σ exists seen.told n kind));
        },
      )
