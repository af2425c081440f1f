-- ===== src/Machine/Runs.antt =====
-- The life of a state machine that takes its commands one at a time, with syncs wherever they come,
-- against a document store.
use bydb.Base.{
  ℕ, true, ◌≡◌, refl, sym, ap, ◌∙◌, subst, Text, List, [], ◌∷◌, ◌++◌, Option, some, some_inj, map,
  All,
}
use bydb.Document.{Document}
use bydb.Bleve.{Bleve}
use bydb.Bolt.Defs.{Bolt}
use bydb.Command.Types.{Command, ok}
use bydb.Command.Formats.{parse_command}
use bydb.Machine.Answers.{IsReady, Answered, update-Represents}
use bydb.Machine.Entry.{LogEntry, get_first_rune}
use bydb.Machine.Firm.{
  IsFirm, update-IsFirm, parse_command-Decodes, IsReadable, handled-IsReadable, decoded-readable,
  IsClear, TellsLast-clear,
}
use bydb.Machine.Fresh.{IsSound, handled-IsSound, IsFreshLast, queue_of-IsFreshLast}
use bydb.Machine.Invariant.{new_entry-IsQueued, update-IsQueued}
use bydb.Machine.Queue.{IsQueued, last_concerning}
use bydb.Machine.Represented.{Store, answer_of, handled, Represents, IsRange, sync-Represents}
use bydb.Machine.Solo.{alters, queue_of}
use bydb.Machine.Sync.{sync}
use bydb.Machine.Synced.{sync-eq-done}
use bydb.Machine.Update.{Machine, Updated, update}
use bydb.Shard.Defs.{Shard, done}

module _ (unmarshal : Text → Option Document) where
  -- The specification: what the store answers to commands, and what it is behind them.
  abbrev pub answers : Store → List Command → List ℕ
  answers σ [] = []
  answers σ (c ∷ cs) = answer_of unmarshal σ c ∷ answers (handled unmarshal σ c) cs

  abbrev pub store_behind : Store → List Command → Store
  store_behind σ [] = σ
  store_behind σ (c ∷ cs) = store_behind (handled unmarshal σ c) cs

module _ (B : Bolt) (V : Bleve) (unmarshal : Text → Option Document) where
  -- The command's shard is open, and the last pending command that concerns it, if it is on a document, is
  -- not the deletion of that document.
  pub record IsMet (m : Machine B.Db) (cmd : Command) : Type 0 where
    pub shard : Shard B.Db
    pub opened : m.shards (get_first_rune cmd.part) ≡ some shard
    pub clear : IsClear unmarshal cmd (last_concerning cmd m.pending)

  -- A run from one machine to another, with the commands that it took and what each got.
  pub data Runs : Machine B.Db → List (Command × ℕ) → Machine B.Db → Type 0 where
    stays : (m : Machine B.Db) → Runs m [] m
    updates :
        (order : List ℕ) (m m' : Machine B.Db) (u : LogEntry) (cmd : Command) (n : ℕ)
        (r : Updated B unmarshal) (taken : List (Command × ℕ))
        → IsRange B order m
        → parse_command unmarshal u.cmd ≡ ok cmd
        → alters cmd.type ≡ true
        → IsMet m cmd
        → update B unmarshal order m (u ∷ []) ≡ some r
        → r.updates ≡ record u { value = n } ∷ []
        → Runs r.machine taken m'
        → Runs m ((cmd, n) ∷ taken) m'
    syncs :
        (order : List ℕ) (m n m' : Machine B.Db) (taken : List (Command × ℕ))
        → IsRange B order m
        → sync B V order m ≡ done n
        → Runs n taken m'
        → Runs m taken m'

  -- The machine stands for the store, and what waits and what is held is well-formed.
  pub record Stands (m : Machine B.Db) (σ : Store) : Type 0 where
    pub represents : Represents B m σ
    pub queued : All IsQueued m.pending
    pub firm : All (λ e. IsFirm unmarshal e.cmd) m.pending
    pub readable : IsReadable unmarshal σ
    pub sound : IsSound σ
    pub fresh : (q : Command) → IsFreshLast (last_concerning q m.pending) (σ.text q.part q.id)

  synced-Stands :
      (order : List ℕ) (m n : Machine B.Db) (σ : Store)
      → IsRange B order m
      → sync B V order m ≡ done n
      → Stands m σ
      → Stands n σ
  synced-Stands order m n σ range h s =
      let drained = (sync-eq-done B V order m n h).drained in
      record {
        represents = sync-Represents B V order m n σ range s.queued h s.represents;
        queued = rw drained tt;
        firm = rw drained tt;
        readable = s.readable;
        sound = s.sound;
        fresh = λ q. rw drained tt;
      }

  abbrev head_value : List LogEntry → ℕ
  head_value [] = 0
  head_value (u ∷ us) = u.value

  pub met-IsReady :
      (m : Machine B.Db) (σ : Store) (cmd : Command)
      → Stands m σ
      → IsMet m cmd
      → IsReady B unmarshal m cmd
  met-IsReady m σ cmd s met =
      let held = s.represents.held cmd met.shard met.opened in
      let (doc, stored) =
        decoded-readable unmarshal cmd.is_part (σ.text cmd.part cmd.id)
          (s.readable cmd.part cmd.id) in
      let seen = rw (← held) at stored in
      record {
        shard = met.shard;
        doc = doc;
        opened = met.opened;
        stored = seen;
        tells =
            TellsLast-clear unmarshal cmd m.pending _ doc s.firm met.clear (rw held (s.fresh cmd))
              seen;
      }

  grown-IsFreshLast :
      (m : Machine B.Db) (u : LogEntry) (cmd : Command) (r : Updated B unmarshal) (σ : Store)
      → parse_command unmarshal u.cmd ≡ ok cmd
      → Stands m σ
      → Answered B unmarshal m σ u cmd r
      → (q : Command)
      → IsFreshLast
          (last_concerning q r.machine.pending)
          ((handled unmarshal σ cmd).text q.part q.id)
  grown-IsFreshLast m u cmd r σ parsed s ended q =
      let kind = (new_entry-IsQueued unmarshal 0 u cmd parsed).kind in
      rw (ended.pending) (
        subst
          (λ (c : Command).
            IsFreshLast
              (last_concerning q
                (m.pending ++ queue_of B unmarshal (answer_of unmarshal σ c) ended.added))
              ((handled unmarshal σ c).text q.part q.id))
          ended.same
          (queue_of-IsFreshLast B unmarshal q m.pending ended.added σ (rw (ended.same) kind) s.sound
            (s.fresh q)))

  updated-Stands :
      (order : List ℕ) (m : Machine B.Db) (u : LogEntry) (cmd : Command) (n : ℕ)
      (r : Updated B unmarshal) (σ : Store)
      → IsRange B order m
      → parse_command unmarshal u.cmd ≡ ok cmd
      → alters cmd.type ≡ true
      → IsMet m cmd
      → update B unmarshal order m (u ∷ []) ≡ some r
      → r.updates ≡ record u { value = n } ∷ []
      → Stands m σ
      → (n ≡ answer_of unmarshal σ cmd) × Stands r.machine (handled unmarshal σ cmd)
  updated-Stands order m u cmd n r σ range parsed altering met h value s =
      let (r', e, ended') =
        update-Represents B unmarshal order m u cmd σ range s.queued parsed altering
          (met-IsReady m σ cmd s met) s.represents in
      let ended : Answered B unmarshal m σ u cmd r =
        subst (Answered B unmarshal m σ u cmd) (some_inj (sym e ∙ h)) ended' in
      (
        value_of (sym value ∙ ended.updates),
        record {
          represents = ended.machine;
          queued = update-IsQueued B unmarshal order m (u ∷ []) r s.queued h;
          firm = update-IsFirm unmarshal B order m u cmd r parsed altering s.firm h;
          readable =
              handled-IsReadable unmarshal cmd σ (parse_command-Decodes unmarshal u.cmd cmd parsed)
                s.readable;
          sound = handled-IsSound unmarshal cmd σ s.sound;
          fresh = λ q. grown-IsFreshLast m u cmd r σ parsed s ended q;
        },
      )
    where
      value_of : {a b : ℕ} → record u { value = a } ∷ [] ≡ record u { value = b } ∷ [] → a ≡ b
      value_of e = ap (λ (us : List LogEntry). head_value us) e

  pub Runs-Stands :
      (m m' : Machine B.Db) (taken : List (Command × ℕ)) (σ : Store)
      → Runs m taken m'
      → Stands m σ
      → (map (λ t. t.1) taken ≡ answers unmarshal σ (map (λ t. t.0) taken))
        × Stands m' (store_behind unmarshal σ (map (λ t. t.0) taken))
  Runs-Stands m m' taken σ (stays _) s = (refl, s)
  Runs-Stands m m' _ σ (updates order _ _ u cmd n r taken range parsed altering met h value rest)
        s =
      let (code, next) = updated-Stands order m u cmd n r σ range parsed altering met h value s in
      let (codes, last) = Runs-Stands r.machine m' taken _ rest next in
      (ap (λ k. k ∷ map (λ t. t.1) taken) code ∙ ap (answer_of unmarshal σ cmd ∷◌) codes, last)
  Runs-Stands m m' taken σ (syncs order _ n _ _ range h rest) s =
      Runs-Stands n m' taken σ rest (synced-Stands order m n σ range h s)
