-- ===== src/Api/Served.antt =====
-- `Crud` of api/api.go in front of the state machine of statemachine/statemachine.go.
use bydb.Base.{ℕ, true, ◌≡◌, refl, ap, ◌∙◌, Text, List, [], ◌∷◌, Option, none, some, map}
use bydb.Document.{Document}
use bydb.Bleve.{Bleve}
use bydb.Bolt.Defs.{Bolt}
use bydb.Command.Formats.{parse_command}
use bydb.Command.Types.{CommandType, create_part, delete_part, put, post, del, Command, ok}
use bydb.Api.Defs.{NodeHost, Handled, get_http_response_string, dispatch, crud}
use bydb.Api.Laws.{crud-dispatch}
use bydb.Machine.Entry.{LogEntry}
use bydb.Machine.Firm.{IsReadable}
use bydb.Machine.Refines.{store_of, Runs-next}
use bydb.Machine.Represented.{IsRange, answer_of}
use bydb.Machine.Runs.{store_behind, IsMet, Runs}
use bydb.Machine.Solo.{alters}
use bydb.Machine.Update.{Machine, Updated, update}

-- The value of the only entry of a batch.
abbrev pub value_of : List LogEntry → Option ℕ
value_of (u ∷ []) = some u.value
value_of _ = none

module _ (B : Bolt) (V : Bleve) (unmarshal : Text → Option Document) where
  -- The log entry in which Raft hands a proposed text on.
  abbrev pub handed : ℕ → Text → LogEntry
  handed i raw = record { index = i; cmd = raw; value = 0 }

  -- The node host answers a proposal by what `Update` of its entry leaves as the entry's value.
  abbrev pub Proposes : NodeHost → List ℕ → Machine B.Db → ℕ → Text → Type 0
  Proposes nh order m i raw =
      (r : Updated B unmarshal)
      → update B unmarshal order m (handed i raw ∷ []) ≡ some r
      → r.fine ≡ true
      → nh.propose raw ≡ value_of r.updates

  dispatch-reply :
      (nh : NodeHost) (duration : ℕ) (t : CommandType) (cmd : Command) (raw : Text) (n : ℕ)
      → alters t ≡ true
      → nh.propose raw ≡ some n
      → (dispatch nh duration t cmd raw).reply
        ≡ some (record { code = n; document = get_http_response_string n; duration = duration })
  unfolding dispatch
  dispatch-reply nh duration put cmd raw n a h = rw h refl
  dispatch-reply nh duration post cmd raw n a h = rw h refl
  dispatch-reply nh duration del cmd raw n a h = rw h refl
  dispatch-reply nh duration create_part cmd raw n a h = rw h refl
  dispatch-reply nh duration delete_part cmd raw n a h = rw h refl
  dispatch-reply nh duration _ cmd raw n a h = absurd (cc)

  -- A client gets the answer of a document store. Behind a run of a state machine, from an empty
  -- queue over stored documents that decode, of updates of one altering command each and of syncs
  -- that succeed wherever they come, `Crud` of the text of an altering command replies with the
  -- code that the store answers which the commands of the run leave, and with the text of that
  -- code, if the node host answers the proposal by the value that `Update` leaves in its log entry,
  -- with any order of the range over the open shards. The shard of each command, also of the last,
  -- is open, and the last pending command that concerns it, if it is on a document, is not the
  -- deletion of that document.
  pub crud-answers :
      (nh : NodeHost) (duration : ℕ) (m m' : Machine B.Db) (taken : List (Command × ℕ))
      (order : List ℕ) (i : ℕ) (raw : Text) (cmd : Command)
      → m.pending ≡ []
      → IsReadable unmarshal (store_of B V unmarshal m)
      → Runs B V unmarshal m taken m'
      → IsRange B order m'
      → parse_command unmarshal raw ≡ ok cmd
      → alters cmd.type ≡ true
      → IsMet B V unmarshal m' cmd
      → Proposes nh order m' i raw
      → let code : ℕ =
          answer_of unmarshal
            (store_behind unmarshal (store_of B V unmarshal m) (map (λ t. t.0) taken))
            cmd in
        (crud nh duration unmarshal raw).reply
        ≡ some
            (record { code = code; document = get_http_response_string code; duration = duration })
  crud-answers nh duration m m' taken order i raw cmd drained readable run range parsed altering met
        proposes =
      let (r, e, fine, updates) =
        Runs-next B V unmarshal m m' taken order (handed i raw) cmd drained readable run range
          parsed altering met in
      ap (λ (h : Handled). h.reply) (crud-dispatch nh duration unmarshal raw parsed)
      ∙ dispatch-reply nh duration cmd.type cmd raw _ altering
          (proposes r e fine ∙ ap value_of updates)
