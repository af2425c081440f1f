-- ===== src/Machine/Told.antt =====
-- What the pending queue tells `Update` of a command's partition and document, against what the store
-- holds once the queue has been applied.
use bydb.Base.{
  Bool, true, false, ◌≡◌, ◌≢◌, refl, sym, ap, ◌∙◌, Text, List, [], ◌∷◌, Option, none, some, inl,
  inr, Bool-cases, All, arith,
}
use bydb.Document.{Document}
use bydb.Bolt.Defs.{Bolt}
use bydb.Command.Types.{
  CommandType, get, put, del, post, search, create_part, delete_part, join_node, remove_node,
  Command,
}
use bydb.Shard.Defs.{Shard, non_empty}
use bydb.Shard.Applied.{at_key, left_by}
use bydb.Shard.Buckets.{there_by}
use bydb.Shard.Folded.{LeftBy, folded-LeftBy, there_behind, text_behind}
use bydb.Machine.Reads.{body_of}
use bydb.Shard.Searchable.{Decodes}
use bydb.Machine.Entry.{LogEntry, UpdateEntry, find_command_in_pending}
use bydb.Machine.Queue.{IsQueued, HasBody, is_part_type, last_concerning, find-last_concerning}
use bydb.Machine.Solo.{status, decoded, find_existing_stored}
use bydb.Machine.Update.{Machine, new_entry, seen_in_pending, find_existing}

-- What a pending command says of the document of another that it concerns.
abbrev pub told_by : CommandType → Command → Option Document
told_by create_part c = none
told_by delete_part c = none
told_by _ c = some c.doc

-- What is known of a pending command, so that the queue says of the document `doc` behind it what the
-- store will hold: a written document is what its body decodes to, a created partition holds no
-- document, and a deletion is seen only by a command on its partition.
abbrev pub Tells :
    (Text → Option Document) → Command → Option Document → CommandType → Command → Type 0
Tells unmarshal q doc put c = Decodes unmarshal put c
Tells unmarshal q doc post c = Decodes unmarshal post c
Tells unmarshal q doc del c = q.is_part ≡ true
Tells unmarshal q doc create_part c = doc ≡ none
Tells unmarshal q doc delete_part c = Unit
Tells unmarshal q doc _ c = ⊥

abbrev pub TellsLast :
    (Text → Option Document) → Command → Option Document → Option Command → Type 0
TellsLast unmarshal q doc none = Unit
TellsLast unmarshal q doc (some c) = Tells unmarshal q doc c.type c

Tells-there_by :
    (unmarshal : Text → Option Document) (q : Command) (doc : Option Document) (t : CommandType)
    (c : Command) (a b : Bool)
    → Tells unmarshal q doc t c
    → there_by t a ≡ there_by t b
Tells-there_by unmarshal q doc get c a b h = absurd h
Tells-there_by unmarshal q doc search c a b h = absurd h
Tells-there_by unmarshal q doc join_node c a b h = absurd h
Tells-there_by unmarshal q doc remove_node c a b h = absurd h
Tells-there_by unmarshal q doc _ c a b h = refl

-- A command on a partition has its status whatever documents there are.
status-part :
    (t : CommandType) (q : Command) (exists : Bool) (doc doc' : Option Document)
    → is_part_type t ≡ true
    → status t q exists doc ≡ status t q exists doc'
status-part t q exists doc doc' h = ground arith

status-missing :
    (t : CommandType) (q : Command) (doc doc' : Option Document)
    → status t q false doc ≡ status t q false doc'
status-missing t q doc doc' = ground arith

-- The document of a written body is the one that the store then holds.
decoded-body :
    (unmarshal : Text → Option Document) (raw : Text) (written : Document) (doc : Option Document)
    → raw ≢ []
    → unmarshal raw ≡ some written
    → decoded unmarshal false (non_empty (some raw)) ≡ some doc
    → doc ≡ some written
decoded-body unmarshal [] written doc filled u h = absurd (filled refl)
decoded-body unmarshal (x ∷ xs) written doc filled u h = ground arith

-- The document that a pending command tells gives a command the status that the document in the
-- store behind the pending command gives it.
told-status :
    (unmarshal : Text → Option Document) (q c : Command) (exists : Bool) (doc : Option Document)
    (raw raw' : Option Text) (t : CommandType)
    → q.is_part ≡ is_part_type q.type
    → HasBody t c
    → Tells unmarshal q doc t c
    → raw' ≡ left_by t c raw
    → decoded unmarshal q.is_part (non_empty raw') ≡ some doc
    → status q.type q (there_by t exists) (told_by t c) ≡ status q.type q (there_by t exists) doc
told-status unmarshal q c exists doc raw raw' t kind body tells left stored =
    elim (Bool-cases (is_part_type q.type)) [
      | inl part ↦ status-part q.type q (there_by t exists) (told_by t c) doc part
      | inr plain ↦ by_type t (kind ∙ plain) body tells left (rw (kind, plain) at stored)
    ]
  where
    by_type :
        (s : CommandType)
        → q.is_part ≡ false
        → HasBody s c
        → Tells unmarshal q doc s c
        → raw' ≡ left_by s c raw
        → decoded unmarshal false (non_empty raw') ≡ some doc
        → status q.type q (there_by s exists) (told_by s c)
          ≡ status q.type q (there_by s exists) doc
    by_type put p b w l stored =
        ap (status q.type q true)
          (sym (decoded-body unmarshal c.bytes_doc c.doc doc b.1 w (rw l at stored)))
    by_type post p b w l stored =
        ap (status q.type q true)
          (sym (decoded-body unmarshal c.bytes_doc c.doc doc b.1 w (rw l at stored)))
    by_type del p b w l stored = absurd (cc)
    by_type create_part p b w l stored = ap (status q.type q true) (sym w)
    by_type delete_part p b w l stored = status-missing q.type q none doc
    by_type _ p b w l stored = absurd w

module _ (B : Bolt) (unmarshal : Text → Option Document) where
  -- What the queue says of one entry that a pending command concerns.
  pub find_existing_told :
      (s : Shard B.Db) (pending : List UpdateEntry) (u : LogEntry) (q c : Command)
      → find_command_in_pending pending q ≡ some c
      → find_existing B unmarshal s pending (new_entry 0 u q ∷ [])
        ≡ some (
            record (new_entry 0 u q) {
              part_exists = there_by c.type true;
              existing_doc = told_by c.type c;
            }
            ∷ [])
  unfolding find_existing seen_in_pending
  find_existing_told s pending u q c h = rw h (seen c.type)
    where
      seen :
          (t : CommandType)
          → some (seen_in_pending t c (new_entry 0 u q) ∷ [])
            ≡ some (
                record (new_entry 0 u q) {
                  part_exists = there_by t true;
                  existing_doc = told_by t c;
                }
                ∷ [])
      seen create_part = refl
      seen delete_part = refl
      seen _ = refl

  -- What `Update` looks up for a command, against what the store will hold once the queue has been
  -- applied.
  pub record Foreseen (m : Machine B.Db) (s : Shard B.Db) (u : LogEntry) (q : Command)
      (doc : Option Document) : Type 0 where
    pub told : Option Document
    pub found :
        find_existing B unmarshal s m.pending (new_entry 0 u q ∷ [])
        ≡ some (
            record (new_entry 0 u q) {
              part_exists = there_behind q m.pending (B.has_bucket s.block q.part);
              existing_doc = told;
            }
            ∷ [])
    pub same :
        status q.type q (there_behind q m.pending (B.has_bucket s.block q.part)) told
        ≡ status q.type q (there_behind q m.pending (B.has_bucket s.block q.part)) doc

  known_ahead :
      (m : Machine B.Db) (s : Shard B.Db) (u : LogEntry) (q : Command) (doc : Option Document)
      (o : Option Command)
      → last_concerning q m.pending ≡ o
      → q.is_part ≡ is_part_type q.type
      → ((c : Command) → o ≡ some c → HasBody c.type c)
      → TellsLast unmarshal q doc o
      → LeftBy
          (λ t c. there_by t)
          o
          (B.has_bucket s.block q.part)
          (there_behind q m.pending (B.has_bucket s.block q.part))
      → LeftBy left_by o (at_key B s.block q) (text_behind q m.pending (at_key B s.block q))
      → decoded unmarshal q.is_part (non_empty (text_behind q m.pending (at_key B s.block q)))
        ≡ some doc
      → Foreseen m s u q doc
  known_ahead m s u q doc none e kind body tells there left stored = record {
    told = doc;
    found = rw there (
        find_existing_stored B unmarshal s m.pending u q doc (find-last_concerning q m.pending ∙ e)
          (rw left at stored));
    same = refl;
  }
  known_ahead m s u q doc (some c) e kind body tells (was, there) (held, left) stored = record {
    told = told_by c.type c;
    found =
        rw (there ∙ Tells-there_by unmarshal q doc c.type c was true tells)
          (find_existing_told s m.pending u q c (find-last_concerning q m.pending ∙ e));
    same = rw there (
        told-status unmarshal q c was doc held (text_behind q m.pending (at_key B s.block q)) c.type
          kind (body c refl) tells left stored);
  }

  pub foreseen :
      (m : Machine B.Db) (s : Shard B.Db) (u : LogEntry) (q : Command) (doc : Option Document)
      → q.is_part ≡ is_part_type q.type
      → All IsQueued m.pending
      → TellsLast unmarshal q doc (last_concerning q m.pending)
      → decoded unmarshal q.is_part (non_empty (text_behind q m.pending (at_key B s.block q)))
        ≡ some doc
      → Foreseen m s u q doc
  foreseen m s u q doc kind queued_well tells stored =
      known_ahead m s u q doc (last_concerning q m.pending) refl kind
        (λ d. body_of B m.pending q d queued_well) tells
        (folded-LeftBy (λ t c. there_by t) q m.pending (B.has_bucket s.block q.part))
        (folded-LeftBy left_by q m.pending (at_key B s.block q)) stored
