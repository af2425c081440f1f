-- ===== src/Tests/Fixtures.antt =====
-- Concrete data for the examples: a decoder, an index, a shard with one partition, and machines.
use bydb.Base.{
  ℕ, true, Text, codes, List, [], ◌∷◌, Option, none, some, text_eq, ◌==◌, if◌then◌else◌,
}
use bydb.Base.Int.{pos}
use bydb.Bleve.{Bleve}
use bydb.Bolt.Model.{Store}
use bydb.Command.Grammar.{get, put, del, post, create_part, delete_part, denoted}
use bydb.Command.Types.{Command}
use bydb.Document.{Document, zero_document}
use bydb.Machine.Entry.{LogEntry, UpdateEntry, get_first_rune}
use bydb.Machine.Update.{Machine}
use bydb.Shard.Defs.{Shard}

-- The document "a" of the partition "p", last updated at 5.
abbrev pub doc_a : Document
doc_a = record zero_document { id = codes "a"; part = codes "p"; updated = pos 5; created = pos 5 }

abbrev pub doc_b : Document
doc_b = record zero_document { id = codes "b"; part = codes "p"; updated = pos 7; created = pos 7 }

abbrev pub doc_q : Document
doc_q = record zero_document { id = codes "q"; part = codes "a"; updated = pos 8; created = pos 8 }

abbrev pub decode : Text → Option Document
unfolding text_eq
decode t =
    if text_eq t (codes "{q}")
    then some doc_q
    else if text_eq t (codes "{a}")
    then some doc_a
    else if text_eq t (codes "{b}")
    then some doc_b
    else none

abbrev pub bleve : Bleve
bleve = record {
  indexable = λ id doc. true;
  commits = λ index batch. true;
  search = λ index query. some [];
}

abbrev pub block : Store
block = (codes "p", (codes "p:a", codes "{a}") ∷ []) ∷ []

abbrev pub shard : Shard Store
shard = record { index = []; block = block }

abbrev pub empty_shard : Shard Store
empty_shard = record { index = []; block = [] }

-- The machines have the shards of "p" and of "a", which is empty.
abbrev pub shards : ℕ → Option (Shard Store)
shards c = if c == b'p' then some shard else if c == b'a' then some empty_shard else none

abbrev pub order : List ℕ
order = codes "ap"

abbrev pub order' : List ℕ
order' = codes "pa"

abbrev pub meta_db : Store
meta_db = (codes "meta", []) ∷ []

abbrev pub machine_with : List UpdateEntry → Machine Store
machine_with pending = record {
  shards = shards;
  meta_db = meta_db;
  last_index = 3;
  pending = pending;
}

abbrev pub get_a : Command
get_a = denoted (get (codes "p") (codes "a"))

abbrev pub del_a : Command
del_a = denoted (del (codes "p") (codes "a") (codes "5") 5)

abbrev pub post_b : Command
post_b = denoted (post (codes "b") doc_b)

abbrev pub put_a : Command
put_a = denoted (put (codes "5") (codes "a") 5 doc_a)

abbrev pub post_a : Command
post_a = denoted (post (codes "a") doc_a)

abbrev pub delete_p : Command
delete_p = denoted (delete_part (codes "p"))

abbrev pub create_p : Command
create_p = denoted (create_part (codes "p"))

-- An insertion into the partition "a".
abbrev pub post_q : Command
post_q = denoted (post (codes "q") doc_q)

abbrev pub create_ab : Command
create_ab = denoted (create_part (codes "ab"))

abbrev pub create_a : Command
create_a = denoted (create_part (codes "a"))

abbrev pub entry_of : ℕ → Command → UpdateEntry
entry_of i c = record {
  entry = none;
  cmd = c;
  existing_doc = none;
  part_exists = true;
  index = i;
  shard_id = get_first_rune c.part;
}

abbrev pub log_entry : ℕ → Command → LogEntry
log_entry i c = record { index = i; cmd = c.raw; value = 0 }
