-- ===== src/Tests/Learns.antt =====
-- Examples for the store of learn/bolt-bleve: one document that is written and then deleted.
use bydb.Base.{
  true, ◌≡◌, refl, Text, codes, List, [], ◌∷◌, ◌++◌, none, some, text_eq, if◌then◌else◌,
}
use bydb.Bolt.Model.{assoc_bolt, has_bucket, lookup, set_bucket, without, create_bucket, put}
use bydb.Document.{field, string, end}
use bydb.Learn.Partition.{Document, Engine, Json, Partition, add}
use bydb.Learn.Replay.{putting, run_changes, run_changes-get, get_from-new}
use bydb.Learn.Store.{
  Opening, Directory, Disk, set_directory, open_or_create_bleve, open_partition, get_partition,
  get_from,
}
use bydb.Shard.Defs.{done, panicked}

-- An index that is known by the calls made to it, which succeed.
abbrev engine : Engine
engine = record {
  Index = List Text;
  index = λ calls id fields. (calls ++ id ∷ [], true);
  delete = λ calls id. (calls ++ id ∷ [], true);
  search = λ calls query. some [];
}

abbrev byron : Document
byron = record {
  id = codes "123";
  part = codes "omanom";
  fields = field (codes "name") (string (codes "Byron")) end;
}

abbrev json : Json
unfolding text_eq
json = record {
  marshal = λ doc. some (codes "{byron}");
  unmarshal = λ raw. if text_eq raw (codes "{byron}") then some byron else none;
}

abbrev opening : Opening assoc_bolt engine
opening = record {
  join = λ dir name. dir ++ b'/' ∷ name;
  new_index = λ path. some [];
  opens_index = λ path. true;
  opens_block = λ path. true;
  empty_block = [];
  empty-no_bucket = λ p. unfold has_bucket lookup in refl;
}

abbrev empty_disk : Disk assoc_bolt engine json opening
empty_disk path = none

-- The partition of the examples, as it opens behind the writing of its document.
abbrev written_partition : Partition assoc_bolt engine json
written_partition = record {
  index = codes "123" ∷ [];
  block = (codes "omanom", (codes "123", codes "{byron}") ∷ []) ∷ [];
  name = codes "omanom";
}

run_changes-get_example :
    (get_from assoc_bolt engine json opening
      (codes "d")
      (run_changes assoc_bolt engine json opening (codes "d") empty_disk (putting byron ∷ [])).0
      (codes "omanom")
      (codes "123")).1
    ≡ done byron
unfolding run_changes text_eq bydb.Learn.Store.put open_partition open_or_create_bleve set_directory
    get_partition add has_bucket lookup set_bucket create_bucket put without
run_changes-get_example =
    run_changes-get assoc_bolt engine json opening (codes "d") empty_disk (putting byron ∷ [])
      (codes "omanom") (codes "123") written_partition refl refl

get_from-new_example :
    (get_from assoc_bolt engine json opening
      (codes "d")
      empty_disk
      (codes "omanom")
      (codes "123")).1
    ≡ panicked
unfolding get_partition open_partition open_or_create_bleve set_directory text_eq
get_from-new_example =
    get_from-new assoc_bolt engine json opening (codes "d") empty_disk (codes "omanom")
      (codes "123") (record { index = []; block = []; name = codes "omanom" }) refl refl
