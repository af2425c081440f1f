-- ===== src/Command/Grammar.antt =====
-- The command language on its own: the nine requests, how each is written, and what each stands for.
use bydb.Base.{ℕ, true, ◌≡◌, ◌≢◌, Text, codes, [], ◌∷◌, ◌++◌, Option, some}
use bydb.Base.Int.{pos}
use bydb.Base.Decimal.{parse_int}
use bydb.Document.{Document}
use bydb.Command.Pattern.Defs.{Class, nonspace, digit, any, member}
use bydb.Command.Pattern.Spells.{Within}
use bydb.Command.Types.{CommandType, Command, new_command}

pub data Request : Type 0 where
  get : (part id : Text) → Request
  del : (part id stamp : Text) → ℕ → Request
  put : (stamp body : Text) → ℕ → Document → Request
  post : (body : Text) → Document → Request
  search : (part query : Text) → Request
  create_part delete_part : (part : Text) → Request
  join_node remove_node : (id : Text) → Request

abbrev pub braced : Text → Text
braced inner = b'{' ∷ (inner ++ b'}' ∷ [])

abbrev pub print : Request → Text
print (get part id) = codes "GET " ++ (part ++ (codes " " ++ id))
print (del part id stamp _) = codes "DEL " ++ (part ++ (codes " " ++ (id ++ (codes " " ++ stamp))))
print (put stamp inner _ _) = codes "PUT " ++ (stamp ++ (codes " " ++ braced inner))
print (post inner _) = codes "POST " ++ braced inner
print (search part query) = codes "SEARCH " ++ (part ++ (codes " " ++ query))
print (create_part part) = codes "CREATE_PART " ++ part
print (delete_part part) = codes "DELETE_PART " ++ part
print (join_node id) = codes "JOIN_NODE " ++ id
print (remove_node id) = codes "REMOVE_NODE " ++ id

-- A non-empty text of one class of characters.
abbrev pub IsRun : Class → Text → Type 0
IsRun k t = (t ≢ []) × Within (member k) t

module _ (unmarshal : Text → Option Document) where
  -- Names hold no white space, stamps are digits that fit an int64, and a body decodes.
  abbrev pub IsRequest : Request → Type 0
  IsRequest (get part id) = IsRun nonspace part × IsRun nonspace id
  IsRequest (del part id stamp ts) =
      IsRun nonspace part × IsRun nonspace id × IsRun digit stamp × (parse_int stamp ≡ some ts)
  IsRequest (put stamp inner ts doc) =
      IsRun digit stamp
      × Within (member any) inner
      × (parse_int stamp ≡ some ts)
      × (unmarshal (braced inner) ≡ some doc)
  IsRequest (post inner doc) = Within (member any) inner × (unmarshal (braced inner) ≡ some doc)
  IsRequest (search part query) = IsRun nonspace part × IsRun any query
  IsRequest (create_part part) = IsRun nonspace part
  IsRequest (delete_part part) = IsRun nonspace part
  IsRequest (join_node id) = IsRun nonspace id
  IsRequest (remove_node id) = IsRun digit id

-- The command that a request stands for.
abbrev pub filled : Command → Request → Command
filled c (get part id) = record c { type = CommandType.get; part = part; id = id }
filled c (del part id _ ts) = record c { type = CommandType.del; part = part; id = id; ts = pos ts }
filled c (put _ inner ts doc) = record c {
  type = CommandType.put;
  string_doc = braced inner;
  bytes_doc = braced inner;
  doc = doc;
  part = doc.part;
  id = doc.id;
  ts = pos ts;
}
filled c (post inner doc) = record c {
  type = CommandType.post;
  string_doc = braced inner;
  bytes_doc = braced inner;
  doc = doc;
  part = doc.part;
  id = doc.id;
  ts = doc.created;
}
filled c (search part query) = record c { type = CommandType.search; part = part; query = query }
filled c (create_part part) = record c {
  type = CommandType.create_part;
  part = part;
  is_part = true;
}
filled c (delete_part part) = record c {
  type = CommandType.delete_part;
  part = part;
  is_part = true;
}
filled c (join_node id) = record c { type = CommandType.join_node; id = id }
filled c (remove_node id) = record c { type = CommandType.remove_node; id = id }

abbrev pub denoted : Request → Command
denoted r = filled (new_command (print r)) r
