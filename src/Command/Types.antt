-- ===== src/Command/Types.antt =====
-- The command record of command/command.go, its types and its errors.
use bydb.Base.{ℕ, Bool, false, Text, List, [], ◌∷◌, ◌++◌}
use bydb.Base.Int.{ℤ, pos}
use bydb.Document.{Document, zero_document}
use bydb.Command.Pattern.Defs.{Piece}
use mathlib.Core.Option.{Option, none, some}

pub data CommandType : Type 0 where
  get put del post search : CommandType
  create_part delete_part : CommandType
  join_node remove_node : CommandType

pub record Command : Type 0 where
  pub type : CommandType
  pub doc : Document
  pub query : Text
  pub id : Text
  pub part : Text
  pub raw : Text
  pub string_doc : Text
  pub bytes_doc : Text
  pub index : ℕ
  pub ts : ℤ
  pub is_part : Bool

-- `&Command{Raw: raw, Doc: &Document{}}`: every other field is its zero value.
abbrev pub new_command : Text → Command
new_command raw = record {
  type = get;
  doc = zero_document;
  query = [];
  id = [];
  part = [];
  raw = raw;
  string_doc = [];
  bytes_doc = [];
  index = 0;
  ts = pos 0;
  is_part = false;
}

abbrev pub full_id : Command → Text
full_id c = c.part ++ (b':' ∷ c.id)

-- `index_panic` is the panic of a slice index out of range, and no error that is returned.
pub data Error : Type 0 where
  invalid_format : Text → Error
  json_error ts_range unknown_command index_panic : Error

pub data Result {ℓ} (A : Type ℓ) : Type ℓ where
  ok : A → Result A
  err : Error → Result A

infixl 5 ◌>>=◌
abbrev pub ◌>>=◌ {ℓ κ} : {A : Type ℓ} {B : Type κ} → Result A → (A → Result B) → Result B
ok a >>= f = f a
err e >>= f = err e

abbrev pub or_error {ℓ} : {A : Type ℓ} → Error → Option A → Result A
or_error e none = err e
or_error e (some a) = ok a

abbrev pub CommandParser : Type 0
CommandParser = Command → List Text → Result Command

pub record CommandFormat : Type 0 where
  pub prefix : Text
  pub pattern : List Piece
  pub parser : CommandParser
