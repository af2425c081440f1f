-- ===== src/Document.antt =====
-- document/document.go: a document, with the JSON values that its two maps hold.
use bydb.Base.{ℕ, Bool, Text, List, []}
use bydb.Base.Int.{ℤ, pos}

-- A float64 by its 64-bit pattern. The program stores such values and never computes with them.
abbrev pub Float64 : Type 0
Float64 = ℕ

-- What `encoding/json` puts into an `any`.
mutual
  pub data Value : Type 0 where
    null : Value
    boolean : Bool → Value
    number : Float64 → Value
    string : Text → Value
    array : Items → Value
    object : Fields → Value

  pub data Items : Type 0 where
    nil : Items
    cons : Value → Items → Items

  pub data Fields : Type 0 where
    end : Fields
    field : Text → Value → Fields → Fields

pub record Document : Type 0 where
  pub id : Text
  pub part : Text
  pub index : Fields
  pub categories : List Text
  pub block : Fields
  pub updated : ℤ
  pub created : ℤ

-- `&Document{}`
abbrev pub zero_document : Document
zero_document = record {
  id = [];
  part = [];
  index = end;
  categories = [];
  block = end;
  updated = pos 0;
  created = pos 0;
}
