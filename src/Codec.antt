-- ===== src/Codec.antt =====
-- What the program asks of `encoding/json`, and the search results of statemachine/statemachine.go
-- that it prints.
use bydb.Base.{Text, List, Option}
use bydb.Document.{Document, Float64}

pub record SearchMatch : Type 0 where
  pub score : Float64
  pub doc : Document

pub record SearchResult : Type 0 where
  pub matches : List SearchMatch

-- `none` is a returned error. Decoding starts from a zero document at every call in the source.
pub record Json : Type 0 where
  pub unmarshal : Text → Option Document
  pub marshal : SearchResult → Option Text
