-- ===== src/Machine/Detached.antt =====
-- The place of an entry's log entry in its batch does not show in what the entry adds to the queue.
use bydb.Base.{
  ℕ, false, ◌≡◌, refl, sym, ap, ◌∙◌, Text, List, [], ◌∷◌, ◌++◌, Option, none, some, map, All, inl,
  inr, Bool-cases, ltb, if◌then◌else◌, ◌==◌, arith,
}
use bydb.Bolt.Defs.{Bolt}
use bydb.Command.Types.{CommandType, get, create_part, delete_part, Command}
use bydb.Document.{Document}
use bydb.Machine.Entry.{UpdateEntry, find_command_in_pending}
use bydb.Machine.Order.{accepted_of, taken, accepted_found, gained_at}
use bydb.Machine.Split.{gained_at-found}
use bydb.Machine.Stable.{IsStable}
use bydb.Machine.Update.{
  Verdict, accepted, Looked, looked, seen_in_pending, look_in_pending, count_searches,
  find_existing, verdict, of_shard,
}
use bydb.Shard.Defs.{Shard, find_existing_documents_for_updates, find_existing_document, cons_found}

abbrev pub detached : UpdateEntry → UpdateEntry
detached e = record e { entry = none }

abbrev pub detached_all : List UpdateEntry → List UpdateEntry
detached_all es = map detached es

abbrev detached_found : Option (List UpdateEntry) → Option (List UpdateEntry)
detached_found none = none
detached_found (some es) = some (detached_all es)

abbrev detached_one : Option UpdateEntry → Option UpdateEntry
detached_one none = none
detached_one (some e) = some (detached e)

pub All-detached :
    (P : UpdateEntry → Type 0)
    → IsStable P
    → (es : List UpdateEntry) → All P es
    → All P (detached_all es)
All-detached P stable [] a = tt
All-detached P stable (e ∷ es) a = (stable e _ refl refl refl a.0, All-detached P stable es a.1)

pub All_of-detached :
    (P : UpdateEntry → Type 0)
    → IsStable P
    → (es : List UpdateEntry) → All P (detached_all es)
    → All P es
All_of-detached P stable [] a = tt
All_of-detached P stable (e ∷ es) a =
    (stable (detached e) e refl refl refl a.0, All_of-detached P stable es a.1)

pub of_shard-detached :
    (k : ℕ) (es : List UpdateEntry) → of_shard k (detached_all es) ≡ detached_all (of_shard k es)
of_shard-detached k [] = refl
of_shard-detached k (e ∷ es) = elim (Bool-cases (e.shard_id == k)) [
  | inl same ↦ rw same (ap (λ l. detached e ∷ l) (of_shard-detached k es))
  | inr other ↦ rw other (of_shard-detached k es)
]

taken-detached : (v : Verdict) (e : UpdateEntry) → taken v (detached e) ≡ taken v e
taken-detached accepted e = refl
taken-detached _ e = refl

accepted_of-detached : (es : List UpdateEntry) → accepted_of (detached_all es) ≡ accepted_of es
accepted_of-detached [] = refl
accepted_of-detached (e ∷ es) =
    ap (λ l. l ++ accepted_of (detached_all es)) (taken-detached (verdict e) e)
    ∙ ap (λ l. taken (verdict e) e ++ l) (accepted_of-detached es)

looked-detached :
    (e : UpdateEntry) (o : Option Command)
    → looked (detached e) o ≡ (detached (looked e o).0, (looked e o).1)
unfolding seen_in_pending
looked-detached e none = refl
looked-detached e (some c) = seen c.type
  where
    seen :
        (t : CommandType)
        → ◌≡◌ {A = Looked}
            (seen_in_pending t c (detached e), false)
            (detached (seen_in_pending t c e), false)
    seen create_part = refl
    seen delete_part = refl
    seen get = refl
    seen _ = refl

abbrev detached_looks : List Looked → List Looked
detached_looks ls = map (λ (l : Looked). (detached l.0, l.1)) ls

look-detached :
    (queue es : List UpdateEntry)
    → map (look_in_pending queue) (detached_all es)
      ≡ detached_looks (map (look_in_pending queue) es)
unfolding look_in_pending
look-detached queue [] = refl
look-detached queue (e ∷ es) =
    cc (looked-detached e (find_command_in_pending queue e.cmd), look-detached queue es)

count_searches-detached :
    (ls : List Looked) → count_searches (detached_looks ls) ≡ count_searches ls
count_searches-detached [] = refl
count_searches-detached (l ∷ ls) = omega (arith, count_searches-detached ls)

abbrev entries_of : List Looked → List UpdateEntry
entries_of ls = map (λ (l : Looked). l.0) ls

entries_of-detached :
    (ls : List Looked) → entries_of (detached_looks ls) ≡ detached_all (entries_of ls)
entries_of-detached [] = refl
entries_of-detached (l ∷ ls) = ap (λ es. detached l.0 ∷ es) (entries_of-detached ls)

module _ (B : Bolt) (unmarshal : Text → Option Document) where
  found_one-detached :
      (s : Shard B.Db) (e : UpdateEntry)
      → find_existing_document B unmarshal s (detached e)
        ≡ detached_one (find_existing_document B unmarshal s e)
  unfolding find_existing_document
  found_one-detached s e = ground arith

  cons_found-detached :
      (o : Option UpdateEntry) (p : Option (List UpdateEntry))
      → cons_found B unmarshal (detached_one o) (detached_found p)
        ≡ detached_found (cons_found B unmarshal o p)
  cons_found-detached o p = ground arith

  found-detached :
      (s : Shard B.Db) (es : List UpdateEntry)
      → find_existing_documents_for_updates B unmarshal s (detached_all es)
        ≡ detached_found (find_existing_documents_for_updates B unmarshal s es)
  unfolding find_existing_documents_for_updates
  found-detached s [] = refl
  found-detached s (e ∷ es) =
      rw (found_one-detached s e, found-detached s es)
        (cons_found-detached (find_existing_document B unmarshal s e)
          (find_existing_documents_for_updates B unmarshal s es))

  find_existing-detached :
      (s : Shard B.Db) (queue es : List UpdateEntry)
      → find_existing B unmarshal s queue (detached_all es)
        ≡ detached_found (find_existing B unmarshal s queue es)
  unfolding find_existing
  find_existing-detached s queue es =
      let ls = map (look_in_pending queue) es in
      ap
        (λ (seen : List Looked).
          if ltb 0 (count_searches seen)
          then find_existing_documents_for_updates B unmarshal s (entries_of seen)
          else some (entries_of seen))
        (look-detached queue es)
      ∙ rw (count_searches-detached ls, entries_of-detached ls)
          (elim (Bool-cases (ltb 0 (count_searches ls))) [
            | inl some' ↦ rw some' (found-detached s (entries_of ls))
            | inr none' ↦ rw none'
          ])

  accepted_found-detached :
      (o : Option (List UpdateEntry))
      → accepted_found B unmarshal (detached_found o) ≡ accepted_found B unmarshal o
  accepted_found-detached none = refl
  accepted_found-detached (some es) = accepted_of-detached es

  pub gained_at-detached :
      (s : Shard B.Db) (queue es : List UpdateEntry)
      → gained_at B unmarshal s queue (detached_all es) ≡ gained_at B unmarshal s queue es
  gained_at-detached s queue es =
      gained_at-found B unmarshal s queue (detached_all es)
      ∙ ap (accepted_found B unmarshal) (find_existing-detached s queue es)
      ∙ accepted_found-detached (find_existing B unmarshal s queue es)
      ∙ sym (gained_at-found B unmarshal s queue es)
