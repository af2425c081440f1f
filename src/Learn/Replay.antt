-- ===== src/Learn/Replay.antt =====
-- The store of learn/bolt-bleve against a map from partitions and ids to texts, in which a partition that was never written is not there.
use bydb.Base.{
  true, false, Bool, ◌≡◌, refl, ap, ◌∙◌, Text, List, [], ◌∷◌, none, some, inl, inr, Option-cases,
  Bool-cases, text_eq, text_eq_refl, codes, if◌then◌else◌, arith,
}
use bydb.Bolt.Defs.{Bolt}
use bydb.Shard.Defs.{Outcome, failed, panicked, or_failed}
use bydb.Learn.Held.{Seen, set_text, seen}
use bydb.Learn.Partition.{Document, Engine, Json, Partition, get}
use bydb.Learn.Store.{
  Opening, Disk, path_of, open_or_create_bleve, open_partition, set_directory, get_partition, put,
  delete_from, get_from,
}
use bydb.Learn.Stored.{stored, put-stored, delete_from-stored, get_partition-opened}

-- A call that changes the store.
pub data Change : Type 0 where
  putting : Document → Change
  deleting : Text → Text → Change

module _ (B : Bolt) (E : Engine) (J : Json) (O : Opening B E) (base : Text) where
  abbrev run_change : Disk B E J O → Change → Disk B E J O × Bool
  run_change disk (putting doc) = put B E J O base disk doc
  run_change disk (deleting part id) = delete_from B E J O base disk part id

  -- The calls one behind the other, with what each returned.
  unfoldable pub run_changes : Disk B E J O → List Change → Disk B E J O × List Bool
  run_changes disk [] = (disk, [])
  run_changes disk (c ∷ cs) =
      let (disk', fine) = run_change disk c in
      let (disk'', fines) = run_changes disk' cs in (disk'', fine ∷ fines)

  -- What a change that succeeds makes of what is seen of a partition and an id.
  abbrev changed_text : Text → Text → Change → Seen → Seen
  changed_text part id (putting doc) old =
      if text_eq doc.part part then set_text doc.id (J.marshal doc) id old else old
  changed_text part id (deleting part' id') old =
      if text_eq part' part then set_text id' none id old else old

  -- The abstract store at one partition and id: the changes that succeeded, replayed.
  abbrev pub replay : Text → Text → List Change → List Bool → Seen → Seen
  replay part id [] fines held = held
  replay part id (c ∷ cs) [] held = held
  replay part id (c ∷ cs) (fine ∷ fines) held =
      replay part id cs fines (if fine then changed_text part id c held else held)

  run_change-stored :
      (disk : Disk B E J O) (c : Change) (part id : Text)
      → stored B E J O base (run_change disk c).0 part id ≡ (
          if (run_change disk c).1
          then changed_text part id c (stored B E J O base disk part id)
          else stored B E J O base disk part id)
  run_change-stored disk (putting doc) part id =
      ground (arith, put-stored B E J O base disk doc part id)
  run_change-stored disk (deleting part' id') part id =
      ground (arith, delete_from-stored B E J O base disk part' id' part id)

  run_changes-stored :
      (disk : Disk B E J O) (cs : List Change) (part id : Text)
      → stored B E J O base (run_changes disk cs).0 part id
        ≡ replay part id cs (run_changes disk cs).1 (stored B E J O base disk part id)
  unfolding run_changes
  run_changes-stored disk [] part id = refl
  run_changes-stored disk (c ∷ cs) part id =
      let (disk', fine) = run_change disk c in
      run_changes-stored disk' cs part id
      ∙ ap (replay part id cs (run_changes disk' cs).1) (run_change-stored disk c part id)

  -- The specification of `Get`: a partition that was never written crashes it, a missing document and
  -- one that cannot be read are an error.
  abbrev pub answer : Seen → Outcome Document
  answer (false, held) = panicked
  answer (true, none) = failed
  answer (true, some raw) = or_failed (J.unmarshal raw)

  get-answer :
      (p : Partition B E J) (id : Text)
      → J.unmarshal [] ≡ none
      → get B E J p id ≡ answer (seen B p.block p.name id)
  unfolding get seen
  get-answer p id h = elim (Bool-cases (B.has_bucket p.block p.name)) [
    | inl there ↦ elim (Option-cases (B.get p.block p.name id)) [
      | inl e ↦ rw (there, e, h) refl
      | inr (raw, e) ↦ rw (there, e) refl
    ]
    | inr closed ↦ rw closed refl
  ]

  get_from-answer :
      (disk : Disk B E J O) (part id : Text) (p : Partition B E J)
      → J.unmarshal [] ≡ none
      → (get_partition B E J O base disk part).1 ≡ some p
      → (get_from B E J O base disk part id).1 ≡ answer (stored B E J O base disk part id)
  unfolding get_from
  get_from-answer disk part id p h e =
      let (name, same) = get_partition-opened B E J O base disk part p e in
      rw e (get-answer p id h ∙ ap answer (rw name (same id)))

  -- The store behaves like a map from partitions and ids to documents: behind any calls of `Put` and
  -- `Delete`, with whatever errors, a `Get` whose partition opens gives what the replay of those calls
  -- that had no error leaves under the partition and the id, from what the store showed before: the
  -- document, an error if there is none or it cannot be read, and a crash exactly if no call without
  -- an error was on the partition and it had no bucket before, if no document is read from an empty
  -- text.
  pub run_changes-get :
      (disk : Disk B E J O) (cs : List Change) (part id : Text) (p : Partition B E J)
      → J.unmarshal [] ≡ none
      → (get_partition B E J O base (run_changes disk cs).0 part).1 ≡ some p
      → (get_from B E J O base (run_changes disk cs).0 part id).1
        ≡ answer (replay part id cs (run_changes disk cs).1 (stored B E J O base disk part id))
  run_changes-get disk cs part id p h e =
      get_from-answer (run_changes disk cs).0 part id p h e
      ∙ ap answer (run_changes-stored disk cs part id)

  -- A partition that has no directory yet opens on an empty file.
  get_partition-new :
      (disk : Disk B E J O) (part : Text) (p : Partition B E J)
      → disk (path_of B E J O base part) ≡ none
      → (get_partition B E J O base disk part).1 ≡ some p
      → p.block ≡ O.empty_block
  unfolding get_partition open_partition open_or_create_bleve set_directory
  get_partition-new disk part p new e =
      let path : Text = path_of B E J O base part in
      elim (Option-cases (O.new_index path)) [
        | inl f ↦ absurd (ground arith)
        | inr (index, f) ↦ elim (Bool-cases (O.opens_block (O.join path (codes "block.bolt")))) [
          | inl g ↦ ground (arith, text_eq_refl path)
          | inr g ↦ absurd (ground arith)
        ]
      ]

  -- `Get` of a document of a partition that has no directory yet panics whenever the partition opens.
  pub get_from-new :
      (disk : Disk B E J O) (part id : Text) (p : Partition B E J)
      → disk (path_of B E J O base part) ≡ none
      → (get_partition B E J O base disk part).1 ≡ some p
      → (get_from B E J O base disk part id).1 ≡ panicked
  unfolding get_from get
  get_from-new disk part id p new e =
      let empty = get_partition-new disk part p new e in
      rw (e, empty, O.empty-no_bucket p.name) refl
