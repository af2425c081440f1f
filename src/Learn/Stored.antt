-- ===== src/Learn/Stored.antt =====
-- What the store of learn/bolt-bleve holds under a partition's name and an id, behind its calls.
use bydb.Base.{
  Bool, true, false, ◌&&◌, ◌≡◌, refl, ap, ◌∙◌, subst, Text, codes, Option, none, some, some_inj,
  inl, inr, Option-cases, text_eq, text_eq_iff, if◌then◌else◌, arith,
}
use bydb.Bolt.Defs.{Bolt}
use bydb.Learn.Partition.{Document, Engine, Json, Partition, Changed, add, delete}
use bydb.Learn.Store.{
  Opening, Directory, Disk, Opened, set_directory, open_or_create_bleve, block_of, or_empty,
  directory_of, with_block, open_partition, path_of, get_partition, put, delete_from, change,
}
use bydb.Learn.Held.{Seen, set_text, seen, add-held, delete-held, add-seen, delete-seen}

module _ (B : Bolt) (E : Engine) (J : Json) where
  module _ (O : Opening B E) where
    abbrev pub held : Option B.Db → Text → Text → Seen
    held none name id = (false, none)
    held (some d) name id = seen B d name id

    -- What the file of a directory holds, whether it exists or not.
    abbrev held_at : Disk B E J O → Text → Text → Text → Seen
    held_at disk path name id = held (block_of B E J O (disk path)) name id

    or_empty-held :
        (o : Option B.Db) (name id : Text) → seen B (or_empty B E J O o) name id ≡ held o name id
    unfolding seen
    or_empty-held none name id =
        let closed = O.empty-no_bucket name in
        ap (λ (b : Bool). (b, B.get O.empty_block name id)) closed
        ∙ ap (λ (t : Option Text). (false, t)) (B.get-no_bucket O.empty_block name id closed)
    or_empty-held (some d) name id = refl

    set_directory-held :
        (disk : Disk B E J O) (path : Text) (dir : Directory B E J O) (path' name id : Text)
        → held_at (set_directory B E J O disk path dir) path' name id
          ≡ (if text_eq path path' then held dir.block name id else held_at disk path' name id)
    unfolding set_directory
    set_directory-held disk path dir path' name id = ground arith

    -- An opening leaves what the files hold, and opens what is held at its path.
    record IsOpening (disk : Disk B E J O) (name path : Text) (r : Opened B E J O (Partition B E J))
        : Type 0 where
      pub kept : (path' name' id : Text) → held_at r.0 path' name' id ≡ held_at disk path' name' id
      pub opened :
          (p : Partition B E J)
          → r.1 ≡ some p
          → (p.name ≡ name)
            × ((name' id : Text) → seen B p.block name' id ≡ held_at disk path name' id)

    open_or_create_bleve-held :
        (disk : Disk B E J O) (path path' name id : Text)
        → held_at (open_or_create_bleve B E J O disk path).0 path' name id
          ≡ held_at disk path' name id
    unfolding open_or_create_bleve
    open_or_create_bleve-held disk path path' name id = elim (Option-cases (disk path)) [
      | inl e ↦ elim (Option-cases (O.new_index path)) [
        | inl f ↦ ground arith
        | inr (ix, f) ↦ ground (
          arith,
          set_directory-held disk path (record { index = ix; block = none }) path' name id,
          text_eq_iff path path',
        )
      ]
      | inr (dir, e) ↦ ground arith
    ]

    opened_block :
        (disk : Disk B E J O) (path name id : Text)
        → seen B (or_empty B E J O (block_of B E J O (disk path))) name id
          ≡ held_at disk path name id
    opened_block disk path name id = or_empty-held (block_of B E J O (disk path)) name id

    with_block-IsOpening :
        (disk : Disk B E J O) (name path : Text) (r : Opened B E J O E.Index)
        → ((path' name' id : Text) → held_at r.0 path' name' id ≡ held_at disk path' name' id)
        → IsOpening disk name path (with_block B E J O name path r)
    with_block-IsOpening disk name path (disk', none) h = record { kept = h; opened = λ p e. cc }
    with_block-IsOpening disk name path (disk', some index) h =
        by_block (O.opens_block (O.join path (codes "block.bolt")))
      where
        p : Partition B E J
        p = record {
          index = index;
          block = or_empty B E J O (block_of B E J O (disk' path));
          name = name;
        }

        same :
            (path' name' id : Text)
            → held_at (set_directory B E J O disk' path (directory_of B E J O p)) path' name' id
              ≡ held_at disk path' name' id
        same path' name' id = ground (
          arith,
          set_directory-held disk' path (directory_of B E J O p) path' name' id,
          opened_block disk' path name' id,
          h path' name' id,
          text_eq_iff path path',
        )

        by_block :
            (b : Bool)
            → IsOpening disk name path (
                if b
                then (set_directory B E J O disk' path (directory_of B E J O p), some p)
                else (disk', none))
        by_block true = record {
          kept = same;
          opened = λ q e.
              subst
                (λ (q : Partition B E J).
                  (q.name ≡ name)
                  × ((name' id : Text) → seen B q.block name' id ≡ held_at disk path name' id))
                (some_inj e) (refl, λ name' id. opened_block disk' path name' id ∙ h path name' id);
        }
        by_block false = record { kept = h; opened = λ q e. cc }

    open_partition-IsOpening :
        (disk : Disk B E J O) (name path : Text)
        → IsOpening disk name path (open_partition B E J O disk name path)
    unfolding open_partition
    open_partition-IsOpening disk name path =
        with_block-IsOpening disk name path (open_or_create_bleve B E J O disk path)
          (open_or_create_bleve-held disk path)

    module _ (base : Text) where
      -- What the store shows of a partition and an id.
      abbrev pub stored : Disk B E J O → Text → Text → Seen
      stored disk part id = held_at disk (path_of B E J O base part) part id

      -- A call that changes what a partition's file shows of its own name, or nothing, does the same to
      -- the store.
      change-stored :
          (f : Partition B E J → Changed B E J) (part : Text) (u : Text → Seen → Seen)
          → ((p : Partition B E J) (name id : Text)
              → ((f p).0.name ≡ p.name)
                × (seen B (f p).0.block name id ≡ (
                    if (f p).1 && text_eq p.name name
                    then u id (seen B p.block name id)
                    else seen B p.block name id)))
          → (disk : Disk B E J O) (r : Opened B E J O (Partition B E J))
          → IsOpening disk part (path_of B E J O base part) r
          → (part' id' : Text)
          → stored (change B E J O base f part r).0 part' id' ≡ (
              if (change B E J O base f part r).1 && text_eq part part'
              then u id' (stored disk part' id')
              else stored disk part' id')
      change-stored f part u h disk (disk', none) w part' id' =
          w.kept (path_of B E J O base part') part' id'
      change-stored f part u h disk (disk', some p) w part' id' =
          let path : Text = path_of B E J O base part in
          let (name, held_in) = w.opened p refl in
          ground (
            arith,
            name,
            (h p part' id').1,
            held_in part' id',
            w.kept (path_of B E J O base part') part' id',
            set_directory-held disk' path (directory_of B E J O (f p).0)
                (path_of B E J O base part') part' id',
            text_eq_iff path (path_of B E J O base part'),
            text_eq_iff part part',
          )

      -- `Put` makes the bucket and stores the document's text if it has no error, and else changes
      -- nothing that the store shows.
      pub put-stored :
          (disk : Disk B E J O) (doc : Document) (part id : Text)
          → stored (put B E J O base disk doc).0 part id ≡ (
              if (put B E J O base disk doc).1 && text_eq doc.part part
              then set_text doc.id (J.marshal doc) id (stored disk part id)
              else stored disk part id)
      unfolding put get_partition
      put-stored disk doc part id =
          change-stored (λ p. add B E J p doc) doc.part (set_text doc.id (J.marshal doc))
            (λ p name id. ((add-held B E J p doc name id).0, add-seen B E J p doc name id)) disk _
            (open_partition-IsOpening disk doc.part (path_of B E J O base doc.part)) part id

      pub delete_from-stored :
          (disk : Disk B E J O) (part id part' id' : Text)
          → stored (delete_from B E J O base disk part id).0 part' id' ≡ (
              if (delete_from B E J O base disk part id).1 && text_eq part part'
              then set_text id none id' (stored disk part' id')
              else stored disk part' id')
      unfolding delete_from get_partition
      delete_from-stored disk part id part' id' =
          change-stored (λ p. delete B E J p id) part (set_text id none)
            (λ p name id'. ((delete-held B E J p id name id').0, delete-seen B E J p id name id'))
            disk _ (open_partition-IsOpening disk part (path_of B E J O base part)) part' id'

      -- An opened partition shows what the store holds.
      pub get_partition-opened :
          (disk : Disk B E J O) (part : Text) (p : Partition B E J)
          → (get_partition B E J O base disk part).1 ≡ some p
          → (p.name ≡ part) × ((id : Text) → seen B p.block part id ≡ stored disk part id)
      unfolding get_partition
      get_partition-opened disk part p e =
          let path : Text = path_of B E J O base part in
          let (name, same) = (open_partition-IsOpening disk part path).opened p e in
          (name, λ id. same part id)
