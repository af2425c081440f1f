-- ===== src/Learn/Held.antt =====
-- What the file of a partition of learn/bolt-bleve holds behind `Add` and `Delete`.
use bydb.Base.{
  Bool, true, false, Option, ◌&&◌, ◌≡◌, Text, none, inl, inr, Option-cases, text_eq, text_eq_iff,
  if◌then◌else◌, arith,
}
use bydb.Bolt.Defs.{Bolt}
use bydb.Learn.Partition.{Document, Engine, Json, Partition, finished, add, delete}

module _ (B : Bolt) (E : Engine) (J : Json) where
  finished-block :
      (p : Partition B E J) (d : B.Db) (r : E.Index × Bool)
      → ((finished B E J p d r).0.name ≡ p.name)
        × ((finished B E J p d r).0.block ≡ (if (finished B E J p d r).1 then d else p.block))
  finished-block p d (index, fine) = ground arith

  -- `Add` stores the text of the document if it has no error, and else changes nothing.
  pub add-held :
      (p : Partition B E J) (doc : Document) (name id : Text)
      → ((add B E J p doc).0.name ≡ p.name)
        × (B.get (add B E J p doc).0.block name id ≡ (
            if (add B E J p doc).1 && (text_eq p.name name && text_eq doc.id id)
            then J.marshal doc
            else B.get p.block name id))
  unfolding add
  add-held p doc name id = elim (Option-cases (J.marshal doc)) [
    | inl e ↦ ground arith
    | inr (raw, e) ↦ elim (Option-cases (B.create_bucket p.block p.name)) [
      | inl f ↦ ground arith
      | inr (c, f) ↦ elim (Option-cases (B.put c p.name doc.id raw)) [
        | inl g ↦ ground arith
        | inr (d, g) ↦
            let there : B.has_bucket c p.name ≡ true =
              ground
                (arith, B.has_bucket-create p.block c p.name p.name, text_eq_iff p.name p.name) in
            let (n, b) = finished-block p d (E.index p.index doc.id doc.fields) in
            ground (
              arith,
              n,
              b,
              B.get-create p.block c p.name name id f,
              B.get-put c d p.name doc.id raw name id there g,
            )
      ]
    ]
  ]

  -- `Delete` leaves nothing under the id if it has no error, and else changes nothing.
  pub delete-held :
      (p : Partition B E J) (id name id' : Text)
      → ((delete B E J p id).0.name ≡ p.name)
        × (B.get (delete B E J p id).0.block name id' ≡ (
            if (delete B E J p id).1 && (text_eq p.name name && text_eq id id')
            then none
            else B.get p.block name id'))
  unfolding delete
  delete-held p id name id' = elim (Option-cases (B.create_bucket p.block p.name)) [
    | inl f ↦ ground arith
    | inr (c, f) ↦ elim (Option-cases (B.delete c p.name id)) [
      | inl g ↦ ground arith
      | inr (d, g) ↦
          let there : B.has_bucket c p.name ≡ true =
            ground
              (arith, B.has_bucket-create p.block c p.name p.name, text_eq_iff p.name p.name) in
          let (n, b) = finished-block p d (E.delete p.index id) in
          ground (
            arith,
            n,
            b,
            B.get-create p.block c p.name name id' f,
            B.get-delete c d p.name id name id' there g,
          )
    ]
  ]

  -- `Add` and `Delete` make the bucket of the partition if they have no error.
  pub add-has_bucket :
      (p : Partition B E J) (doc : Document) (name : Text)
      → B.has_bucket (add B E J p doc).0.block name
        ≡ (if (add B E J p doc).1 && text_eq p.name name then true else B.has_bucket p.block name)
  unfolding add
  add-has_bucket p doc name = elim (Option-cases (J.marshal doc)) [
    | inl e ↦ ground arith
    | inr (raw, e) ↦ elim (Option-cases (B.create_bucket p.block p.name)) [
      | inl f ↦ ground arith
      | inr (c, f) ↦ elim (Option-cases (B.put c p.name doc.id raw)) [
        | inl g ↦ ground arith
        | inr (d, g) ↦
            let there : B.has_bucket c p.name ≡ true =
              ground
                (arith, B.has_bucket-create p.block c p.name p.name, text_eq_iff p.name p.name) in
            let (n, b) = finished-block p d (E.index p.index doc.id doc.fields) in
            ground (
              arith,
              n,
              b,
              B.has_bucket-create p.block c p.name name f,
              B.has_bucket-put c d p.name doc.id raw name there g,
            )
      ]
    ]
  ]

  pub delete-has_bucket :
      (p : Partition B E J) (id name : Text)
      → B.has_bucket (delete B E J p id).0.block name
        ≡ (if (delete B E J p id).1 && text_eq p.name name then true else B.has_bucket p.block name)
  unfolding delete
  delete-has_bucket p id name = elim (Option-cases (B.create_bucket p.block p.name)) [
    | inl f ↦ ground arith
    | inr (c, f) ↦ elim (Option-cases (B.delete c p.name id)) [
      | inl g ↦ ground arith
      | inr (d, g) ↦
          let there : B.has_bucket c p.name ≡ true =
            ground
              (arith, B.has_bucket-create p.block c p.name p.name, text_eq_iff p.name p.name) in
          let (n, b) = finished-block p d (E.delete p.index id) in
          ground (
            arith,
            n,
            b,
            B.has_bucket-create p.block c p.name name f,
            B.has_bucket-delete c d p.name id name there g,
          )
    ]
  ]

-- What a file shows of a partition and an id: whether the bucket is there, and the text in it.
abbrev pub Seen : Type 0
Seen = Bool × Option Text

-- A call without an error makes the bucket, and leaves a text or none under one id.
abbrev pub set_text : Text → Option Text → Text → Seen → Seen
set_text id v id' (there, held) = (true, if text_eq id id' then v else held)

both :
    (a n i : Bool) (h h' : Bool) (t t' v : Option Text)
    → h' ≡ (if a && n then true else h)
    → t' ≡ (if a && (n && i) then v else t)
    → ◌≡◌ {A = Seen} (h', t') (if a && n then (true, if i then v else t) else (h, t))
both true true true h h' t t' v x y = cc
both true true false h h' t t' v x y = cc
both true false i h h' t t' v x y = cc
both false n i h h' t t' v x y = cc

module _ (B : Bolt) where
  unfoldable pub seen : B.Db → Text → Text → Seen
  seen d name id = (B.has_bucket d name, B.get d name id)

  module _ (E : Engine) (J : Json) where
    pub add-seen :
        (p : Partition B E J) (doc : Document) (name id : Text)
        → seen (add B E J p doc).0.block name id ≡ (
            if (add B E J p doc).1 && text_eq p.name name
            then set_text doc.id (J.marshal doc) id (seen p.block name id)
            else seen p.block name id)
    unfolding seen
    add-seen p doc name id =
        both (add B E J p doc).1 (text_eq p.name name) (text_eq doc.id id) _ _ _ _ _
          (add-has_bucket B E J p doc name) (add-held B E J p doc name id).1

    pub delete-seen :
        (p : Partition B E J) (id name id' : Text)
        → seen (delete B E J p id).0.block name id' ≡ (
            if (delete B E J p id).1 && text_eq p.name name
            then set_text id none id' (seen p.block name id')
            else seen p.block name id')
    unfolding seen
    delete-seen p id name id' =
        both (delete B E J p id).1 (text_eq p.name name) (text_eq id id') _ _ _ _ _
          (delete-has_bucket B E J p id name) (delete-held B E J p id name id').1
