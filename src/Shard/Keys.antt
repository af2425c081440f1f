-- ===== src/Shard/Keys.antt =====
-- The search index of a shard against its store, by the keys of the documents, and what one change of
-- both does to them.
use bydb.Base.{
  true, false, ◌&&◌, ◌≡◌, ◌≢◌, refl, ap, sym, subst, ◌∙◌, elem, Text, [], ◌∷◌, ◌++◌, Option, none,
  some, inl, inr, Bool-cases, text_eq, text_eq_iff, text_elem, is_some, if◌then◌else◌, arith,
}
use bydb.Bolt.Defs.{Bolt}
use bydb.Document.{Document}

-- The key of a document, in the store and in the index.
abbrev pub key_of : Text → Text → Text
key_of part id = part ++ (b':' ∷ id)

-- A partition's name without the colon of the keys.
abbrev pub IsName : Text → Type 0
IsName part = elem b':' part ≡ false

key_of_injective : (p q i j : Text) → IsName p → IsName q → key_of p i ≡ key_of q j → p ≡ q
key_of_injective [] [] i j hp hq e = refl
key_of_injective [] (d ∷ q) i j hp hq e = ground arith
key_of_injective (c ∷ p) [] i j hp hq e = ground arith
key_of_injective (c ∷ p) (d ∷ q) i j hp hq e = ground (arith, key_of_injective p q i j)

module _ (B : Bolt) (unmarshal : Text → Option Document) where
  abbrev pub decoded : Option Text → Option Document
  decoded none = none
  decoded (some raw) = unmarshal raw

  -- The store holds each document under its key, and the index has under the key of a partition what the
  -- stored text decodes to.
  pub record InStep (held : Text → Option Document) (d : B.Db) : Type 0 where
    pub keyed :
        (p k : Text) → is_some (B.get d p k) ≡ true → IsName p × ((i : Text) × (k ≡ key_of p i))
    pub agrees : (p i : Text) → IsName p → held (key_of p i) ≡ decoded (B.get d p (key_of p i))

  -- A document written under its key.
  pub written-InStep :
      (held : Text → Option Document) (d d' : B.Db) (p i v : Text) (doc : Document)
      → IsName p
      → InStep held d
      → B.has_bucket d p ≡ true
      → B.put d p (key_of p i) v ≡ some d'
      → unmarshal v ≡ some doc
      → InStep (λ k. if text_eq (key_of p i) k then some doc else held k) d'
  written-InStep held d d' p i v doc n s b e u = record {
    keyed = λ q k h. elim (Bool-cases (text_eq p q && text_eq (key_of p i) k)) [
      | inl same ↦
          let pq : p ≡ q = ground (arith, text_eq_iff p q) in
          let pk : key_of p i ≡ k = ground (arith, text_eq_iff (key_of p i) k) in
          (subst IsName pq n, (i, sym pk ∙ ap (λ r. key_of r i) pq))
      | inr other ↦ s.keyed q k (ground (arith, B.get-put d d' p (key_of p i) v q k))
    ];
    agrees = λ q j m. ground (
      arith,
      s.agrees q j m,
      B.get-put d d' p (key_of p i) v q (key_of q j),
      text_eq_iff p q,
      text_eq_iff (key_of p i) (key_of q j),
      key_of_injective p q i j n m,
    );
  }

  -- A document deleted under its key.
  pub deleted-InStep :
      (held : Text → Option Document) (d d' : B.Db) (p i : Text)
      → IsName p
      → InStep held d
      → B.has_bucket d p ≡ true
      → B.delete d p (key_of p i) ≡ some d'
      → InStep (λ k. if text_eq (key_of p i) k then none else held k) d'
  deleted-InStep held d d' p i n s b e = record {
    keyed = λ q k h. s.keyed q k (ground (arith, B.get-delete d d' p (key_of p i) q k));
    agrees = λ q j m. ground (
      arith,
      s.agrees q j m,
      B.get-delete d d' p (key_of p i) q (key_of q j),
      text_eq_iff p q,
      text_eq_iff (key_of p i) (key_of q j),
      key_of_injective p q i j n m,
    );
  }

  pub created-InStep :
      (held : Text → Option Document) (d d' : B.Db) (p : Text)
      → InStep held d
      → B.create_bucket d p ≡ some d'
      → InStep held d'
  created-InStep held d d' p s e = record {
    keyed = λ q k h. s.keyed q k (ground (arith, B.get-create d d' p q k));
    agrees = λ q j m. ground (arith, s.agrees q j m, B.get-create d d' p q (key_of q j));
  }

  -- A key of another partition is not among those of a bucket.
  keys_apart :
      (held : Text → Option Document) (d : B.Db) (p q j : Text)
      → InStep held d
      → IsName q
      → p ≢ q
      → text_elem (key_of q j) (B.keys d p) ≡ false
  keys_apart held d p q j s m ne = elim (Bool-cases (text_elem (key_of q j) (B.keys d p))) [
    | inr out ↦ out
    | inl here ↦
        let (n, (i, e)) = s.keyed p (key_of q j) (sym (B.keys-get d p (key_of q j)) ∙ here) in
        absurd (ne (sym (key_of_injective q p j i m n e)))
  ]

  pub dropped-InStep :
      (held : Text → Option Document) (d : B.Db) (p : Text)
      → InStep held d
      → InStep (λ k. if text_elem k (B.keys d p) then none else held k) (B.delete_bucket d p)
  dropped-InStep held d p s = record {
    keyed = λ q k h. s.keyed q k (ground (arith, B.get-delete_bucket d p q k));
    agrees = λ q j m. ground (
      arith,
      s.agrees q j m,
      B.get-delete_bucket d p q (key_of q j),
      B.keys-get d p (key_of q j),
      text_eq_iff p q,
      keys_apart held d p q j s m,
    );
  }
