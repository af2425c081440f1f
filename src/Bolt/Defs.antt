-- ===== src/Bolt/Defs.antt =====
-- BoltDB as the program uses it: an interface with the laws that the proofs rest on. A failed call
-- of an operation, and of a commit, is `none` or `false`. A store that meets the laws is Bolt/Model.
use bydb.Base.{
  Bool, true, false, ◌&&◌, ◌≡◌, Text, List, Option, none, some, is_some, text_elem, text_eq,
  if◌then◌else◌,
}

pub record Bolt : Type 1 where
  pub Db : Type 0
  -- `tx.Bucket(name) != nil`
  pub has_bucket : Db → Text → Bool
  -- `tx.Bucket(name).Get(key)`
  pub get : Db → Text → Text → Option Text
  -- the keys of a bucket in the order of its cursor
  pub keys : Db → Text → List Text
  -- `tx.CreateBucketIfNotExists(name)`
  pub create_bucket : Db → Text → Option Db
  -- `tx.DeleteBucket(name)`
  pub delete_bucket : Db → Text → Db
  -- `tx.Bucket(name).Put(key, value)`
  pub put : Db → Text → Text → Text → Option Db
  -- `tx.Bucket(name).Delete(key)`
  pub delete : Db → Text → Text → Option Db
  -- whether the commit of a transaction that leads to this content succeeds
  pub commits : Db → Bool
  -- a key is among those of its bucket exactly if it holds a value
  pub keys-get : (d : Db) (p k : Text) → text_elem k (keys d p) ≡ is_some (get d p k)
  pub get-no_bucket : (d : Db) (p k : Text) → has_bucket d p ≡ false → get d p k ≡ none
  pub has_bucket-create :
      (d d' : Db) (p q : Text)
      → create_bucket d p ≡ some d'
      → has_bucket d' q ≡ (if text_eq p q then true else has_bucket d q)
  pub get-create : (d d' : Db) (p q k : Text) → create_bucket d p ≡ some d' → get d' q k ≡ get d q k
  pub has_bucket-delete_bucket :
      (d : Db) (p q : Text)
      → has_bucket (delete_bucket d p) q ≡ (if text_eq p q then false else has_bucket d q)
  pub get-delete_bucket :
      (d : Db) (p q k : Text)
      → get (delete_bucket d p) q k ≡ (if text_eq p q then none else get d q k)
  pub has_bucket-put :
      (d d' : Db) (p k v q : Text)
      → has_bucket d p ≡ true
      → put d p k v ≡ some d'
      → has_bucket d' q ≡ has_bucket d q
  pub get-put :
      (d d' : Db) (p k v q j : Text)
      → has_bucket d p ≡ true
      → put d p k v ≡ some d'
      → get d' q j ≡ (if text_eq p q && text_eq k j then some v else get d q j)
  pub has_bucket-delete :
      (d d' : Db) (p k q : Text)
      → has_bucket d p ≡ true
      → delete d p k ≡ some d'
      → has_bucket d' q ≡ has_bucket d q
  pub get-delete :
      (d d' : Db) (p k q j : Text)
      → has_bucket d p ≡ true
      → delete d p k ≡ some d'
      → get d' q j ≡ (if text_eq p q && text_eq k j then none else get d q j)
