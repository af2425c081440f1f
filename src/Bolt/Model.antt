-- ===== src/Bolt/Model.antt =====
-- An implementation of the interface by association lists, which shows that its laws can hold.
use bydb.Base.{
  Bool, true, false, ◌&&◌, ◌≡◌, refl, Text, List, [], ◌∷◌, Option, none, some, is_some, text_elem,
  Option-cases, inl, inr, text_eq, text_eq_iff, if◌then◌else◌, arith,
}
use bydb.Bolt.Defs.{Bolt}

abbrev pub Bucket : Type 0
Bucket = List (Text × Text)

abbrev pub Store : Type 0
Store = List (Text × Bucket)

module _ {V : Type 0} where
  unfoldable pub lookup : Text → List (Text × V) → Option V
  lookup k [] = none
  lookup k ((j, v) ∷ m) = if text_eq j k then some v else lookup k m

  unfoldable pub without : Text → List (Text × V) → List (Text × V)
  without k [] = []
  without k ((j, v) ∷ m) = let rest = without k m in if text_eq j k then rest else (j, v) ∷ rest

  pub lookup-without :
      (k j : Text) (m : List (Text × V))
      → lookup j (without k m) ≡ (if text_eq k j then none else lookup j m)
  unfolding lookup without
  lookup-without k j [] = ground arith
  lookup-without k j ((i, v) ∷ m) =
      ground (arith, lookup-without k j m, text_eq_iff i k, text_eq_iff i j, text_eq_iff k j)

unfoldable pub names : {V : Type 0} → List (Text × V) → List Text
names [] = []
names ((k, v) ∷ m) = k ∷ names m

abbrev pub present : {V : Type 0} → Option V → Bool
present none = false
present (some v) = true

abbrev pub get_in : Option Bucket → Text → Option Text
get_in none k = none
get_in (some b) k = lookup k b

abbrev pub entries : Option Bucket → Bucket
entries none = []
entries (some b) = b

unfoldable pub has_bucket : Store → Text → Bool
has_bucket d p = present (lookup p d)

unfoldable pub get : Store → Text → Text → Option Text
get d p k = get_in (lookup p d) k

unfoldable pub set_bucket : Store → Text → Bucket → Store
set_bucket d p b = (p, b) ∷ without p d

unfoldable pub create_bucket : Store → Text → Option Store
create_bucket d [] = none
create_bucket d (c ∷ p) = if has_bucket d (c ∷ p) then some d else some (set_bucket d (c ∷ p) [])

unfoldable pub put : Store → Text → Text → Text → Option Store
put d p k v = some (set_bucket d p ((k, v) ∷ without k (entries (lookup p d))))

unfoldable pub delete : Store → Text → Text → Option Store
delete d p k = some (set_bucket d p (without k (entries (lookup p d))))

lookup-set_bucket :
    (d : Store) (p q : Text) (b : Bucket)
    → lookup q (set_bucket d p b) ≡ (if text_eq p q then some b else lookup q d)
unfolding set_bucket lookup
lookup-set_bucket d p q b = ground (arith, lookup-without p q d)

pub has_bucket-create :
    (d d' : Store) (p q : Text)
    → create_bucket d p ≡ some d'
    → has_bucket d' q ≡ (if text_eq p q then true else has_bucket d q)
unfolding create_bucket has_bucket
has_bucket-create d d' [] q h = cc
has_bucket-create d d' (c ∷ p) q h =
    ground (arith, lookup-set_bucket d (c ∷ p) q [], text_eq_iff (c ∷ p) q)

pub get-create :
    (d d' : Store) (p q k : Text) → create_bucket d p ≡ some d' → get d' q k ≡ get d q k
unfolding create_bucket has_bucket get
get-create d d' [] q k h = cc
get-create d d' (c ∷ p) q k h =
    unfold lookup in ground (arith, lookup-set_bucket d (c ∷ p) q [], text_eq_iff (c ∷ p) q)

pub get-no_bucket : (d : Store) (p k : Text) → has_bucket d p ≡ false → get d p k ≡ none
unfolding has_bucket get
get-no_bucket d p k h = ground arith

pub has_bucket-without :
    (d : Store) (p q : Text)
    → has_bucket (without p d) q ≡ (if text_eq p q then false else has_bucket d q)
unfolding has_bucket
has_bucket-without d p q = ground (arith, lookup-without p q d)

pub get-without :
    (d : Store) (p q k : Text) → get (without p d) q k ≡ (if text_eq p q then none else get d q k)
unfolding get
get-without d p q k = ground (arith, lookup-without p q d)

pub has_bucket-set :
    (d d' : Store) (p q : Text) (b : Bucket)
    → has_bucket d p ≡ true
    → some (set_bucket d p b) ≡ some d'
    → has_bucket d' q ≡ has_bucket d q
unfolding has_bucket
has_bucket-set d d' p q b h e = ground (arith, lookup-set_bucket d p q b, text_eq_iff p q)

lookup-entries : (o : Option Bucket) (k : Text) → lookup k (entries o) ≡ get_in o k
unfolding lookup
lookup-entries none k = refl
lookup-entries (some b) k = refl

pub get-put :
    (d d' : Store) (p k v q j : Text)
    → has_bucket d p ≡ true
    → put d p k v ≡ some d'
    → get d' q j ≡ (if text_eq p q && text_eq k j then some v else get d q j)
unfolding put get lookup
get-put d d' p k v q j h e =
    let b = entries (lookup p d) in
    ground (
      arith,
      lookup-set_bucket d p q ((k, v) ∷ without k b),
      text_eq_iff p q,
      lookup-without k j b,
      lookup-entries (lookup p d) j,
    )

pub get-delete :
    (d d' : Store) (p k q j : Text)
    → has_bucket d p ≡ true
    → delete d p k ≡ some d'
    → get d' q j ≡ (if text_eq p q && text_eq k j then none else get d q j)
unfolding delete get
get-delete d d' p k q j h e =
    let b = entries (lookup p d) in
    ground (
      arith,
      lookup-set_bucket d p q (without k b),
      text_eq_iff p q,
      lookup-without k j b,
      lookup-entries (lookup p d) j,
    )

pub has_bucket-put :
    (d d' : Store) (p k v q : Text)
    → has_bucket d p ≡ true
    → put d p k v ≡ some d'
    → has_bucket d' q ≡ has_bucket d q
unfolding put
has_bucket-put d d' p k v q = has_bucket-set d d' p q _

pub has_bucket-delete :
    (d d' : Store) (p k q : Text)
    → has_bucket d p ≡ true
    → delete d p k ≡ some d'
    → has_bucket d' q ≡ has_bucket d q
unfolding delete
has_bucket-delete d d' p k q = has_bucket-set d d' p q _

text_elem-names : (b : Bucket) (k : Text) → text_elem k (names b) ≡ is_some (lookup k b)
unfolding names lookup
text_elem-names [] k = refl
text_elem-names ((j, v) ∷ b) k = ground (arith, text_elem-names b k)

pub keys-get :
    (d : Store) (p k : Text) → text_elem k (names (entries (lookup p d))) ≡ is_some (get d p k)
unfolding get names lookup
keys-get d p k = elim (Option-cases (lookup p d)) [
  | inl e ↦ rw e refl
  | inr (b, e) ↦ rw e (text_elem-names b k)
]

abbrev pub assoc_bolt : Bolt
assoc_bolt = record {
  Db = Store;
  has_bucket = has_bucket;
  get = get;
  keys = λ d p. names (entries (lookup p d));
  create_bucket = create_bucket;
  delete_bucket = λ d p. without p d;
  put = put;
  delete = delete;
  commits = λ d. true;
  keys-get = keys-get;
  get-no_bucket = get-no_bucket;
  has_bucket-create = has_bucket-create;
  get-create = get-create;
  has_bucket-delete_bucket = has_bucket-without;
  get-delete_bucket = get-without;
  has_bucket-put = has_bucket-put;
  get-put = get-put;
  has_bucket-delete = has_bucket-delete;
  get-delete = get-delete;
}
