-- ===== src/Machine/Index.antt =====
-- The index of the last applied log entry: what `Sync` computes, stores and `Open` reads back.
use bydb.Base.{
  ℕ, ◌≤◌, ◌<◌, ◌^◌, Bool, true, ◌≡◌, ◌≢◌, ◌⊎◌, refl, ap, ◌∙◌, Text, List, [], ◌∷◌, some, inl, inr,
  All, ltb, if◌then◌else◌, arith, text_eq,
}
use bydb.Base.Decimal.{print_uint, parse_uint, value, parse_uint-print_uint, print_uint-ne-nil}
use bydb.Bleve.{Bleve}
use bydb.Bolt.Defs.{Bolt}
use bydb.Shard.Defs.{done}
use bydb.Machine.Entry.{UpdateEntry}
use bydb.Machine.Update.{Machine}
use bydb.Machine.Sync.{
  highest_index, meta_bucket, meta_key, get_last_update_index, sync, read_index,
}
use bydb.Machine.Synced.{sync-eq-done}

-- The index is one of the queue's or the old one.
abbrev pub IsIndexOf : ℕ → ℕ → List UpdateEntry → Type 0
IsIndexOf h i [] = h ≡ i
IsIndexOf h i (e ∷ es) = (h ≡ e.index) ⊎ IsIndexOf h i es

IsIndexOf-step :
    (h i : ℕ) (e : UpdateEntry) (es : List UpdateEntry)
    → IsIndexOf h (if ltb i e.index then e.index else i) es
    → (h ≡ e.index) ⊎ IsIndexOf h i es
IsIndexOf-step h i e [] p = ground arith
IsIndexOf-step h i e (x ∷ es) p = elim p [
  | inl here ↦ inr (inl here)
  | inr later ↦ elim (IsIndexOf-step h i e es later) [ inl now ↦ inl now | inr old ↦ inr (inr old) ]
]

-- `findHighestIndexInPending` is at least the old index and each index of the queue, and is one of
-- these.
pub highest_index_lem :
    (i : ℕ) (es : List UpdateEntry)
    → (i ≤ highest_index i es)
      × All (λ e. e.index ≤ highest_index i es) es
      × IsIndexOf (highest_index i es) i es
unfolding highest_index
highest_index_lem i [] = (omega arith, tt, refl)
highest_index_lem i (e ∷ es) =
    let (low, all, one) = highest_index_lem (if ltb i e.index then e.index else i) es in
    (ground arith, (ground arith, all), IsIndexOf-step _ i e es one)

module _ (B : Bolt) where
  read_index-print : (n : ℕ) → n < 2 ^ 64 → read_index B (some (print_uint n)) ≡ (n, true)
  read_index-print n h = nonempty (print_uint n) (print_uint-ne-nil n) (parse_uint-print_uint n h)
    where
      nonempty : (t : Text) → t ≢ [] → parse_uint t ≡ value n → read_index B (some t) ≡ (n, true)
      nonempty [] ne e = absurd (ne refl)
      nonempty (c ∷ cs) ne e = rw e

  -- After a `Sync`, the index that `Open` or a snapshot reads from the meta database is the highest
  -- one of the queue and the old index, if it is a uint64, and the machine is left as it is.
  pub get_last_update_index-sync :
      (V : Bleve) (order : List ℕ) (m m' : Machine B.Db)
      → sync B V order m ≡ done m'
      → highest_index m.last_index m.pending < 2 ^ 64
      → get_last_update_index B m' ≡ (m', highest_index m.last_index m.pending, true)
  unfolding get_last_update_index
  get_last_update_index-sync V order m m' h small =
      let s = sync-eq-done B V order m m' h in
      let has : B.has_bucket m'.meta_db meta_bucket ≡ true =
        B.has_bucket-put m.meta_db m'.meta_db meta_bucket meta_key _ meta_bucket s.bucket s.stored
        ∙ s.bucket in
      let got : B.get m'.meta_db meta_bucket meta_key ≡ some (print_uint m'.last_index) =
        B.get-put m.meta_db m'.meta_db meta_bucket meta_key _ meta_bucket meta_key s.bucket s.stored
        ∙ unfold text_eq in refl in
      rw (← s.highest) (
        ap (λ (p : ℕ × Bool). (record m' { last_index = p.0 }, p.0, p.1))
          (rw (has, got) (read_index-print m'.last_index (rw s.highest small))))
