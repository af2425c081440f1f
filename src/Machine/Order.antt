-- ===== src/Machine/Order.antt =====
-- The order in which `Update` comes to the shards does not show in the queue of any shard.
use mathlib.Core.List.{append_assoc, append-nil}
use bydb.Base.{
  ℕ, false, ◌≡◌, refl, sym, ap, ◌∙◌, Text, List, [], ◌∷◌, ◌++◌, Option, none, some, map, inl, inr,
  Bool-cases, All, filter-append, ==_iff, ◌==◌, ltb, if◌then◌else◌, arith,
}
use bydb.Document.{Document}
use bydb.Bolt.Defs.{Bolt}
use bydb.Shard.Defs.{Shard, find_existing_documents_for_updates}
use bydb.Machine.Entry.{UpdateEntry, get_first_rune, find_command_in_pending}
use bydb.Machine.Queue.{IsQueued, find-last_concerning, last_concerning-of_shard}
use bydb.Machine.Stable.{IsStable}
use bydb.Machine.Update.{
  Looked, looked, look_in_pending, count_searches, Verdict, ignored, accepted, refused, verdict,
  Progress, settle_by, settle, of_shard, find_existing, settled, at_shard,
}

-- What a settled entry adds to the queue.
abbrev pub taken : Verdict → UpdateEntry → List UpdateEntry
taken accepted e = record e { entry = none } ∷ []
taken _ e = []

abbrev pub accepted_of : List UpdateEntry → List UpdateEntry
accepted_of [] = []
accepted_of (e ∷ es) = taken (verdict e) e ++ accepted_of es

settle_by-pending :
    (v : Verdict) (p : Progress) (e : UpdateEntry)
    → (settle_by v p e).pending ≡ p.pending ++ taken v e
settle_by-pending ignored p e = sym (append-nil p.pending)
settle_by-pending (refused code) p e = sym (append-nil p.pending)
settle_by-pending accepted p e = refl

settle-pending :
    (p : Progress) (es : List UpdateEntry) → (settle p es).pending ≡ p.pending ++ accepted_of es
unfolding settle
settle-pending p [] = sym (append-nil p.pending)
settle-pending p (e ∷ es) =
    settle-pending (settle_by (verdict e) p e) es
    ∙ ap (λ (q : List UpdateEntry). q ++ accepted_of es) (settle_by-pending (verdict e) p e)
    ∙ append_assoc p.pending (taken (verdict e) e) (accepted_of es)

abbrev pub AtShard : ℕ → UpdateEntry → Type 0
AtShard k e = e.shard_id ≡ k

pub AtShard-stable : (k : ℕ) → IsStable (AtShard k)
AtShard-stable k e e' c i n w = i ∙ w

pub AtShard-of_shard : (k : ℕ) (es : List UpdateEntry) → All (AtShard k) (of_shard k es)
AtShard-of_shard k [] = tt
AtShard-of_shard k (e ∷ es) = elim (Bool-cases (e.shard_id == k)) [
  | inl same ↦ rw same ((==_iff e.shard_id k).0 same, AtShard-of_shard k es)
  | inr other ↦ rw other (AtShard-of_shard k es)
]

of_shard-taken_here :
    (k : ℕ) (v : Verdict) (e : UpdateEntry) → e.shard_id ≡ k → of_shard k (taken v e) ≡ taken v e
of_shard-taken_here k accepted e h = ground arith
of_shard-taken_here k _ e h = refl

of_shard-taken_other :
    (k : ℕ) (v : Verdict) (e : UpdateEntry)
    → (e.shard_id == k) ≡ false
    → of_shard k (taken v e) ≡ []
of_shard-taken_other k accepted e h = ground arith
of_shard-taken_other k _ e h = refl

of_shard-accepted_here :
    (k : ℕ) (es : List UpdateEntry)
    → All (AtShard k) es
    → of_shard k (accepted_of es) ≡ accepted_of es
of_shard-accepted_here k [] a = refl
of_shard-accepted_here k (e ∷ es) a =
    filter-append _ (taken (verdict e) e) (accepted_of es)
    ∙ ap (λ (l : List UpdateEntry). l ++ of_shard k (accepted_of es))
        (of_shard-taken_here k (verdict e) e a.0)
    ∙ ap (λ (l : List UpdateEntry). taken (verdict e) e ++ l) (of_shard-accepted_here k es a.1)

of_shard-accepted_other :
    (c k : ℕ) (es : List UpdateEntry)
    → (c == k) ≡ false
    → All (AtShard c) es
    → of_shard k (accepted_of es) ≡ []
of_shard-accepted_other c k [] n a = refl
of_shard-accepted_other c k (e ∷ es) n a =
    filter-append _ (taken (verdict e) e) (accepted_of es)
    ∙ ap (λ (l : List UpdateEntry). l ++ of_shard k (accepted_of es))
        (of_shard-taken_other k (verdict e) e (rw a.0 n))
    ∙ of_shard-accepted_other c k es n a.1

-- An entry sees of the queue only the part of its own shard.
look_in_pending-of_shard :
    (k : ℕ) (pending : List UpdateEntry) (e : UpdateEntry)
    → All IsQueued pending
    → IsQueued e
    → AtShard k e
    → look_in_pending pending e ≡ look_in_pending (of_shard k pending) e
unfolding look_in_pending
look_in_pending-of_shard k pending e q w i = ap (looked e) (
    find-last_concerning e.cmd pending
    ∙ sym (last_concerning-of_shard e.cmd pending q)
    ∙ sym (find-last_concerning e.cmd (of_shard (get_first_rune e.cmd.part) pending))
    ∙ ap (λ (c : ℕ). find_command_in_pending (of_shard c pending) e.cmd) (sym w.shard ∙ i))

look-of_shard :
    (k : ℕ) (pending es : List UpdateEntry)
    → All IsQueued pending
    → All IsQueued es
    → All (AtShard k) es
    → map (look_in_pending pending) es ≡ map (look_in_pending (of_shard k pending)) es
look-of_shard k pending [] q w i = refl
look-of_shard k pending (e ∷ es) q w i =
    cc (look_in_pending-of_shard k pending e q w.0 i.0, look-of_shard k pending es q w.1 i.1)

module _ (B : Bolt) (unmarshal : Text → Option Document) where
  pub find_existing-of_shard :
      (s : Shard B.Db) (k : ℕ) (pending es : List UpdateEntry)
      → All IsQueued pending
      → All IsQueued es
      → All (AtShard k) es
      → find_existing B unmarshal s pending es ≡ find_existing B unmarshal s (of_shard k pending) es
  unfolding find_existing
  find_existing-of_shard s k pending es q w i =
      ap
        (λ (seen : List Looked).
          let entries = map (λ (l : Looked). l.0) seen in
          if ltb 0 (count_searches seen)
          then find_existing_documents_for_updates B unmarshal s entries
          else some entries)
        (look-of_shard k pending es q w i)

  -- What the entries of a shard add to the shard's queue, from the shard and that queue alone.
  abbrev pub accepted_found : Option (List UpdateEntry) → List UpdateEntry
  accepted_found none = []
  accepted_found (some es) = accepted_of es

  abbrev pub gained_at : Shard B.Db → List UpdateEntry → List UpdateEntry → List UpdateEntry
  gained_at s queue [] = []
  gained_at s queue (e ∷ es) = accepted_found (find_existing B unmarshal s queue (e ∷ es))

  abbrev pub gained : Option (Shard B.Db) → List UpdateEntry → List UpdateEntry → List UpdateEntry
  gained none queue es = []
  gained (some s) queue es = gained_at s queue es

  settled-pending :
      (p : Progress) (o : Option (List UpdateEntry))
      → (settled B unmarshal p o).0.pending ≡ p.pending ++ accepted_found o
  settled-pending p none = sym (append-nil p.pending)
  settled-pending p (some es) = settle-pending p es

  pub at_shard-pending :
      (k : ℕ) (p : Progress) (o : Option (Shard B.Db)) (es : List UpdateEntry)
      → All IsQueued p.pending
      → All IsQueued es
      → All (AtShard k) es
      → (at_shard B unmarshal p o es).0.pending ≡ p.pending ++ gained o (of_shard k p.pending) es
  at_shard-pending k p none es q w i = sym (append-nil p.pending)
  at_shard-pending k p (some s) [] q w i = sym (append-nil p.pending)
  at_shard-pending k p (some s) (e ∷ es) q w i =
      settled-pending p (find_existing B unmarshal s p.pending (e ∷ es))
      ∙ ap (λ (o : Option (List UpdateEntry)). p.pending ++ accepted_found o)
          (find_existing-of_shard s k p.pending (e ∷ es) q w i)

  pub accepted_found-here :
      (k : ℕ) (o : Option (List UpdateEntry))
      → ((es : List UpdateEntry) → o ≡ some es → All (AtShard k) es)
      → of_shard k (accepted_found o) ≡ accepted_found o
  accepted_found-here k none a = refl
  accepted_found-here k (some es) a = of_shard-accepted_here k es (a es refl)

  pub accepted_found-other :
      (c k : ℕ) (o : Option (List UpdateEntry))
      → (c == k) ≡ false
      → ((es : List UpdateEntry) → o ≡ some es → All (AtShard c) es)
      → of_shard k (accepted_found o) ≡ []
  accepted_found-other c k none n a = refl
  accepted_found-other c k (some es) n a = of_shard-accepted_other c k es n (a es refl)
