-- ===== src/Machine/Plain.antt =====
-- Commands for which the queue holds no command on their partition: each is looked for on its own.
use mathlib.Core.List.{append_assoc, map-append}
use bydb.Base.{
  true, false, ◌≡◌, refl, sym, ap, ◌∙◌, Text, List, [], ◌∷◌, ◌++◌, Option, none, some, map, All,
  All-append, inl, inr, Bool-cases, ltb, if◌then◌else◌, arith,
}
use bydb.Bolt.Defs.{Bolt}
use bydb.Command.Types.{CommandType, get, create_part, delete_part, Command}
use bydb.Document.{Document}
use bydb.Machine.Entry.{UpdateEntry, concerns, find_command_in_pending}
use bydb.Machine.Order.{accepted_of, taken}
use bydb.Machine.Queue.{is_part_type, last_concerning, or_here, or_here-skip, find-last_concerning}
use bydb.Machine.Stable.{IsStable}
use bydb.Machine.Update.{
  Verdict, accepted, Looked, looked, seen_in_pending, look_in_pending, count_searches,
  find_existing, verdict,
}
use bydb.Shard.Defs.{Shard, find_existing_documents_for_updates, find_existing_document, cons_found}

-- A pending command that is found is no command on a partition.
abbrev pub IsPlain : Option Command → Type 0
IsPlain none = Unit
IsPlain (some c) = is_part_type c.type ≡ false

-- No command of the queue concerns the entry's.
abbrev pub Untouched : List UpdateEntry → UpdateEntry → Type 0
Untouched es f = All (λ e. concerns f.cmd e.cmd ≡ false) es

last_concerning-Untouched :
    (q : Command) (es gs : List UpdateEntry)
    → All (λ e. concerns q e.cmd ≡ false) gs
    → last_concerning q (es ++ gs) ≡ last_concerning q es
last_concerning-Untouched q [] [] u = refl
last_concerning-Untouched q [] (g ∷ gs) u =
    or_here-skip q g.cmd (last_concerning q gs) u.0 ∙ last_concerning-Untouched q [] gs u.1
last_concerning-Untouched q (e ∷ es) gs u =
    ap (or_here q e.cmd) (last_concerning-Untouched q es gs u)

find-Untouched :
    (es gs : List UpdateEntry) (f : UpdateEntry)
    → Untouched gs f
    → find_command_in_pending (es ++ gs) f.cmd ≡ find_command_in_pending es f.cmd
find-Untouched es gs f u =
    find-last_concerning f.cmd (es ++ gs)
    ∙ last_concerning-Untouched f.cmd es gs u
    ∙ sym (find-last_concerning f.cmd es)

pub accepted_of-append :
    (xs ys : List UpdateEntry) → accepted_of (xs ++ ys) ≡ accepted_of xs ++ accepted_of ys
accepted_of-append [] ys = refl
accepted_of-append (x ∷ xs) ys =
    ap (λ l. taken (verdict x) x ++ l) (accepted_of-append xs ys)
    ∙ sym (append_assoc (taken (verdict x) x) (accepted_of xs) (accepted_of ys))

-- What is stable and holds of the entries holds of those that are accepted.
taken-All :
    (P : UpdateEntry → Type 0)
    → IsStable P
    → (v : Verdict) (e : UpdateEntry) → P e
    → All P (taken v e)
taken-All P stable accepted e w = (stable e _ refl refl refl w, tt)
taken-All P stable _ e w = tt

pub accepted_of-All :
    (P : UpdateEntry → Type 0)
    → IsStable P
    → (es : List UpdateEntry) → All P es
    → All P (accepted_of es)
accepted_of-All P stable [] a = tt
accepted_of-All P stable (e ∷ es) a =
    All-append P (taken (verdict e) e) (accepted_of es) (taken-All P stable (verdict e) e a.0)
      (accepted_of-All P stable es a.1)

abbrev pub both_found :
    Option (List UpdateEntry) → Option (List UpdateEntry) → Option (List UpdateEntry)
both_found none o = none
both_found (some xs) none = none
both_found (some xs) (some ys) = some (xs ++ ys)

module _ (B : Bolt) (unmarshal : Text → Option Document) where
  abbrev found : Shard B.Db → List UpdateEntry → Option (List UpdateEntry)
  found = find_existing_documents_for_updates B unmarshal

  abbrev entries_of : List Looked → List UpdateEntry
  entries_of ls = map (λ (l : Looked). l.0) ls

  cons_found-both :
      (o : Option UpdateEntry) (p q : Option (List UpdateEntry))
      → cons_found B unmarshal o (both_found p q) ≡ both_found (cons_found B unmarshal o p) q
  cons_found-both o p q = ground arith

  found-append :
      (s : Shard B.Db) (xs ys : List UpdateEntry)
      → found s (xs ++ ys) ≡ both_found (found s xs) (found s ys)
  unfolding find_existing_documents_for_updates
  found-append s [] ys = ground arith
  found-append s (x ∷ xs) ys =
      ap (cons_found B unmarshal (find_existing_document B unmarshal s x)) (found-append s xs ys)
      ∙ cons_found-both (find_existing_document B unmarshal s x) (found s xs) (found s ys)

  -- An entry that the queue speaks for, as a document, needs no search and is left as it is.
  looked-plain :
      (s : Shard B.Db) (e : UpdateEntry) (o : Option Command)
      → IsPlain o
      → (looked e o).1 ≡ false
      → find_existing_document B unmarshal s (looked e o).0 ≡ some (looked e o).0
  unfolding find_existing_document seen_in_pending
  looked-plain s e none p h = cc
  looked-plain s e (some c) p h = seen c.type p
    where
      seen :
          (t : CommandType)
          → is_part_type t ≡ false
          → find_existing_document B unmarshal s (seen_in_pending t c e)
            ≡ some (seen_in_pending t c e)
      seen create_part n = cc
      seen delete_part n = cc
      seen get n = refl
      seen _ n = refl

  abbrev pub PlainIn : List UpdateEntry → UpdateEntry → Type 0
  PlainIn queue e = IsPlain (find_command_in_pending queue e.cmd)

  unsearched :
      (s : Shard B.Db) (queue es : List UpdateEntry)
      → All (PlainIn queue) es
      → ltb 0 (count_searches (map (look_in_pending queue) es)) ≡ false
      → found s (entries_of (map (look_in_pending queue) es))
        ≡ some (entries_of (map (look_in_pending queue) es))
  unfolding look_in_pending find_existing_documents_for_updates
  unsearched s queue [] a h = refl
  unsearched s queue (e ∷ es) a h =
      let (now, later) = none_needed (looked e (find_command_in_pending queue e.cmd)) h in
      rw (
        looked-plain s e (find_command_in_pending queue e.cmd) a.0 now,
        unsearched s queue es a.1 later,
      )
    where
      none_needed :
          (l : Looked)
          → ltb 0 (count_searches (l ∷ map (look_in_pending queue) es)) ≡ false
          → (l.1 ≡ false) × (ltb 0 (count_searches (map (look_in_pending queue) es)) ≡ false)
      none_needed (f, true) h = absurd (ground arith)
      none_needed (f, false) h = (refl, ground arith)

  find_existing-plain :
      (s : Shard B.Db) (queue es : List UpdateEntry)
      → All (PlainIn queue) es
      → find_existing B unmarshal s queue es ≡ found s (entries_of (map (look_in_pending queue) es))
  unfolding find_existing
  find_existing-plain s queue es a =
      elim (Bool-cases (ltb 0 (count_searches (map (look_in_pending queue) es)))) [
        | inl some' ↦ rw some'
        | inr none' ↦ rw none' (sym (unsearched s queue es a none'))
      ]

  pub find_existing-append :
      (s : Shard B.Db) (queue es fs : List UpdateEntry)
      → All (PlainIn queue) es
      → All (PlainIn queue) fs
      → find_existing B unmarshal s queue (es ++ fs)
        ≡ both_found (find_existing B unmarshal s queue es) (find_existing B unmarshal s queue fs)
  find_existing-append s queue es fs a b =
      find_existing-plain s queue (es ++ fs) (All-append (PlainIn queue) es fs a b)
      ∙ ap (λ ls. found s (entries_of ls)) (map-append (look_in_pending queue) es fs)
      ∙ ap (found s) (
          map-append (λ (l : Looked). l.0) (map (look_in_pending queue) es)
            (map (look_in_pending queue) fs))
      ∙ found-append s (entries_of (map (look_in_pending queue) es))
          (entries_of (map (look_in_pending queue) fs))
      ∙ ap (λ o. both_found o (found s (entries_of (map (look_in_pending queue) fs))))
          (sym (find_existing-plain s queue es a))
      ∙ ap (both_found (find_existing B unmarshal s queue es))
          (sym (find_existing-plain s queue fs b))

  look-Untouched :
      (queue gs fs : List UpdateEntry)
      → All (Untouched gs) fs
      → map (look_in_pending (queue ++ gs)) fs ≡ map (look_in_pending queue) fs
  unfolding look_in_pending
  look-Untouched queue gs [] u = refl
  look-Untouched queue gs (f ∷ fs) u =
      cc (ap (looked f) (find-Untouched queue gs f u.0), look-Untouched queue gs fs u.1)

  pub find_existing-Untouched :
      (s : Shard B.Db) (queue gs fs : List UpdateEntry)
      → All (Untouched gs) fs
      → find_existing B unmarshal s (queue ++ gs) fs ≡ find_existing B unmarshal s queue fs
  unfolding find_existing
  find_existing-Untouched s queue gs fs u =
      ap
        (λ (seen : List Looked).
          if ltb 0 (count_searches seen) then found s (entries_of seen) else some (entries_of seen))
        (look-Untouched queue gs fs u)
