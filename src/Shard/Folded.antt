-- ===== src/Shard/Folded.antt =====
-- A queue as the changes that its commands make to what is known of one key, one behind the other.
use bydb.Base.{
  Bool, ◌≡◌, refl, ap, ◌∙◌, Text, List, [], ◌∷◌, ◌++◌, Option, none, some, inl, inr, Bool-cases,
  All, ◌==◌, if◌then◌else◌, arith,
}
use bydb.Bleve.{Bleve}
use bydb.Bolt.Defs.{Bolt}
use bydb.Command.Types.{CommandType, Command}
use bydb.Machine.Entry.{UpdateEntry, get_first_rune, concerns}
use bydb.Machine.Queue.{IsQueued, last_concerning, or_here, other_shard}
use bydb.Machine.Update.{of_shard}
use bydb.Shard.Applied.{at_key, left_by, apply_command-at_key, apply_entries-cons}
use bydb.Shard.Buckets.{there_by, apply_command-has_bucket}
use bydb.Shard.Defs.{done, Working, apply_entries}

module _ {A : Type 0} (f : CommandType → Command → A → A) where
  abbrev pub changed : Command → Command → A → A
  changed q c a = if concerns q c then f c.type c a else a

  abbrev pub folded : Command → List UpdateEntry → A → A
  folded q [] a = a
  folded q (e ∷ es) a = folded q es (changed q e.cmd a)

  pub folded-append :
      (q : Command) (xs ys : List UpdateEntry) (a : A)
      → folded q (xs ++ ys) a ≡ folded q ys (folded q xs a)
  folded-append q [] ys a = refl
  folded-append q (x ∷ xs) ys a = folded-append q xs ys (changed q x.cmd a)

  -- What a queue leaves, by its last command that concerns the key.
  abbrev pub LeftBy : Option Command → A → A → Type 0
  LeftBy none a b = b ≡ a
  LeftBy (some c) a b = (before : A) × (b ≡ f c.type c before)

  prepended :
      (q c : Command) (o : Option Command) (a b : A)
      → LeftBy o (changed q c a) b
      → LeftBy (or_here q c o) a b
  prepended q c none a b h = elim (Bool-cases (concerns q c)) [
    | inl e ↦ rw e (a, rw e at h)
    | inr e ↦ rw e (rw e at h)
  ]
  prepended q c (some later) a b h = h

  pub folded-LeftBy :
      (q : Command) (es : List UpdateEntry) (a : A)
      → LeftBy (last_concerning q es) a (folded q es a)
  folded-LeftBy q [] a = refl
  folded-LeftBy q (e ∷ es) a =
      prepended q e.cmd (last_concerning q es) a _ (folded-LeftBy q es (changed q e.cmd a))

  -- Only the entries of the key's own shard count.
  pub folded-of_shard :
      (q : Command) (es : List UpdateEntry) (a : A)
      → All IsQueued es
      → folded q (of_shard (get_first_rune q.part) es) a ≡ folded q es a
  folded-of_shard q [] a h = refl
  folded-of_shard q (e ∷ es) a h = elim (Bool-cases (e.shard_id == get_first_rune q.part)) [
    | inl same ↦ rw same (folded-of_shard q es (changed q e.cmd a) h.1)
    | inr other ↦ rw (other, other_shard q e h.0 other) (folded-of_shard q es a h.1)
  ]

-- Whether a command's partition is there, and the text that is held for its document.
abbrev pub there_behind : Command → List UpdateEntry → Bool → Bool
there_behind q es exists = folded (λ t c. there_by t) q es exists

abbrev pub text_behind : Command → List UpdateEntry → Option Text → Option Text
text_behind q es text = folded left_by q es text

module _ (B : Bolt) (V : Bleve) where
  -- The entries make of a store what the fold says.
  pub apply_entries-folded :
      (es : List UpdateEntry) (q : Command) (w w' : Working B V)
      → All IsQueued es
      → apply_entries B V es w ≡ done w'
      → (B.has_bucket w'.0 q.part ≡ there_behind q es (B.has_bucket w.0 q.part))
        × (at_key B w'.0 q ≡ text_behind q es (at_key B w.0 q))
  apply_entries-folded [] q w w' a h = unfold apply_entries in (ground arith, ground arith)
  apply_entries-folded (e ∷ es) q w w' a h =
      let (v, now, later) = apply_entries-cons B V e es w w' h in
      let (there, text) = apply_entries-folded es q v w' a.1 later in
      (
        there
            ∙ ap (there_behind q es)
                (apply_command-has_bucket B V e.cmd.type e.cmd q w v a.0.kind now),
        text ∙ ap (text_behind q es) (apply_command-at_key B V e.cmd.type e.cmd q w v a.0.kind now),
      )
