-- ===== src/Shard/Applied.antt =====
-- What the applied commands leave in the store at one key.
use mathlib.Core.List.{append_cancel_left}
use bydb.Base.{
  true, false, ◌&&◌, ◌≡◌, refl, ap, ◌∙◌, Text, List, [], ◌∷◌, Option, none, some, text_eq,
  text_eq_iff, inl, inr, Option-cases, All, if◌then◌else◌, arith,
}
use bydb.Bleve.{Bleve}
use bydb.Bolt.Defs.{Bolt}
use bydb.Command.Types.{CommandType, put, del, post, create_part, delete_part, Command, full_id}
use bydb.Machine.Entry.{UpdateEntry, concerns}
use bydb.Machine.Queue.{IsQueued, is_part_type, last_concerning, or_here}
use bydb.Shard.Defs.{Shard, >>=-eq-done, done, Working, apply_command, apply_entries, apply_updates}

abbrev behind : Text → Text
behind [] = []
behind (c ∷ cs) = cs

-- Two documents of a partition have the same key exactly when they have the same id.
pub full_id_injective : (c q : Command) → c.part ≡ q.part → full_id c ≡ full_id q → c.id ≡ q.id
full_id_injective c q p h =
    ap behind (append_cancel_left q.part (b':' ∷ c.id) (b':' ∷ q.id) (rw p at h))

full_id_cong : (c q : Command) → c.part ≡ q.part → c.id ≡ q.id → full_id c ≡ full_id q
full_id_cong c q p i = rw (p, i)

same_key :
    (q c : Command)
    → (text_eq c.part q.part && text_eq (full_id c) (full_id q))
      ≡ (text_eq q.id c.id && text_eq q.part c.part)
same_key q c = ground (
  arith,
  text_eq_iff c.part q.part,
  text_eq_iff (full_id c) (full_id q),
  text_eq_iff q.id c.id,
  text_eq_iff q.part c.part,
  full_id_injective c q,
  full_id_cong c q,
)

-- What a command leaves at a key that it concerns.
abbrev pub left_by : CommandType → Command → Option Text → Option Text
left_by put c state = some c.bytes_doc
left_by post c state = some c.bytes_doc
left_by del c state = none
left_by delete_part c state = none
left_by _ c state = state

abbrev pub left_by_last : Option Command → Option Text → Option Text
left_by_last none state = state
left_by_last (some c) state = left_by c.type c state

-- The command settles what the key holds: it is no creation of the partition.
abbrev pub IsDecisiveType : CommandType → Type 0
IsDecisiveType put = Unit
IsDecisiveType post = Unit
IsDecisiveType del = Unit
IsDecisiveType delete_part = Unit
IsDecisiveType _ = ⊥

abbrev pub IsDecisive : Option Command → Type 0
IsDecisive none = Unit
IsDecisive (some c) = IsDecisiveType c.type

IsDecisive-left_by :
    (t : CommandType) (c : Command) (a b : Option Text)
    → IsDecisiveType t
    → left_by t c a ≡ left_by t c b
IsDecisive-left_by put c a b h = refl
IsDecisive-left_by post c a b h = refl
IsDecisive-left_by del c a b h = refl
IsDecisive-left_by delete_part c a b h = refl
IsDecisive-left_by _ c a b h = absurd h

-- What the store holds for the document that a command names.
abbrev pub at_key : (B : Bolt) → B.Db → Command → Option Text
at_key B d q = B.get d q.part (full_id q)

module _ (B : Bolt) (V : Bleve) where
  written_at_key :
      (d d' : B.Db) (c q : Command)
      → B.has_bucket d c.part ≡ true
      → c.is_part ≡ false
      → B.put d c.part (full_id c) c.bytes_doc ≡ some d'
      → at_key B d' q ≡ (if concerns q c then some c.bytes_doc else at_key B d q)
  unfolding concerns
  written_at_key d d' c q b k e =
      ground (arith, B.get-put d d' c.part (full_id c) c.bytes_doc q.part (full_id q), same_key q c)

  pub apply_command-at_key :
      (t : CommandType) (c q : Command) (w w' : Working B V)
      → c.is_part ≡ is_part_type t
      → apply_command B V t w c ≡ done w'
      → at_key B w'.0 q ≡ (if concerns q c then left_by t c (at_key B w.0 q) else at_key B w.0 q)
  unfolding apply_command concerns
  apply_command-at_key put c q (d, ops) w' k h =
      elim (Option-cases (B.put d c.part (full_id c) c.bytes_doc)) [
        | inl e ↦ absurd (ground arith)
        | inr (d', e) ↦ ground (arith, written_at_key d d' c q)
      ]
  apply_command-at_key post c q (d, ops) w' k h =
      elim (Option-cases (B.put d c.part (full_id c) c.bytes_doc)) [
        | inl e ↦ absurd (ground arith)
        | inr (d', e) ↦ ground (arith, written_at_key d d' c q)
      ]
  apply_command-at_key del c q (d, ops) w' k h =
      elim (Option-cases (B.delete d c.part (full_id c))) [
        | inl e ↦ absurd (ground arith)
        | inr (d', e) ↦
            ground (arith, B.get-delete d d' c.part (full_id c) q.part (full_id q), same_key q c)
      ]
  apply_command-at_key create_part c q (d, ops) w' k h =
      elim (Option-cases (B.create_bucket d c.part)) [
        | inl e ↦ absurd (ground arith)
        | inr (d', e) ↦ ground (arith, B.get-create d d' c.part q.part (full_id q))
      ]
  apply_command-at_key delete_part c q (d, ops) w' k h = ground (
    arith,
    B.get-delete_bucket d c.part q.part (full_id q),
    text_eq_iff c.part q.part,
    text_eq_iff q.part c.part,
  )
  apply_command-at_key _ c q (d, ops) w' k h = ground arith

  pub apply_entries-cons :
      (e : UpdateEntry) (es : List UpdateEntry) (w w' : Working B V)
      → apply_entries B V (e ∷ es) w ≡ done w'
      → (v : Working B V) × (apply_command B V e.cmd.type w e.cmd ≡ done v)
        × (apply_entries B V es v ≡ done w')
  unfolding apply_entries
  apply_entries-cons e es w w' h =
      >>=-eq-done (apply_command B V e.cmd.type w e.cmd) (apply_entries B V es) h

  -- One command before a queue whose last word on the key is known.
  prepend :
      (q c : Command) (o : Option Command) (state : Option Text)
      → IsDecisive (or_here q c o)
      → left_by_last o (if concerns q c then left_by c.type c state else state)
        ≡ left_by_last (or_here q c o) state
  prepend q c none state h = ground arith
  prepend q c (some later) state h = IsDecisive-left_by later.type later _ _ h

  IsDecisive-later :
      (q c : Command) (o : Option Command) → IsDecisive (or_here q c o) → IsDecisive o
  IsDecisive-later q c none h = tt
  IsDecisive-later q c (some later) h = h

  -- After the entries a key holds what the last of them that concerns it leaves there.
  pub apply_entries-at_key :
      (es : List UpdateEntry) (q : Command) (w w' : Working B V)
      → All IsQueued es
      → apply_entries B V es w ≡ done w'
      → IsDecisive (last_concerning q es)
      → at_key B w'.0 q ≡ left_by_last (last_concerning q es) (at_key B w.0 q)
  apply_entries-at_key [] q w w' a h s = unfold apply_entries in ground arith
  apply_entries-at_key (e ∷ es) q w w' a h s =
      let (v, now, later) = apply_entries-cons e es w w' h in
      apply_entries-at_key es q v w' a.1 later (IsDecisive-later q e.cmd (last_concerning q es) s)
      ∙ ap (left_by_last (last_concerning q es))
          (apply_command-at_key e.cmd.type e.cmd q w v a.0.kind now)
      ∙ prepend q e.cmd (last_concerning q es) (at_key B w.0 q) s

  pub apply_updates-eq-done :
      (s s' : Shard B.Db) (es : List UpdateEntry)
      → apply_updates B V s es ≡ done s'
      → (w : Working B V) × (apply_entries B V es (s.block, []) ≡ done w) × (s'.block ≡ w.0)
  unfolding apply_updates
  apply_updates-eq-done s s' es h =
      let (w, e, c) = >>=-eq-done (apply_entries B V es (s.block, [])) _ h in (w, e, ground arith)

  -- `ApplyUpdates` on a queue leaves at a key what its last command that concerns the key leaves.
  pub apply_updates-at_key :
      (s s' : Shard B.Db) (es : List UpdateEntry) (q : Command)
      → All IsQueued es
      → apply_updates B V s es ≡ done s'
      → IsDecisive (last_concerning q es)
      → at_key B s'.block q ≡ left_by_last (last_concerning q es) (at_key B s.block q)
  apply_updates-at_key s s' es q a h d =
      let (w, e, block) = apply_updates-eq-done s s' es h in
      rw block (apply_entries-at_key es q (s.block, []) w a e d)
