-- ===== src/Machine/Queue.antt =====
-- The pending queue: what its entries are known to satisfy, and which of them speaks for a key.
use mathlib.Core.List.{reverse-append}
use bydb.Base.{
  ℕ, Bool, true, false, ◌≡◌, ◌≢◌, refl, sym, ap, ◌∙◌, subst, List, [], ◌∷◌, ◌++◌, Option, none,
  some, text_eq_iff, reverse, inl, inr, Bool-cases, All, ==_iff, ◌==◌, if◌then◌else◌, arith,
}
use bydb.Command.Types.{CommandType, put, post, create_part, delete_part, Command}
use bydb.Machine.Entry.{
  UpdateEntry, get_first_rune, concerns, first_concerning, find_command_in_pending,
}
use bydb.Machine.Update.{of_shard}

abbrev pub is_part_type : CommandType → Bool
is_part_type create_part = true
is_part_type delete_part = true
is_part_type _ = false

-- A written document is not empty, and is kept as the same text twice.
abbrev pub HasBody : CommandType → Command → Type 0
HasBody put c = (c.bytes_doc ≡ c.string_doc) × (c.bytes_doc ≢ [])
HasBody post c = (c.bytes_doc ≡ c.string_doc) × (c.bytes_doc ≢ [])
HasBody _ c = Unit

pub record IsQueued (e : UpdateEntry) : Type 0 where
  pub shard : e.shard_id ≡ get_first_rune e.cmd.part
  pub kind : e.cmd.is_part ≡ is_part_type e.cmd.type
  pub body : HasBody e.cmd.type e.cmd

-- The last command of a queue that concerns a key, by recursion from the front.
abbrev pub or_here : Command → Command → Option Command → Option Command
or_here q c none = if concerns q c then some c else none
or_here q c (some later) = some later

abbrev pub last_concerning : Command → List UpdateEntry → Option Command
last_concerning q [] = none
last_concerning q (e ∷ es) = or_here q e.cmd (last_concerning q es)

first_concerning-append :
    (q : Command) (xs : List UpdateEntry) (e : UpdateEntry)
    → first_concerning q (xs ++ e ∷ []) ≡ or_here q e.cmd (first_concerning q xs)
unfolding first_concerning
first_concerning-append q [] e = refl
first_concerning-append q (x ∷ xs) e = ground (arith, first_concerning-append q xs e)

pub find-last_concerning :
    (q : Command) (es : List UpdateEntry) → find_command_in_pending es q ≡ last_concerning q es
unfolding find_command_in_pending
find-last_concerning q [] = refl
find-last_concerning q (e ∷ es) =
    ap (first_concerning q) (reverse-append (e ∷ []) es)
    ∙ first_concerning-append q (reverse es) e
    ∙ ap (or_here q e.cmd) (find-last_concerning q es)

pub concerns-part : (q c : Command) → concerns q c ≡ true → q.part ≡ c.part
unfolding concerns
concerns-part q c h = ground (arith, text_eq_iff q.part c.part)

pub or_here-skip : (q c : Command) (o : Option Command) → concerns q c ≡ false → or_here q c o ≡ o
or_here-skip q c none h = rw h
or_here-skip q c (some later) h = refl

pub other_shard :
    (q : Command) (e : UpdateEntry)
    → IsQueued e
    → (e.shard_id == get_first_rune q.part) ≡ false
    → concerns q e.cmd ≡ false
other_shard q e w h = elim (Bool-cases (concerns q e.cmd)) [
  | inl yes' ↦ absurd (differs (w.shard ∙ ap get_first_rune (sym (concerns-part q e.cmd yes'))))
  | inr no' ↦ no'
]
  where
    differs : e.shard_id ≢ get_first_rune q.part
    differs p = ground (arith, ==_iff e.shard_id (get_first_rune q.part))

-- Only the entries of the key's own shard concern it.
pub last_concerning-of_shard :
    (q : Command) (es : List UpdateEntry)
    → All IsQueued es
    → last_concerning q (of_shard (get_first_rune q.part) es) ≡ last_concerning q es
last_concerning-of_shard q [] h = refl
last_concerning-of_shard q (e ∷ es) h = elim (Bool-cases (e.shard_id == get_first_rune q.part)) [
  | inl same ↦ rw same (ap (or_here q e.cmd) (last_concerning-of_shard q es h.1))
  | inr other ↦ rw other (
      last_concerning-of_shard q es h.1
      ∙ sym (or_here-skip q e.cmd (last_concerning q es) (other_shard q e h.0 other)))
]

pub All-of_shard :
    (P : UpdateEntry → Type 0) (c : ℕ) (es : List UpdateEntry) → All P es → All P (of_shard c es)
All-of_shard P c [] h = h
All-of_shard P c (e ∷ es) h = elim (Bool-cases (e.shard_id == c)) [
  | inl same ↦ rw same (h.0, All-of_shard P c es h.1)
  | inr other ↦ rw other (All-of_shard P c es h.1)
]

-- What holds of every command of a queue holds of the last one that concerns a key.
module _ (P : Command → Type 0) where
  or_here-All :
      (q e : Command) (o : Option Command) {c : Command}
      → P e
      → ((d : Command) → o ≡ some d → P d)
      → or_here q e o ≡ some c
      → P c
  or_here-All q e none here there h = elim (Bool-cases (concerns q e)) [
    | inl it ↦ subst P (cc) here
    | inr other ↦ absurd (ground arith)
  ]
  or_here-All q e (some d) here there h = subst P (cc) (there d refl)

  pub last_concerning-All :
      (es : List UpdateEntry) (q c : Command)
      → All (λ e. P e.cmd) es
      → last_concerning q es ≡ some c
      → P c
  last_concerning-All [] q c a h = absurd (cc)
  last_concerning-All (e ∷ es) q c a h =
      or_here-All q e.cmd (last_concerning q es) a.0 (λ d. last_concerning-All es q d a.1) h
