-- ===== src/Machine/Fresh.antt =====
-- A created partition holds no document: what keeps the store of a machine sound.
use mathlib.Core.List.{append-nil}
use bydb.Base.{
  true, false, ◌≡◌, refl, Text, List, [], ◌∷◌, ◌++◌, Option, none, some, inl, inr, Bool-cases,
  text_eq_iff, ◌==◌, if◌then◌else◌, arith,
}
use bydb.Document.{Document}
use bydb.Bolt.Defs.{Bolt}
use bydb.Command.Types.{CommandType, create_part, delete_part, put, post, del, Command}
use bydb.Machine.Entry.{UpdateEntry, concerns}
use bydb.Machine.Queue.{is_part_type, last_concerning, concerns-part}
use bydb.Machine.Represented.{Store, carry_out, carry_out-text, document_at, answer_of, handled}
use bydb.Machine.Solo.{status, queue_of}

-- No document is held for a partition that is not there.
abbrev pub IsSound : Store → Type 0
IsSound σ = (p i : Text) → σ.has p ≡ false → σ.text p i ≡ none

carry_out-IsSound :
    (t : CommandType) (c : Command) (σ : Store) (doc : Option Document)
    → (status t c (σ.has c.part) doc == 200) ≡ true
    → IsSound σ
    → IsSound (carry_out t c σ)
carry_out-IsSound create_part c σ doc a s p i h = s p i (ground arith)
carry_out-IsSound delete_part c σ doc a s p i h = ground (arith, s p i)
carry_out-IsSound put c σ doc a s p i h = ground (arith, s p i, text_eq_iff p c.part)
carry_out-IsSound post c σ doc a s p i h = ground (arith, s p i, text_eq_iff p c.part)
carry_out-IsSound del c σ doc a s p i h = ground (arith, s p i)
carry_out-IsSound _ c σ doc a s p i h = s p i h

pub handled-IsSound :
    (unmarshal : Text → Option Document) (c : Command) (σ : Store)
    → IsSound σ
    → IsSound (handled unmarshal σ c)
handled-IsSound unmarshal c σ s = elim (Bool-cases (answer_of unmarshal σ c == 200)) [
  | inl e ↦ rw e (carry_out-IsSound c.type c σ (document_at unmarshal σ c) e s)
  | inr e ↦ rw e s
]

-- Nothing is held where the last pending command is the creation of the partition.
abbrev pub IsFresh : CommandType → Option Text → Type 0
IsFresh create_part held = held ≡ none
IsFresh _ held = Unit

abbrev pub IsFreshLast : Option Command → Option Text → Type 0
IsFreshLast none held = Unit
IsFreshLast (some c) held = IsFresh c.type held

last_concerning-append :
    (q : Command) (es : List UpdateEntry) (e : UpdateEntry)
    → last_concerning q (es ++ e ∷ [])
      ≡ (if concerns q e.cmd then some e.cmd else last_concerning q es)
last_concerning-append q [] e = refl
last_concerning-append q (x ∷ es) e = ground (arith, last_concerning-append q es e)

created-IsFresh :
    (t : CommandType) (q c : Command) (σ : Store) (doc : Option Document)
    → q.part ≡ c.part
    → (status t c (σ.has c.part) doc == 200) ≡ true
    → IsSound σ
    → IsFresh t ((carry_out t c σ).text q.part q.id)
created-IsFresh create_part q c σ doc p a s = s q.part q.id (rw p (ground arith))
created-IsFresh _ q c σ doc p a s = tt

-- An accepted command at the end of the queue.
appended-IsFreshLast :
    (q : Command) (es : List UpdateEntry) (e : UpdateEntry) (σ : Store) (doc : Option Document)
    → e.cmd.is_part ≡ is_part_type e.cmd.type
    → (status e.cmd.type e.cmd (σ.has e.cmd.part) doc == 200) ≡ true
    → IsSound σ
    → IsFreshLast (last_concerning q es) (σ.text q.part q.id)
    → IsFreshLast
        (last_concerning q (es ++ e ∷ []))
        ((carry_out e.cmd.type e.cmd σ).text q.part q.id)
appended-IsFreshLast q es e σ doc kind a s fresh = elim (Bool-cases (concerns q e.cmd)) [
  | inl it ↦
      rw (last_concerning-append q es e, it)
        (created-IsFresh e.cmd.type q e.cmd σ doc (concerns-part q e.cmd it) a s)
  | inr other ↦
      let same : σ.text q.part q.id ≡ (carry_out e.cmd.type e.cmd σ).text q.part q.id =
        rw other at (carry_out-text e.cmd.type q e.cmd σ kind) in
      rw (last_concerning-append q es e, other, ← same) fresh
]

-- What an update leaves, accepted or not.
pub queue_of-IsFreshLast :
    (B : Bolt) (unmarshal : Text → Option Document) (q : Command) (es : List UpdateEntry)
    (e : UpdateEntry) (σ : Store)
    → e.cmd.is_part ≡ is_part_type e.cmd.type
    → IsSound σ
    → IsFreshLast (last_concerning q es) (σ.text q.part q.id)
    → IsFreshLast
        (last_concerning q (es ++ queue_of B unmarshal (answer_of unmarshal σ e.cmd) e))
        ((handled unmarshal σ e.cmd).text q.part q.id)
queue_of-IsFreshLast B unmarshal q es e σ kind s fresh =
    elim (Bool-cases (answer_of unmarshal σ e.cmd == 200)) [
      | inl a ↦ rw a (appended-IsFreshLast q es e σ (document_at unmarshal σ e.cmd) kind a s fresh)
      | inr a ↦ rw (a, append-nil) fresh
    ]
