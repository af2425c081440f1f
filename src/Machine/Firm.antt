-- ===== src/Machine/Firm.antt =====
-- What keeps the document store of a machine readable: the written documents are what their bodies
-- decode to.
use bydb.Base.{
  ℕ, Bool, true, false, ◌≡◌, refl, sym, ap, ◌∙◌, subst, Text, List, [], ◌∷◌, Option, none, some,
  some_inj, All, inl, inr, Bool-cases, ◌==◌, if◌then◌else◌, arith,
}
use bydb.Document.{Document}
use bydb.Bolt.Defs.{Bolt}
use bydb.Command.Types.{CommandType, put, del, post, create_part, delete_part, Command, ok}
use bydb.Command.Formats.{parse_command}
use bydb.Command.Grammar.{Request, IsRequest, denoted, put, post}
use bydb.Command.Sound.{parse_command_sound}
use bydb.Machine.Entry.{LogEntry, UpdateEntry}
use bydb.Machine.Fresh.{IsFresh, IsFreshLast}
use bydb.Machine.Invariant.{update-All}
use bydb.Machine.Queue.{last_concerning, last_concerning-All}
use bydb.Machine.Represented.{Store, carry_out, answer_of, handled}
use bydb.Machine.Solo.{alters, decoded, parse_updates_solo}
use bydb.Machine.Told.{Tells, TellsLast}
use bydb.Machine.Update.{Machine, Updated, update}
use bydb.Shard.Defs.{non_empty}
use bydb.Shard.Searchable.{Decodes}

module _ (unmarshal : Text → Option Document) where
  -- An altering command with the document of its body.
  abbrev pub IsFirm : Command → Type 0
  IsFirm c = (alters c.type ≡ true) × Decodes unmarshal c.type c

  denoted-Decodes :
      (r : Request) → IsRequest unmarshal r → Decodes unmarshal (denoted r).type (denoted r)
  denoted-Decodes (put stamp inner ts doc) v = v.3
  denoted-Decodes (post inner doc) v = v.1
  denoted-Decodes _ v = tt

  pub parse_command-Decodes :
      (raw : Text) (c : Command) → parse_command unmarshal raw ≡ ok c → Decodes unmarshal c.type c
  parse_command-Decodes raw c h =
      let m = parse_command_sound unmarshal raw h in
      subst (λ (d : Command). Decodes unmarshal d.type d) (sym m.read)
        (denoted-Decodes m.request m.valid)

  -- The queue stays firm.
  pub update-IsFirm :
      (B : Bolt) (order : List ℕ) (m : Machine B.Db) (u : LogEntry) (cmd : Command)
      (r : Updated B unmarshal)
      → parse_command unmarshal u.cmd ≡ ok cmd
      → alters cmd.type ≡ true
      → All (λ e. IsFirm e.cmd) m.pending
      → update B unmarshal order m (u ∷ []) ≡ some r
      → All (λ e. IsFirm e.cmd) r.machine.pending
  update-IsFirm B order m u cmd r parsed altering a h =
      update-All (λ e. IsFirm e.cmd) (λ e e' c i n w. rw c w) B unmarshal order m (u ∷ []) r a
        (λ es x.
          subst (All (λ e. IsFirm e.cmd))
            (some_inj (sym (parse_updates_solo B unmarshal u cmd parsed) ∙ x))
            ((altering, parse_command-Decodes u.cmd cmd parsed), tt))
        h

  -- Each text of the store decodes.
  abbrev pub IsReadable : Store → Type 0
  IsReadable σ =
      (p i raw : Text) → σ.text p i ≡ some raw → (d : Document) × (unmarshal raw ≡ some d)

  written-IsReadable :
      (c : Command) (σ : Store) (p i raw : Text) (here : Bool)
      → unmarshal c.bytes_doc ≡ some c.doc
      → IsReadable σ
      → (if here then some c.bytes_doc else σ.text p i) ≡ some raw
      → (d : Document) × (unmarshal raw ≡ some d)
  written-IsReadable c σ p i raw true d h e = (c.doc, ap unmarshal (sym (some_inj e)) ∙ d)
  written-IsReadable c σ p i raw false d h e = h p i raw e

  carry_out-IsReadable :
      (t : CommandType) (c : Command) (σ : Store)
      → Decodes unmarshal t c
      → IsReadable σ
      → IsReadable (carry_out t c σ)
  carry_out-IsReadable put c σ d h p i raw e = written-IsReadable c σ p i raw _ d h e
  carry_out-IsReadable post c σ d h p i raw e = written-IsReadable c σ p i raw _ d h e
  carry_out-IsReadable del c σ d h p i raw e = h p i raw (ground arith)
  carry_out-IsReadable delete_part c σ d h p i raw e = h p i raw (ground arith)
  carry_out-IsReadable create_part c σ d h p i raw e = h p i raw e
  carry_out-IsReadable _ c σ d h p i raw e = h p i raw e

  pub handled-IsReadable :
      (c : Command) (σ : Store)
      → Decodes unmarshal c.type c
      → IsReadable σ
      → IsReadable (handled unmarshal σ c)
  handled-IsReadable c σ d h = elim (Bool-cases (answer_of unmarshal σ c == 200)) [
    | inl e ↦ rw e (carry_out-IsReadable c.type c σ d h)
    | inr e ↦ rw e h
  ]

  -- In a readable store nothing fails to decode.
  pub decoded-readable :
      (is_part : Bool) (o : Option Text)
      → ((raw : Text) → o ≡ some raw → (d : Document) × (unmarshal raw ≡ some d))
      → (doc : Option Document) × (decoded unmarshal is_part (non_empty o) ≡ some doc)
  decoded-readable true o h = (none, refl)
  decoded-readable false none h = (none, refl)
  decoded-readable false (some []) h = (none, refl)
  decoded-readable false (some (x ∷ xs)) h = let (d, e) = h (x ∷ xs) refl in (some d, rw e refl)

  -- The last pending command that concerns a command on a document is not the deletion of that document.
  abbrev pub IsClearType : CommandType → Type 0
  IsClearType del = ⊥
  IsClearType _ = Unit

  abbrev pub IsClear : Command → Option Command → Type 0
  IsClear q none = Unit
  IsClear q (some c) = q.is_part ≡ false → IsClearType c.type

  decoded-none :
      (is_part : Bool) (held : Option Text) (doc : Option Document)
      → held ≡ none
      → decoded unmarshal is_part (non_empty held) ≡ some doc
      → doc ≡ none
  decoded-none true held doc h e = sym (some_inj e)
  decoded-none false held doc h e = sym (some_inj (rw h at e))

  Tells-clear :
      (t : CommandType) (q c : Command) (held : Option Text) (doc : Option Document)
      → (alters t ≡ true)
      → Decodes unmarshal t c
      → (q.is_part ≡ false → IsClearType t)
      → IsFresh t held
      → decoded unmarshal q.is_part (non_empty held) ≡ some doc
      → Tells unmarshal q doc t c
  Tells-clear put q c held doc a d h f e = d
  Tells-clear post q c held doc a d h f e = d
  Tells-clear delete_part q c held doc a d h f e = tt
  Tells-clear del q c held doc a d h f e = elim (Bool-cases q.is_part) [
    | inl p ↦ p
    | inr p ↦ absurd (h p)
  ]
  Tells-clear create_part q c held doc a d h f e = decoded-none q.is_part held doc f e
  Tells-clear _ q c held doc a d h f e = absurd (ground arith)

  pub TellsLast-clear :
      (q : Command) (es : List UpdateEntry) (held : Option Text) (doc : Option Document)
      → All (λ e. IsFirm e.cmd) es
      → IsClear q (last_concerning q es)
      → IsFreshLast (last_concerning q es) held
      → decoded unmarshal q.is_part (non_empty held) ≡ some doc
      → TellsLast unmarshal q doc (last_concerning q es)
  TellsLast-clear q es held doc a h f e =
      clear_by (last_concerning q es) (λ c. last_concerning-All IsFirm es q c a) h f
    where
      clear_by :
          (o : Option Command)
          → ((c : Command) → o ≡ some c → IsFirm c)
          → IsClear q o
          → IsFreshLast o held
          → TellsLast unmarshal q doc o
      clear_by none w k f = tt
      clear_by (some c) w k f =
          let firm = w c refl in Tells-clear c.type q c held doc firm.0 firm.1 k f e
