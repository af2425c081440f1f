-- ===== src/Machine/Invariant.antt =====
-- `Update` keeps the queue well-formed: every entry stands for a parsed command, at its shard.
use bydb.Base.{
  some_inj, ℕ, ◌+◌, ◌≡◌, refl, sym, ap, ◌∙◌, subst, Text, List, [], ◌∷◌, Option, none, some, inl,
  inr, Bool-cases, Option-cases, All, All-append, arith,
}
use bydb.Document.{Document}
use bydb.Bolt.Defs.{Bolt}
use bydb.Command.Types.{Command, Result, ok, err}
use bydb.Command.Formats.{parse_command}
use bydb.Command.Grammar.{Request, denoted, get, put, post}
use bydb.Command.Sound.{parse_command_sound}
use bydb.Shard.Defs.{Shard}
use bydb.Machine.Entry.{LogEntry, UpdateEntry, get_first_rune}
use bydb.Machine.Queue.{IsQueued, HasBody, is_part_type, All-of_shard}
use bydb.Machine.Stable.{IsStable, find_existing-stable}
use bydb.Machine.Update.{
  Machine, Verdict, ignored, accepted, refused, verdict, Progress, settle_by, settle, new_entry,
  cons_entry, parse_updates, of_shard, find_existing, settled, settle_shard, at_shard,
  update_shards, Updated, update,
}

denoted-kind : (r : Request) → (denoted r).is_part ≡ is_part_type (denoted r).type
denoted-kind (get _ _) = refl
denoted-kind _ = refl

denoted-HasBody : (r : Request) → HasBody (denoted r).type (denoted r)
denoted-HasBody (put _ _ _ _) = (refl, λ e. cc)
denoted-HasBody (post _ _) = (refl, λ e. cc)
denoted-HasBody _ = tt

-- The entry of a command that parsed is well-formed.
pub new_entry-IsQueued :
    (unmarshal : Text → Option Document) (i : ℕ) (u : LogEntry) (cmd : Command)
    → parse_command unmarshal u.cmd ≡ ok cmd
    → IsQueued (new_entry i u cmd)
new_entry-IsQueued unmarshal i u cmd h =
    let m = parse_command_sound unmarshal u.cmd h in
    record {
      shard = refl;
      kind = rw m.read (denoted-kind m.request);
      body = subst (λ (c : Command). HasBody c.type c) (sym m.read) (denoted-HasBody m.request);
    }

cons_entry-IsQueued :
    (unmarshal : Text → Option Document) (i : ℕ) (u : LogEntry) (r : Result Command)
    (rest : Option (List UpdateEntry)) {es : List UpdateEntry}
    → ((cmd : Command) → r ≡ ok cmd → parse_command unmarshal u.cmd ≡ ok cmd)
    → ((fs : List UpdateEntry) → rest ≡ some fs → All IsQueued fs)
    → cons_entry i u r rest ≡ some es
    → All IsQueued es
cons_entry-IsQueued unmarshal i u (err _) rest p q h = absurd (cc)
cons_entry-IsQueued unmarshal i u (ok cmd) none p q h = absurd (cc)
cons_entry-IsQueued unmarshal i u (ok cmd) (some fs) p q h =
    subst (All IsQueued) (some_inj h) (new_entry-IsQueued unmarshal i u cmd (p cmd refl), q fs refl)

pub parse_updates-IsQueued :
    (unmarshal : Text → Option Document) (i : ℕ) (us : List LogEntry) (es : List UpdateEntry)
    → parse_updates unmarshal i us ≡ some es
    → All IsQueued es
unfolding parse_updates
parse_updates-IsQueued unmarshal i [] [] h = tt
parse_updates-IsQueued unmarshal i [] (e ∷ es) h = absurd (cc)
parse_updates-IsQueued unmarshal i (u ∷ us) es h =
    cons_entry-IsQueued unmarshal i u (parse_command unmarshal u.cmd) _ (λ cmd e. e)
      (parse_updates-IsQueued unmarshal (i + 1) us) h

pub IsQueued-stable : IsStable IsQueued
IsQueued-stable e e' c i n w = record {
  shard = i ∙ w.shard ∙ ap (λ (d : Command). get_first_rune d.part) (sym c);
  kind = rw c w.kind;
  body = subst (λ (d : Command). HasBody d.type d) (sym c) w.body;
}

-- What depends on an entry's command, shard and index alone, and holds of the queue and of the new
-- entries, holds of the queue behind an update.
module _ (P : UpdateEntry → Type 0) (stable : IsStable P) where
  settle-All :
      (p : Progress) (es : List UpdateEntry)
      → All P p.pending
      → All P es
      → All P (settle p es).pending
  unfolding settle
  settle-All p [] h a = h
  settle-All p (e ∷ es) h a = settle-All (settle_by (verdict e) p e) es (kept (verdict e)) a.1
    where
      kept : (v : Verdict) → All P (settle_by v p e).pending
      kept ignored = h
      kept (refused code) = h
      kept accepted = All-append P p.pending _ h (stable e _ refl refl refl a.0, tt)

  module _ (B : Bolt) (unmarshal : Text → Option Document) where
    settle_shard-All :
        (p : Progress) (s : Shard B.Db) (es : List UpdateEntry)
        → All P p.pending
        → All P es
        → All P (settle_shard B unmarshal p s es).0.pending
    settle_shard-All p s [] h a = h
    settle_shard-All p s (e ∷ es) h a =
        settled-All (find_existing B unmarshal s p.pending (e ∷ es))
          (λ fs. find_existing-stable P stable B unmarshal s p.pending (e ∷ es) fs a)
      where
        settled-All :
            (o : Option (List UpdateEntry))
            → ((fs : List UpdateEntry) → o ≡ some fs → All P fs)
            → All P (settled B unmarshal p o).0.pending
        settled-All none q = h
        settled-All (some fs) q = settle-All p fs h (q fs refl)

    pub at_shard-All :
        (p : Progress) (o : Option (Shard B.Db)) (es : List UpdateEntry)
        → All P p.pending
        → All P es
        → All P (at_shard B unmarshal p o es).0.pending
    at_shard-All p none es h a = h
    at_shard-All p (some s) es h a = settle_shard-All p s es h a

    update_shards-All :
        (order : List ℕ) (shards : ℕ → Option (Shard B.Db)) (es : List UpdateEntry) (p : Progress)
        → All P p.pending
        → All P es
        → All P (update_shards B unmarshal order shards es p).0.pending
    unfolding update_shards
    update_shards-All [] shards es p h a = h
    update_shards-All (c ∷ cs) shards es p h a =
        let now = at_shard-All p (shards c) (of_shard c es) h (All-of_shard P c es a) in
        elim (Bool-cases (at_shard B unmarshal p (shards c) (of_shard c es)).1) [
          | inl fine ↦ rw fine (update_shards-All cs shards es _ now a)
          | inr not_fine ↦ rw not_fine now
        ]

    pub update-All :
        (order : List ℕ) (m : Machine B.Db) (us : List LogEntry) (r : Updated B unmarshal)
        → All P m.pending
        → ((es : List UpdateEntry) → parse_updates unmarshal 0 us ≡ some es → All P es)
        → update B unmarshal order m us ≡ some r
        → All P r.machine.pending
    unfolding update
    update-All order m us r h a e = elim (Option-cases (parse_updates unmarshal 0 us)) [
      | inl x ↦ absurd (ground arith)
      | inr (es, x) ↦
          subst (λ (v : Updated B unmarshal). All P v.machine.pending)
            (some_inj (rw (x, update) at e))
            (update_shards-All order m.shards es (record { pending = m.pending; updates = us }) h
              (a es x))
    ]

module _ (B : Bolt) (unmarshal : Text → Option Document) where
  -- `Update`, whatever the entries, the order of the shards and the outcome, leaves a queue whose
  -- entries are at their shards, have the kind of their command and a non-empty body, if it found
  -- such a queue.
  pub update-IsQueued :
      (order : List ℕ) (m : Machine B.Db) (us : List LogEntry) (r : Updated B unmarshal)
      → All IsQueued m.pending
      → update B unmarshal order m us ≡ some r
      → All IsQueued r.machine.pending
  update-IsQueued order m us r h =
      update-All IsQueued IsQueued-stable B unmarshal order m us r h
        (parse_updates-IsQueued unmarshal 0 us)
