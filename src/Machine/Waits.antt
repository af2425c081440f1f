-- ===== src/Machine/Waits.antt =====
-- What is behind an index: the entries of a batch, and the highest index of a queue.
use bydb.Base.{
  ℕ, ◌+◌, ◌<◌, some_inj, ◌^◌, true, ◌≡◌, refl, subst, Text, List, [], ◌∷◌, Option, none, some, All,
  ltb, if◌then◌else◌, arith,
}
use bydb.Base.Decimal.{
  Parsed, value, syntax_error, range_error, parse_uint, parse_uint-lt, uint_value, is_value,
}
use bydb.Command.Formats.{parse_command}
use bydb.Command.Types.{Command, Result, ok, err}
use bydb.Document.{Document}
use bydb.Machine.Entry.{LogEntry, UpdateEntry}
use bydb.Machine.Stable.{IsStable}
use bydb.Machine.Sync.{highest_index}
use bydb.Machine.Update.{parse_updates, cons_entry}

-- The entry waits behind the index: Raft hands it again after a restart from there.
abbrev pub Waits : ℕ → UpdateEntry → Type 0
Waits n e = (n < e.index) × (e.index < 2 ^ 64)

abbrev pub Handed : ℕ → LogEntry → Type 0
Handed n u = (n < u.index) × (u.index < 2 ^ 64)

pub Waits-stable : (n : ℕ) → IsStable (Waits n)
Waits-stable n e e' c s i w = (omega arith, omega arith)

pub highest_index-lt :
    (i bound : ℕ) (es : List UpdateEntry)
    → i < bound
    → All (λ e. e.index < bound) es
    → highest_index i es < bound
unfolding highest_index
highest_index-lt i bound [] h a = h
highest_index-lt i bound (e ∷ es) h a =
    highest_index-lt (if ltb i e.index then e.index else i) bound es (ground arith) a.1

pub uint_value-lt :
    (t : Text) (p : Parsed) → parse_uint t ≡ p → is_value p ≡ true → uint_value p < 2 ^ 64
uint_value-lt t (value n) e h = parse_uint-lt t n e
uint_value-lt t syntax_error e h = omega arith
uint_value-lt t range_error e h = cc

module _ (unmarshal : Text → Option Document) where
  cons_entry-Waits :
      (n i : ℕ) (u : LogEntry) (r : Result Command) (rest : Option (List UpdateEntry))
      (es : List UpdateEntry)
      → Handed n u
      → ((fs : List UpdateEntry) → rest ≡ some fs → All (Waits n) fs)
      → cons_entry i u r rest ≡ some es
      → All (Waits n) es
  cons_entry-Waits n i u (err _) rest es w h e = absurd (cc)
  cons_entry-Waits n i u (ok cmd) none es w h e = absurd (cc)
  cons_entry-Waits n i u (ok cmd) (some fs) es w h e =
      subst (All (Waits n)) (some_inj e) (w, h fs refl)

  pub parse_updates-Waits :
      (n i : ℕ) (us : List LogEntry) (es : List UpdateEntry)
      → All (Handed n) us
      → parse_updates unmarshal i us ≡ some es
      → All (Waits n) es
  unfolding parse_updates
  parse_updates-Waits n i [] es a h = subst (All (Waits n)) (some_inj h) tt
  parse_updates-Waits n i (u ∷ us) es a h =
      cons_entry-Waits n i u (parse_command unmarshal u.cmd) _ es a.0
        (λ fs e. parse_updates-Waits n (i + 1) us fs a.1 e) h
