-- ===== src/Machine/Renumbered.antt =====
-- The entries that `Update` makes of a batch are those of its pieces, but for their places in the batch.
use bydb.Base.{
  ℕ, ◌+◌, ◌≡◌, refl, ap, ◌∙◌, subst, some_inj, Text, List, [], ◌∷◌, ◌++◌, Option, none, some, inl,
  inr, Option-cases, length, arith,
}
use bydb.Command.Formats.{parse_command}
use bydb.Command.Types.{Command, Result, ok, err}
use bydb.Document.{Document}
use bydb.Machine.Entry.{LogEntry, UpdateEntry}
use bydb.Machine.Update.{parse_updates, cons_entry, new_entry}
use bydb.Machine.Detached.{detached, detached_all}

module _ (unmarshal : Text → Option Document) where
  -- The same log entries at another place parse to the same entries, but for their place.
  pub parse_updates-detached :
      (i j : ℕ) (us : List LogEntry) (es : List UpdateEntry)
      → parse_updates unmarshal i us ≡ some es
      → (fs : List UpdateEntry) × (parse_updates unmarshal j us ≡ some fs)
        × (detached_all fs ≡ detached_all es)
  unfolding parse_updates
  parse_updates-detached i j [] es h = ([], refl, ap detached_all (some_inj h))
  parse_updates-detached i j (u ∷ us) es h =
      elim (Option-cases (parse_updates unmarshal (i + 1) us)) [
        | inl e ↦ absurd (missing (parse_command unmarshal u.cmd) (rw e at h))
        | inr (rest, e) ↦
            let (fs, f, same) = parse_updates-detached (i + 1) (j + 1) us rest e in
            placed rest fs f same (parse_command unmarshal u.cmd) (rw e at h)
      ]
    where
      missing : (r : Result Command) → cons_entry i u r none ≡ some es → ⊥
      missing (ok c) x = cc
      missing (err e) x = cc

      placed :
          (rest fs : List UpdateEntry)
          → parse_updates unmarshal (j + 1) us ≡ some fs
          → detached_all fs ≡ detached_all rest
          → (r : Result Command) → cons_entry i u r (some rest) ≡ some es
          → (gs : List UpdateEntry) × (cons_entry j u r (parse_updates unmarshal (j + 1) us)
              ≡ some gs)
            × (detached_all gs ≡ detached_all es)
      placed rest fs f same (err e) x = absurd (cc)
      placed rest fs f same (ok c) x = (
        new_entry j u c ∷ fs,
        rw f,
        ap (λ l. detached (new_entry 0 u c) ∷ l) same ∙ ap detached_all (some_inj x),
      )

  pub parse_updates-append :
      (i : ℕ) (us vs : List LogEntry) (es fs : List UpdateEntry)
      → parse_updates unmarshal i us ≡ some es
      → parse_updates unmarshal (i + length us) vs ≡ some fs
      → parse_updates unmarshal i (us ++ vs) ≡ some (es ++ fs)
  unfolding parse_updates
  parse_updates-append i [] vs es fs h g =
      subst (λ (l : List UpdateEntry). parse_updates unmarshal i vs ≡ some (l ++ fs)) (some_inj h)
        (subst (λ (n : ℕ). parse_updates unmarshal n vs ≡ some fs) (omega arith) g)
  parse_updates-append i (u ∷ us) vs es fs h g =
      elim (Option-cases (parse_updates unmarshal (i + 1) us)) [
        | inl e ↦ absurd (missing (parse_command unmarshal u.cmd) (rw e at h))
        | inr (rest, e) ↦
            let more =
              parse_updates-append (i + 1) us vs rest fs e
                (subst (λ (n : ℕ). parse_updates unmarshal n vs ≡ some fs) (omega arith) g) in
            rw more (joined rest (parse_command unmarshal u.cmd) (rw e at h))
      ]
    where
      missing : (r : Result Command) → cons_entry i u r none ≡ some es → ⊥
      missing (ok c) x = cc
      missing (err e) x = cc

      joined :
          (rest : List UpdateEntry) (r : Result Command)
          → cons_entry i u r (some rest) ≡ some es
          → cons_entry i u r (some (rest ++ fs)) ≡ some (es ++ fs)
      joined rest (err e) x = absurd (cc)
      joined rest (ok c) x = ap (λ (l : List UpdateEntry). some (l ++ fs)) (some_inj x)
