-- ===== src/Command/Pattern/Complete.antt =====
-- What is spelled by the pieces is matched, so that the matcher decides the pattern.
use bydb.Base.{
  ◌↔◌, ◌⊎◌, ℕ, Bool, ◌≡◌, ◌≢◌, refl, Text, strip_prefix-append, List, [], ◌∷◌, ◌++◌, Option, none,
  some, inl, inr, Bool-cases, Option-cases,
}
use bydb.Command.Pattern.Defs.{
  any, member, Piece, lit, plus, braces, Matcher, Captured, or_stop, stop_at, many, grouped,
  one_or_more, after_lit, matches,
}
use bydb.Command.Pattern.Spells.{Within, Spells, matches_sound}

stop_at-ne-none : (o : Option (List Text)) → o ≢ none → stop_at o ≢ none
stop_at-ne-none none h = λ e. h refl
stop_at-ne-none (some gs) h = λ e. cc

or_stop-ne-none : (c : ℕ) (o s : Captured) → (o ≢ none) ⊎ (s ≢ none) → or_stop c o s ≢ none
or_stop-ne-none c none s (inl h) = absurd (h refl)
or_stop-ne-none c none s (inr h) = h
or_stop-ne-none c (some (w, gs)) s h = λ e. cc

many-ne-none :
    (p : ℕ → Bool) (rest : Matcher) (w u : Text)
    → Within p w
    → rest u ≢ none
    → many p rest (w ++ u) ≢ none
unfolding many
many-ne-none p rest [] [] h m = stop_at-ne-none (rest []) m
many-ne-none p rest [] (c ∷ cs) h m = elim (Bool-cases (p c)) [
  | inl ok ↦ rw ok (or_stop-ne-none c _ _ (inr (stop_at-ne-none (rest (c ∷ cs)) m)))
  | inr bad ↦ rw bad (stop_at-ne-none (rest (c ∷ cs)) m)
]
many-ne-none p rest (c ∷ cs) u h m =
    rw h.0 (or_stop-ne-none c _ _ (inl (many-ne-none p rest cs u h.1 m)))

grouped-ne-none : (f : Text → Text) (o : Captured) → o ≢ none → grouped f o ≢ none
grouped-ne-none f none h = absurd (h refl)
grouped-ne-none f (some (w, gs)) h = λ e. cc

after_lit-ne-none :
    (s : Text) (rest : Matcher) (u : Text) → rest u ≢ none → after_lit s rest (s ++ u) ≢ none
after_lit-ne-none s rest u h = rw (strip_prefix-append s u, after_lit) h

one_or_more-ne-none :
    (p : ℕ → Bool) (rest : Matcher) (g u : Text)
    → g ≢ []
    → Within p g
    → rest u ≢ none
    → one_or_more p rest (g ++ u) ≢ none
unfolding one_or_more
one_or_more-ne-none p rest [] u ne h m = absurd (ne refl)
one_or_more-ne-none p rest (c ∷ cs) u ne h m =
    rw h.0 (grouped-ne-none _ _ (many-ne-none p rest cs u h.1 m))

pub matches_complete :
    (ps : List Piece) (t : Text) (gs : List Text) → Spells ps gs t → matches ps t ≢ none
unfolding matches
matches_complete [] t [] h = rw h (λ e. cc)
matches_complete [] t (g ∷ gs) h = absurd h
matches_complete (lit s ∷ ps) t gs (u, e, h) =
    rw e (after_lit-ne-none s (matches ps) u (matches_complete ps u gs h))
matches_complete (plus k ∷ ps) t [] h = absurd h
matches_complete (plus k ∷ ps) t (g ∷ gs) (u, e, ne, within, h) =
    rw e (one_or_more-ne-none (member k) (matches ps) g u ne within (matches_complete ps u gs h))
matches_complete (braces ∷ ps) t [] h = absurd h
matches_complete (braces ∷ ps) t (g ∷ gs) (w, u, eg, e, within, h) = rw e (
    grouped-ne-none _ _ (
      many-ne-none (member any) (after_lit (b'}' ∷ []) (matches ps)) w (b'}' ∷ u) within
        (after_lit-ne-none (b'}' ∷ []) (matches ps) u (matches_complete ps u gs h))))

-- A text matches a pattern exactly when it is spelled by the pieces with some groups, and the groups
-- found are such a spelling.
pub matches_decides :
    (ps : List Piece) (t : Text)
    → (((gs : List Text) × (matches ps t ≡ some gs)) ↔ ((gs : List Text) × Spells ps gs t))
      × ((gs : List Text) → matches ps t ≡ some gs → Spells ps gs t)
matches_decides ps t = ((sound, complete), matches_sound ps t)
  where
    sound : ((gs : List Text) × (matches ps t ≡ some gs)) → ((gs : List Text) × Spells ps gs t)
    sound (gs, h) = (gs, matches_sound ps t gs h)

    complete : ((gs : List Text) × Spells ps gs t) → ((gs : List Text) × (matches ps t ≡ some gs))
    complete (gs, h) = elim (Option-cases (matches ps t)) [
      | inl e ↦ absurd (matches_complete ps t gs h e)
      | inr found ↦ found
    ]
