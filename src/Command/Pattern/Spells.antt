-- ===== src/Command/Pattern/Spells.antt =====
-- What it means that a text has the form of a pattern, and that the matcher decides it.
use bydb.Base.{
  ℕ, Bool, true, ◌≡◌, ◌≢◌, refl, ap, ◌∙◌, Text, strip_prefix, strip_prefix_sound, List, [], ◌∷◌,
  ◌++◌, Option, none, some, All, inl, inr, Bool-cases, Option-cases, arith,
}
use bydb.Command.Pattern.Defs.{
  any, member, Piece, lit, plus, braces, Matcher, Captured, or_stop, stop_at, many, grouped,
  one_or_more, after_lit, in_braces, matches,
}

abbrev pub Within : (ℕ → Bool) → Text → Type 0
Within p w = All (λ c. p c ≡ true) w

-- The text is spelled by the pieces, with these groups.
abbrev pub Spells : List Piece → List Text → Text → Type 0
Spells [] [] t = t ≡ []
Spells [] (g ∷ gs) t = ⊥
Spells (lit s ∷ ps) gs t = (u : Text) × (t ≡ s ++ u) × Spells ps gs u
Spells (plus k ∷ ps) [] t = ⊥
Spells (plus k ∷ ps) (g ∷ gs) t =
    (u : Text) × (t ≡ g ++ u) × (g ≢ []) × Within (member k) g × Spells ps gs u
Spells (braces ∷ ps) [] t = ⊥
Spells (braces ∷ ps) (g ∷ gs) t =
    (w : Text) × (u : Text) × (g ≡ b'{' ∷ (w ++ b'}' ∷ []))
    × (t ≡ b'{' ∷ (w ++ b'}' ∷ u))
    × Within (member any) w
    × Spells ps gs u

-- A group found is in its class, and the rest matches what is behind it.
record Found (p : ℕ → Bool) (rest : Matcher) (t w : Text) (gs : List Text) : Type 0 where
  behind : Text
  splits : t ≡ w ++ behind
  within : Within p w
  matched : rest behind ≡ some gs

stop_at-eq-some :
    (o : Option (List Text)) {w : Text} {gs : List Text}
    → stop_at o ≡ some (w, gs)
    → (w ≡ []) × (o ≡ some gs)
stop_at-eq-some none h = cc
stop_at-eq-some (some hs) h = (cc, cc)

stop_at-Found :
    (p : ℕ → Bool) (rest : Matcher) (t : Text) {w : Text} {gs : List Text}
    → stop_at (rest t) ≡ some (w, gs)
    → Found p rest t w gs
stop_at-Found p rest t h =
    let (e, matched) = stop_at-eq-some (rest t) h in
    rw e (record { behind = t; splits = refl; within = tt; matched = matched })

Found-cons :
    (p : ℕ → Bool) (rest : Matcher) (c : ℕ) (cs : Text) {w : Text} {gs : List Text}
    → p c ≡ true
    → Found p rest cs w gs
    → Found p rest (c ∷ cs) (c ∷ w) gs
Found-cons p rest c cs ok f = record {
  behind = f.behind;
  splits = ap (◌∷◌ c) f.splits;
  within = (ok, f.within);
  matched = f.matched;
}

or_stop-Found :
    (p : ℕ → Bool) (rest : Matcher) (c : ℕ) (cs : Text) (o : Captured) {w : Text} {gs : List Text}
    → p c ≡ true
    → ((v : Text) (hs : List Text) → o ≡ some (v, hs) → Found p rest cs v hs)
    → or_stop c o (stop_at (rest (c ∷ cs))) ≡ some (w, gs)
    → Found p rest (c ∷ cs) w gs
or_stop-Found p rest c cs none ok ih h = stop_at-Found p rest (c ∷ cs) h
or_stop-Found p rest c cs (some (v, hs)) {w} {gs} ok ih h =
    let ew : c ∷ v ≡ w = cc in
    let eg : hs ≡ gs = cc in rw (← ew, ← eg) (Found-cons p rest c cs ok (ih v hs refl))

many-Found :
    (p : ℕ → Bool) (rest : Matcher) (t w : Text) (gs : List Text)
    → many p rest t ≡ some (w, gs)
    → Found p rest t w gs
unfolding many
many-Found p rest [] w gs h = stop_at-Found p rest [] h
many-Found p rest (c ∷ cs) w gs h = elim (Bool-cases (p c)) [
  | inl ok ↦ or_stop-Found p rest c cs _ ok (many-Found p rest cs) (rw ok at h)
  | inr bad ↦ stop_at-Found p rest (c ∷ cs) (rw bad at h)
]

grouped-eq-some :
    (f : Text → Text) (o : Captured) {gs : List Text}
    → grouped f o ≡ some gs
    → (w : Text) × (hs : List Text) × (o ≡ some (w, hs)) × (gs ≡ f w ∷ hs)
grouped-eq-some f none h = cc
grouped-eq-some f (some (w, hs)) h = (w, hs, refl, cc)

after_lit-eq-some :
    (s : Text) (rest : Matcher) (t : Text) {gs : List Text}
    → after_lit s rest t ≡ some gs
    → (u : Text) × (t ≡ s ++ u) × (rest u ≡ some gs)
after_lit-eq-some s rest t h = elim (Option-cases (strip_prefix s t)) [
  | inl e ↦ absurd (ground arith)
  | inr (u, e) ↦ (u, strip_prefix_sound s t u e, ground arith)
]

one_or_more-eq-some :
    (p : ℕ → Bool) (rest : Matcher) (t : Text) {gs : List Text}
    → one_or_more p rest t ≡ some gs
    → (g : Text) × (hs : List Text) × (u : Text) × (gs ≡ g ∷ hs)
      × (t ≡ g ++ u)
      × (g ≢ [])
      × Within p g
      × (rest u ≡ some hs)
unfolding one_or_more
one_or_more-eq-some p rest [] h = cc
one_or_more-eq-some p rest (c ∷ cs) h = elim (Bool-cases (p c)) [
  | inl ok ↦
      let (w, hs, e, eg) = grouped-eq-some (λ w. c ∷ w) (many p rest cs) (rw ok at h) in
      let f = many-Found p rest cs w hs e in
      (c ∷ w, hs, f.behind, eg, ap (◌∷◌ c) f.splits, λ n. cc, (ok, f.within), f.matched)
  | inr bad ↦ absurd (ground arith)
]

braced : Text → Text → Text
braced w u = b'{' ∷ (w ++ b'}' ∷ u)

in_braces-eq-some :
    (rest : Matcher) (t : Text) {gs : List Text}
    → in_braces rest t ≡ some gs
    → (w : Text) × (hs : List Text) × (u : Text) × (gs ≡ braced w [] ∷ hs)
      × (b'{' ∷ t ≡ braced w u)
      × Within (member any) w
      × (rest u ≡ some hs)
unfolding braced
in_braces-eq-some rest t h =
    let (w, hs, e, eg) = grouped-eq-some _ (many (member any) (after_lit (b'}' ∷ []) rest) t) h in
    let f = many-Found _ _ t w hs e in
    let (u, eu, m) = after_lit-eq-some (b'}' ∷ []) rest f.behind f.matched in
    (w, hs, u, eg, ap (◌∷◌ b'{') (f.splits ∙ ap (◌++◌ w) eu), f.within, m)

-- Soundness of the matcher.
pub matches_sound :
    (ps : List Piece) (t : Text) (gs : List Text) → matches ps t ≡ some gs → Spells ps gs t
unfolding matches braced
matches_sound [] [] [] h = refl
matches_sound [] [] (g ∷ gs) h = cc
matches_sound [] (c ∷ cs) gs h = cc
matches_sound (lit s ∷ ps) t gs h =
    let (u, e, m) = after_lit-eq-some s (matches ps) t h in (u, e, matches_sound ps u gs m)
matches_sound (plus k ∷ ps) t gs h =
    let (g, hs, u, eg, et, ne, within, m) = one_or_more-eq-some (member k) (matches ps) t h in
    rw eg (u, et, ne, within, matches_sound ps u hs m)
matches_sound (braces ∷ ps) t gs h =
    let (v, ev, mv) = after_lit-eq-some (b'{' ∷ []) (in_braces (matches ps)) t h in
    let (w, hs, u, eg, et, within, m) = in_braces-eq-some (matches ps) v mv in
    rw eg (w, u, refl, ev ∙ et, within, matches_sound ps u hs m)
