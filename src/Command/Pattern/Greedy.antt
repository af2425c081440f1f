-- ===== src/Command/Pattern/Greedy.antt =====
-- Which groups the matcher finds: a group takes all that it can.
use mathlib.Core.List.{append-nil}
use bydb.Base.{strip_prefix-append, ℕ, Bool, false, ◌≡◌, ◌≢◌, refl, Text, List, [], ◌∷◌, ◌++◌, some}
use bydb.Command.Pattern.Defs.{
  lit, Class, any, member, Piece, plus, braces, Matcher, many, one_or_more, after_lit, matches,
}
use bydb.Command.Pattern.Spells.{Within}

-- Greedy groups: a group whose next character is outside its class takes all before it.
abbrev pub Stops : (ℕ → Bool) → Text → Type 0
Stops p [] = Unit
Stops p (c ∷ cs) = p c ≡ false

many-Stops :
    (p : ℕ → Bool) (rest : Matcher) (w u : Text) {gs : List Text}
    → Within p w
    → Stops p u
    → rest u ≡ some gs
    → many p rest (w ++ u) ≡ some (w, gs)
unfolding many
many-Stops p rest [] [] h s m = rw m
many-Stops p rest [] (c ∷ cs) h s m = rw (s, m)
many-Stops p rest (c ∷ cs) u h s m = rw (h.0, many-Stops p rest cs u h.1 s m)

pub matches-plus :
    (k : Class) (ps : List Piece) (g u : Text) {gs : List Text}
    → g ≢ []
    → Within (member k) g
    → Stops (member k) u
    → matches ps u ≡ some gs
    → matches (plus k ∷ ps) (g ++ u) ≡ some (g ∷ gs)
unfolding matches one_or_more
matches-plus k ps [] u ne h s m = absurd (ne refl)
matches-plus k ps (c ∷ cs) u ne h s m = rw (h.0, many-Stops (member k) (matches ps) cs u h.1 s m)

-- The last closing brace of the text ends the group.
many-last :
    (w : Text)
    → Within (member any) w
    → many (member any) (after_lit (b'}' ∷ []) (matches [])) (w ++ b'}' ∷ []) ≡ some (w, [])
unfolding many matches
many-last [] h = refl
many-last (c ∷ cs) h = rw (h.0, many-last cs h.1)

pub matches-braces :
    (w : Text)
    → Within (member any) w
    → matches (braces ∷ []) (b'{' ∷ (w ++ b'}' ∷ [])) ≡ some ((b'{' ∷ (w ++ b'}' ∷ [])) ∷ [])
unfolding matches
matches-braces w h = rw (many-last w h)

pub matches-lit :
    (s : Text) (ps : List Piece) (u : Text) → matches (lit s ∷ ps) (s ++ u) ≡ matches ps u
unfolding matches
matches-lit s ps u = rw (strip_prefix-append s u, after_lit)

-- A last group takes the rest of the text.
pub matches-plus-end :
    (k : Class) (g : Text) → g ≢ [] → Within (member k) g → matches (plus k ∷ []) g ≡ some (g ∷ [])
unfolding matches
matches-plus-end k g ne h = rw append-nil at (matches-plus k [] g [] ne h tt refl)
