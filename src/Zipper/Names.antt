-- ===== src/Zipper/Names.antt =====
-- The names that `Tar` of zipper/zipper.go gives the files of an archive, by `strings.Replace` with no
-- bound and `strings.TrimPrefix`.
use bydb.Base.{
  ℕ, zero, suc, ◌-◌, Bool, true, false, ◌&&◌, ◌||◌, ◌≡◌, ◌≢◌, refl, ap, ◌∙◌, Text, [], ◌∷◌, ◌++◌,
  length, ◌==◌, if◌then◌else◌, arith,
}

-- `filepath.Separator`
abbrev pub separator : ℕ
separator = b'/'

-- `strings.HasPrefix` of the second by the first
unfoldable pub starts_with : Text → Text → Bool
starts_with [] t = true
starts_with (c ∷ p) [] = false
starts_with (c ∷ p) (x ∷ t) = c == x && starts_with p t

-- The text behind `skip` more characters, less each occurrence of `old` from the left.
unfoldable pub removed : ℕ → Text → Text → Text
unfolding starts_with
removed skip old [] = []
removed (suc skip) old (c ∷ cs) = removed skip old cs
removed zero old (c ∷ cs) =
    let without = removed (length old - 1) old cs in
    let with_it = c ∷ removed zero old cs in if starts_with old (c ∷ cs) then without else with_it

-- `strings.Replace(s, old, "", -1)`
unfoldable pub remove_all : Text → Text → Text
unfolding removed
remove_all s [] = s
remove_all s (o ∷ old) = removed zero (o ∷ old) s

-- `strings.TrimPrefix` by the separator
abbrev pub trim_separator : Text → Text
trim_separator [] = []
trim_separator (c ∷ cs) = if c == separator then cs else c ∷ cs

-- `header.Name`
unfoldable pub header_name : Text → Text → Text
unfolding remove_all
header_name src file = trim_separator (remove_all file src)

-- Whether a text holds another anywhere.
abbrev pub occurs : Text → Text → Bool
occurs p [] = starts_with p []
occurs p (c ∷ cs) = starts_with p (c ∷ cs) || occurs p cs

starts_with-append : (p t : Text) → starts_with p (p ++ t) ≡ true
unfolding starts_with
starts_with-append [] t = refl
starts_with-append (c ∷ p) t = ground (arith, starts_with-append p t)

removed_skip : (s t old : Text) → removed (length s) old (s ++ t) ≡ removed zero old t
unfolding removed
removed_skip [] t old = refl
removed_skip (c ∷ s) t old = removed_skip s t old

removed_absent : (t old : Text) → occurs old t ≡ false → removed zero old t ≡ t
unfolding removed
removed_absent [] old h = refl
removed_absent (c ∷ cs) old h = ground (arith, removed_absent cs old)

removed_first :
    (c : ℕ) (s t : Text) → occurs (c ∷ s) t ≡ false → removed zero (c ∷ s) ((c ∷ s) ++ t) ≡ t
unfolding removed
removed_first c s t h = rw (starts_with-append (c ∷ s) t) (
    ap (λ n. removed n (c ∷ s) (s ++ t)) (omega arith)
    ∙ removed_skip s t (c ∷ s)
    ∙ removed_absent t (c ∷ s) h)

-- A file below the source is named by its path from there, if the source does not occur in that path
-- again.
pub header_name-child :
    (src rel : Text)
    → src ≢ []
    → occurs src (separator ∷ rel) ≡ false
    → header_name src (src ++ separator ∷ rel) ≡ rel
unfolding header_name
header_name-child [] rel ne h = absurd (ne refl)
header_name-child (c ∷ s) rel ne h = ap trim_separator (removed_first c s (separator ∷ rel) h)
