-- ===== src/Files/Model.antt =====
-- A file system by an association list, with directories left out, which shows that the laws of the
-- interface can hold.
use bydb.Base.{
  Bool, true, false, ◌≡◌, refl, ap, sym, ◌∙◌, Text, List, ◌∷◌, ◌++◌, Option, none, some, text_eq,
  if◌then◌else◌, arith,
}
use bydb.Bolt.Model.{lookup, without, lookup-without}
use bydb.Files.{FileSystem, overlay, or_empty}

abbrev pub Files : Type 0
Files = List (Text × Text)

unfoldable pub write : Files → Text → Text → Files
write fs p t = (p, t) ∷ without p fs

pub lookup-write :
    (fs : Files) (p q t : Text)
    → lookup q (write fs p t) ≡ (if text_eq p q then some t else lookup q fs)
unfolding write lookup
lookup-write fs p q t = ground (arith, lookup-without p q fs)

abbrev pub copy : Files → Text → Option Text → Files × Bool
copy fs p none = (fs, false)
copy fs p (some t) = (write fs p (overlay t (or_empty (lookup p fs))), true)

pub copy_reads :
    (fs fs' : Files) (p : Text) (source : Option Text)
    → copy fs p source ≡ (fs', true)
    → (t : Text) × (source ≡ some t)
copy_reads fs fs' p none e = cc
copy_reads fs fs' p (some t) e = (t, refl)

pub lookup-copy :
    (fs fs' : Files) (p q t : Text)
    → copy fs p (some t) ≡ (fs', true)
    → lookup q fs'
      ≡ (if text_eq p q then some (overlay t (or_empty (lookup p fs))) else lookup q fs)
lookup-copy fs fs' p q t e =
    ap (λ (r : Files × Bool). lookup q r.0) (sym e)
    ∙ lookup-write fs p q (overlay t (or_empty (lookup p fs)))

pub lookup-opened :
    (fs fs' : Files) (p q : Text)
    → ◌≡◌ {A = Files × Bool} (write fs p (or_empty (lookup p fs)), true) (fs', true)
    → lookup q fs' ≡ (if text_eq p q then some (or_empty (lookup p fs)) else lookup q fs)
lookup-opened fs fs' p q e =
    ap (λ (r : Files × Bool). lookup q r.0) (sym e) ∙ lookup-write fs p q (or_empty (lookup p fs))

pub lookup-unchanged :
    (fs fs' : Files) (p q : Text)
    → ◌≡◌ {A = Files × Bool} (fs, true) (fs', true)
    → lookup q fs' ≡ lookup q fs
lookup-unchanged fs fs' p q e = ap (λ (r : Files × Bool). lookup q r.0) (sym e)

abbrev pub assoc_files : FileSystem
assoc_files = record {
  Fs = Files;
  join = λ d n. d ++ b'/' ∷ n;
  exists = λ fs p. false;
  content = λ fs p. lookup p fs;
  mkdir_all = λ fs p. (fs, true);
  open_or_create = λ fs p. (write fs p (or_empty (lookup p fs)), true);
  copy_to = copy;
  content-mkdir_all = lookup-unchanged;
  content-open_or_create = lookup-opened;
  copy_to_reads = copy_reads;
  content-copy_to = lookup-copy;
}
