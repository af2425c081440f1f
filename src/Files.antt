-- ===== src/Files.antt =====
-- The file system as the program uses it, by Go's packages os and path/filepath: an interface with the
-- laws that the proofs rest on. An operation gives the file system behind it and whether it had no
-- error; the laws speak of the operations that had none.
pub mod Model
use bydb.Base.{Bool, true, ◌≡◌, Text, List, [], ◌∷◌, Option, none, some, text_eq, if◌then◌else◌}

-- What a file holds behind a write from its start: the rest of a longer file stays.
unfoldable pub overlay : Text → Text → Text
overlay [] old = old
overlay (c ∷ cs) [] = c ∷ cs
overlay (c ∷ cs) (o ∷ os) = c ∷ overlay cs os

abbrev pub or_empty : Option Text → Text
or_empty none = []
or_empty (some t) = t

pub record FileSystem : Type 1 where
  pub Fs : Type 0
  -- `filepath.Join` of two parts
  pub join : Text → Text → Text
  -- `os.Stat` has no error
  pub exists : Fs → Text → Bool
  -- what a regular file holds
  pub content : Fs → Text → Option Text
  -- `os.MkdirAll`
  pub mkdir_all : Fs → Text → Fs × Bool
  -- `os.OpenFile` with `O_CREATE|O_RDWR`
  pub open_or_create : Fs → Text → Fs × Bool
  -- `io.Copy` to a file that was just opened; `none` is a source that fails
  pub copy_to : Fs → Text → Option Text → Fs × Bool
  pub content-mkdir_all :
      (fs fs' : Fs) (p q : Text) → mkdir_all fs p ≡ (fs', true) → content fs' q ≡ content fs q
  pub content-open_or_create :
      (fs fs' : Fs) (p q : Text)
      → open_or_create fs p ≡ (fs', true)
      → content fs' q ≡ (if text_eq p q then some (or_empty (content fs p)) else content fs q)
  pub copy_to_reads :
      (fs fs' : Fs) (p : Text) (source : Option Text)
      → copy_to fs p source ≡ (fs', true)
      → (t : Text) × (source ≡ some t)
  pub content-copy_to :
      (fs fs' : Fs) (p q t : Text)
      → copy_to fs p (some t) ≡ (fs', true)
      → content fs' q
        ≡ (if text_eq p q then some (overlay t (or_empty (content fs p))) else content fs q)
