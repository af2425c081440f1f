-- ===== src/Zipper/RoundTrip.antt =====
-- What `Untar` of zipper/zipper.go leaves of a file that `Tar` put into the archive.
use bydb.Base.{
  ◌≤◌, true, false, ◌≡◌, ◌≢◌, ◌↔◌, refl, ◌∙◌, Text, List, [], ◌∷◌, ◌++◌, some, text_eq_ne,
  text_eq_refl, length, All, arith,
}
use bydb.Files.{FileSystem, or_empty}
use bydb.Zipper.{regular, Header, untar, untar_restores}
use bydb.Zipper.Names.{separator, header_name, occurs, header_name-child}
use bydb.Zipper.Tar.{Visit, Writer, tar, add_files, sources, add_files-bodies, archive_of}

-- The visit of a regular file below the source.
abbrev pub file_at : Text → Text → Visit
file_at src rel = record { path = src ++ separator ∷ rel; info = some regular }

module _ (F : FileSystem) (w : Writer) (src dst : Text) where
  -- A visit whose file does not lead to the path of another file below the destination.
  abbrev pub IsElsewhere : Text → Visit → Type 0
  IsElsewhere rel v = F.join dst (header_name src v.path) ≢ F.join dst rel

  sources-elsewhere :
      (rel : Text) (fs : F.Fs) (vs ws : List Visit)
      → All (IsElsewhere rel) vs
      → sources F w src dst (F.join dst rel) fs (vs ++ ws)
        ≡ sources F w src dst (F.join dst rel) fs ws
  sources-elsewhere rel fs [] ws h = refl
  sources-elsewhere rel fs (v ∷ vs) ws h =
      rw (text_eq_ne (F.join dst (header_name src v.path)) (F.join dst rel) h.0)
        (sources-elsewhere rel fs vs ws h.1)

  sources-none :
      (rel : Text) (fs : F.Fs) (vs : List Visit)
      → All (IsElsewhere rel) vs
      → sources F w src dst (F.join dst rel) fs vs ≡ []
  sources-none rel fs [] h = refl
  sources-none rel fs (v ∷ vs) h =
      rw (text_eq_ne (F.join dst (header_name src v.path)) (F.join dst rel) h.0)
        (sources-none rel fs vs h.1)

  sources-one :
      (rel t : Text) (fs : F.Fs) (vs : List Visit)
      → src ≢ []
      → occurs src (separator ∷ rel) ≡ false
      → All (IsElsewhere rel) vs
      → F.content fs (src ++ separator ∷ rel) ≡ some t
      → sources F w src dst (F.join dst rel) fs (file_at src rel ∷ vs) ≡ t ∷ []
  sources-one rel t fs vs ne once h c =
      rw
        (
          header_name-child src rel ne once,
          text_eq_refl (F.join dst rel),
          c,
          sources-none rel fs vs h,
        )
        refl

  tar-taken :
      (fs : F.Fs) (vs : List Visit) (hs : List Header)
      → tar F w src fs vs ≡ (hs, true)
      → add_files F w src fs vs ≡ (hs, true)
  unfolding tar
  tar-taken fs vs hs e = ground arith

  -- A regular file below the source of `Tar`, in whose path from there the source does not occur
  -- again and to whose place no other archived file leads, is back at that place below the
  -- destination once `Tar` and `Untar` have had no error, exactly when the file that was there before
  -- was not longer.
  pub untar-tar :
      (fs fs1 fs2 : F.Fs) (before after : List Visit) (hs : List Header) (rel t : Text)
      → src ≢ []
      → occurs src (separator ∷ rel) ≡ false
      → All (IsElsewhere rel) before
      → All (IsElsewhere rel) after
      → F.content fs (src ++ separator ∷ rel) ≡ some t
      → tar F w src fs (before ++ file_at src rel ∷ after) ≡ (hs, true)
      → untar F dst fs1 (some (archive_of hs)) ≡ (fs2, true)
      → (F.content fs2 (F.join dst rel) ≡ some t)
        ↔ (length (or_empty (F.content fs1 (F.join dst rel))) ≤ length t)
  untar-tar fs fs1 fs2 before after hs rel t ne once hb ha c packed unpacked =
      untar_restores F dst fs1 fs2 (archive_of hs) (F.join dst rel) t unpacked (
        add_files-bodies F w src dst (F.join dst rel) fs (before ++ file_at src rel ∷ after) hs
          (tar-taken fs (before ++ file_at src rel ∷ after) hs packed)
        ∙ sources-elsewhere rel fs before (file_at src rel ∷ after) hb
        ∙ sources-one rel t fs after ne once ha c)
