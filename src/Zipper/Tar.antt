-- ===== src/Zipper/Tar.antt =====
-- `Tar` of zipper/zipper.go, and what `Untar` leaves of the files that it archived. What
-- `filepath.Walk` calls the function with is a parameter, in its order, and so is which headers and
-- bodies the writer takes without an error.
use bydb.Base.{
  Bool, true, false, ◌≡◌, refl, sym, ap, ◌∙◌, Text, List, [], ◌∷◌, ◌++◌, Option, none, some,
  text_eq, if◌then◌else◌, map, arith,
}
use mathlib.Core.List.{map-append}
use bydb.Files.{FileSystem}
use bydb.Zipper.{Typeflag, directory, regular, other, Header, Archive, bodies_for, body_of}
use bydb.Zipper.Names.{header_name}

-- A call of the function that walks: a path, and the type of its file; `none` is an error of the walk
-- or of `tar.FileInfoHeader`.
pub record Visit : Type 0 where
  pub path : Text
  pub info : Option Typeflag

-- The errors of `tw.WriteHeader` by the name in the header, and of `io.Copy` to the writer.
pub record Writer : Type 0 where
  pub takes_header : Text → Bool
  pub takes_body : Text → Text → Bool

module _ (F : FileSystem) (w : Writer) (src : Text) where
  abbrev header : Text → Typeflag → Option Text → Header
  header path t b = record { name = header_name src path; typeflag = t; body = b }

  -- The copy of an opened file; `none` is an error of `os.Open`.
  abbrev copy_body : Text → Option Text → List Header × Bool
  copy_body path none = (header path regular none ∷ [], false)
  copy_body path (some b) =
      if w.takes_body (header_name src path) b
      then (header path regular (some b) ∷ [], true)
      else (header path regular none ∷ [], false)

  abbrev write_body : F.Fs → Text → Typeflag → List Header × Bool
  write_body fs path regular = copy_body path (F.content fs path)
  write_body fs path directory = (header path directory (some []) ∷ [], true)
  write_body fs path other = (header path other (some []) ∷ [], true)

  abbrev write_info : F.Fs → Text → Option Typeflag → List Header × Bool
  write_info fs path none = ([], false)
  write_info fs path (some t) =
      let written = write_body fs path t in
      if w.takes_header (header_name src path) then written else ([], false)

  -- The function that `filepath.Walk` calls: what it adds to the archive, and whether it had no error.
  unfoldable pub add_file : F.Fs → Visit → List Header × Bool
  add_file fs v = write_info fs v.path v.info

  unfoldable pub add_files : F.Fs → List Visit → List Header × Bool
  unfolding add_file
  add_files fs [] = ([], true)
  add_files fs (v ∷ vs) =
      let (hs, fine) = add_file fs v in
      let rest = add_files fs vs in if fine then (hs ++ rest.0, rest.1) else (hs, false)

  -- `Tar`
  unfoldable pub tar : F.Fs → List Visit → List Header × Bool
  unfolding add_files
  tar fs vs = if F.exists fs src then add_files fs vs else ([], false)

  -- The contents of the visited regular files whose names lead to a path below a destination, in order.
  abbrev content_of : Text → F.Fs → Visit → Option Typeflag → List Text → List Text
  content_of dst fs v (some t) ts = body_of F dst t (F.content fs v.path) ts
  content_of dst fs v none ts = ts

  abbrev pub sources : Text → Text → F.Fs → List Visit → List Text
  sources dst q fs [] = []
  sources dst q fs (v ∷ vs) =
      let rest = sources dst q fs vs in
      if text_eq (F.join dst (header_name src v.path)) q
      then content_of dst fs v v.info rest
      else rest

  bodies_for-append :
      (dst q : Text) (hs hs' : List (Option Header))
      → bodies_for F dst q (hs ++ hs') ≡ bodies_for F dst q hs ++ bodies_for F dst q hs'
  bodies_for-append dst q [] hs' = refl
  bodies_for-append dst q (none ∷ hs) hs' = bodies_for-append dst q hs hs'
  bodies_for-append dst q (some h ∷ hs) hs' = ground (arith, bodies_for-append dst q hs hs')

  copy_body-bodies :
      (dst q path : Text) (b : Option Text) (hs : List Header)
      → copy_body path b ≡ (hs, true)
      → bodies_for F dst q (map some hs)
        ≡ (if text_eq (F.join dst (header_name src path)) q then body_of F dst regular b [] else [])
  copy_body-bodies dst q path none hs e = cc
  copy_body-bodies dst q path (some b) hs e = ground arith

  write_info-bodies :
      (dst q : Text) (fs : F.Fs) (v : Visit) (i : Option Typeflag) (hs : List Header)
      → write_info fs v.path i ≡ (hs, true)
      → bodies_for F dst q (map some hs)
        ≡ (if text_eq (F.join dst (header_name src v.path)) q then content_of dst fs v i [] else [])
  write_info-bodies dst q fs v none hs e = cc
  write_info-bodies dst q fs v (some regular) hs e =
      ground (arith, copy_body-bodies dst q v.path (F.content fs v.path) hs)
  write_info-bodies dst q fs v (some directory) hs e = ground arith
  write_info-bodies dst q fs v (some other) hs e = ground arith

  content_of-append :
      (dst : Text) (fs : F.Fs) (v : Visit) (i : Option Typeflag) (ts : List Text)
      → content_of dst fs v i ts ≡ content_of dst fs v i [] ++ ts
  content_of-append dst fs v i ts = ground arith

  -- What one visit gives to a path.
  abbrev given : Text → Text → F.Fs → Visit → List Text
  given dst q fs v =
      if text_eq (F.join dst (header_name src v.path)) q then content_of dst fs v v.info [] else []

  sources-step :
      (dst q : Text) (fs : F.Fs) (v : Visit) (vs : List Visit)
      → sources dst q fs (v ∷ vs) ≡ given dst q fs v ++ sources dst q fs vs
  sources-step dst q fs v vs =
      ground (arith, content_of-append dst fs v v.info (sources dst q fs vs))

  bodies_for-taken :
      (dst q : Text) (hs hs' : List Header)
      → bodies_for F dst q (map some (hs ++ hs'))
        ≡ bodies_for F dst q (map some hs) ++ bodies_for F dst q (map some hs')
  bodies_for-taken dst q hs hs' =
      ap (bodies_for F dst q) (map-append some hs hs')
      ∙ bodies_for-append dst q (map some hs) (map some hs')

  abbrev bodies_in : Text → Text → List Header × Bool → List Text
  bodies_in dst q r = bodies_for F dst q (map some r.0)

  -- A walk with no error puts the contents of the regular files that it came by into the archive.
  pub add_files-bodies :
      (dst q : Text) (fs : F.Fs) (vs : List Visit) (hs : List Header)
      → add_files fs vs ≡ (hs, true)
      → bodies_for F dst q (map some hs) ≡ sources dst q fs vs
  unfolding add_files add_file
  add_files-bodies dst q fs [] hs e = ap (bodies_in dst q) (sym e)
  add_files-bodies dst q fs (v ∷ vs) hs e =
      both (write_info fs v.path v.info) refl (add_files fs vs)
        (λ hs' x. add_files-bodies dst q fs vs hs' x) e
    where
      both :
          (r : List Header × Bool)
          → write_info fs v.path v.info ≡ r
          → (s : List Header × Bool)
          → ((hs' : List Header)
              → s ≡ (hs', true)
              → bodies_for F dst q (map some hs') ≡ sources dst q fs vs)
          → ◌≡◌ {A = List Header × Bool}
              (if r.1 then (r.0 ++ s.0, s.1) else (r.0, false))
              (hs, true)
          → bodies_for F dst q (map some hs) ≡ sources dst q fs (v ∷ vs)
      both (hs1, false) x s again y = cc
      both (hs1, true) x (hs2, false) again y = cc
      both (hs1, true) x (hs2, true) again y =
          ap (bodies_in dst q) (sym y)
          ∙ bodies_for-taken dst q hs1 hs2
          ∙ ap (◌++ bodies_for F dst q (map some hs2)) (write_info-bodies dst q fs v v.info hs1 x)
          ∙ ap (given dst q fs v ++◌) (again hs2 refl)
          ∙ sym (sources-step dst q fs v vs)

-- The archive of the headers that a writer took.
abbrev pub archive_of : List Header → Archive
archive_of hs = record { headers = map some hs; complete = true }
