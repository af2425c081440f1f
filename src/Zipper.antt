-- ===== src/Zipper.antt =====
-- `Untar` of zipper/zipper.go over an interface to the file system. The archive is what the tar reader
-- gives at each call of `Next`, and whether it ends with `io.EOF`.
pub mod Names
pub mod Tar
pub mod RoundTrip
use bydb.Base.{
  ◌≤◌, Bool, true, false, ◌≡◌, ◌↔◌, refl, sym, ap, ◌∙◌, Text, List, [], ◌∷◌, ◌++◌, Option, none,
  some, some_inj, Bool-cases, inl, inr, text_eq, text_eq_iff, text_eq_refl, length, if◌then◌else◌,
  arith,
}
use bydb.Files.{FileSystem, overlay, or_empty}

pub data Typeflag : Type 0 where
  directory regular other : Typeflag

pub record Header : Type 0 where
  pub name : Text
  pub typeflag : Typeflag
  -- what the reader gives for the entry; `none` is an error on the way
  pub body : Option Text

pub record Archive : Type 0 where
  -- a nil header with no error is `none`
  pub headers : List (Option Header)
  pub complete : Bool

module _ (F : FileSystem) (dst : Text) where
  abbrev pub target : Header → Text
  target h = F.join dst h.name

  abbrev copied : F.Fs × Bool → Text → Option Text → F.Fs × Bool
  copied (fs, true) path body = F.copy_to fs path body
  copied (fs, false) path body = (fs, false)

  -- The body of the loop: the switch over the type of the file.
  unfoldable pub extract : Typeflag → F.Fs → Header → F.Fs × Bool
  extract directory fs h =
      let made = F.mkdir_all fs (target h) in if F.exists fs (target h) then (fs, true) else made
  extract regular fs h = copied (F.open_or_create fs (target h)) (target h) h.body
  extract other fs h = (fs, true)

  unfoldable pub extract_all : F.Fs → List (Option Header) → Bool → F.Fs × Bool
  unfolding extract
  extract_all fs [] complete = (fs, complete)
  extract_all fs (none ∷ hs) complete = extract_all fs hs complete
  extract_all fs (some h ∷ hs) complete =
      let (fs', fine) = extract h.typeflag fs h in
      let rest = extract_all fs' hs complete in if fine then rest else (fs', false)

  -- `Untar`; `none` is an error of the gzip reader.
  unfoldable pub untar : F.Fs → Option Archive → F.Fs × Bool
  unfolding extract_all
  untar fs none = (fs, false)
  untar fs (some a) = extract_all fs a.headers a.complete

  -- The bodies that the archive has for a path, in order.
  abbrev pub body_of : Typeflag → Option Text → List Text → List Text
  body_of regular (some t) ts = t ∷ ts
  body_of _ _ ts = ts

  abbrev pub bodies_for : Text → List (Option Header) → List Text
  bodies_for q [] = []
  bodies_for q (none ∷ hs) = bodies_for q hs
  bodies_for q (some h ∷ hs) =
      let rest = bodies_for q hs in
      if text_eq (target h) q then body_of h.typeflag h.body rest else rest

  abbrev pub overlaid : List Text → Option Text → Option Text
  overlaid [] old = old
  overlaid (t ∷ ts) old = overlaid ts (some (overlay t (or_empty old)))

  -- What extracting one header leaves in a file.
  abbrev left_by_header : Text → Typeflag → Header → Option Text → Option Text
  left_by_header q t h old =
      if text_eq (target h) q then overlaid (body_of t h.body []) old else old

  copied-content :
      (fs : F.Fs) (r : F.Fs × Bool) (h : Header) (fs' : F.Fs) (q : Text)
      → F.open_or_create fs (target h) ≡ r
      → copied r (target h) h.body ≡ (fs', true)
      → F.content fs' q ≡ left_by_header q regular h (F.content fs q)
  copied-content fs (fs1, false) h fs' q o e = cc
  copied-content fs (fs1, true) h fs' q o e =
      let (t, b) = F.copy_to_reads fs1 fs' (target h) h.body e in
      let written = F.content-copy_to fs1 fs' (target h) q t (rw b at e) in
      let opened = F.content-open_or_create fs fs1 (target h) q o in
      let itself = F.content-open_or_create fs fs1 (target h) (target h) o in
      ground (arith, text_eq_iff (target h) q, text_eq_refl (target h))

  extract-content :
      (t : Typeflag) (fs fs' : F.Fs) (h : Header) (q : Text)
      → extract t fs h ≡ (fs', true)
      → F.content fs' q ≡ left_by_header q t h (F.content fs q)
  unfolding extract
  extract-content directory fs fs' h q e = ground (arith, F.content-mkdir_all fs fs' (target h) q)
  extract-content regular fs fs' h q e = copied-content fs _ h fs' q refl e
  extract-content other fs fs' h q e = ground arith

  overlaid-append :
      (ts us : List Text) (old : Option Text)
      → overlaid (ts ++ us) old ≡ overlaid us (overlaid ts old)
  overlaid-append [] us old = refl
  overlaid-append (t ∷ ts) us old = overlaid-append ts us _

  body_of-append :
      (t : Typeflag) (b : Option Text) (ts : List Text) → body_of t b ts ≡ body_of t b [] ++ ts
  body_of-append t b ts = ground arith

  bodies_for-step :
      (q : Text) (h : Header) (hs : List (Option Header)) (old : Option Text)
      → overlaid (bodies_for q (some h ∷ hs)) old
        ≡ overlaid (bodies_for q hs) (left_by_header q h.typeflag h old)
  bodies_for-step q h hs old = elim (Bool-cases (text_eq (target h) q)) [
    | inl same ↦ rw same (
        ap (λ ts. overlaid ts old) (body_of-append h.typeflag h.body (bodies_for q hs))
        ∙ overlaid-append (body_of h.typeflag h.body []) (bodies_for q hs) old)
    | inr other' ↦ rw other'
  ]

  -- An extraction with no error leaves a file with the bodies that the archive has for its path, each
  -- written over the start of what was there.
  pub extract_all-content :
      (hs : List (Option Header)) (fs fs' : F.Fs) (complete : Bool) (q : Text)
      → extract_all fs hs complete ≡ (fs', true)
      → F.content fs' q ≡ overlaid (bodies_for q hs) (F.content fs q)
  unfolding extract_all
  extract_all-content [] fs fs' complete q e = ap (λ (r : F.Fs × Bool). F.content r.0 q) (sym e)
  extract_all-content (none ∷ hs) fs fs' complete q e = extract_all-content hs fs fs' complete q e
  extract_all-content (some h ∷ hs) fs fs' complete q e =
      went_on (λ fs1. extract_all-content hs fs1 fs' complete q) (extract h.typeflag fs h) refl e
    where
      went_on :
          ((fs1 : F.Fs)
            → extract_all fs1 hs complete ≡ (fs', true)
            → F.content fs' q ≡ overlaid (bodies_for q hs) (F.content fs1 q))
          → (r : F.Fs × Bool) → extract h.typeflag fs h ≡ r
          → (if r.1 then extract_all r.0 hs complete else (r.0, false)) ≡ (fs', true)
          → F.content fs' q ≡ overlaid (bodies_for q (some h ∷ hs)) (F.content fs q)
      went_on again (fs1, false) x y = cc
      went_on again (fs1, true) x y =
          again fs1 y
          ∙ ap (overlaid (bodies_for q hs)) (extract-content h.typeflag fs fs1 h q x)
          ∙ sym (bodies_for-step q h hs (F.content fs q))

  overlay-eq : (t old : Text) → (overlay t old ≡ t) ↔ (length old ≤ length t)
  unfolding overlay
  overlay-eq [] [] = (λ e. omega arith, λ e. refl)
  overlay-eq [] (o ∷ os) = ground arith
  overlay-eq (c ∷ cs) [] = ground arith
  overlay-eq (c ∷ cs) (o ∷ os) = ground (arith, overlay-eq cs os)

  -- Once `Untar` returns with no error, a file that the archive holds once has the archived content
  -- exactly when it was not longer before.
  pub untar_restores :
      (fs fs' : F.Fs) (a : Archive) (q t : Text)
      → untar fs (some a) ≡ (fs', true)
      → bodies_for q a.headers ≡ t ∷ []
      → (F.content fs' q ≡ some t) ↔ (length (or_empty (F.content fs q)) ≤ length t)
  unfolding untar
  untar_restores fs fs' a q t e one =
      let left : F.content fs' q ≡ some (overlay t (or_empty (F.content fs q))) =
        extract_all-content a.headers fs fs' a.complete q e
        ∙ ap (λ ts. overlaid ts (F.content fs q)) one in
      let (forth, back) = overlay-eq t (or_empty (F.content fs q)) in
      (λ h. forth (some_inj (sym left ∙ h)), λ h. left ∙ ap some (back h))
