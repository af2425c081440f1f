-- ===== src/Command/Sound.antt =====
-- `ParseCommand` accepts well-written requests only, and reads each as what it stands for.
use mathlib.Core.List.{append-nil}
use bydb.Base.{
  ◌⊎◌, All, ◌≡◌, refl, sym, ◌∙◌, subst, Text, codes, List, [], ◌∷◌, ◌++◌, Option, none, some, inl,
  inr, Bool-cases, Option-cases, arith,
}
use bydb.Base.Decimal.{parse_int}
use bydb.Document.{Document}
use bydb.Command.Pattern.Defs.{Class, lit, plus, nonspace, digit, matches, find_string_submatch}
use bydb.Command.Pattern.Spells.{Spells, matches_sound}
use bydb.Command.Types.{
  Command, new_command, Error, ts_range, json_error, Result, ok, ◌>>=◌, or_error, CommandFormat,
}
use bydb.Command.Formats.{
  parse_command, command_formats, first_format, test, run, parse_get, parse_del, parse_put,
  parse_post, parse_search, parse_create_part, parse_delete_part, parse_join_node,
  parse_remove_node, get_pattern, del_pattern, put_pattern, post_pattern, search_pattern,
}
use bydb.Command.Grammar.{
  Request, get, del, put, post, search, create_part, delete_part, join_node, remove_node, print,
  IsRun, IsRequest, denoted, filled,
}

run-eq-ok :
    (f : CommandFormat) (raw : Text) {c : Command}
    → run f raw ≡ ok c
    → (gs : List Text) × Spells f.pattern gs raw × (f.parser (new_command raw) (raw ∷ gs) ≡ ok c)
unfolding run find_string_submatch
run-eq-ok f raw h = elim (Option-cases (matches f.pattern raw)) [
  | inl e ↦ absurd (ground arith)
  | inr (gs, e) ↦ (gs, matches_sound f.pattern raw gs e, ground arith)
]

-- A part that had to be read was read.
or_error_read :
    {A B : Type 0} (e : Error) (read : Option A) (next : A → Result B) {result : B}
    → or_error e read >>= next ≡ ok result
    → (x : A) × (read ≡ some x) × (next x ≡ ok result)
or_error_read e none next h = cc
or_error_read e (some x) next h = (x, refl, h)

module _ (unmarshal : Text → Option Document) where
  -- The text is a request, and the command is what it stands for.
  pub record Meaning (raw : Text) (c : Command) : Type 0 where
    pub request : Request
    pub valid : IsRequest unmarshal request
    pub written : raw ≡ print request
    pub read : c ≡ denoted request

  meant :
      {raw : Text} {c : Command} (r : Request)
      → IsRequest unmarshal r
      → raw ≡ print r
      → ok (filled (new_command raw) r) ≡ ok c
      → Meaning raw c
  meant r v w e = record { request = r; valid = v; written = w; read = rw (← w) cc }

  Meaning-get :
      (gs : List Text) (raw : Text) {c : Command}
      → Spells get_pattern gs raw
      → parse_get (new_command raw) (raw ∷ gs) ≡ ok c
      → Meaning raw c
  unfolding parse_get
  Meaning-get [] raw h e = absurd h.2
  Meaning-get (p ∷ []) raw h e = absurd h.2.4.2
  Meaning-get (p ∷ i ∷ x ∷ gs) raw h e = absurd h.2.4.2.4
  Meaning-get (p ∷ i ∷ []) raw (_, e1, (_, e2, np, wp, (_, e3, (_, e4, ni, wi, e5)))) e =
      meant (get p i) ((np, wp), (ni, wi)) (rw (e1, e2, e3, e4, e5, append-nil)) e

  Meaning-del :
      (gs : List Text) (raw : Text) {c : Command}
      → Spells del_pattern gs raw
      → parse_del (new_command raw) (raw ∷ gs) ≡ ok c
      → Meaning raw c
  unfolding parse_del
  Meaning-del [] raw h e = absurd h.2
  Meaning-del (p ∷ []) raw h e = absurd h.2.4.2
  Meaning-del (p ∷ i ∷ []) raw h e = absurd h.2.4.2.4.2
  Meaning-del (p ∷ i ∷ s ∷ x ∷ gs) raw h e = absurd h.2.4.2.4.2.4
  Meaning-del (p ∷ i ∷ s ∷ []) raw
        (_, e1, (_, e2, np, wp, (_, e3, (_, e4, ni, wi, (_, e5, (_, e6, ns, ws, e7)))))) e =
      let (ts, t, r) = or_error_read ts_range (parse_int s) _ e in
      meant (del p i s ts) ((np, wp), (ni, wi), (ns, ws), t)
        (rw (e1, e2, e3, e4, e5, e6, e7, append-nil)) r

  Meaning-put :
      (gs : List Text) (raw : Text) {c : Command}
      → Spells put_pattern gs raw
      → parse_put unmarshal (new_command raw) (raw ∷ gs) ≡ ok c
      → Meaning raw c
  unfolding parse_put
  Meaning-put [] raw h e = absurd h.2
  Meaning-put (s ∷ []) raw h e = absurd h.2.4.2
  Meaning-put (s ∷ b ∷ x ∷ gs) raw h e = absurd h.2.4.2.5
  Meaning-put (s ∷ b ∷ []) raw (_, e1, (_, e2, ns, ws, (_, e3, (inner, _, eb, e4, wb, e5)))) e =
      let (doc, d, e') = or_error_read json_error (unmarshal b) _ e in
      let (ts, t, r) = or_error_read ts_range (parse_int s) _ e' in
      meant (put s inner ts doc) ((ns, ws), wb, t, subst (λ v. unmarshal v ≡ some doc) eb d)
        (rw (e1, e2, e3, e4, e5)) (rw eb at r)

  Meaning-post :
      (gs : List Text) (raw : Text) {c : Command}
      → Spells post_pattern gs raw
      → parse_post unmarshal (new_command raw) (raw ∷ gs) ≡ ok c
      → Meaning raw c
  unfolding parse_post
  Meaning-post [] raw h e = absurd h.2
  Meaning-post (b ∷ x ∷ gs) raw h e = absurd h.2.5
  Meaning-post (b ∷ []) raw (_, e1, (inner, _, eb, e2, wb, e3)) e =
      let (doc, d, r) = or_error_read json_error (unmarshal b) _ e in
      meant (post inner doc) (wb, subst (λ v. unmarshal v ≡ some doc) eb d) (rw (e1, e2, e3))
        (rw eb at r)

  Meaning-search :
      (gs : List Text) (raw : Text) {c : Command}
      → Spells search_pattern gs raw
      → parse_search (new_command raw) (raw ∷ gs) ≡ ok c
      → Meaning raw c
  unfolding parse_search
  Meaning-search [] raw h e = absurd h.2
  Meaning-search (p ∷ []) raw h e = absurd h.2.4.2
  Meaning-search (p ∷ q ∷ x ∷ gs) raw h e = absurd h.2.4.2.4
  Meaning-search (p ∷ q ∷ []) raw (_, e1, (_, e2, np, wp, (_, e3, (_, e4, nq, wq, e5)))) e =
      meant (search p q) ((np, wp), (nq, wq)) (rw (e1, e2, e3, e4, e5, append-nil)) e

  -- The four formats of one group.
  one_group :
      (k : Class) (s : Text) (f : Text → Request) (gs : List Text) (raw : Text) {c : Command}
      (parser : Command → List Text → Result Command)
      → ((g : Text) → IsRun k g → IsRequest unmarshal (f g))
      → ((g : Text) → s ++ g ≡ print (f g))
      → ((g : Text) → parser (new_command raw) (raw ∷ g ∷ []) ≡ ok (filled (new_command raw) (f g)))
      → Spells (lit s ∷ plus k ∷ []) gs raw
      → parser (new_command raw) (raw ∷ gs) ≡ ok c
      → Meaning raw c
  one_group k s f [] raw parser valid shows fills h e = absurd h.2
  one_group k s f (g ∷ x ∷ gs) raw parser valid shows fills h e = absurd h.2.4
  one_group k s f (g ∷ []) raw parser valid shows fills (_, e1, (_, e2, ng, wg, e3)) e =
      meant (f g) (valid g (ng, wg)) (rw (e1, e2, e3, append-nil) (shows g)) (sym (fills g) ∙ e)

  first_format-cons :
      (f : CommandFormat) (fs : List CommandFormat) (raw : Text) {c : Command}
      → first_format (f ∷ fs) raw ≡ ok c
      → (run f raw ≡ ok c) ⊎ (first_format fs raw ≡ ok c)
  unfolding first_format
  first_format-cons f fs raw h = elim (Bool-cases (test f raw)) [
    | inl hit ↦ inl (rw hit at h)
    | inr miss ↦ inr (rw miss at h)
  ]

  -- What a format makes of a match is a request's meaning.
  abbrev IsSound : Text → Command → CommandFormat → Type 0
  IsSound raw c f =
      (gs : List Text)
      → Spells f.pattern gs raw
      → f.parser (new_command raw) (raw ∷ gs) ≡ ok c
      → Meaning raw c

  first_format_sound :
      (fs : List CommandFormat) (raw : Text) (c : Command)
      → All (IsSound raw c) fs
      → first_format fs raw ≡ ok c
      → Meaning raw c
  first_format_sound [] raw c sound h = absurd (unfold first_format in cc)
  first_format_sound (f ∷ fs) raw c sound h = elim (first_format-cons f fs raw h) [
    | inl now ↦ let (gs, s, e) = run-eq-ok f raw now in sound.0 gs s e
    | inr later ↦ first_format_sound fs raw c sound.1 later
  ]

  -- What `ParseCommand` accepts is a well-written request, read as what it stands for.
  pub parse_command_sound :
      (raw : Text) {c : Command} → parse_command unmarshal raw ≡ ok c → Meaning raw c
  unfolding parse_command parse_create_part parse_delete_part parse_join_node parse_remove_node
  parse_command_sound raw {c} = first_format_sound (command_formats unmarshal) raw c (
    λ gs. Meaning-get gs raw,
    (
      λ gs. Meaning-del gs raw,
      (
        λ gs. Meaning-put gs raw,
        (
          λ gs. Meaning-post gs raw,
          (
            λ gs. Meaning-search gs raw,
            (
              λ gs.
                  one_group nonspace (codes "CREATE_PART ") create_part gs raw parse_create_part
                    (λ g h. h) (λ g. refl) (λ g. refl),
              (
                λ gs.
                    one_group nonspace (codes "DELETE_PART ") delete_part gs raw parse_delete_part
                      (λ g h. h) (λ g. refl) (λ g. refl),
                (
                  λ gs.
                      one_group nonspace (codes "JOIN_NODE ") join_node gs raw parse_join_node
                        (λ g h. h) (λ g. refl) (λ g. refl),
                  (
                    λ gs.
                        one_group digit (codes "REMOVE_NODE ") remove_node gs raw parse_remove_node
                          (λ g h. h) (λ g. refl) (λ g. refl),
                    tt,
                  ),
                ),
              ),
            ),
          ),
        ),
      ),
    ),
  )
