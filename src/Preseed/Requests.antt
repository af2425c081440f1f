-- ===== src/Preseed/Requests.antt =====
-- The commands of preseed.go as `ParseCommand` of command/command.go reads them.
use bydb.Base.{
  ℕ, ◌<◌, ◌^◌, Bool, true, ◌≡◌, refl, Text, codes, [], ◌∷◌, ◌++◌, Option, some, All-append, All-map,
  ◌&&◌, arith,
}
use bydb.Base.Decimal.{print_uint, print_uint-is_digit, print_uint-ne-nil, parse_int-print_uint}
use bydb.Document.{Document}
use bydb.Command.Formats.{parse_command}
use bydb.Command.Grammar.{get, del, put, post, create_part, delete_part, denoted, IsRun}
use bydb.Command.Pattern.Defs.{nonspace, digit, any, member}
use bydb.Command.Pattern.Spells.{Within}
use bydb.Command.RoundTrip.{parse_command-print}
use bydb.Command.Types.{ok}
use bydb.Preseed.{
  format_get, format_del, format_put, format_post, format_create_part, format_delete_part,
  document_inner, document_text,
}

abbrev in_line : Text → Bool
in_line [] = true
in_line (c ∷ cs) = member any c && in_line cs

in_line-Within : (t : Text) → in_line t ≡ true → Within (member any) t
in_line-Within [] h = tt
in_line-Within (c ∷ cs) h = (ground arith, in_line-Within cs (ground arith))

nonspace-any : (w : Text) → Within (member nonspace) w → Within (member any) w
nonspace-any w h =
    All-map (λ c. member nonspace c ≡ true) (λ c. member any c ≡ true) w (λ c x. ground arith) h

digit-any : (w : Text) → Within (member digit) w → Within (member any) w
digit-any w h =
    All-map (λ c. member digit c ≡ true) (λ c. member any c ≡ true) w (λ c x. ground arith) h

-- A text of one line.
abbrev Line : Type 0
Line = (t : Text) × Within (member any) t

abbrev literal : (t : Text) → in_line t ≡ true → Line
literal t h = (t, in_line-Within t h)

infixr 5 ◌then◌
abbrev ◌then◌ : Line → Line → Line
u then v = (u.0 ++ v.0, All-append (λ c. member any c ≡ true) u.0 v.0 u.1 v.1)

print_uint-any : (n : ℕ) → n < 2 ^ 64 → Within (member any) (print_uint n)
print_uint-any n h = digit-any (print_uint n) (print_uint-is_digit n h)

print_uint-IsRun : (n : ℕ) → n < 2 ^ 63 → IsRun digit (print_uint n)
print_uint-IsRun n h = (print_uint-ne-nil n, print_uint-is_digit n (omega arith))

document_inner-Within :
    (updated created : ℕ) (part word : Text)
    → updated < 2 ^ 64
    → created < 2 ^ 64
    → Within (member any) part
    → Within (member any) word
    → Within (member any) (document_inner updated created part word)
document_inner-Within updated created part word u c p w =
    let the_part : Line = (part, p) in
    let the_word : Line = (word, w) in
    let updated_text : Line = (print_uint updated, print_uint-any updated u) in
    let created_text : Line = (print_uint created, print_uint-any created c) in
    (literal (codes " \"id\":\"") refl
      then the_word
      then literal (codes "\", \"part\":\"") refl
      then the_part
      then literal (codes "\", \"index\":{ \"text\":\"") refl
      then the_word
      then literal (codes "\" }, \"block\":{ \"hide\":\"me\" }, \"categories\":[ \"") refl
      then the_part
      then literal (codes "=") refl
      then the_word
      then literal (codes "\" ], \"updated\":") refl
      then updated_text
      then literal (codes ", \"created\":") refl
      then created_text
      then literal (codes " ") refl).1

module _ (unmarshal : Text → Option Document) (part word : Text) where
  -- The commands for a partition and a word, each a non-empty text with no white space, are requests:
  -- the creation, the reading and the deletion, and, if the decoder reads their documents, the
  -- insertion and the update, at times that fit an int64.
  pub parse_command-preseed :
      (created updated : ℕ) (inserted written : Document)
      → IsRun nonspace part
      → IsRun nonspace word
      → created < 2 ^ 63
      → updated < 2 ^ 63
      → unmarshal (document_text created created part word) ≡ some inserted
      → unmarshal (document_text updated updated part word) ≡ some written
      → (parse_command unmarshal (format_create_part part) ≡ ok (denoted (create_part part)))
        × (parse_command unmarshal (format_post created part word)
            ≡ ok (denoted (post (document_inner created created part word) inserted)))
        × (parse_command unmarshal (format_get part word) ≡ ok (denoted (get part word)))
        × (parse_command unmarshal (format_put created updated part word)
            ≡ ok (
                denoted (
                  put
                    (print_uint created)
                    (document_inner updated updated part word)
                    created
                    written)))
        × (parse_command unmarshal (format_del updated part word)
            ≡ ok (denoted (del part word (print_uint updated) updated)))
        × (parse_command unmarshal (format_delete_part part) ≡ ok (denoted (delete_part part)))
  parse_command-preseed created updated inserted written p w c u i o =
      let within = λ (t : ℕ) (h : t < 2 ^ 63).
        document_inner-Within t t part word (omega arith) (omega arith) (nonspace-any part p.1)
          (nonspace-any word w.1) in
      (
        parse_command-print unmarshal (create_part part) p,
        parse_command-print unmarshal (post (document_inner created created part word) inserted)
            (within created c, i),
        parse_command-print unmarshal (get part word) (p, w),
        parse_command-print unmarshal
            (put (print_uint created) (document_inner updated updated part word) created written)
            (print_uint-IsRun created c, within updated u, parse_int-print_uint created c, o),
        parse_command-print unmarshal (del part word (print_uint updated) updated)
            (p, w, print_uint-IsRun updated u, parse_int-print_uint updated u),
        parse_command-print unmarshal (delete_part part) p,
      )
