-- ===== src/Command/RoundTrip.antt =====
-- `ParseCommand` reads back every request that is written well.
use bydb.Base.{false, ◌≡◌, refl, ◌∙◌, Text, codes, List, [], ◌∷◌, ◌++◌, Option, some}
use bydb.Document.{Document}
use bydb.Command.Pattern.Defs.{
  Class, Piece, lit, plus, nonspace, digit, any, member, matches, find_string_submatch,
}
use bydb.Command.Pattern.Greedy.{matches-lit, matches-plus, matches-plus-end, matches-braces}
use bydb.Command.Types.{new_command, ok, CommandFormat}
use bydb.Command.Formats.{
  parse_command, test, run, one_token, parse_get, parse_del, parse_put, parse_post, parse_search,
  parse_create_part, parse_delete_part, parse_join_node, parse_remove_node,
}
use bydb.Command.Grammar.{
  braced, Request, get, del, put, post, search, create_part, delete_part, join_node, remove_node,
  print, braced, IsRun, IsRequest, denoted,
}

run-matches :
    (f : CommandFormat) (raw : Text) {gs : List Text}
    → matches f.pattern raw ≡ some gs
    → run f raw ≡ f.parser (new_command raw) (raw ∷ gs)
unfolding run find_string_submatch
run-matches f raw h = rw (h, run, find_string_submatch)

-- A group and the space behind it.
matches-plus-space :
    (k : Class) (ps : List Piece) (g u : Text) {gs : List Text}
    → IsRun k g
    → member k b' ' ≡ false
    → matches ps u ≡ some gs
    → matches (plus k ∷ lit (codes " ") ∷ ps) (g ++ (codes " " ++ u)) ≡ some (g ∷ gs)
matches-plus-space k ps g u (ne, within) s m =
    matches-plus k _ g (codes " " ++ u) ne within s (matches-lit (codes " ") ps u ∙ m)

matches-run : (k : Class) (g : Text) → IsRun k g → matches (plus k ∷ []) g ≡ some (g ∷ [])
matches-run k g (ne, within) = matches-plus-end k g ne within

one_token-matches : (s g : Text) → IsRun nonspace g → matches (one_token s) (s ++ g) ≡ some (g ∷ [])
one_token-matches s g h = matches-lit s _ g ∙ matches-run nonspace g h

module _ (unmarshal : Text → Option Document) where
  -- Every well-written request is read as the command that it stands for.
  pub parse_command-print :
      (r : Request) → IsRequest unmarshal r → parse_command unmarshal (print r) ≡ ok (denoted r)
  unfolding parse_command test parse_get parse_del parse_put parse_post parse_search
      parse_create_part parse_delete_part parse_join_node parse_remove_node
  parse_command-print (get part id) (p, i) = run-matches _ _ (
      matches-lit (codes "GET ") _ _
      ∙ matches-plus-space nonspace _ part id p refl (matches-run nonspace id i))
  parse_command-print (del part id stamp ts) (p, i, s, e) =
      run-matches _ _ (
        matches-lit (codes "DEL ") _ _
        ∙ matches-plus-space nonspace _ part _ p refl
            (matches-plus-space nonspace _ id stamp i refl (matches-run digit stamp s)))
      ∙ rw e
  parse_command-print (put stamp inner ts doc) (s, b, e, d) =
      run-matches _ _ (
        matches-lit (codes "PUT ") _ _
        ∙ matches-plus-space digit _ stamp (braced inner) s refl (matches-braces inner b))
      ∙ rw (d, e)
  parse_command-print (post inner doc) (b, d) =
      run-matches _ _ (matches-lit (codes "POST ") _ _ ∙ matches-braces inner b) ∙ rw d
  parse_command-print (search part query) (p, q) = run-matches _ _ (
      matches-lit (codes "SEARCH ") _ _
      ∙ matches-plus-space nonspace _ part query p refl (matches-run any query q))
  parse_command-print (create_part part) p =
      run-matches _ _ (one_token-matches (codes "CREATE_PART ") part p)
  parse_command-print (delete_part part) p =
      run-matches _ _ (one_token-matches (codes "DELETE_PART ") part p)
  parse_command-print (join_node id) i =
      run-matches _ _ (one_token-matches (codes "JOIN_NODE ") id i)
  parse_command-print (remove_node id) i =
      run-matches _ _ (matches-lit (codes "REMOVE_NODE ") _ id ∙ matches-run digit id i)
