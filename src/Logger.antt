-- ===== src/Logger.antt =====
-- logger/logger.go. A logger of Go's package log is the prefix that it writes in front of a line; the
-- time stamp between the prefix and the message, and the writer, are left out. `env` is the value of
-- DEBUG.
use bydb.Base.{
  Bool, true, false, ◌≡◌, refl, Text, codes, List, [], ◌∷◌, ◌++◌, Option, none, some, not, ◌&&◌, ap,
  ◌∙◌, text_eq, if◌then◌else◌, arith,
}
use mathlib.Core.List.{append_assoc}

pub record Logger : Type 0 where
  pub u : Text
  pub prefix : Text
  pub debug : Bool

-- The functions of a logger, each with what it is given as it is printed.
pub data Call : Type 0 where
  debug debugf log logf fatal fatalf : Text → Call

-- `defaultLogger`; `def` is the prefix of Go's default logger.
abbrev pub default_logger : Text → Logger
default_logger def = record { prefix = codes "bydb"; u = def ++ codes "bydb"; debug = false }

module _ (env : Text) where
  -- `Test`
  unfoldable pub test : Text → Bool
  test prefix = text_eq env (codes "true")

  -- `Extend`
  unfoldable pub extend : Logger → Text → Logger
  unfolding test
  extend s prefix =
      let new_prefix = s.prefix ++ (codes "." ++ prefix) in
      record { prefix = []; u = new_prefix ++ codes ": "; debug = test new_prefix }

  -- `New`
  unfoldable pub new : Text → Text → Logger
  unfolding extend
  new def prefix = extend (default_logger def) prefix

-- What a call writes, and whether it ends the program.
unfoldable pub write : Logger → Call → Option Text × Bool
write s (debug t) = (if s.debug then some (s.u ++ t) else none, false)
write s (debugf t) = (if s.debug then some (s.u ++ t) else none, false)
write s (log t) = (some (s.u ++ t), false)
write s (logf t) = (some (s.u ++ t), false)
write s (fatal t) = (some (s.u ++ t), true)
write s (fatalf t) = (some (s.u ++ t), true)

-- A logger extended by names in turn.
abbrev pub extended : Text → Logger → List Text → Logger
extended env s [] = s
extended env s (p ∷ ps) = extended env (extend env s p) ps

abbrev is_debug : Call → Bool
is_debug (debug t) = true
is_debug (debugf t) = true
is_debug _ = false

abbrev message : Call → Text
message (debug t) = t
message (debugf t) = t
message (log t) = t
message (logf t) = t
message (fatal t) = t
message (fatalf t) = t

extended-append :
    (env : Text) (s : Logger) (ps : List Text) (p : Text)
    → extended env s (ps ++ p ∷ []) ≡ extend env (extended env s ps) p
extended-append env s [] p = refl
extended-append env s (q ∷ ps) p = extended-append env (extend env s q) ps p

extended-prefix :
    (env : Text) (s : Logger) (q : Text) (ps : List Text) → (extended env s (q ∷ ps)).prefix ≡ []
unfolding extend
extended-prefix env s q [] = refl
extended-prefix env s q (p ∷ ps) = extended-prefix env (extend env s q) p ps

line-extend :
    (env : Text) (s : Logger) (p t : Text)
    → s.prefix ≡ []
    → (extend env s p).u ++ t ≡ codes "." ++ (p ++ (codes ": " ++ t))
unfolding extend
line-extend env s p t e =
    ap (λ q. (q ++ (codes "." ++ p) ++ codes ": ") ++ t) e
    ∙ ap (b'.' ∷◌) (append_assoc p (codes ": ") t)

-- The line of a call, if it writes one.
abbrev written : Text → Bool → Text → Option Text
written env quiet line = if quiet && not (text_eq env (codes "true")) then none else some line

write-extend :
    (env : Text) (s : Logger) (p : Text) (c : Call)
    → (write (extend env s p) c).0 ≡ written env (is_debug c) ((extend env s p).u ++ message c)
unfolding extend test write
write-extend env s p c = ground arith

-- What a logger writes that was extended twice or more: a debugging call writes exactly if DEBUG is
-- "true", each other call always, and a line starts with the last name alone, whatever the names
-- before it.
pub write-extended :
    (env : Text) (s : Logger) (q p : Text) (ps : List Text) (c : Call)
    → (write (extended env s (q ∷ (ps ++ p ∷ []))) c).0 ≡ (
        if is_debug c && not (text_eq env (codes "true"))
        then none
        else some (codes "." ++ (p ++ (codes ": " ++ message c))))
write-extended env s q p ps c =
    let last = extended env (extend env s q) ps in
    ap (λ l. (write l c).0) (extended-append env (extend env s q) ps p)
    ∙ write-extend env last p c
    ∙ ap (written env (is_debug c))
        (line-extend env last p (message c) (extended-prefix env s q ps))
