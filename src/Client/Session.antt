-- ===== src/Client/Session.antt =====
-- The loop of `main` of client.go over the lines that the prompt returns. The replies of the server are
-- a parameter; `none` is an error of the call.
use bydb.Base.{
  ℕ, suc, true, false, ◌≡◌, refl, sym, ◌∙◌, Text, List, [], ◌∷◌, ◌++◌, Option, none, some, All, inl,
  inr, Bool-cases, Option-cases,
}
use bydb.Client.{Step, stop, call_crud, step, is_exit, hello, validate}
use bydb.Client.Forms.{is_accepted, is_formed}
use bydb.Client.Validate.{validate-parse_command}
use bydb.Command.Formats.{parse_command, command_formats}
use bydb.Document.{Document}

-- How a session ends: by "exit", by an error of the prompt, or by `log.Fatalf` of `callCrud`.
pub data Ending : Type 0 where
  exited prompt_failed fatal : Ending

pub record Session : Type 0 where
  -- the texts sent to the server
  pub calls : List Text
  -- the documents of the replies
  pub printed : List Text
  pub ending : Ending

abbrev pub prompted : Session
prompted = record { calls = []; printed = []; ending = prompt_failed }

-- `callCrud` and the rest of the loop.
abbrev pub called : Text → Option Text → Session → Session
called msg none rest = record { calls = msg ∷ []; printed = []; ending = fatal }
called msg (some doc) rest = record {
  calls = msg ∷ rest.calls;
  printed = doc ∷ rest.printed;
  ending = rest.ending;
}

abbrev pub taken : Step → Option Text → Session → Session
taken stop reply rest = record { calls = []; printed = []; ending = exited }
taken (call_crud msg) reply rest = called msg reply rest

-- The loop, from the j-th call on. The prompt fails behind the last line.
unfoldable pub run_session : (ℕ → Option Text) → ℕ → List Text → Session
unfolding step
run_session reply j [] = prompted
run_session reply j (line ∷ lines) = taken (step line) (reply j) (run_session reply (suc j) lines)

-- What the prompt returns has passed `validate`.
abbrev pub IsPrompted : (Text → Option Document) → Text → Type 0
IsPrompted unmarshal line = is_accepted (validate (hello (command_formats unmarshal)) line) ≡ true

-- The client sends no text with a fault in its form: whatever the server replies, `ParseCommand` finds
-- each text that a session over lines that passed `validate`, with the commands of `Hello`, sends
-- to be neither an unknown command nor a text that the pattern of its format does not match.
pub run_session-formed :
    (unmarshal : Text → Option Document) (reply : ℕ → Option Text) (j : ℕ) (lines : List Text)
    → All (IsPrompted unmarshal) lines
    → All (λ msg. is_formed (parse_command unmarshal msg) ≡ true) (run_session reply j lines).calls
unfolding run_session
run_session-formed unmarshal reply j [] h = tt
run_session-formed unmarshal reply j (line ∷ lines) h =
    let rest = run_session-formed unmarshal reply (suc j) lines h.1 in
    elim (Bool-cases (is_exit line)) [
      | inl e ↦ rw e tt
      | inr e ↦
          let formed : is_formed (parse_command unmarshal line) ≡ true =
            sym (validate-parse_command unmarshal line e) ∙ h.0 in
          elim (Option-cases (reply j)) [
            | inl f ↦ rw (e, f) (formed, tt)
            | inr (doc, f) ↦ rw (e, f) (formed, rest)
          ]
    ]

-- The replies to calls, from the j-th on.
abbrev pub replies : (ℕ → Text) → ℕ → List Text → List Text
replies reply j [] = []
replies reply j (l ∷ ls) = reply j ∷ replies reply (suc j) ls

-- A session ends at its first exit: if the server answers every call, the lines before an exit, which
-- are none themselves, are sent in order, each reply is printed, and no later line counts.
pub run_session-exits :
    (reply : ℕ → Text) (j : ℕ) (before after : List Text) (line : Text)
    → All (λ l. is_exit l ≡ false) before
    → is_exit line ≡ true
    → run_session (λ k. some (reply k)) j (before ++ line ∷ after)
      ≡ record { calls = before; printed = replies reply j before; ending = exited }
unfolding run_session
run_session-exits reply j [] after line h e = rw e refl
run_session-exits reply j (l ∷ before) after line h e =
    rw (h.0, run_session-exits reply (suc j) before after line h.1 e) refl
