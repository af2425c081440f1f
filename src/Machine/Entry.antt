-- ===== src/Machine/Entry.antt =====
-- The records of statemachine/statemachine.go that an update works on, and the commands' match.
use bydb.Base.{
  ℕ, Bool, ◌&&◌, ◌||◌, Text, List, [], ◌∷◌, Option, none, some, text_eq, reverse, if◌then◌else◌,
}
use bydb.Document.{Document}
use bydb.Command.Types.{Command}

-- dragonboat's `sm.Entry`: its index in the log, its command, and `Result.Value`.
pub record LogEntry : Type 0 where
  pub index : ℕ
  pub cmd : Text
  pub value : ℕ

-- `entry` is the place of the log entry that the pointer `Entry` leads to, or none for nil.
pub record UpdateEntry : Type 0 where
  pub entry : Option ℕ
  pub cmd : Command
  pub existing_doc : Option Document
  pub part_exists : Bool
  pub index : ℕ
  pub shard_id : ℕ

-- `getFirstRune`: the zero rune for the empty string.
abbrev pub get_first_rune : Text → ℕ
get_first_rune [] = 0
get_first_rune (c ∷ cs) = c

-- The test of the loop in `findCommandInPending`.
unfoldable pub concerns : Command → Command → Bool
concerns cmd pending =
    (pending.is_part && text_eq cmd.part pending.part)
    || (text_eq cmd.id pending.id && text_eq cmd.part pending.part)

unfoldable pub first_concerning : Command → List UpdateEntry → Option Command
first_concerning cmd [] = none
first_concerning cmd (p ∷ ps) =
    let rest = first_concerning cmd ps in if concerns cmd p.cmd then some p.cmd else rest

-- `findCommandInPending`: the queue from its end.
unfoldable pub find_command_in_pending : List UpdateEntry → Command → Option Command
unfolding first_concerning
find_command_in_pending pending cmd = first_concerning cmd (reverse pending)
