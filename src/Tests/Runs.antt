-- ===== src/Tests/Runs.antt =====
-- `Update` at concrete data. The examples unfold `run_update` for all that it computes with.
use bydb.Base.{ℕ, List, Option, text_eq}
use bydb.Base.Decimal.{parse_uint, parse_int}
use bydb.Base.Int.{int_eq}
use bydb.Bolt.Model.{Store, assoc_bolt, has_bucket, lookup, get}
use bydb.Command.Formats.{
  parse_command, test, run, first_format, parse_get, parse_del, parse_put, parse_post,
  parse_create_part, parse_delete_part,
}
use bydb.Command.Pattern.Defs.{matches, find_string_submatch}
use bydb.Machine.Entry.{LogEntry, concerns, first_concerning, find_command_in_pending}
use bydb.Machine.Update.{
  Machine, Updated, update, update_shards, find_existing, settle, judge, look_in_pending,
  parse_updates,
}
use bydb.Shard.Defs.{find_existing_document, find_existing_documents_for_updates}
use bydb.Tests.Fixtures.{decode}

unfoldable pub run_update :
    List ℕ → Machine Store → List LogEntry → Option (Updated assoc_bolt decode)
unfolding update parse_updates parse_command test run matches find_string_submatch parse_get
    parse_del parse_put parse_post parse_create_part parse_delete_part parse_int parse_uint
    first_format update_shards find_existing settle look_in_pending find_command_in_pending
    first_concerning concerns has_bucket get lookup text_eq int_eq
    find_existing_documents_for_updates find_existing_document judge
run_update order m us = update assoc_bolt decode order m us
