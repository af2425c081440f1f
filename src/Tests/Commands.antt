-- ===== src/Tests/Commands.antt =====
-- Examples for command/command.go.
use bydb.Base.{◌≡◌, ◌≢◌, refl, codes}
use bydb.Base.Decimal.{parse_uint, parse_int}
use bydb.Command.Formats.{parse_command, test, run, parse_del}
use bydb.Command.Grammar.{del}
use bydb.Command.Pattern.Defs.{matches, find_string_submatch}
use bydb.Command.RoundTrip.{parse_command-print}
use bydb.Command.Sound.{Meaning, parse_command_sound}
use bydb.Command.Safe.{parse_command_safe}
use bydb.Command.Types.{ok, err, index_panic, invalid_format}
use bydb.Tests.Runs.{run_update}
use bydb.Tests.Fixtures.{decode, del_a}

parse_command-print_example : parse_command decode (codes "DEL p a 5") ≡ ok del_a
unfolding parse_int parse_uint
parse_command-print_example =
    parse_command-print decode (del (codes "p") (codes "a") (codes "5") 5)
      ((λ e. cc, (refl, tt)), (λ e. cc, (refl, tt)), (λ e. cc, (refl, tt)), refl)

del_a_parsed : parse_command decode (codes "DEL p a 5") ≡ ok del_a
unfolding parse_command test run matches find_string_submatch parse_del parse_int parse_uint
del_a_parsed = refl

parse_command_sound_example : Meaning decode (codes "DEL p a 5") del_a
parse_command_sound_example = parse_command_sound decode (codes "DEL p a 5") del_a_parsed

-- The commands without a timestamp that main_test.go expects to parse.
untimed_del : parse_command decode (codes "DEL omanom 1234") ≡ err (invalid_format (codes "DEL"))
unfolding run_update
untimed_del = refl

untimed_put : parse_command decode (codes "PUT {a}") ≡ err (invalid_format (codes "PUT"))
unfolding run_update
untimed_put = refl

-- A command that lacks a group.
parse_command_safe_example : parse_command decode (codes "DEL p a") ≢ err index_panic
parse_command_safe_example = parse_command_safe decode (codes "DEL p a")
