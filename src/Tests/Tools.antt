-- ===== src/Tests/Tools.antt =====
-- Examples for client.go, preseed.go and logger/logger.go.
use bydb.Base.{
  ℕ, zero, suc, ◌≡◌, refl, Text, codes, List, [], ◌∷◌, Option, some, map, text_eq, arith,
}
use bydb.Base.Decimal.{print_uint}
use bydb.Client.{hello, validate, is_exit}
use bydb.Client.Forms.{is_accepted, is_formed}
use bydb.Client.Validate.{validate-parse_command}
use bydb.Command.Formats.{parse_command, command_formats}
use bydb.Command.Grammar.{get, del, put, post, create_part, delete_part, denoted}
use bydb.Command.Types.{ok}
use bydb.Document.{Document}
use bydb.Preseed.{
  Reply, TestBatch, TestResults, returned, run_calls_of, run_workers, run_calls, race, step_at,
  merge_step, format_get, format_del, format_put, format_post, format_create_part,
  format_delete_part, document_inner, jobs, run, commands_for, slices,
}
use bydb.Preseed.Durations.{all_durations}
use bydb.Preseed.Requests.{parse_command-preseed}
use bydb.Preseed.Slices.{IsShare, by_partition, jobs-words}
use bydb.Preseed.Reports.{IsReport, run-IsReport}
use bydb.Tests.Fixtures.{decode, doc_a}

validate-parse_command_example :
    is_accepted (validate (hello (command_formats decode)) (codes "GET p a"))
    ≡ is_formed (parse_command decode (codes "GET p a"))
validate-parse_command_example =
    validate-parse_command decode (codes "GET p a") (unfold is_exit text_eq in refl)

-- Two workers for three words.
abbrev batch : TestBatch
batch = record {
  n_workers = 2;
  partitions = codes "p" ∷ [];
  words = codes "a" ∷ codes "b" ∷ codes "c" ∷ [];
  format_command = format_get;
  servers = 3;
}

jobs-words_example :
    (wss : List (List Text)) × (rest : List Text) × (jobs batch
      ≡ some (map (by_partition format_get (codes "p" ∷ [])) wss))
    × IsShare batch.words 2 wss rest
jobs-words_example = jobs-words batch (omega arith) (omega arith)

-- Calls that take longer than 10 ms.
abbrev slow : ℕ → ℕ → Reply
slow i j = record { code = 200; duration = 20000000 }

abbrev sent : List (List Text)
sent = (codes "GET p a" ∷ []) ∷ (codes "GET p b" ∷ []) ∷ []

-- The first call takes 5 ms, the second 3 ms.
abbrev mixed : ℕ → ℕ → Reply
mixed zero j = record { code = 200; duration = 5000000 }
mixed (suc i) j = record { code = 200; duration = 3000000 }

-- Both workers check before either sets.
abbrev crossed : List ℕ
crossed = 0 ∷ 1 ∷ 1 ∷ 0 ∷ 0 ∷ 0 ∷ 1 ∷ 1 ∷ []

-- The shorter duration is lost.
lost_update :
    run batch mixed crossed ≡ returned (record { min_duration = 5000000; max_duration = 5000000 })
unfolding run run_calls_of jobs slices commands_for run_workers run_calls race step_at merge_step
lost_update = refl

run-IsReport_example :
    (r : TestResults) × (run batch mixed crossed ≡ returned r)
    × IsReport (all_durations mixed 0 sent) r
run-IsReport_example =
    run-IsReport batch mixed crossed sent (unfold jobs slices commands_for in refl)
      ((refl, tt), ((refl, tt), tt)) (λ e. cc (lost_update, e))

abbrev decode_any : Text → Option Document
decode_any t = some doc_a

parse_command-preseed_example :
    (parse_command decode_any (format_create_part (codes "p"))
      ≡ ok (denoted (create_part (codes "p"))))
    × (parse_command decode_any (format_post 5 (codes "p") (codes "a"))
        ≡ ok (denoted (post (document_inner 5 5 (codes "p") (codes "a")) doc_a)))
    × (parse_command decode_any (format_get (codes "p") (codes "a"))
        ≡ ok (denoted (get (codes "p") (codes "a"))))
    × (parse_command decode_any (format_put 5 7 (codes "p") (codes "a"))
        ≡ ok (denoted (put (print_uint 5) (document_inner 7 7 (codes "p") (codes "a")) 5 doc_a)))
    × (parse_command decode_any (format_del 7 (codes "p") (codes "a"))
        ≡ ok (denoted (del (codes "p") (codes "a") (print_uint 7) 7)))
    × (parse_command decode_any (format_delete_part (codes "p"))
        ≡ ok (denoted (delete_part (codes "p"))))
parse_command-preseed_example =
    parse_command-preseed decode_any (codes "p") (codes "a") 5 7 doc_a doc_a ((λ e. cc), (refl, tt))
      ((λ e. cc), (refl, tt)) (omega arith) (omega arith) refl refl
