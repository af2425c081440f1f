-- ===== src/Tests/Sessions.antt =====
-- Examples for the main loops of client.go and preseed.go.
use bydb.Base.{Text, List, true, false, ◌≡◌, refl, codes, [], ◌∷◌, some, All, text_eq, arith}
use bydb.Base.Int.{pos}
use bydb.Client.{hello, validate, is_exit, check, first_word}
use bydb.Client.Forms.{is_formed}
use bydb.Client.Session.{run_session, run_session-formed}
use bydb.Command.Formats.{parse_command}
use bydb.Command.Pattern.Defs.{matches}
use bydb.Preseed.Main.{World, main}
use bydb.Preseed.Slices.{IsShare}
use bydb.Preseed.Served.{whole_run, main-served}
use bydb.Tests.Fixtures.{decode}

-- A session of a read and an exit.
run_session-formed_example :
    All
      (λ msg. is_formed (parse_command decode msg) ≡ true)
      (run_session (λ j. some (codes "{a}")) 0 (codes "GET p a" ∷ codes "EXIT" ∷ [])).calls
run_session-formed_example =
    run_session-formed decode (λ j. some (codes "{a}")) 0 (codes "GET p a" ∷ codes "EXIT" ∷ [])
      (unfold hello validate check is_exit first_word matches text_eq in (refl, (refl, tt)))

-- Servers that accept every call at once.
abbrev accepting : World
accepting = record {
  creating = λ i. record { code = 200; duration = 1 };
  posting = λ i j. record { code = 200; duration = 1 };
  getting = λ i j. record { code = 200; duration = 1 };
  putting = λ i j. record { code = 200; duration = 1 };
  deleting = λ i j. record { code = 200; duration = 1 };
  dropping = λ i. record { code = 200; duration = 1 };
  create_time = 7;
  update_time = 8;
}

-- One partition and two words for two workers, with the flag that names only the deletion of
-- partitions.
main-served_example :
    (wss : List (List Text)) × (rest : List Text) × IsShare (codes "p" ∷ codes "q" ∷ []) 2 wss rest
    × (main
          (record {
            n_partitions = pos 1;
            n_words = pos 2;
            n_workers = pos 2;
            skip_delete = false;
            delete_part = true;
          })
          accepting
          (codes "p" ∷ codes "q" ∷ codes "r" ∷ [])
        ≡ record { sent = whole_run accepting (codes "p" ∷ []) wss false true; fine = true })
main-served_example =
    main-served accepting (codes "p" ∷ codes "q" ∷ codes "r" ∷ []) 2 1 2 false true (omega arith)
      (omega arith) (omega arith)
      (record {
        creating = λ i. refl;
        posting = λ i j. refl;
        getting = λ i j. refl;
        putting = λ i j. refl;
        deleting = λ i j. refl;
        dropping = λ i. refl;
      })
