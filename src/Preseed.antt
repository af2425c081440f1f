-- ===== src/Preseed.antt =====
-- preseed.go: the load generator's `TestBatch.Run` and the commands that it sends. A worker's calls are
-- answered by a parameter, the reply to each call of each worker. The workers share only the results of
-- the run, which each checks and sets at its end with no lock; the order of those steps is a parameter.
pub mod Slices
pub mod Durations
pub mod Race
pub mod Reports
pub mod Requests
pub mod Main
pub mod Served
use bydb.Base.{
  ℕ, zero, suc, ◌+◌, ◌/◌, ◌%◌, Text, codes, List, [], ◌∷◌, ◌++◌, map, Option, none, some, length,
  Bool, true, false, ◌&&◌, take, drop, ltb, ◌==◌, if◌then◌else◌,
}
use bydb.Base.Decimal.{print_uint}

-- The fields of `pb.Response` that `Run` reads.
pub record Reply : Type 0 where
  pub code : ℕ
  pub duration : ℕ

-- `servers` is the number of servers.
pub record TestBatch : Type 0 where
  pub n_workers : ℕ
  pub partitions : List Text
  pub words : List Text
  pub format_command : Text → Text → Text
  pub servers : ℕ

pub record TestResults : Type 0 where
  pub min_duration : ℕ
  pub max_duration : ℕ

-- The words of each worker: `n` slices of `k` words, from the front of the buffer.
unfoldable pub slices : ℕ → ℕ → List Text → List (List Text)
slices zero k buf = []
slices (suc n) k buf = take k buf ∷ slices n k (drop k buf)

-- What a worker sends: for each partition, the command of each word.
unfoldable pub commands_for : TestBatch → List Text → List Text → List Text
commands_for b [] words = []
commands_for b (part ∷ parts) words =
    map (b.format_command part) words ++ commands_for b parts words

-- 10e6
abbrev pub start_min : ℕ
start_min = 10000000

abbrev pub shorter : ℕ → ℕ → ℕ
shorter d lo = if ltb d lo then d else lo

abbrev pub longer : ℕ → ℕ → ℕ
longer d hi = if ltb hi d then d else hi

abbrev pub counted : ℕ → TestResults → TestResults
counted d r = record {
  min_duration = shorter d r.min_duration;
  max_duration = longer d r.max_duration;
}

-- The loops of a worker over its commands, from its j-th call; `none` is `log.Fatalf`, which ends the
-- program.
unfoldable pub run_calls : (ℕ → Reply) → ℕ → List Text → TestResults → Option TestResults
run_calls reply j [] r = some r
run_calls reply j (c ∷ cs) r =
    let rest = run_calls reply (suc j) cs (counted (reply j).duration r) in
    if (reply j).code == 200 then rest else none

abbrev pub start : TestResults
start = record { min_duration = start_min; max_duration = 0 }

abbrev pub or_fatal {ℓ κ} : {A : Type ℓ} {B : Type κ} → (A → Option B) → Option A → Option B
or_fatal f none = none
or_fatal f (some a) = f a

-- What each worker from the i-th on finds of its own calls.
unfoldable pub run_workers : (ℕ → ℕ → Reply) → ℕ → List (List Text) → Option (List TestResults)
unfolding run_calls
run_workers reply i [] = some []
run_workers reply i (cs ∷ css) =
    or_fatal (λ w. or_fatal (λ ws. some (w ∷ ws)) (run_workers reply (suc i) css))
      (run_calls (reply i) 0 cs start)

-- What a worker does next once its calls are over.
pub data Phase : Type 0 where
  checking_min setting_min checking_max setting_max over : Phase

pub record Worker : Type 0 where
  pub own : TestResults
  pub phase : Phase

abbrev pub ready : TestResults → Worker
ready w = record { own = w; phase = checking_min }

-- One access of a worker to the results of the run.
unfoldable pub merge_step : TestResults → TestResults → Phase → TestResults × Phase
merge_step res w checking_min =
    (res, if ltb w.min_duration res.min_duration then setting_min else checking_max)
merge_step res w setting_min = (record res { min_duration = w.min_duration }, checking_max)
merge_step res w checking_max =
    (res, if ltb res.max_duration w.max_duration then setting_max else over)
merge_step res w setting_max = (record res { max_duration = w.max_duration }, over)
merge_step res w over = (res, over)

-- The i-th worker makes its next access.
unfoldable pub step_at : ℕ → TestResults → List Worker → TestResults × List Worker
unfolding merge_step
step_at i res [] = (res, [])
step_at zero res (w ∷ ws) =
    let (res', phase) = merge_step res w.own w.phase in (res', record w { phase = phase } ∷ ws)
step_at (suc i) res (w ∷ ws) = let (res', ws') = step_at i res ws in (res', w ∷ ws')

-- The accesses of the workers in an order.
unfoldable pub race : List ℕ → TestResults → List Worker → TestResults × List Worker
unfolding step_at
race [] res ws = (res, ws)
race (i ∷ order) res ws = let (res', ws') = step_at i res ws in race order res' ws'

abbrev pub is_over : Phase → Bool
is_over over = true
is_over _ = false

abbrev pub all_over : List Worker → Bool
all_over [] = true
all_over (w ∷ ws) = is_over w.phase && all_over ws

-- A run is ended by a panic or `log.Fatalf`, waits for a worker, or returns.
pub data Run : Type 0 where
  ended waiting : Run
  returned : TestResults → Run

abbrev pub waited : TestResults × List Worker → Run
waited (res, ws) = if all_over ws then returned res else waiting

-- The commands of each worker. A run without workers divides by zero, and one without servers has no
-- server to call; both panic.
unfoldable pub jobs : TestBatch → Option (List (List Text))
unfolding slices commands_for
jobs b =
    if b.n_workers == 0
    then none
    else if b.servers == 0
    then none
    else some (
        map (commands_for b b.partitions)
          (slices b.n_workers (length b.words / b.n_workers) b.words))

-- The server that the i-th worker calls.
unfoldable pub server_no : TestBatch → ℕ → ℕ
server_no b i = i % b.servers

-- The loops of all workers; `none` is a run that a panic or `log.Fatalf` ends.
unfoldable pub run_calls_of : TestBatch → (ℕ → ℕ → Reply) → Option (List TestResults)
unfolding jobs run_workers
run_calls_of b reply = or_fatal (run_workers reply 0) (jobs b)

abbrev pub merged_in : List ℕ → Option (List TestResults) → Run
unfolding race
merged_in order none = ended
merged_in order (some own) = waited (race order start (map ready own))

-- `Run`, with the accesses of its workers to the shared results in an order. A worker's own calls touch
-- nothing shared, so they come first.
unfoldable pub run : TestBatch → (ℕ → ℕ → Reply) → List ℕ → Run
unfolding run_calls_of race
run b reply order = merged_in order (run_calls_of b reply)

-- The commands of `main` by partition and word.
abbrev pub format_get : Text → Text → Text
format_get part word = codes "GET " ++ (part ++ (codes " " ++ word))

abbrev pub format_del : ℕ → Text → Text → Text
format_del update_time part word =
    codes "DEL " ++ (part ++ (codes " " ++ (word ++ (codes " " ++ print_uint update_time))))

abbrev pub format_create_part : Text → Text
format_create_part part = codes "CREATE_PART " ++ part

abbrev pub format_delete_part : Text → Text
format_delete_part part = codes "DELETE_PART " ++ part

-- The document of the POST and PUT commands, less its braces.
abbrev pub document_inner : ℕ → ℕ → Text → Text → Text
document_inner updated created part word =
    codes " \"id\":\""
    ++ (word
        ++ (codes "\", \"part\":\""
            ++ (part
                ++ (codes "\", \"index\":{ \"text\":\""
                    ++ (word
                        ++ (codes "\" }, \"block\":{ \"hide\":\"me\" }, \"categories\":[ \""
                            ++ (part
                                ++ (codes "="
                                    ++ (word
                                        ++ (codes "\" ], \"updated\":"
                                            ++ (print_uint updated
                                                ++ (codes ", \"created\":"
                                                    ++ (print_uint created ++ codes " ")))))))))))))

abbrev pub document_text : ℕ → ℕ → Text → Text → Text
document_text updated created part word =
    b'{' ∷ (document_inner updated created part word ++ b'}' ∷ [])

abbrev pub format_post : ℕ → Text → Text → Text
format_post create_time part word = codes "POST " ++ document_text create_time create_time part word

abbrev pub format_put : ℕ → ℕ → Text → Text → Text
format_put create_time update_time part word =
    codes "PUT "
    ++ (print_uint create_time ++ (codes " " ++ document_text update_time update_time part word))
