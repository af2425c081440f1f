-- ===== src/Preseed/Durations.antt =====
-- The results of `Run` of preseed.go against the durations of all calls, if no two workers access them at
-- the same time.
use bydb.Base.{
  ℕ, zero, suc, map, ◌≤◌, true, ◌≡◌, refl, Text, List, [], ◌∷◌, ◌++◌, some, elem, All, arith,
}
use bydb.Preseed.{
  Reply, TestBatch, TestResults, shorter, longer, counted, start, run_calls, run_workers, jobs,
  run_calls_of, Worker, over,
}

-- The durations of a worker's calls from the j-th on, and of all workers from the i-th on.
abbrev pub durations : (ℕ → Reply) → ℕ → List Text → List ℕ
durations reply j [] = []
durations reply j (c ∷ cs) = (reply j).duration ∷ durations reply (suc j) cs

abbrev pub all_durations : (ℕ → ℕ → Reply) → ℕ → List (List Text) → List ℕ
all_durations reply i [] = []
all_durations reply i (cs ∷ css) = durations (reply i) 0 cs ++ all_durations reply (suc i) css

-- Whether each call is answered with 200.
abbrev IsFine : (ℕ → Reply) → ℕ → List Text → Type 0
IsFine reply j [] = Unit
IsFine reply j (c ∷ cs) = ((reply j).code ≡ 200) × IsFine reply (suc j) cs

abbrev pub AllFine : (ℕ → ℕ → Reply) → ℕ → List (List Text) → Type 0
AllFine reply i [] = Unit
AllFine reply i (cs ∷ css) = IsFine (reply i) 0 cs × AllFine reply (suc i) css

-- What a worker that is alone does to the results of the run.
abbrev merged : TestResults → TestResults → TestResults
merged w res = record {
  min_duration = shorter w.min_duration res.min_duration;
  max_duration = longer w.max_duration res.max_duration;
}

-- The results once durations have been counted into them.
abbrev pub count_all : List ℕ → TestResults → TestResults
count_all [] r = r
count_all (d ∷ ds) r = count_all ds (counted d r)

run_calls-count_all :
    (reply : ℕ → Reply) (j : ℕ) (cs : List Text) (r : TestResults)
    → IsFine reply j cs
    → run_calls reply j cs r ≡ some (count_all (durations reply j cs) r)
unfolding run_calls
run_calls-count_all reply j [] r h = refl
run_calls-count_all reply j (c ∷ cs) r h =
    rw h.0 (run_calls-count_all reply (suc j) cs (counted (reply j).duration r) h.1)

-- The first result is the least of a bound and some durations, and the second the greatest.
abbrev pub IsMin : ℕ → ℕ → List ℕ → Type 0
IsMin x bound ds = (x ≤ bound) × All (x ≤◌) ds × (elem x (bound ∷ ds) ≡ true)

abbrev pub IsMax : ℕ → ℕ → List ℕ → Type 0
IsMax x bound ds = (bound ≤ x) × All (◌≤ x) ds × (elem x (bound ∷ ds) ≡ true)

pub count_all-IsMin :
    (ds : List ℕ) (r : TestResults) → IsMin (count_all ds r).min_duration r.min_duration ds
count_all-IsMin [] r = (omega arith, tt, ground arith)
count_all-IsMin (d ∷ ds) r =
    let (below, all, here) = count_all-IsMin ds (counted d r) in
    (ground arith, (ground arith, all), ground arith)

pub count_all-IsMax :
    (ds : List ℕ) (r : TestResults) → IsMax (count_all ds r).max_duration r.max_duration ds
count_all-IsMax [] r = (omega arith, tt, ground arith)
count_all-IsMax (d ∷ ds) r =
    let (above, all, here) = count_all-IsMax ds (counted d r) in
    (ground arith, (ground arith, all), ground arith)

-- What each worker finds.
abbrev pub own_of : (ℕ → ℕ → Reply) → ℕ → List (List Text) → List TestResults
own_of reply i [] = []
own_of reply i (cs ∷ css) = count_all (durations (reply i) 0 cs) start ∷ own_of reply (suc i) css

run_workers-own_of :
    (reply : ℕ → ℕ → Reply) (i : ℕ) (css : List (List Text))
    → AllFine reply i css
    → run_workers reply i css ≡ some (own_of reply i css)
unfolding run_workers
run_workers-own_of reply i [] h = refl
run_workers-own_of reply i (cs ∷ css) h =
    rw (run_calls-count_all (reply i) 0 cs start h.0, run_workers-own_of reply (suc i) css h.1) refl

pub run_calls_of-own_of :
    (b : TestBatch) (reply : ℕ → ℕ → Reply) (css : List (List Text))
    → jobs b ≡ some css
    → AllFine reply 0 css
    → run_calls_of b reply ≡ some (own_of reply 0 css)
unfolding run_calls_of
run_calls_of-own_of b reply css j h = rw j (run_workers-own_of reply 0 css h)

-- The specification: the workers access the shared results one behind the other.
abbrev pub in_turn : ℕ → List ℕ
in_turn zero = []
in_turn (suc n) = 0 ∷ 0 ∷ 0 ∷ 0 ∷ map suc (in_turn n)

abbrev finished : TestResults → Worker
finished w = record { own = w; phase = over }
