-- ===== src/Preseed/Reports.antt =====
-- What `Run` of preseed.go returns in any order of the accesses of its workers to the shared results,
-- against the durations of all calls.
use bydb.Base.{
  ℕ, suc, ltb, inl, inr, Bool-cases, ◌⊎◌, ◌&&◌, ◌≤◌, ◌<◌, true, false, ◌≡◌, ◌≢◌, refl, sym, ap, ◌∙◌,
  subst, some, Text, List, [], ◌∷◌, ◌++◌, map, elem, All, All-map, All-append, arith,
}
use bydb.Preseed.{
  Reply, TestBatch, TestResults, start, start_min, jobs, run, returned, waiting, waited, Worker,
  Phase, checking_min, setting_min, checking_max, setting_max, over, ready, is_over, race, all_over,
}
use bydb.Preseed.Durations.{
  durations, all_durations, AllFine, count_all, count_all-IsMin, count_all-IsMax, own_of,
  run_calls_of-own_of,
}
use bydb.Preseed.Race.{IsSound, IsFitting, counts_min, counts_max, fits, race-IsSound}

elem-append_left :
    (x b : ℕ) (ds es : List ℕ) → elem x (b ∷ ds) ≡ true → elem x (b ∷ ds ++ es) ≡ true
elem-append_left x b [] es h = ground arith
elem-append_left x b (d ∷ ds) es h = ground (arith, elem-append_left x b ds es)

elem-append_right :
    (x b : ℕ) (ds es : List ℕ) → elem x (b ∷ es) ≡ true → elem x (b ∷ ds ++ es) ≡ true
elem-append_right x b [] es h = h
elem-append_right x b (d ∷ ds) es h = ground (arith, elem-append_right x b ds es h)

IsSound-append_right :
    (ds es : List ℕ) (r : TestResults)
    → IsSound (start_min ∷ es) (0 ∷ es) r
    → IsSound (start_min ∷ ds ++ es) (0 ∷ ds ++ es) r
IsSound-append_right ds es r s = record {
  bound = s.bound;
  low = elem-append_right r.min_duration start_min ds es s.low;
  high = elem-append_right r.max_duration 0 ds es s.high;
}

own_of-IsSound :
    (reply : ℕ → ℕ → Reply) (i : ℕ) (css : List (List Text))
    → All
        (IsSound (start_min ∷ all_durations reply i css) (0 ∷ all_durations reply i css))
        (own_of reply i css)
own_of-IsSound reply i [] = tt
own_of-IsSound reply i (cs ∷ css) =
    let ds = durations (reply i) 0 cs in
    let es = all_durations reply (suc i) css in
    let (below, all, here) = count_all-IsMin ds start in
    let (above, all', here') = count_all-IsMax ds start in
    (
      record {
        bound = below;
        low = elem-append_left _ start_min ds es here;
        high = elem-append_left _ 0 ds es here';
      },
      All-map _ _ (own_of reply (suc i) css) (IsSound-append_right ds es)
          (own_of-IsSound reply (suc i) css),
    )

ready-IsFitting :
    (lows highs : List ℕ) (res : TestResults) (own : List TestResults)
    → All (IsSound lows highs) own
    → All (IsFitting lows highs res) (map ready own)
unfolding IsFitting
ready-IsFitting lows highs res [] a = tt
ready-IsFitting lows highs res (w ∷ own) a = ((a.0, refl), ready-IsFitting lows highs res own a.1)

own-ready : (own : List TestResults) → map (λ (w : Worker). w.own) (map ready own) ≡ own
own-ready [] = refl
own-ready (w ∷ own) = ap (w ∷◌) (own-ready own)

-- The results of a worker that is over count.
abbrev Counts : TestResults → TestResults → Type 0
Counts res w = (counts_min res w && counts_max res w) ≡ true

is_over-eq-true : (p : Phase) → is_over p ≡ true → p ≡ over
is_over-eq-true over h = refl
is_over-eq-true checking_min h = cc
is_over-eq-true setting_min h = cc
is_over-eq-true checking_max h = cc
is_over-eq-true setting_max h = cc

all_over-Counts :
    (lows highs : List ℕ) (res : TestResults) (ws : List Worker)
    → all_over ws ≡ true
    → All (IsFitting lows highs res) ws
    → All (Counts res) (map (λ (w : Worker). w.own) ws)
unfolding IsFitting
all_over-Counts lows highs res [] h a = tt
all_over-Counts lows highs res (w ∷ ws) h a =
    let e : w.phase ≡ over = is_over-eq-true w.phase (ground arith) in
    (ap (fits res w.own) (sym e) ∙ a.0.1, all_over-Counts lows highs res ws (ground arith) a.1)

durations-not_below :
    (reply : ℕ → ℕ → Reply) (i : ℕ) (css : List (List Text)) (res : TestResults)
    → ltb res.min_duration start_min ≡ false
    → All (Counts res) (own_of reply i css)
    → All (start_min ≤◌) (all_durations reply i css)
durations-not_below reply i [] res h a = tt
durations-not_below reply i (cs ∷ css) res h a =
    let ds = durations (reply i) 0 cs in
    let (below, all, here) = count_all-IsMin ds start in
    let high : start_min ≤ (count_all ds start).min_duration = ground (arith, a.0) in
    All-append _ ds (all_durations reply (suc i) css)
      (All-map _ _ ds (λ d le. omega (arith, le, high)) all)
      (durations-not_below reply (suc i) css res h a.1)

durations-zero :
    (reply : ℕ → ℕ → Reply) (i : ℕ) (css : List (List Text)) (res : TestResults)
    → ltb 0 res.max_duration ≡ false
    → All (Counts res) (own_of reply i css)
    → All (◌≤ 0) (all_durations reply i css)
durations-zero reply i [] res h a = tt
durations-zero reply i (cs ∷ css) res h a =
    let ds = durations (reply i) 0 cs in
    let (above, all, here) = count_all-IsMax ds start in
    let low : (count_all ds start).max_duration ≤ 0 = ground (arith, a.0) in
    All-append _ ds (all_durations reply (suc i) css)
      (All-map _ _ ds (λ d le. omega (arith, le, low)) all)
      (durations-zero reply (suc i) css res h a.1)

-- What the results say of the durations of all calls: each is the value of the start or the duration of
-- a call, and it is that of the start only if no call passed it.
pub record IsReport (ds : List ℕ) (r : TestResults) : Type 0 where
  pub min_bound : r.min_duration ≤ start_min
  pub min_found : elem r.min_duration (start_min ∷ ds) ≡ true
  pub max_found : elem r.max_duration (0 ∷ ds) ≡ true
  pub min_missed : All (start_min ≤◌) ds ⊎ r.min_duration < start_min
  pub max_missed : All (◌≤ 0) ds ⊎ 0 < r.max_duration

-- A run whose calls are all answered with 200 returns, in any order of its workers' accesses to the shared
-- results in which it does not wait for ever for one of them. The shortest duration is 10e6 or that of a
-- call, at most 10e6, and less if a call took less; the longest is 0 or that of a call, and more than 0
-- if a call took more.
pub run-IsReport :
    (b : TestBatch) (reply : ℕ → ℕ → Reply) (order : List ℕ) (css : List (List Text))
    → jobs b ≡ some css
    → AllFine reply 0 css
    → run b reply order ≢ waiting
    → (r : TestResults) × (run b reply order ≡ returned r) × IsReport (all_durations reply 0 css) r
unfolding run
run-IsReport b reply order css j h ends =
    let ds = all_durations reply 0 css in
    let own = own_of reply 0 css in
    let sound = own_of-IsSound reply 0 css in
    let end = race order start (map ready own) in
    let (fine, fit, same) =
      race-IsSound (start_min ∷ ds) (0 ∷ ds) order start (map ready own)
        (record { bound = omega arith; low = ground arith; high = ground arith })
        (ready-IsFitting (start_min ∷ ds) (0 ∷ ds) start own sound) in
    let ran : run b reply order ≡ waited end =
      unfold run in rw (run_calls_of-own_of b reply css j h) refl in
    elim (Bool-cases (all_over end.1)) [
      | inr out ↦ absurd (ends (ran ∙ rw out refl))
      | inl all ↦
          let counts : All (Counts end.0) own =
            subst (All (Counts end.0)) (same ∙ own-ready own)
              (all_over-Counts (start_min ∷ ds) (0 ∷ ds) end.0 end.1 all fit) in
          (
            end.0,
            ran ∙ rw all refl,
            record {
              min_bound = fine.bound;
              min_found = fine.low;
              max_found = fine.high;
              min_missed = elim (Bool-cases (ltb end.0.min_duration start_min)) [
                | inl e ↦ inr (ground (arith, e))
                | inr e ↦ inl (durations-not_below reply 0 css end.0 e counts)
              ];
              max_missed = elim (Bool-cases (ltb 0 end.0.max_duration)) [
                | inl e ↦ inr (ground (arith, e))
                | inr e ↦ inl (durations-zero reply 0 css end.0 e counts)
              ];
            },
          )
    ]
