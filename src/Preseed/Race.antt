-- ===== src/Preseed/Race.antt =====
-- The results of `Run` of preseed.go in any order of the accesses of its workers to them. The workers check
-- and set them with no lock, so that a worker can overwrite the shorter duration of another.
use bydb.Base.{
  ℕ, zero, suc, ltb, leb, ◌&&◌, ◌||◌, ◌≤◌, Bool, true, ◌≡◌, refl, ap, ◌∙◌, List, [], ◌∷◌, map, elem,
  All, All-map, arith,
}
use bydb.Preseed.{
  TestResults, start_min, Worker, Phase, checking_min, setting_min, checking_max, setting_max, over,
  merge_step, step_at, race,
}

-- The results of the run are below 10 ms, or not 0, if those of a worker are.
abbrev pub counts_min : TestResults → TestResults → Bool
counts_min res w = leb start_min w.min_duration || ltb res.min_duration start_min

abbrev pub counts_max : TestResults → TestResults → Bool
counts_max res w = leb w.max_duration 0 || ltb 0 res.max_duration

-- What is known of the results of the run when a worker is in a phase.
abbrev pub fits : TestResults → TestResults → Phase → Bool
fits res w checking_min = true
fits res w setting_min = ltb w.min_duration start_min
fits res w checking_max = counts_min res w
fits res w setting_max = counts_min res w && ltb 0 w.max_duration
fits res w over = counts_min res w && counts_max res w

-- The results of the run are such as a call can have, or those of the start.
pub record IsSound (lows highs : List ℕ) (r : TestResults) : Type 0 where
  pub bound : r.min_duration ≤ start_min
  pub low : elem r.min_duration lows ≡ true
  pub high : elem r.max_duration highs ≡ true

-- A later state of the results has not come back to that of the start.
IsLater : TestResults → TestResults → Type 0
IsLater res res' =
    (ltb res'.min_duration start_min || leb start_min res.min_duration ≡ true)
    × (ltb 0 res'.max_duration || leb res.max_duration 0 ≡ true)

fits-IsLater :
    (res res' w : TestResults) (p : Phase)
    → IsLater res res'
    → fits res w p ≡ true
    → fits res' w p ≡ true
unfolding IsLater
fits-IsLater res res' w checking_min l h = refl
fits-IsLater res res' w setting_min l h = h
fits-IsLater res res' w checking_max l h = ground (arith, l.0, l.1)
fits-IsLater res res' w setting_max l h = ground (arith, l.0, l.1)
fits-IsLater res res' w over l h = ground (arith, l.0, l.1)

module _ (lows highs : List ℕ) where
  merge_step-IsSound :
      (res w : TestResults) (p : Phase)
      → IsSound lows highs res
      → IsSound lows highs w
      → fits res w p ≡ true
      → IsSound lows highs (merge_step res w p).0
        × IsLater res (merge_step res w p).0
        × (fits (merge_step res w p).0 w (merge_step res w p).1 ≡ true)
  unfolding merge_step IsLater
  merge_step-IsSound res w checking_min r s h =
      let b = r.bound in (r, (ground arith, ground arith), ground arith)
  merge_step-IsSound res w setting_min r s h =
      let b = s.bound in
      (
        record { bound = s.bound; low = s.low; high = r.high },
        (ground arith, ground arith),
        ground arith,
      )
  merge_step-IsSound res w checking_max r s h = (r, (ground arith, ground arith), ground arith)
  merge_step-IsSound res w setting_max r s h = (
    record { bound = r.bound; low = r.low; high = s.high },
    (ground arith, ground arith),
    ground arith,
  )
  merge_step-IsSound res w over r s h = (r, (ground arith, ground arith), h)

  -- A worker with sound results of its own that fits the results of the run.
  unfoldable pub IsFitting : TestResults → Worker → Type 0
  IsFitting res w = IsSound lows highs w.own × (fits res w.own w.phase ≡ true)

  step_at-IsSound :
      (i : ℕ) (res : TestResults) (ws : List Worker)
      → IsSound lows highs res
      → All (IsFitting res) ws
      → IsSound lows highs (step_at i res ws).0
        × IsLater res (step_at i res ws).0
        × All (IsFitting (step_at i res ws).0) (step_at i res ws).1
        × (map (λ w. w.own) (step_at i res ws).1 ≡ map (λ w. w.own) ws)
  unfolding step_at IsFitting
  step_at-IsSound i res [] r a = (r, unfold IsLater in (ground arith, ground arith), tt, refl)
  step_at-IsSound zero res (w ∷ ws) r a =
      let (sound, later, fit) = merge_step-IsSound res w.own w.phase r a.0.0 a.0.1 in
      (
        sound,
        later,
        (
          (a.0.0, fit),
          All-map (IsFitting res) _ ws (λ v x. (x.0, fits-IsLater res _ v.own v.phase later x.1))
              a.1,
        ),
        refl,
      )
  step_at-IsSound (suc i) res (w ∷ ws) r a =
      let (sound, later, all, same) = step_at-IsSound i res ws r a.1 in
      (
        sound,
        later,
        ((a.0.0, fits-IsLater res _ w.own w.phase later a.0.1), all),
        ap (w.own ∷◌) same,
      )

  pub race-IsSound :
      (order : List ℕ) (res : TestResults) (ws : List Worker)
      → IsSound lows highs res
      → All (IsFitting res) ws
      → IsSound lows highs (race order res ws).0
        × All (IsFitting (race order res ws).0) (race order res ws).1
        × (map (λ w. w.own) (race order res ws).1 ≡ map (λ w. w.own) ws)
  unfolding race
  race-IsSound [] res ws r a = (r, a, refl)
  race-IsSound (i ∷ order) res ws r a =
      let (sound, later, all, same) = step_at-IsSound i res ws r a in
      let (sound', all', same') =
        race-IsSound order (step_at i res ws).0 (step_at i res ws).1 sound all in
      (sound', all', same' ∙ same)
