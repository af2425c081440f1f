-- ===== src/Preseed/Slices.antt =====
-- Which words the workers of `Run` of preseed.go go through.
use bydb.Base.{
  ℕ, zero, suc, ◌*◌, ◌/◌, ◌%◌, ◌-◌, ◌≤◌, ◌≡◌, refl, sym, ap, ◌∙◌, Text, List, [], ◌∷◌, ◌++◌, length,
  All, map, some, take, drop, arith,
}
use mathlib.Core.List.{append_assoc}
use native.Mathlib.Nat.{mod-eq-sub-mul-div, mul-div-le}
use bydb.Preseed.{TestBatch, slices, jobs, commands_for}

abbrev pub concat : List (List Text) → List Text
concat [] = []
concat (ws ∷ wss) = ws ++ concat wss

take-drop : (k : ℕ) (ws : List Text) → take k ws ++ drop k ws ≡ ws
take-drop zero ws = refl
take-drop (suc k) [] = refl
take-drop (suc k) (w ∷ ws) = ap (w ∷◌) (take-drop k ws)

length-drop : (k : ℕ) (ws : List Text) → length (drop k ws) ≡ length ws - k
length-drop zero ws = omega arith
length-drop (suc k) [] = omega arith
length-drop (suc k) (w ∷ ws) = omega (arith, length-drop k ws)

abbrev unread : ℕ → ℕ → List Text → List Text
unread zero k ws = ws
unread (suc n) k ws = unread n k (drop k ws)

concat-slices : (n k : ℕ) (ws : List Text) → concat (slices n k ws) ++ unread n k ws ≡ ws
unfolding slices
concat-slices zero k ws = refl
concat-slices (suc n) k ws =
    append_assoc (take k ws) (concat (slices n k (drop k ws))) (unread n k (drop k ws))
    ∙ ap (take k ws ++◌) (concat-slices n k (drop k ws))
    ∙ take-drop k ws

length-unread : (n k : ℕ) (ws : List Text) → length (unread n k ws) ≡ length ws - n * k
length-unread zero k ws = omega arith
length-unread (suc n) k ws = grind (arith, length-unread n k (drop k ws), length-drop k ws)

length-slices : (n k : ℕ) (ws : List Text) → length (slices n k ws) ≡ n
unfolding slices
length-slices zero k ws = omega arith
length-slices (suc n) k ws = omega (arith, length-slices n k (drop k ws))

length-take : (k : ℕ) (ws : List Text) → k ≤ length ws → length (take k ws) ≡ k
length-take zero ws h = omega arith
length-take (suc k) [] h = absurd (omega arith)
length-take (suc k) (w ∷ ws) h = omega (arith, length-take k ws (omega arith))

slices-lengths :
    (n k : ℕ) (ws : List Text) → n * k ≤ length ws → All (λ s. length s ≡ k) (slices n k ws)
unfolding slices
slices-lengths zero k ws h = tt
slices-lengths (suc n) k ws h = (
  length-take k ws (grind arith),
  slices-lengths n k (drop k ws) (grind (arith, length-drop k ws)),
)

-- The specification of a share: the words in order in as many slices as there are workers, each of as many
-- words as the quotient, and a rest of as many as the remainder.
abbrev pub IsShare : List Text → ℕ → List (List Text) → List Text → Type 0
IsShare words n wss rest =
    (length wss ≡ n)
    × All (λ ws. length ws ≡ length words / n) wss
    × (concat wss ++ rest ≡ words)
    × (length rest ≡ length words % n)

pub slices-IsShare :
    (words : List Text) (n : ℕ)
    → 1 ≤ n
    → (rest : List Text) × IsShare words n (slices n (length words / n) words) rest
slices-IsShare words n h = (
  unread n (length words / n) words,
  (
    length-slices n (length words / n) words,
    slices-lengths n (length words / n) words (mul-div-le (length words) n),
    concat-slices n (length words / n) words,
    length-unread n (length words / n) words ∙ sym (mod-eq-sub-mul-div (length words) n),
  ),
)

-- The specification of a worker's commands: for one partition after the other, one for each of its words.
abbrev pub by_partition : (Text → Text → Text) → List Text → List Text → List Text
by_partition format parts words = concat (map (λ part. map (format part) words) parts)

commands_for-by_partition :
    (b : TestBatch) (parts words : List Text)
    → commands_for b parts words ≡ by_partition b.format_command parts words
unfolding commands_for
commands_for-by_partition b [] words = refl
commands_for-by_partition b (part ∷ parts) words =
    ap (map (b.format_command part) words ++◌) (commands_for-by_partition b parts words)

pub map-commands_for :
    (b : TestBatch) (parts : List Text) (wss : List (List Text))
    → map (commands_for b parts) wss ≡ map (by_partition b.format_command parts) wss
map-commands_for b parts [] = refl
map-commands_for b parts (ws ∷ wss) =
    ap (◌∷ map (commands_for b parts) wss) (commands_for-by_partition b parts ws)
    ∙ ap (by_partition b.format_command parts ws ∷◌) (map-commands_for b parts wss)

-- In a run that has workers and servers, each worker sends, for one partition after the other, the
-- commands of the words of its slice in their order. The slices cut the words in order into as many
-- pieces as there are workers, of equal length, but leave out the last words, as many as the
-- remainder of the words by the workers.
pub jobs-words :
    (b : TestBatch)
    → 1 ≤ b.n_workers
    → 1 ≤ b.servers
    → (wss : List (List Text)) × (rest : List Text) × (jobs b
        ≡ some (map (by_partition b.format_command b.partitions) wss))
      × IsShare b.words b.n_workers wss rest
unfolding jobs
jobs-words b h h' =
    let wss = slices b.n_workers (length b.words / b.n_workers) b.words in
    let (rest, share) = slices-IsShare b.words b.n_workers h in
    let there : jobs b ≡ some (map (commands_for b b.partitions) wss) =
      unfold jobs in ground arith in
    (wss, rest, there ∙ ap some (map-commands_for b b.partitions wss), share)
