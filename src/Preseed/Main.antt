-- ===== src/Preseed/Main.antt =====
-- `main` of preseed.go: the partitions are created, the batches run, and the partitions deleted. The
-- words, the two times and the replies to all calls are parameters.
use bydb.Base.{
  ℕ, suc, Bool, true, false, not, ◌&&◌, Text, List, [], ◌∷◌, ◌++◌, Option, none, some, length, take,
  leb, ◌==◌, if◌then◌else◌,
}
use bydb.Base.Int.{ℤ, pos, negsuc}
use bydb.Preseed.{
  Reply, TestBatch, TestResults, jobs, run_calls_of, format_get, format_del, format_put,
  format_post, format_create_part, format_delete_part,
}

pub record Flags : Type 0 where
  pub n_partitions : ℤ
  pub n_words : ℤ
  pub n_workers : ℤ
  pub skip_delete : Bool
  pub delete_part : Bool

-- The replies to the calls of each part of a run, and the two times that `main` reads.
pub record World : Type 0 where
  pub creating : ℕ → Reply
  pub posting : ℕ → ℕ → Reply
  pub getting : ℕ → ℕ → Reply
  pub putting : ℕ → ℕ → Reply
  pub deleting : ℕ → ℕ → Reply
  pub dropping : ℕ → Reply
  pub create_time : ℕ
  pub update_time : ℕ

-- What `main` gives to the servers: a call of its own to the first one, or the work of a batch's
-- workers.
pub data Sent : Type 0 where
  call : Text → Sent
  batch : List (List Text) → Sent

-- `fine` is false if a panic or `log.Fatalf` ended the program; the workers of the last batch may
-- then have sent less.
pub record Trace : Type 0 where
  pub sent : List Sent
  pub fine : Bool

infixr 5 ◌then◌
abbrev pub ◌then◌ : Trace → Trace → Trace
t then u = if t.fine then (record { sent = t.sent ++ u.sent; fine = u.fine }) else t

abbrev pub nothing : Trace
nothing = record { sent = []; fine = true }

-- `words[0:n]`; the capacity of what `strings.Split` returns is its length.
unfoldable pub prefix : ℤ → List Text → Option (List Text)
prefix (negsuc n) ws = none
prefix (pos n) ws = if leb n (length ws) then some (take n ws) else none

-- The loop of `callCrud` over the partitions, from the i-th reply on.
unfoldable pub call_parts : (Text → Text) → (ℕ → Reply) → ℕ → List Text → Trace
call_parts format reply i [] = nothing
call_parts format reply i (part ∷ parts) =
    let rest = call_parts format reply (suc i) parts in
    let here : Sent = call (format part) in
    if (reply i).code == 200
    then (record { sent = here ∷ rest.sent; fine = rest.fine })
    else (record { sent = here ∷ []; fine = false })

-- The three servers of `gaddresses`.
abbrev pub batch_of : List Text → List Text → ℕ → (Text → Text → Text) → TestBatch
batch_of parts words workers format = record {
  n_workers = workers;
  partitions = parts;
  words = words;
  format_command = format;
  servers = 3;
}

abbrev pub started : Option (List (List Text)) → Option (List TestResults) → Trace
started none r = record { sent = []; fine = false }
started (some css) none = record { sent = batch css ∷ []; fine = false }
started (some css) (some r) = record { sent = batch css ∷ []; fine = true }

-- A batch; a channel of a negative size is a panic. What its workers do to the shared results sends
-- nothing and cannot fail.
unfoldable pub run_batch :
    List Text → List Text → ℤ → (Text → Text → Text) → (ℕ → ℕ → Reply) → Trace
unfolding jobs run_calls_of
run_batch parts words (negsuc n) format reply = record { sent = []; fine = false }
run_batch parts words (pos n) format reply =
    let b = batch_of parts words n format in started (jobs b) (run_calls_of b reply)

abbrev pub when : Bool → Trace → Trace
when true t = t
when false t = nothing

-- `main` from the words and the partitions on.
unfoldable pub run_main : Flags → World → List Text → List Text → Trace
unfolding call_parts run_batch
run_main flags w words parts =
    let batch_with = run_batch parts words flags.n_workers in
    call_parts format_create_part w.creating 0 parts
    then batch_with (format_post w.create_time) w.posting
    then batch_with format_get w.getting
    then batch_with (format_put w.create_time w.update_time) w.putting
    then when (not flags.skip_delete && not flags.delete_part)
        (batch_with (format_del w.update_time) w.deleting)
    then when (not flags.skip_delete) (call_parts format_delete_part w.dropping 0 parts)

abbrev pub with_parts : Flags → World → List Text → Option (List Text) → Trace
with_parts flags w words none = record { sent = []; fine = false }
with_parts flags w words (some parts) = run_main flags w words parts

abbrev pub with_words : Flags → World → List Text → Option (List Text) → Trace
with_words flags w all_words none = record { sent = []; fine = false }
with_words flags w all_words (some words) =
    with_parts flags w words (prefix flags.n_partitions all_words)

-- `main`
unfoldable pub main : Flags → World → List Text → Trace
unfolding run_main prefix
main flags w all_words = with_words flags w all_words (prefix flags.n_words all_words)
