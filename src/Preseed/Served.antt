-- ===== src/Preseed/Served.antt =====
-- What a run of the load generator of preseed.go does when the servers accept every call.
use bydb.Base.{
  ℕ, suc, Bool, true, false, not, ◌&&◌, ◌≤◌, ◌≡◌, refl, ap, Text, List, [], ◌∷◌, ◌++◌, map, some,
  length, take, ◌==◌, ◌/◌, if◌then◌else◌, arith,
}
use bydb.Base.Int.{pos}
use bydb.Preseed.{
  Reply, TestResults, counted, start, run_calls, run_workers, slices, commands_for, jobs,
  run_calls_of, format_get, format_del, format_put, format_post, format_create_part,
  format_delete_part,
}
use bydb.Preseed.Slices.{IsShare, by_partition, slices-IsShare, map-commands_for}
use bydb.Preseed.Main.{
  World, Sent, call, batch, Trace, ◌then◌, prefix, call_parts, batch_of, run_batch, when, run_main,
  main,
}

-- Every reply has the code 200.
abbrev pub AllServed : (ℕ → ℕ → Reply) → Type 0
AllServed reply = (i j : ℕ) → (reply i j).code ≡ 200

run_calls-served :
    (reply : ℕ → Reply) (j : ℕ) (cs : List Text) (r : TestResults)
    → ((k : ℕ) → (reply k).code ≡ 200)
    → (r' : TestResults) × (run_calls reply j cs r ≡ some r')
unfolding run_calls
run_calls-served reply j [] r h = (r, refl)
run_calls-served reply j (c ∷ cs) r h =
    let (r', e) = run_calls-served reply (suc j) cs (counted (reply j).duration r) h in
    (r', rw (h j) e)

run_workers-served :
    (reply : ℕ → ℕ → Reply) (i : ℕ) (css : List (List Text))
    → AllServed reply
    → (own : List TestResults) × (run_workers reply i css ≡ some own)
unfolding run_workers
run_workers-served reply i [] h = ([], refl)
run_workers-served reply i (cs ∷ css) h =
    let (w, e) = run_calls-served (reply i) 0 cs start (h i) in
    let (own, f) = run_workers-served reply (suc i) css h in (w ∷ own, rw (e, f) refl)

run_batch-served :
    (parts words : List Text) (n : ℕ) (format : Text → Text → Text) (reply : ℕ → ℕ → Reply)
    → 1 ≤ n
    → AllServed reply
    → run_batch parts words (pos n) format reply ≡ record {
      sent = batch (map (by_partition format parts) (slices n (length words / n) words)) ∷ [];
      fine = true;
    }
unfolding run_batch jobs run_calls_of
run_batch-served parts words n format reply h served =
    let some_workers : (n == 0) ≡ false = ground arith in
    let wss = slices n (length words / n) words in
    let b = batch_of parts words n format in
    let (own, e) = run_workers-served reply 0 (map (commands_for b parts) wss) served in
    rw (some_workers, e)
      (ap (λ (css : List (List Text)). record { sent = batch css ∷ []; fine = true })
        (map-commands_for b parts wss))

call_parts-served :
    (format : Text → Text) (reply : ℕ → Reply) (i : ℕ) (parts : List Text)
    → ((k : ℕ) → (reply k).code ≡ 200)
    → call_parts format reply i parts
      ≡ record { sent = map (λ part. call (format part)) parts; fine = true }
unfolding call_parts
call_parts-served format reply i [] h = refl
call_parts-served format reply i (part ∷ parts) h =
    rw (call_parts-served format reply (suc i) parts h, h i) refl

prefix-take : (n : ℕ) (ws : List Text) → n ≤ length ws → prefix (pos n) ws ≡ some (take n ws)
unfolding prefix
prefix-take n ws h = ground arith

-- The servers accept every call of a run.
pub record IsServed (w : World) : Type 0 where
  pub creating : (i : ℕ) → (w.creating i).code ≡ 200
  pub posting : AllServed w.posting
  pub getting : AllServed w.getting
  pub putting : AllServed w.putting
  pub deleting : AllServed w.deleting
  pub dropping : (i : ℕ) → (w.dropping i).code ≡ 200

-- The deletions that the two flags leave.
cleaned :
    (skip_delete delete_part : Bool) (dels : Sent) (drops : List Sent)
    → (when (not skip_delete && not delete_part) (record { sent = dels ∷ []; fine = true })
        then when (not skip_delete) (record { sent = drops; fine = true }))
      ≡ record {
        sent =
            (if not skip_delete && not delete_part then dels ∷ [] else [])
            ++ (if skip_delete then [] else drops);
        fine = true;
      }
cleaned skip_delete delete_part dels drops = ground arith

-- The specification: what a whole run sends, when each worker has its words.
abbrev pub whole_run : World → List Text → List (List Text) → Bool → Bool → List Sent
whole_run w parts wss skip_delete delete_part =
    map (λ part. call (format_create_part part)) parts
    ++ batch (map (by_partition (format_post w.create_time) parts) wss)
      ∷ batch (map (by_partition format_get parts) wss)
      ∷ batch (map (by_partition (format_put w.create_time w.update_time) parts) wss)
      ∷ ((if not skip_delete && not delete_part
            then batch (map (by_partition (format_del w.update_time) parts) wss) ∷ []
            else [])
          ++ (if skip_delete then [] else map (λ part. call (format_delete_part part)) parts))

-- With at least one worker, no more words and partitions than there are in the list, and servers that
-- accept every call, `main` runs to its end. It creates each partition; then each worker posts, gets and
-- puts its words in one partition after the other, and deletes them unless one of the two flags
-- forbids it; then each partition is deleted unless the clean-up is skipped. The workers have
-- slices of equal length of the words in order, less the last ones, as many as the remainder.
pub main-served :
    (w : World) (all_words : List Text) (words parts workers : ℕ) (skip_delete delete_part : Bool)
    → words ≤ length all_words
    → parts ≤ length all_words
    → 1 ≤ workers
    → IsServed w
    → (wss : List (List Text)) × (rest : List Text) × IsShare
        (take words all_words)
        workers
        wss
        rest
      × (main
            (record {
              n_partitions = pos parts;
              n_words = pos words;
              n_workers = pos workers;
              skip_delete = skip_delete;
              delete_part = delete_part;
            })
            w
            all_words
          ≡ record {
            sent = whole_run w (take parts all_words) wss skip_delete delete_part;
            fine = true;
          })
unfolding main run_main
main-served w all_words words parts workers skip_delete delete_part h h' h'' served =
    let the_parts : List Text = take parts all_words in
    let the_words : List Text = take words all_words in
    let wss = slices workers (length the_words / workers) the_words in
    let (rest, share) = slices-IsShare the_words workers h'' in
    let done = run_batch-served the_parts the_words workers in
    let work = λ (format : Text → Text → Text). batch (map (by_partition format the_parts) wss) in
    (
      wss,
      rest,
      share,
      rw
          (
            prefix-take words all_words h,
            prefix-take parts all_words h',
            call_parts-served format_create_part w.creating 0 the_parts served.creating,
            done (format_post w.create_time) w.posting h'' served.posting,
            done format_get w.getting h'' served.getting,
            done (format_put w.create_time w.update_time) w.putting h'' served.putting,
            done (format_del w.update_time) w.deleting h'' served.deleting,
            call_parts-served format_delete_part w.dropping 0 the_parts served.dropping,
          )
          (ap
            (λ (t : Trace). record {
              sent =
                  map (λ part. call (format_create_part part)) the_parts
                  ++ work (format_post w.create_time)
                    ∷ work format_get
                    ∷ work (format_put w.create_time w.update_time)
                    ∷ t.sent;
              fine = t.fine;
            })
            (cleaned skip_delete delete_part (work (format_del w.update_time))
              (map (λ part. call (format_delete_part part)) the_parts))),
    )
