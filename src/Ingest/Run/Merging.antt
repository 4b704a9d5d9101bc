-- ===== src/Ingest/Run/Merging.antt =====
-- What a run merges, and its summary.
use trend_tree.Prelude.{
  ℕ, suc, ◌+◌, ◌-◌, ◌<◌, ◌≤◌, ◌≡◌, refl, ap, sym, subst, List, [], ◌∷◌, map, Option, Bool, true,
  arith, Text, text_eq, count, length, length-filter-le, length-map, take, chunk, chunk-flatten,
}
use trend_tree.Sourcing.Context.{Reply, replied, threw}
use trend_tree.Ingest.Video.{Url}
use trend_tree.Ingest.Signals.{
  Seed, SearchResult, VideoCandidate, Kept, Sent, read_existing, merge_signals, MergeReply, merged,
  merge_error, World, IngestSummary, ingested,
}
use trend_tree.Ingest.Run.{
  Gathered, Stage, passed, failed, run_waves, pair_results, gather_results, run_filters, video_id,
  signal_row, merge_ending, merge_fresh, fresh_of, after_existing, write_kept, summary_of,
  after_filters, after_searches, run_tiktok_ingest,
}
use trend_tree.Ingest.Run.Gathering.{
  candidate_ids, once, Counted, gather_results_distinct, gather_results-Counted, KeptWithin,
  run_filters-KeptWithin, fresh_of-count,
}
use trend_tree.Ingest.Run.Stages.{
  row_ids, IsNew, IsRun, IsEarly, AddsUp, StageOk, run_waves-StageOk, run_filters-StageOk,
  prepend_sent-IsRun, failed-IsRun,
}

row_ids-signal_row : (t : ℕ) (ks : List Kept) → row_ids (map (signal_row t) ks) ≡ map video_id ks
unfolding signal_row
row_ids-signal_row t [] = refl
row_ids-signal_row t (k ∷ ks) = ap (video_id k ∷◌) (row_ids-signal_row t ks)

IsNew-rows :
    (existing : List Text) (t : ℕ) (ks : List Kept)
    → ((k : Text) → count (text_eq k) (map video_id ks) + once k existing ≤ 1)
    → IsNew (replied existing) (map (signal_row t) ks)
IsNew-rows existing t ks new k =
    subst (λ ids. count (text_eq k) ids + once k existing ≤ 1) (sym (row_ids-signal_row t ks))
      (new k)

count-all : {A : Type 0} (xs : List A) → count (λ x. true) xs ≡ length xs
count-all [] = refl
count-all (x ∷ xs) = ap suc (count-all xs)

fresh_of-length :
    (existing : List Text) (ks : List Kept) → length (fresh_of existing ks) ≤ length ks
unfolding fresh_of
fresh_of-length existing ks = length-filter-le _ ks

module _ (w : World) (calls skipped : ℕ) (g : Gathered) (counted : Counted g) where
  -- What the summary of a run says of what was kept, once so many were found to exist and so many
  -- were written.
  adding :
      (kept already written : ℕ)
      → kept ≤ length g.candidates
      → kept ≡ already + written
      → AddsUp (
          ingested
            (record (record (summary_of calls skipped g kept) { already_ingested = already }) {
              written = written;
            }))
  adding kept already written h e = (omega (arith, counted, h), e)

  abbrev known : ℕ → ℕ → IngestSummary
  known kept fresh = record (summary_of calls skipped g kept) { already_ingested = kept - fresh }

  merge_fresh-IsRun :
      (kept : List Kept) (existing : List Text) (fresh : List Kept)
      → length kept ≤ length g.candidates
      → length fresh ≤ length kept
      → ((k : Text) → count (text_eq k) (map video_id fresh) + once k existing ≤ 1)
      → w.existing ≡ replied existing
      → (ids : List Text)
      → IsRun w.existing (record {
        sent = read_existing ids ∷ (merge_fresh w (known (length kept) (length fresh)) fresh).sent;
        ending = (merge_fresh w (known (length kept) (length fresh)) fresh).ending;
      })
  merge_fresh-IsRun kept existing [] h k new is ids = record {
    calls = [];
    writes = read_existing ids ∷ [];
    split = refl;
    only_calls = tt;
    writing = tt;
    early = tt;
    adds_up = adding (length kept) (length kept - 0) 0 h (omega arith);
  }
  merge_fresh-IsRun kept existing (f ∷ fs) h k new is ids = record {
    calls = [];
    writes = read_existing ids ∷ merge_signals (map (signal_row w.fetched_at) (f ∷ fs)) ∷ [];
    split = refl;
    only_calls = tt;
    writing = rw is (IsNew-rows existing w.fetched_at (f ∷ fs) new);
    early = early _ w.merge_reply;
    adds_up = adds_up w.merge_reply;
  }
    where
      early :
          (ws : List Sent) (r : Reply MergeReply)
          → IsEarly (merge_ending (known (length kept) (length (f ∷ fs))) (length (f ∷ fs)) r) ws
      early ws (threw m) = tt
      early ws (replied (merge_error m)) = tt
      early ws (replied (merged m)) = tt

      adds_up :
          (r : Reply MergeReply)
          → AddsUp (merge_ending (known (length kept) (length (f ∷ fs))) (length (f ∷ fs)) r)
      adds_up (threw m) = tt
      adds_up (replied (merge_error m)) = tt
      adds_up (replied (merged m)) =
          adding (length kept) (length kept - length (f ∷ fs)) (length (f ∷ fs)) h
            (omega (arith, k))

  write_kept-IsRun :
      (kept : List Kept)
      → length kept ≤ length g.candidates
      → ((k : Text) → count (text_eq k) (map video_id kept) ≤ 1)
      → IsRun w.existing (write_kept w (summary_of calls skipped g (length kept)) kept)
  unfolding write_kept
  write_kept-IsRun [] h once_each = record {
    calls = [];
    writes = [];
    split = refl;
    only_calls = tt;
    writing = tt;
    early = tt;
    adds_up = adding 0 0 0 h (omega arith);
  }
  write_kept-IsRun (k ∷ ks) h once_each = by_existing w.existing refl
    where
      by_existing :
          (r : Reply (List Text))
          → w.existing ≡ r
          → IsRun w.existing (record {
            sent =
                read_existing (map video_id (k ∷ ks))
                ∷ (after_existing w (summary_of calls skipped g (length (k ∷ ks))) (k ∷ ks) r).sent;
            ending =
                (after_existing w (summary_of calls skipped g (length (k ∷ ks))) (k ∷ ks) r).ending;
          })
      by_existing (threw m) is = record {
        calls = [];
        writes = read_existing (map video_id (k ∷ ks)) ∷ [];
        split = refl;
        only_calls = tt;
        writing = tt;
        early = tt;
        adds_up = tt;
      }
      by_existing (replied existing) is =
          merge_fresh-IsRun (k ∷ ks) existing (fresh_of existing (k ∷ ks)) h
            (fresh_of-length existing (k ∷ ks))
            (λ j. fresh_of-count j existing (k ∷ ks) (once_each j)) is (map video_id (k ∷ ks))

  after_filters-IsRun :
      (s : Stage (List Kept))
      → StageOk s
      → ((p : Text → Bool) → KeptWithin p (count p (candidate_ids g.candidates)) s)
      → ((k : Text) → count (text_eq k) (candidate_ids g.candidates) ≤ 1)
      → IsRun w.existing (after_filters w calls skipped g s)
  after_filters-IsRun (failed es e) ok within once_each = failed-IsRun w.existing es e ok.0 ok.1
  after_filters-IsRun (passed es kept) ok within once_each =
      let few : length kept ≤ length g.candidates = omega (
        arith,
        within (λ x. true),
        count-all (map video_id kept),
        length-map video_id kept,
        count-all (candidate_ids g.candidates),
        length-map (λ (c : VideoCandidate). c.link.video_id) g.candidates,
      ) in
      prepend_sent-IsRun w.existing es
        (write_kept w (summary_of calls skipped g (length kept)) kept) ok
        (write_kept-IsRun kept few (λ k. omega (arith, within (text_eq k), once_each k)))

-- A run makes all its searches and filter calls before its statements, and a search or a filter
-- call that fails, or verdicts that do not fit, come before any statement. The statements are none,
-- the read of the videos that exist, or that read and one merge, of rows in which no video is twice
-- and none exists already. If the run ends with a summary, its results are the ones without a title
-- or a video's link, the duplicates, and the candidates that the filter kept or dropped; and what
-- it kept existed already or was written. The filter takes a batch at least of one title.
pub run_tiktok_ingest_lem :
    (parse_url : Text → Option Url) (w : World) (filter_batch_size : ℕ) (plan : List Seed)
    (max_calls search_concurrency : ℕ)
    → 0 < filter_batch_size
    → IsRun w.existing
        (run_tiktok_ingest parse_url w filter_batch_size plan max_calls search_concurrency)
unfolding run_tiktok_ingest
run_tiktok_ingest_lem parse_url w filter_batch_size plan max_calls search_concurrency h =
    by_searches (run_waves w.search_reply 0 (chunk search_concurrency (take max_calls plan)))
      (run_waves-StageOk w.search_reply 0 (chunk search_concurrency (take max_calls plan)))
  where
    by_searches :
        (s : Stage (List (List SearchResult)))
        → StageOk s
        → IsRun w.existing (
            after_searches parse_url w filter_batch_size
              (take max_calls plan)
              (length plan - length (take max_calls plan))
              s)
    by_searches (failed es e) ok = failed-IsRun w.existing es e ok.0 ok.1
    by_searches (passed es bodies) ok =
        let found = pair_results (take max_calls plan) bodies in
        let g = gather_results parse_url [] found in
        let batches = chunk filter_batch_size g.candidates in
        prepend_sent-IsRun w.existing es _ ok (
          after_filters-IsRun w (length (take max_calls plan))
            (length plan - length (take max_calls plan)) g
            (gather_results-Counted parse_url [] found) (run_filters w.filter_reply 0 batches)
            (run_filters-StageOk w.filter_reply 0 batches)
            (λ p.
              subst
                (λ cs.
                  KeptWithin p (count p (candidate_ids cs)) (run_filters w.filter_reply 0 batches))
                (chunk-flatten filter_batch_size g.candidates h)
                (run_filters-KeptWithin p w.filter_reply 0 batches))
            (λ k. gather_results_distinct parse_url k found))
