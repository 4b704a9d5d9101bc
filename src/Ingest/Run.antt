-- ===== src/Ingest/Run.antt =====
-- `runTikTokIngest` of tiktok_ingest.mjs: the calls and the statements of a run, in their order.
pub mod Gathering
pub mod Stages
pub mod Merging
use trend_tree.Sourcing.Context.{Reply, replied, threw}
use trend_tree.Prelude.{
  ℕ, zero, suc, ◌+◌, ◌-◌, List, [], ◌∷◌, ◌++◌, map, Option, none, some, Bool, true, false, not,
  Text, lit, text_eq, is_empty, trim, any, filter, flatten, length, take, chunk, ◌==◌,
  if◌then◌else◌,
}
use trend_tree.Ingest.Video.{Url, VideoLink, PostTime, parse_video_link, post_time}
use trend_tree.Ingest.Signals.{
  Seed, SearchResult, SearchHit, VideoCandidate, TitleVerdict, Kept, SignalRow, Sent, IngestError,
  MergeReply, World, IngestSummary, IngestEnding, Ingest, search, filter_titles, read_existing,
  merge_signals, search_failed, filter_failed, query_failed, merge_rejected, wrong_verdicts, merged,
  merge_error, ingested, ingest_failed,
}

-- The part of a run that has an outcome or fails, with what it has sent.
pub data Stage (A : Type 0) : Type 0 where
  passed : List Sent → A → Stage A
  failed : List Sent → IngestError → Stage A

abbrev pub after_sent : {A : Type 0} → List Sent → Stage A → Stage A
after_sent es (passed fs a) = passed (es ++ fs) a
after_sent es (failed fs e) = failed (es ++ fs) e

-- A wave sends all its searches, and fails if one of them does.
unfoldable pub wave_bodies :
    (ℕ → Reply (List SearchResult)) → ℕ → List Seed → Option (List (List SearchResult))
wave_bodies reply i [] = some []
wave_bodies reply i (s ∷ ss) = both (reply i) (wave_bodies reply (suc i) ss)
  where
    both :
        Reply (List SearchResult)
        → Option (List (List SearchResult))
        → Option (List (List SearchResult))
    both (threw m) rest = none
    both (replied rs) none = none
    both (replied rs) (some bodies) = some (rs ∷ bodies)

abbrev pub wave_sent : List Seed → List Sent
wave_sent = map (λ s. search s.seed)

abbrev pub append_bodies :
    List (List SearchResult) → Stage (List (List SearchResult)) → Stage (List (List SearchResult))
append_bodies bodies (passed es more) = passed es (bodies ++ more)
append_bodies bodies (failed es e) = failed es e

abbrev pub after_wave :
    List Seed
    → Option (List (List SearchResult))
    → Stage (List (List SearchResult))
    → Stage (List (List SearchResult))
after_wave wave none rest = failed (wave_sent wave) search_failed
after_wave wave (some bodies) rest = after_sent (wave_sent wave) (append_bodies bodies rest)

unfoldable pub run_waves :
    (ℕ → Reply (List SearchResult)) → ℕ → List (List Seed) → Stage (List (List SearchResult))
run_waves reply i [] = passed [] []
run_waves reply i (wave ∷ waves) =
    after_wave wave (wave_bodies reply i wave) (run_waves reply (i + length wave) waves)

unfoldable pub pair_results : List Seed → List (List SearchResult) → List SearchHit
pair_results [] bodies = []
pair_results (s ∷ ss) [] = []
pair_results (s ∷ ss) (rs ∷ bodies) =
    map (λ r. record { seed = s; result = r }) rs ++ pair_results ss bodies

pub record Gathered : Type 0 where
  pub candidates : List VideoCandidate
  pub results : ℕ
  pub empty_titles : ℕ
  pub not_video_links : ℕ
  pub duplicates : ℕ

-- One result with a title, before what the later ones give, which depends on whether its id is new.
abbrev pub place_link :
    SearchHit → Text → List Text → Option VideoLink → (Text → Gathered) → Gathered → Gathered
place_link f title seen none with_id rest = record rest {
  results = suc rest.results;
  not_video_links = suc rest.not_video_links;
}
place_link f title seen (some l) with_id rest =
    let more = with_id l.video_id in
    if any (text_eq l.video_id) seen
    then record rest { results = suc rest.results; duplicates = suc rest.duplicates }
    else record more {
      candidates =
          record {
            link = l;
            title = title;
            channel = f.result.channel;
            duration = f.result.duration;
            seed = f.seed;
          }
          ∷ more.candidates;
      results = suc more.results;
    }

unfoldable pub gather_results : (Text → Option Url) → List Text → List SearchHit → Gathered
gather_results parse_url seen [] = record {
  candidates = [];
  results = 0;
  empty_titles = 0;
  not_video_links = 0;
  duplicates = 0;
}
gather_results parse_url seen (f ∷ fs) =
    let rest = gather_results parse_url seen fs in
    let title = trim f.result.title in
    let placed =
      place_link f title seen (parse_video_link parse_url f.result.link)
        (λ id. gather_results parse_url (id ∷ seen) fs) rest in
    if is_empty title
    then record rest { results = suc rest.results; empty_titles = suc rest.empty_titles }
    else placed

unfoldable pub keep_batch : List VideoCandidate → List TitleVerdict → List Kept
keep_batch [] vs = []
keep_batch (c ∷ cs) [] = []
keep_batch (c ∷ cs) (v ∷ vs) =
    let rest = keep_batch cs vs in
    if v.keep then record { candidate = c; phrase = v.phrase } ∷ rest else rest

-- The verdicts on a batch; there must be one for each title.
unfoldable pub read_verdicts :
    List VideoCandidate → Reply (Option (List TitleVerdict)) → Stage (List Kept)
read_verdicts batch (threw m) = failed [] (filter_failed m)
read_verdicts batch (replied none) = failed [] wrong_verdicts
read_verdicts batch (replied (some vs)) =
    if length vs == length batch then passed [] (keep_batch batch vs) else failed [] wrong_verdicts

abbrev pub append_kept : List Kept → Stage (List Kept) → Stage (List Kept)
append_kept ks (passed es more) = passed es (ks ++ more)
append_kept ks (failed es e) = failed es e

abbrev pub and_more : Stage (List Kept) → Stage (List Kept) → Stage (List Kept)
and_more (failed es e) rest = failed es e
and_more (passed es ks) rest = after_sent es (append_kept ks rest)

unfoldable pub run_filters :
    (ℕ → Reply (Option (List TitleVerdict))) → ℕ → List (List VideoCandidate) → Stage (List Kept)
run_filters reply i [] = passed [] []
run_filters reply i (batch ∷ batches) =
    after_sent (filter_titles (map (λ c. c.title) batch) ∷ [])
      (and_more (read_verdicts batch (reply i)) (run_filters reply (suc i) batches))

abbrev pub video_id : Kept → Text
video_id k = k.candidate.link.video_id

unfoldable pub signal_row : ℕ → Kept → SignalRow
signal_row fetched_at k = record {
  signal_id = k.candidate.link.signal_id;
  video_id = k.candidate.link.video_id;
  time = post_time k.candidate.link.video_id fetched_at;
  title = k.candidate.title;
  channel = k.candidate.channel;
  duration = k.candidate.duration;
  seed = k.candidate.seed;
  phrase = k.phrase;
}

abbrev pub merge_ending : IngestSummary → ℕ → Reply MergeReply → IngestEnding
merge_ending s n (threw m) = ingest_failed (query_failed m)
merge_ending s n (replied (merge_error m)) = ingest_failed (merge_rejected m)
merge_ending s n (replied (merged m)) = ingested (record s { written = n })

abbrev pub merge_fresh : World → IngestSummary → List Kept → Ingest
merge_fresh w s [] = record { sent = []; ending = ingested s }
merge_fresh w s (k ∷ ks) = record {
  sent = merge_signals (map (signal_row w.fetched_at) (k ∷ ks)) ∷ [];
  ending = merge_ending s (length (k ∷ ks)) w.merge_reply;
}

unfoldable pub fresh_of : List Text → List Kept → List Kept
fresh_of existing = filter (λ k. not (any (text_eq (video_id k)) existing))

abbrev pub after_existing : World → IngestSummary → List Kept → Reply (List Text) → Ingest
after_existing w s kept (threw m) = record { sent = []; ending = ingest_failed (query_failed m) }
after_existing w s kept (replied existing) =
    let fresh = fresh_of existing kept in
    merge_fresh w (record s { already_ingested = length kept - length fresh }) fresh

-- The statements of a run.
unfoldable pub write_kept : World → IngestSummary → List Kept → Ingest
write_kept w s [] = record { sent = []; ending = ingested s }
write_kept w s (k ∷ ks) =
    let rest = after_existing w s (k ∷ ks) w.existing in
    record { sent = read_existing (map video_id (k ∷ ks)) ∷ rest.sent; ending = rest.ending }

abbrev pub prepend_sent : List Sent → Ingest → Ingest
prepend_sent es r = record r { sent = es ++ r.sent }

abbrev pub summary_of : ℕ → ℕ → Gathered → ℕ → IngestSummary
summary_of calls skipped g kept = record {
  serpapi_calls = calls;
  seeds_skipped_for_budget = skipped;
  results = g.results;
  empty_titles = g.empty_titles;
  not_video_links = g.not_video_links;
  duplicates_in_run = g.duplicates;
  filter_kept = kept;
  filter_dropped = length g.candidates - kept;
  already_ingested = 0;
  written = 0;
}

abbrev pub after_filters : World → ℕ → ℕ → Gathered → Stage (List Kept) → Ingest
after_filters w calls skipped g (failed es e) = record { sent = es; ending = ingest_failed e }
after_filters w calls skipped g (passed es kept) =
    prepend_sent es (write_kept w (summary_of calls skipped g (length kept)) kept)

module _ (parse_url : Text → Option Url) (w : World) (filter_batch_size : ℕ) where
  abbrev pub after_searches : List Seed → ℕ → Stage (List (List SearchResult)) → Ingest
  after_searches budgeted skipped (failed es e) = record { sent = es; ending = ingest_failed e }
  after_searches budgeted skipped (passed es bodies) =
      let g = gather_results parse_url [] (pair_results budgeted bodies) in
      prepend_sent es (
        after_filters w (length budgeted) skipped g
          (run_filters w.filter_reply 0 (chunk filter_batch_size g.candidates)))

  unfoldable pub run_tiktok_ingest : List Seed → ℕ → ℕ → Ingest
  run_tiktok_ingest plan max_calls search_concurrency =
      let budgeted = take max_calls plan in
      after_searches budgeted (length plan - length budgeted)
        (run_waves w.search_reply 0 (chunk search_concurrency budgeted))
