-- ===== src/Ingest/Run/Stages.antt =====
-- The order of a run's calls and statements, and what its stages send.
use trend_tree.Prelude.{
  ℕ, suc, ◌+◌, ◌≤◌, ◌≡◌, refl, ap, sym, ◌∙◌, inl, inr, List, [], ◌∷◌, ◌++◌, map, Option, none, some,
  Text, text_eq, count, length, Bool-cases, ◌==◌, All, All-append,
}
use mathlib.Core.List.{append_assoc, append-nil}
use trend_tree.Sourcing.Context.{Reply, replied, threw}
use trend_tree.Ingest.Signals.{
  Seed, SearchResult, VideoCandidate, Kept, TitleVerdict, SignalRow, Sent, search, filter_titles,
  read_existing, merge_signals, IngestError, search_failed, filter_failed, query_failed,
  merge_rejected, wrong_verdicts, IngestEnding, ingested, ingest_failed, Ingest,
}
use trend_tree.Ingest.Run.{
  Stage, passed, failed, after_sent, wave_bodies, wave_sent, append_bodies, after_wave, run_waves,
  read_verdicts, append_kept, and_more, run_filters, prepend_sent,
}
use trend_tree.Ingest.Run.Gathering.{once}

-- A call of the search or of the filter, which writes nothing and reads no table.
abbrev pub IsCall : Sent → Type 0
IsCall (search t) = Unit
IsCall (filter_titles ts) = Unit
IsCall (read_existing ids) = ⊥
IsCall (merge_signals rows) = ⊥

abbrev pub row_ids : List SignalRow → List Text
row_ids = map (λ r. r.video_id)

-- No video of the rows exists already, and none is there twice.
abbrev pub IsNew : Reply (List Text) → List SignalRow → Type 0
IsNew (threw m) rows = ⊥
IsNew (replied existing) rows = (k : Text) → count (text_eq k) (row_ids rows) + once k existing ≤ 1

-- The statements: none, the read of what exists, or that read and one merge of new rows.
abbrev pub IsWriting : Reply (List Text) → List Sent → Type 0
IsWriting existing [] = Unit
IsWriting existing (read_existing ids ∷ []) = Unit
IsWriting existing (read_existing ids ∷ merge_signals rows ∷ []) = IsNew existing rows
IsWriting existing (read_existing ids ∷ merge_signals rows ∷ e ∷ es) = ⊥
IsWriting existing (read_existing ids ∷ search t ∷ es) = ⊥
IsWriting existing (read_existing ids ∷ filter_titles ts ∷ es) = ⊥
IsWriting existing (read_existing ids ∷ read_existing js ∷ es) = ⊥
IsWriting existing (search t ∷ es) = ⊥
IsWriting existing (filter_titles ts ∷ es) = ⊥
IsWriting existing (merge_signals rows ∷ es) = ⊥

-- A failed call comes before any statement.
abbrev pub IsEarly : IngestEnding → List Sent → Type 0
IsEarly (ingested s) writes = Unit
IsEarly (ingest_failed search_failed) writes = writes ≡ []
IsEarly (ingest_failed (filter_failed m)) writes = writes ≡ []
IsEarly (ingest_failed wrong_verdicts) writes = writes ≡ []
IsEarly (ingest_failed (query_failed m)) writes = Unit
IsEarly (ingest_failed (merge_rejected m)) writes = Unit

-- The summary's numbers add up.
abbrev pub AddsUp : IngestEnding → Type 0
AddsUp (ingest_failed e) = Unit
AddsUp (ingested s) =
    (s.results
      ≡ s.empty_titles
        + s.not_video_links
        + s.duplicates_in_run
        + (s.filter_kept + s.filter_dropped))
    × (s.filter_kept ≡ s.already_ingested + s.written)

pub record IsRun (existing : Reply (List Text)) (r : Ingest) : Type 0 where
  pub calls : List Sent
  pub writes : List Sent
  pub split : r.sent ≡ calls ++ writes
  pub only_calls : All IsCall calls
  pub writing : IsWriting existing writes
  pub early : IsEarly r.ending writes
  pub adds_up : AddsUp r.ending

abbrev pub IsCallError : IngestError → Type 0
IsCallError search_failed = Unit
IsCallError (filter_failed m) = Unit
IsCallError wrong_verdicts = Unit
IsCallError (query_failed m) = ⊥
IsCallError (merge_rejected m) = ⊥

IsEarly-none : (e : IngestError) → IsCallError e → IsEarly (ingest_failed e) []
IsEarly-none search_failed h = refl
IsEarly-none (filter_failed m) h = refl
IsEarly-none wrong_verdicts h = refl
IsEarly-none (query_failed m) h = tt
IsEarly-none (merge_rejected m) h = tt

-- A stage sends only calls, and fails only by one.
abbrev pub StageOk : {A : Type 0} → Stage A → Type 0
StageOk (passed es a) = All IsCall es
StageOk (failed es e) = All IsCall es × IsCallError e

pub after_sent-StageOk :
    {A : Type 0} (es : List Sent) (s : Stage A)
    → All IsCall es
    → StageOk s
    → StageOk (after_sent es s)
after_sent-StageOk es (passed fs a) h k = All-append IsCall es fs h k
after_sent-StageOk es (failed fs e) h k = (All-append IsCall es fs h k.0, k.1)

append_bodies-StageOk :
    (bodies : List (List SearchResult)) (s : Stage (List (List SearchResult)))
    → StageOk s
    → StageOk (append_bodies bodies s)
append_bodies-StageOk bodies (passed es more) h = h
append_bodies-StageOk bodies (failed es e) h = h

wave_sent-IsCall : (wave : List Seed) → All IsCall (wave_sent wave)
wave_sent-IsCall [] = tt
wave_sent-IsCall (s ∷ ss) = (tt, wave_sent-IsCall ss)

pub run_waves-StageOk :
    (reply : ℕ → Reply (List SearchResult)) (i : ℕ) (waves : List (List Seed))
    → StageOk (run_waves reply i waves)
unfolding run_waves
run_waves-StageOk reply i [] = tt
run_waves-StageOk reply i (wave ∷ waves) =
    by_bodies (wave_bodies reply i wave) (run_waves reply (i + length wave) waves)
      (run_waves-StageOk reply (i + length wave) waves)
  where
    by_bodies :
        (o : Option (List (List SearchResult))) (rest : Stage (List (List SearchResult)))
        → StageOk rest
        → StageOk (after_wave wave o rest)
    by_bodies none rest h = (wave_sent-IsCall wave, tt)
    by_bodies (some bodies) rest h =
        after_sent-StageOk (wave_sent wave) (append_bodies bodies rest) (wave_sent-IsCall wave)
          (append_bodies-StageOk bodies rest h)

append_kept-StageOk :
    (ks : List Kept) (s : Stage (List Kept)) → StageOk s → StageOk (append_kept ks s)
append_kept-StageOk ks (passed es more) h = h
append_kept-StageOk ks (failed es e) h = h

and_more-StageOk : (s t : Stage (List Kept)) → StageOk s → StageOk t → StageOk (and_more s t)
and_more-StageOk (failed es e) t h k = h
and_more-StageOk (passed es ks) t h k =
    after_sent-StageOk es (append_kept ks t) h (append_kept-StageOk ks t k)

read_verdicts-StageOk :
    (batch : List VideoCandidate) (r : Reply (Option (List TitleVerdict)))
    → StageOk (read_verdicts batch r)
unfolding read_verdicts
read_verdicts-StageOk batch (threw m) = (tt, tt)
read_verdicts-StageOk batch (replied none) = (tt, tt)
read_verdicts-StageOk batch (replied (some vs)) = elim (Bool-cases (length vs == length batch)) [
  | inl e ↦ rw e tt
  | inr e ↦ rw e (tt, tt)
]

pub run_filters-StageOk :
    (reply : ℕ → Reply (Option (List TitleVerdict))) (i : ℕ) (bs : List (List VideoCandidate))
    → StageOk (run_filters reply i bs)
unfolding run_filters
run_filters-StageOk reply i [] = tt
run_filters-StageOk reply i (b ∷ bs) =
    after_sent-StageOk (filter_titles (map (λ c. c.title) b) ∷ [])
      (and_more (read_verdicts b (reply i)) (run_filters reply (suc i) bs)) (tt, tt)
      (and_more-StageOk (read_verdicts b (reply i)) (run_filters reply (suc i) bs)
        (read_verdicts-StageOk b (reply i)) (run_filters-StageOk reply (suc i) bs))

-- A run that goes on after calls.
pub prepend_sent-IsRun :
    (existing : Reply (List Text)) (es : List Sent) (r : Ingest)
    → All IsCall es
    → IsRun existing r
    → IsRun existing (prepend_sent es r)
prepend_sent-IsRun existing es r h run = record {
  calls = es ++ run.calls;
  writes = run.writes;
  split = ap (es ++◌) run.split ∙ sym (append_assoc es run.calls run.writes);
  only_calls = All-append IsCall es run.calls h run.only_calls;
  writing = run.writing;
  early = run.early;
  adds_up = run.adds_up;
}

-- A run that a stage ends.
pub failed-IsRun :
    (existing : Reply (List Text)) (es : List Sent) (e : IngestError)
    → All IsCall es
    → IsCallError e
    → IsRun existing (record { sent = es; ending = ingest_failed e })
failed-IsRun existing es e h k = record {
  calls = es;
  writes = [];
  split = sym (append-nil es);
  only_calls = h;
  writing = tt;
  early = IsEarly-none e k;
  adds_up = tt;
}
