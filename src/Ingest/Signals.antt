-- ===== src/Ingest/Signals.antt =====
-- What a run of tiktok_ingest.mjs reads, sends and tells.
use trend_tree.Sourcing.Context.{Reply}
use trend_tree.Prelude.{ℕ, List, Option, Bool, Text}
use trend_tree.Ingest.Video.{VideoLink, PostTime}

pub record Seed : Type 0 where
  pub vertical : Text
  pub seed : Text

-- A result of a search; a missing title is empty.
pub record SearchResult : Type 0 where
  pub title : Text
  pub link : Text
  pub channel : Option Text
  pub duration : Option Text

pub record SearchHit : Type 0 where
  pub seed : Seed
  pub result : SearchResult

pub record VideoCandidate : Type 0 where
  pub link : VideoLink
  pub title : Text
  pub channel : Option Text
  pub duration : Option Text
  pub seed : Seed

pub record TitleVerdict : Type 0 where
  pub keep : Bool
  pub phrase : Text

pub record Kept : Type 0 where
  pub candidate : VideoCandidate
  pub phrase : Text

pub record SignalRow : Type 0 where
  pub signal_id : Text
  pub video_id : Text
  pub time : PostTime
  pub title : Text
  pub channel : Option Text
  pub duration : Option Text
  pub seed : Seed
  pub phrase : Text

-- What a run sends.
pub data Sent : Type 0 where
  search : Text → Sent
  filter_titles read_existing : List Text → Sent
  merge_signals : List SignalRow → Sent

pub data IngestError : Type 0 where
  search_failed : IngestError
  filter_failed query_failed merge_rejected : Text → IngestError
  wrong_verdicts : IngestError

pub data MergeReply : Type 0 where
  merged merge_error : Text → MergeReply

-- The answers; verdicts that are no array are none.
pub record World : Type 0 where
  pub search_reply : ℕ → Reply (List SearchResult)
  pub filter_reply : ℕ → Reply (Option (List TitleVerdict))
  pub existing : Reply (List Text)
  pub merge_reply : Reply MergeReply
  pub fetched_at : ℕ

pub record IngestSummary : Type 0 where
  pub serpapi_calls : ℕ
  pub seeds_skipped_for_budget : ℕ
  pub results : ℕ
  pub empty_titles : ℕ
  pub not_video_links : ℕ
  pub duplicates_in_run : ℕ
  pub filter_kept : ℕ
  pub filter_dropped : ℕ
  pub already_ingested : ℕ
  pub written : ℕ

pub data IngestEnding : Type 0 where
  ingested : IngestSummary → IngestEnding
  ingest_failed : IngestError → IngestEnding

pub record Ingest : Type 0 where
  pub sent : List Sent
  pub ending : IngestEnding
