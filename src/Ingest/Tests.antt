-- ===== src/Ingest/Tests.antt =====
-- A run of two searches, with a duplicate, a link that is none, and a video that exists already.
use trend_tree.Sourcing.Context.{replied}
use trend_tree.Prelude.{
  ℕ, zero, suc, ◌≡◌, refl, List, [], ◌∷◌, Option, none, some, true, Text, lit, text_eq, starts_with,
  trim, chunk, chunk_from, arith,
}
use trend_tree.Ingest.Video.{
  Url, is_tiktok_host, read_id, read_user, video_id_of, parse_video_link, decimal,
  decode_video_time, post_time, from_video_id,
}
use trend_tree.Ingest.Signals.{
  Seed, SearchResult, World, merged, Ingest, IngestEnding, ingested, ingest_failed,
}
use trend_tree.Ingest.Run.{
  wave_bodies, run_waves, pair_results, gather_results, keep_batch, read_verdicts, run_filters,
  signal_row, fresh_of, write_kept, run_tiktok_ingest,
}
use trend_tree.Ingest.Run.Stages.{IsRun}
use trend_tree.Ingest.Run.Merging.{run_tiktok_ingest_lem}

abbrev found : Text → Text → SearchResult
found title link = record { title = title; link = link; channel = none; duration = none }

-- A link is the path of a URL of the site.
abbrev parse_url : Text → Option Url
parse_url link = some (record { hostname = lit "www.tiktok.com"; pathname = link; bare = link })

abbrev world : World
world = record {
  search_reply = λ i. elim i [
    | zero ↦
        replied
          (found (lit "Mug") (lit "/@a/video/11") ∷ found (lit "Lamp") (lit "/@a/photo/12") ∷ [])
    | suc n ↦
        replied
          (found (lit "Mug") (lit "/@b/video/11") ∷ found (lit "Vase") (lit "/@b/video/13/") ∷ [])
  ];
  filter_reply = λ i. replied (some (record { keep = true; phrase = lit "x" } ∷ []));
  existing = replied (lit "11" ∷ []);
  merge_reply = replied (merged (lit "ok"));
  fetched_at = 1000;
}

abbrev plan : List Seed
plan =
    record { vertical = lit "home"; seed = lit "decor" }
    ∷ record { vertical = lit "home"; seed = lit "gadget" }
    ∷ []

abbrev run : Ingest
run = run_tiktok_ingest parse_url world 1 plan 50 4

abbrev numbers : IngestEnding → List ℕ
numbers (ingest_failed e) = []
numbers (ingested s) =
    s.results ∷ s.not_video_links ∷ s.duplicates_in_run ∷ s.filter_kept ∷ s.already_ingested
    ∷ s.written ∷ []

run_test : numbers run.ending ≡ 4 ∷ 1 ∷ 1 ∷ 2 ∷ 1 ∷ 1 ∷ []
unfolding run_tiktok_ingest run_waves wave_bodies pair_results gather_results parse_video_link
    is_tiktok_host video_id_of read_user read_id trim text_eq starts_with chunk chunk_from
    run_filters read_verdicts keep_batch write_kept fresh_of signal_row
run_test = refl

-- The id 2 ^ 32 carries the first second.
post_time_test : (post_time (lit "4294967296") 60000).source ≡ from_video_id
unfolding post_time decode_video_time decimal
post_time_test = refl

run_tiktok_ingest_lem_example : IsRun world.existing run
run_tiktok_ingest_lem_example = run_tiktok_ingest_lem parse_url world 1 plan 50 4 (omega arith)
