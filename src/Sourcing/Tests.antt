-- ===== src/Sourcing/Tests.antt =====
-- The sourcing on concrete pools and replies, and the theorems about it at inputs where they apply.
use trend_tree.Prelude.{
  ◌+◌, ◌*◌, ◌≤◌, ◌<◌, ◌≡◌, refl, List, [], ◌∷◌, map, none, some, true, Text, nan, num, of_bits, lit,
  text_eq, length, take, All, is_finite, ge_double, trim, ◌⊎◌, count-le-length,
}
use trend_tree.Sourcing.Pool.{
  Entry, Details, semantic_threshold, passes_floor, apply_floor_and_top_n,
}
use trend_tree.Sourcing.Pool.Order.{apply_floor_and_top_n_lem, apply_floor_and_top_n_idem}
use trend_tree.Sourcing.Plan.{
  Pick, Emission, matched, no_match, is_valid_fit, trim_rationale, in_pool, screen, dedupe,
  fit_slots, choose, find_pick, candidate_row, candidate_rows, plan_picks, plan_matched,
  plan_emission, plan_pool, build_sourcing_run_plan,
}
use trend_tree.Sourcing.Plan.Picks.{choose_lem}
use trend_tree.Sourcing.Plan.Rows.{
  IsReport, build_sourcing_run_plan_lem, build_sourcing_run_plan_no_match,
}
use trend_tree.Sourcing.Plan.Selected.{
  HasUniqueIds, selected_count, build_sourcing_run_plan_selects,
}
use trend_tree.Sourcing.Context.{
  replied, threw, Event, Context, Reads, seen_at, is_uuid, caller_id, normalize_event,
  check_catalog_freshness, pool_entry_from_retrieval_row, gather, read_trend, fetch_context,
}
use trend_tree.Sourcing.Run.{
  World, Telemetry, decline, recover, plan_reply, ask_selector, plan_run, cost_status, settle,
  close, complete_plan, proceed, run_unless, run_sourcing,
}
use trend_tree.Sourcing.Run.Trace.{IsTraced, run_sourcing_lem}
use trend_tree.Sourcing.Run.Selections.{SendsSmall, run_sourcing-IsSmall}
use trend_tree.Sourcing.Poll.{
  Tick, has_budget_remaining, summarize_run, summarize_fault, outcome_key, bump, tally,
  summarize_poll, source_context, source_event, source_one, poll_loop, run_poll,
}
use trend_tree.Sourcing.Poll.Claims.{run_poll_lem}
use trend_tree.Sourcing.Poll.Tallies.{all_counted, run_poll_tallies}

abbrev details : Details
details = record {
  product_handle = none;
  product_title = some (lit "Mug");
  product_type = none;
  vendor = none;
  product_url = none;
  price_at_match = none;
  image_url_at_match = none;
  available_at_match = some true;
  catalog_payload = none;
}

-- Scores 1 and 0.
abbrev mug : Entry
mug = record {
  catalog_product_id = lit "mug";
  details = details;
  semantic_score = num 0xbff0000000000000;
}

abbrev far : Entry
far = record {
  catalog_product_id = lit "far";
  details = details;
  semantic_score = num 0x8000000000000000;
}

abbrev pool : List Entry
pool = far ∷ mug ∷ []

abbrev pick : Text → Text → Pick
pick id fit = record { catalog_product_id = id; reasoned_fit = fit; rationale = lit " it fits " }

abbrev picks : List Pick
picks =
    pick (lit "far") (lit "weak")
    ∷ pick (lit "mug") (lit "good")
    ∷ pick (lit "mug") (lit "weak")
    ∷ []

abbrev emission : Emission
emission = record { outcome = lit "matched"; picks = picks; pool_note = [] }

abbrev refusal : Emission
refusal = record { outcome = lit "no_match"; picks = []; pool_note = [] }

planning : Unit {0}
unfolding of_bits semantic_threshold is_finite ge_double passes_floor apply_floor_and_top_n text_eq
    trim is_valid_fit trim_rationale in_pool screen dedupe fit_slots choose find_pick candidate_row
    candidate_rows plan_picks plan_matched plan_emission plan_pool build_sourcing_run_plan
planning = tt

pool-shown : apply_floor_and_top_n pool ≡ mug ∷ []
unfolding planning
pool-shown = refl

pool-HasUniqueIds : HasUniqueIds (apply_floor_and_top_n pool)
pool-HasUniqueIds =
    rw pool-shown λ id. count-le-length (λ c. text_eq c.catalog_product_id id) (mug ∷ [])

plan-matched : (build_sourcing_run_plan pool (some emission) 5).outcome ≡ matched
unfolding planning
plan-matched = refl

plan-warnings : length (build_sourcing_run_plan pool (some emission) 5).warnings ≡ 2
unfolding planning
plan-warnings = refl

plan-no_match : (build_sourcing_run_plan pool (some refusal) 5).outcome ≡ no_match
unfolding planning
plan-no_match = refl

apply_floor_and_top_n_lem_example : length (apply_floor_and_top_n pool) ≤ 10
apply_floor_and_top_n_lem_example = (apply_floor_and_top_n_lem pool).0

apply_floor_and_top_n_idem_example :
    apply_floor_and_top_n (apply_floor_and_top_n pool) ≡ apply_floor_and_top_n pool
apply_floor_and_top_n_idem_example = apply_floor_and_top_n_idem pool

choose_lem_example : length (choose 5 (apply_floor_and_top_n pool) picks).picks ≤ 5
choose_lem_example = (choose_lem 5 (apply_floor_and_top_n pool) picks).2

build_sourcing_run_plan_lem_example :
    IsReport
      (apply_floor_and_top_n pool)
      picks
      (build_sourcing_run_plan pool (some emission) 5)
      (build_sourcing_run_plan pool (some emission) 5).outcome
build_sourcing_run_plan_lem_example = build_sourcing_run_plan_lem pool (some emission) 5

build_sourcing_run_plan_selects_example :
    (0 < selected_count (build_sourcing_run_plan pool (some emission) 5))
    × (selected_count (build_sourcing_run_plan pool (some emission) 5) ≤ 5)
build_sourcing_run_plan_selects_example =
    build_sourcing_run_plan_selects pool (some emission) 5 pool-HasUniqueIds plan-matched

build_sourcing_run_plan_no_match_example :
    (apply_floor_and_top_n pool ≡ [])
    ⊎ ((e : Emission) × (some refusal ≡ some e) × (e.outcome ≡ lit "no_match"))
build_sourcing_run_plan_no_match_example =
    build_sourcing_run_plan_no_match pool (some refusal) 5 plan-no_match

abbrev trend_id : Text
trend_id = lit "01234567-89ab-cdef-0123-456789abcdef"

abbrev evt : Event
evt = record { trend_id = trend_id; chain_id = lit "chain-1"; agent_session_id = lit "sess-1" }

abbrev context : Context
context = record { declined = none; trend_found = true; pool = pool; template = lit "choose" }

abbrev telemetry : Telemetry
telemetry = record {
  input_tokens = 900;
  output_tokens = 80;
  tool_calls = 1;
  turns = 1;
  cost_usd = nan;
  stop_reason = lit "emitted";
}

-- The database applies the plan's completion and loses the cost row.
abbrev world : World
world = record {
  opening = replied (record { applied = true; sourcing_run_id = lit "run-1" });
  selector = λ _. replied (record { emit = some emission; telemetry = telemetry });
  complete = replied true;
  complete_failed = replied true;
  insert_cost = threw (lit "lost");
}

running : Unit {0}
unfolding planning decline recover plan_reply ask_selector plan_run cost_status settle close
    complete_plan proceed run_unless run_sourcing
running = tt

world-run : length (run_sourcing world evt context).statements ≡ 3
unfolding running
world-run = refl

run_sourcing_lem_example : IsTraced none (run_sourcing world evt context)
run_sourcing_lem_example = run_sourcing_lem world evt context

run_sourcing-IsSmall_example : All SendsSmall (run_sourcing world evt context).statements
run_sourcing-IsSmall_example = run_sourcing-IsSmall world evt context pool-HasUniqueIds

abbrev reads : Reads
reads = record {
  last_seen = replied (seen_at 1000);
  trend_found = replied true;
  retrieval = replied [];
  template = replied (lit "choose");
}

-- The budget is spent before the third claim.
abbrev tick : Tick
tick = record {
  chain_id = lit "ecomm-poll-1";
  started_at = 1000;
  budget_ms = 600000;
  clock = λ k. 1000 + 300000 * k;
  attempts = λ k. record { now = 2000; session = lit "sess-2"; reads = reads; world = world };
}

abbrev batch : List Text
batch = trend_id ∷ lit "malformed" ∷ trend_id ∷ []

polling : Unit {0}
unfolding running is_uuid caller_id normalize_event check_catalog_freshness
    pool_entry_from_retrieval_row gather read_trend fetch_context has_budget_remaining summarize_run
    summarize_fault outcome_key bump tally summarize_poll source_context source_event source_one
    poll_loop run_poll
polling = tt

tick-processed : (run_poll tick batch).processed ≡ 2
unfolding polling
tick-processed = refl

tick-cut : (run_poll tick batch).budget_exhausted ≡ true
unfolding polling
tick-cut = refl

tick-outcomes : map (λ t. t.key) (run_poll tick batch).outcomes ≡ lit "no_match" ∷ lit "failed" ∷ []
unfolding polling
tick-outcomes = refl

run_poll_lem_example :
    map (λ s. s.trend_id) (run_poll tick batch).runs ≡ take (run_poll tick batch).processed batch
run_poll_lem_example = (run_poll_lem tick batch).0

run_poll_tallies_example :
    all_counted (run_poll tick batch).outcomes ≡ (run_poll tick batch).processed
run_poll_tallies_example = (run_poll_tallies tick batch (lit "failed")).1
