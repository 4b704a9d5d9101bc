-- ===== src/Revisit/Tests.antt =====
-- The workflow on concrete tables, and the theorems about it at inputs where they apply.
use trend_tree.Prelude.{
  ℕ, zero, suc, ◌≤◌, ◌<◌, ◌≡◌, refl, List, [], ◌∷◌, ◌++◌, map, none, some, true, false, ◌&&◌, ◌==◌,
  Text, nan, lit, text_eq, starts_with, arith, length, count, filter, not, All, any, flatten,
  is_short_id, take, drop,
}
use mathlib.Core.List.{Perm}
use trend_tree.Revisit.Packing.{
  ClusterRow, Batch, max_batch_size, add_row, by_cluster, communities, smaller, flush, pack,
  number_from, bin_pack,
}
use trend_tree.Revisit.Packing.Batches.{Fits, Numbered, rows_of, bin_pack_bounds, flatten-bin_pack}
use trend_tree.Revisit.Packing.Communities.{
  IsCommunity, overflow, communities_lem, bin_pack_contents,
}
use trend_tree.Revisit.Store.{
  Signal, QueueRow, Store, Trigger, failed, cluster_http, cost_not_a_number, ok, err, bind,
}
use trend_tree.Revisit.Pool.{
  is_eligible, pool_rows, pool_ids, claim, from_source, pool_limit, per_source_cap,
}
use trend_tree.Revisit.Pool.Claims.{pool_rows_bounds}
use trend_tree.Revisit.Queue.{
  queue_row, enqueue, next_pending, pending_count, end_batch, totals, pending_in, Ending, in_chain,
  has_key,
}
use trend_tree.Revisit.Lead.{
  World, status, amount, no_number, Callback, Resume, missing, bare, wrapped, Event,
  normalize_event, start_chain, run_lead, run_event, run_batch, run_rest, run_posted, run_chain,
  prepare_chain, select_next_batch, dispatch, parse_cluster_result, commit_batch_result,
  finalize_or_continue, default_budget, Meta,
}
use trend_tree.Revisit.Lead.Runs.{Cooperates}
use trend_tree.Revisit.Lead.Callbacks.{delivered, status_of, proposals_of, parse_cluster_result_lem}
use trend_tree.Revisit.Lead.Chain.{HasIds, Finished}
use trend_tree.Revisit.Queue.Progress.{HasKey, next_pending-some, end_batch-next_pending}
use trend_tree.Revisit.Lead.Faults.{run_batch_fault}
use trend_tree.Revisit.Lead.Claims.{start_chain_claims}
use trend_tree.Prelude.Sorting.{IsSorted}
use trend_tree.Revisit.Lead.Start.{planned, chain_completes}

-- `n` rows of one community.
abbrev rows_from : ℕ → ℕ → List ClusterRow
rows_from k zero = []
rows_from k (suc n) =
    record { signal_id = lit "s" ++ n ∷ []; cluster_id = some k; similarity_to_seed = nan }
    ∷ rows_from k n

abbrev signal : Text → Signal
signal id = record {
  signal_id = id;
  source_name = lit "gtrss";
  ingested_at = 1000;
  agent_session_id = lit "sess-1";
  signal_kind = none;
}

abbrev callback : Callback
callback = record {
  error = [];
  proposed_candidates =
      some (record { candidate_id = lit "cand-1"; supporting_signal_ids = [] } ∷ []);
  cost_usd = amount 7;
  run_duration_ms = 0;
  signals_seen = 0;
  chain_id = [];
  agent_session_id = [];
}

-- Two communities that do not fit into one batch.
abbrev two_batches : List Text → List ClusterRow
two_batches ids = rows_from 1 250 ++ rows_from 2 200

abbrev world : Resume → World
world resume = record {
  session_uuid = lit "u1";
  chain_uuid = lit "u2";
  now = 2000;
  cluster = two_batches;
  cluster_url_set = true;
  ack = status 202;
  resume = resume;
  elapsed_ms = 60000;
  lead_url_set = true;
  self_post = true;
}

abbrev timer : Trigger
timer = record {
  mode = [];
  chain_id = [];
  agent_session_id = [];
  dry_run = false;
  budget_per_subagent_usd = nan;
}

abbrev start : Event
start = record {
  is_continue = false;
  agent_session_id = lit "revisit-u1";
  chain_id = lit "chain-u2";
  dry_run = false;
  budget_per_subagent_usd = default_budget;
}

abbrev store : Store
store = record {
  signals = signal (lit "a") ∷ signal (lit "b") ∷ [];
  candidates = [];
  queue = [];
  cursor = none;
  sent = [];
  posted = [];
}

packing : Unit {0}
unfolding add_row by_cluster communities flush pack number_from bin_pack
packing = tt

program : Unit {0}
unfolding packing pool_ids normalize_event text_eq starts_with is_short_id queue_row enqueue
    next_pending pending_count end_batch totals claim run_lead run_event run_batch run_rest
    run_posted run_chain prepare_chain select_next_batch dispatch parse_cluster_result
    commit_batch_result finalize_or_continue
program = tt

two_batches-planned : map (λ b. b.signal_count) (planned (world missing) store) ≡ 250 ∷ 200 ∷ []
unfolding program
two_batches-planned = refl

world-Cooperates : Cooperates (lit "chain-u2") (world (bare callback))
world-Cooperates = record {
  has_cluster_url = refl;
  code = 202;
  acknowledges = refl;
  accepts = refl;
  answers = refl;
  charges = refl;
  has_lead_url = refl;
  posts = refl;
}

timeout-Cooperates : Cooperates (lit "chain-u2") (world missing)
timeout-Cooperates = record {
  has_cluster_url = refl;
  code = 202;
  acknowledges = refl;
  accepts = refl;
  answers = tt;
  charges = tt;
  has_lead_url = refl;
  posts = refl;
}

start-HasIds : HasIds start
unfolding is_short_id
start-HasIds = record { chain_ok = refl; session_ok = refl }

normalize_event-timer : normalize_event (world (bare callback)) timer store ≡ (ok start, store)
unfolding program
normalize_event-timer = refl

planned-fits : length (planned (world (bare callback)) store) ≡ 2
unfolding program
planned-fits = refl

chain_completes_example :
    Finished
      (lit "chain-u2")
      (length (planned (world (bare callback)) store))
      (run_chain (world (bare callback)) (world missing ∷ []) timer store)
chain_completes_example =
    chain_completes (world (bare callback)) (world missing ∷ []) timer store start
      normalize_event-timer refl start-HasIds refl world-Cooperates (timeout-Cooperates, tt)
      (omega (arith, planned-fits))

abbrev rows : List ClusterRow
rows = rows_from 1 3 ++ rows_from 2 4 ++ rows_from 1 2

communities_lem_example :
    Perm (flatten (communities rows)) rows
    × IsSorted smaller (communities rows)
    × All (IsCommunity rows) (communities rows)
communities_lem_example = communities_lem rows

bin_pack_bounds_example : All Fits (rows_of (bin_pack rows)) × Numbered 0 (bin_pack rows)
bin_pack_bounds_example = bin_pack_bounds rows

flatten-bin_pack_example :
    flatten (rows_of (bin_pack rows)) ≡ flatten (map (take max_batch_size) (communities rows))
flatten-bin_pack_example = flatten-bin_pack rows

-- A community of 450 rows loses 50.
overflow_test : overflow (communities (rows_from 3 450)) ≡ 50
unfolding packing
overflow_test = refl

bin_pack_contents_example :
    Perm
      (flatten (rows_of (bin_pack (rows_from 3 450)))
        ++ flatten (map (drop max_batch_size) (communities (rows_from 3 450))))
      (rows_from 3 450)
bin_pack_contents_example = bin_pack_contents (rows_from 3 450)

pool_rows_bounds_example :
    (length (pool_rows 2000 [] store.signals) ≤ pool_limit)
    × ((source : Text)
        → count (from_source source) (pool_rows 2000 [] store.signals) ≤ per_source_cap)
    × All (λ s. is_eligible 2000 [] s ≡ true) (pool_rows 2000 [] store.signals)
pool_rows_bounds_example = pool_rows_bounds 2000 [] store.signals

abbrev batch : Batch
batch = record { batch_index = 0; cluster_rows = []; signal_ids = []; signal_count = 0 }

start_chain_claims_example :
    All
      (λ r. any (λ i. text_eq i r.signal_id) (lit "a" ∷ []) ≡ false)
      (pool_rows 3000 [] (start_chain start (lit "a" ∷ []) (batch ∷ []) store).1.signals)
start_chain_claims_example =
    start_chain_claims (world (bare callback)) timer start store (lit "a" ∷ []) batch [] 3000 []
      normalize_event-timer refl

abbrev queue : List QueueRow
queue =
    queue_row (lit "c") (lit "s") 2 (record batch { batch_index = 1 })
    ∷ queue_row (lit "c") (lit "s") 2 batch
    ∷ []

abbrev selected : QueueRow
selected = queue_row (lit "c") (lit "s") 2 batch

next_pending-queue : next_pending (lit "c") queue ≡ some selected
unfolding program
next_pending-queue = refl

next_pending-some_example :
    (pending_in (lit "c") selected ≡ true)
    × (0 < count (λ r. pending_in (lit "c") r && r.batch_index == selected.batch_index) queue)
    × All (λ x. pending_in (lit "c") x ≡ true → selected.batch_index ≤ x.batch_index) queue
next_pending-some_example = next_pending-some (lit "c") queue selected next_pending-queue

queue-HasKey : HasKey (lit "c") queue
unfolding queue_row text_eq
queue-HasKey i = ground arith

abbrev timed_out : Ending
timed_out = record {
  status = failed;
  candidates_count = 0;
  cost_usd = 0;
  run_duration_ms = 5;
  error = lit "cluster_agent_timeout";
}

end_batch-next_pending_example :
    let rest = end_batch (lit "c") selected.batch_index timed_out queue in
    (suc (pending_count (lit "c") rest) ≡ pending_count (lit "c") queue)
    × (length rest ≡ 2)
    × ((other : Text)
        → (count (in_chain other) rest ≡ count (in_chain other) queue)
          × ((j : ℕ) → count (has_key other j) rest ≡ count (has_key other j) queue))
end_batch-next_pending_example =
    end_batch-next_pending (lit "c") queue selected timed_out next_pending-queue queue-HasKey refl

abbrev meta : Meta
meta = record { chain_id = lit "c"; agent_session_id = lit "s"; batch_index = 1; signals_seen = 3 }

abbrev refused : World
refused = record (world missing) { ack = status 503 }

abbrev waiting : Store
waiting = record store { queue = queue }

abbrev going_on : Event
going_on = record start { is_continue = true; chain_id = lit "c" }

-- A cost that is a text stops the run before the commit.
cost_test :
    parse_cluster_result
      (world (bare (record callback { cost_usd = no_number })))
      (some meta)
      waiting
    ≡ (err cost_not_a_number, waiting)
unfolding program
cost_test = refl

parse_cluster_result_lem_example :
    let after =
      bind
        (parse_cluster_result (world (wrapped callback)) (some meta) waiting)
        commit_batch_result in
    let added = proposals_of (delivered (wrapped callback)) in
    (after.0 ≡ ok tt)
    × (after.1.candidates ≡ map (λ c. record { proposal = c; promoted_to = none }) added)
    × All
        (λ r.
          has_key (lit "c") 1 r ≡ true
          → (r.status ≡ status_of (delivered (wrapped callback)))
            × (r.candidates_count ≡ length added))
        after.1.queue
    × (count (has_key (lit "c") 1) after.1.queue ≡ count (has_key (lit "c") 1) waiting.queue)
    × (filter (λ r. not (has_key (lit "c") 1 r)) after.1.queue
        ≡ filter (λ r. not (has_key (lit "c") 1 r)) waiting.queue)
parse_cluster_result_lem_example =
    parse_cluster_result_lem (world (wrapped callback)) meta waiting refl refl

run_batch_fault_example :
    let after = run_batch refused going_on none waiting in
    (after.0 ≡ err (cluster_http 503))
    × (after.1.queue ≡ waiting.queue)
    × (after.1.signals ≡ waiting.signals)
    × (after.1.candidates ≡ waiting.candidates)
    × (after.1.cursor ≡ waiting.cursor)
    × (after.1.posted ≡ waiting.posted)
run_batch_fault_example =
    run_batch_fault refused going_on none waiting selected (cluster_http 503) refl
      next_pending-queue refl refl
