-- ===== src/Revisit/Queue.antt =====
-- The statements on STG_REVISIT_BATCH_QUEUE, from prepare_chain, select_next_batch,
-- commit_batch_result and finalize_or_continue.
pub mod Progress
pub mod Enqueue
use trend_tree.Prelude.{
  ℕ, ◌+◌, List, [], ◌∷◌, ◌++◌, map, Option, none, some, Bool, true, false, ◌&&◌, Text, text_eq,
  count, filter, sort, ltb, ◌==◌, if◌then◌else◌,
}
use trend_tree.Revisit.Packing.{Batch}
use trend_tree.Revisit.Store.{QueueRow, Status, pending, done, failed}

abbrev pub is_pending : Status → Bool
is_pending pending = true
is_pending _ = false

abbrev pub is_done : Status → Bool
is_done done = true
is_done _ = false

abbrev pub is_failed : Status → Bool
is_failed failed = true
is_failed _ = false

-- `WHERE CHAIN_ID = ?`
abbrev pub in_chain : Text → QueueRow → Bool
in_chain chain r = text_eq r.chain_id chain

-- `WHERE CHAIN_ID = ? AND STATUS = 'PENDING'`
abbrev pub pending_in : Text → QueueRow → Bool
pending_in chain r = in_chain chain r && is_pending r.status

-- `WHERE CHAIN_ID = ? AND BATCH_INDEX = ?`
abbrev pub has_key : Text → ℕ → QueueRow → Bool
has_key chain i r = in_chain chain r && r.batch_index == i

-- The `INSERT` of one batch, and the loop over the batches.
unfoldable pub queue_row : Text → Text → ℕ → Batch → QueueRow
queue_row chain session total b = record {
  chain_id = chain;
  agent_session_id = session;
  batch_index = b.batch_index;
  total_batches = total;
  cluster_rows = b.cluster_rows;
  signal_ids = b.signal_ids;
  signal_count = b.signal_count;
  status = pending;
  candidates_count = 0;
  cost_usd = 0;
  run_duration_ms = 0;
  error = [];
}

unfoldable pub enqueue : Text → Text → ℕ → List Batch → List QueueRow → List QueueRow
enqueue chain session total [] q = q
enqueue chain session total (b ∷ bs) q =
    enqueue chain session total bs (q ++ queue_row chain session total b ∷ [])

-- `ORDER BY BATCH_INDEX ASC`
abbrev pub later : QueueRow → QueueRow → Bool
later a b = ltb b.batch_index a.batch_index

abbrev pub first : List QueueRow → Option QueueRow
first [] = none
first (r ∷ rs) = some r

-- The pending row of the chain with the lowest index.
unfoldable pub next_pending : Text → List QueueRow → Option QueueRow
next_pending chain q = first (sort later (filter (pending_in chain) q))

unfoldable pub pending_count : Text → List QueueRow → ℕ
pending_count chain q = count (pending_in chain) q

-- The `UPDATE` of commit_batch_result.
pub record Ending : Type 0 where
  pub status : Status
  pub candidates_count : ℕ
  pub cost_usd : ℕ
  pub run_duration_ms : ℕ
  pub error : Text

unfoldable pub end_batch : Text → ℕ → Ending → List QueueRow → List QueueRow
end_batch chain i e [] = []
end_batch chain i e (r ∷ rs) =
    (if has_key chain i r
      then record r {
        status = e.status;
        candidates_count = e.candidates_count;
        cost_usd = e.cost_usd;
        run_duration_ms = e.run_duration_ms;
        error = e.error;
      }
      else r)
    ∷ end_batch chain i e rs

-- The totals of a chain, from finalize_or_continue.
pub record Totals : Type 0 where
  pub total_batches : ℕ
  pub done_count : ℕ
  pub failed_count : ℕ
  pub candidates_total : ℕ
  pub signals_total : ℕ
  pub cost_total : ℕ
  pub duration_total_ms : ℕ

unfoldable pub sum_by : (QueueRow → ℕ) → List QueueRow → ℕ
sum_by f [] = 0
sum_by f (r ∷ rs) = f r + sum_by f rs

unfoldable pub totals : Text → List QueueRow → Totals
unfolding sum_by
totals chain q =
    let rows = filter (in_chain chain) q in
    record {
      total_batches = count (in_chain chain) q;
      done_count = count (λ r. in_chain chain r && is_done r.status) q;
      failed_count = count (λ r. in_chain chain r && is_failed r.status) q;
      candidates_total = sum_by (λ r. r.candidates_count) rows;
      signals_total = sum_by (λ r. r.signal_count) rows;
      cost_total = sum_by (λ r. r.cost_usd) rows;
      duration_total_ms = sum_by (λ r. r.run_duration_ms) rows;
    }
