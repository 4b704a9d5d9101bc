-- ===== src/Sourcing/Poll.antt =====
-- The poll tick: the size of a claim, the loop of `runPoll` under a wall-clock budget and the
-- receipt. The clock, the batch and what each attempt meets are given.
pub mod Claims
pub mod Tallies
use trend_tree.Prelude.{
  ℕ, zero, suc, ◌+◌, ◌-◌, List, [], ◌∷◌, map, Option, none, some, Bool, true, false, Text, lit,
  text_eq, is_empty, count, length, ltb, min, ◌==◌, if◌then◌else◌,
}
use trend_tree.Sourcing.Context.{
  Reply, threw, replied, Body, Event, Decline, normalize_event, Context, Reads, fetch_context,
}
use trend_tree.Sourcing.Plan.{Outcome, matched, no_match, failed, CandidateRow}
use trend_tree.Sourcing.Run.{
  World, RunError, of_call, Decision, declined, completed, failed_run, Receipt, run_sourcing, Run,
}

abbrev pub poll_batch_limit : ℕ
poll_batch_limit = 25

-- `POLL_WALL_CLOCK_BUDGET_MS`
abbrev pub poll_budget_ms : ℕ
poll_budget_ms = 600000

-- `Number(b.limit)` of the request: missing, a natural number, or any other number.
pub data Limit : Type 0 where
  no_limit other_number : Limit
  whole : ℕ → Limit

-- None is a `RangeError`.
unfoldable pub normalize_poll_request : Limit → Option ℕ
normalize_poll_request no_limit = some poll_batch_limit
normalize_poll_request other_number = none
normalize_poll_request (whole n) = if n == 0 then none else some (min n poll_batch_limit)

unfoldable pub has_budget_remaining : ℕ → ℕ → ℕ → Bool
has_budget_remaining started_at now budget = ltb now (started_at + budget)

-- The message of a finished trend.
pub data Message : Type 0 where
  run_failed : RunError → Message
  run_declined : Decline → Message
  thrown : Text → Message
  bad_request : Message

-- One finished trend.
pub record Summary : Type 0 where
  pub trend_id : Text
  pub decision : Decision
  pub outcome : Text
  pub sourcing_run_id : Text
  pub selected_count : ℕ
  pub candidate_count : ℕ
  pub error_message : Option Message

abbrev pub outcome_text : Outcome → Text
outcome_text matched = lit "matched"
outcome_text no_match = lit "no_match"
outcome_text failed = lit "failed"

abbrev decision_text : Decision → Text
decision_text declined = lit "declined"
decision_text completed = lit "completed"
decision_text failed_run = lit "failed"

-- `r.outcome || (r.decision === "declined" ? "not_sourced" : null)`, null being empty
abbrev outcome_or : Option Outcome → Decision → Text
outcome_or (some o) d = outcome_text o
outcome_or none declined = lit "not_sourced"
outcome_or none completed = []
outcome_or none failed_run = []

-- `r.error_message ?? r.reason ?? null`
abbrev message_of : Option RunError → Option Decline → Option Message
message_of (some e) d = some (run_failed e)
message_of none (some d) = some (run_declined d)
message_of none none = none

unfoldable pub summarize_run : Text → Receipt → Summary
summarize_run trend_id r = record {
  trend_id = trend_id;
  decision = r.decision;
  outcome = outcome_or r.outcome r.decision;
  sourcing_run_id = r.sourcing_run_id;
  selected_count = count (λ c. c.selected) r.candidates;
  candidate_count = length r.candidates;
  error_message = message_of r.error_message r.reason;
}

-- The summary of what was thrown outside the run.
unfoldable pub summarize_fault : Text → Message → Summary
summarize_fault trend_id message = record {
  trend_id = trend_id;
  decision = failed_run;
  outcome = lit "failed";
  sourcing_run_id = [];
  selected_count = 0;
  candidate_count = 0;
  error_message = some message;
}

-- The key that a run is counted under.
unfoldable pub outcome_key : Summary → Text
outcome_key s = elim s.decision [
  | declined ↦ lit "declined"
  | completed ↦ if is_empty s.outcome then lit "completed" else s.outcome
  | failed_run ↦ if is_empty s.outcome then lit "failed" else s.outcome
]

pub record Tally : Type 0 where
  pub key : Text
  pub runs : ℕ

-- `outcomes[key] = (outcomes[key] || 0) + 1`
unfoldable pub bump : Text → List Tally → List Tally
bump key [] = record { key = key; runs = 1 } ∷ []
bump key (t ∷ ts) =
    let rest = bump key ts in
    if text_eq t.key key then record { key = t.key; runs = suc t.runs } ∷ ts else t ∷ rest

pub record Totals : Type 0 where
  pub outcomes : List Tally
  pub selected_products : ℕ

-- The loop over the runs.
unfoldable pub tally : Totals → List Summary → Totals
tally acc [] = acc
tally acc (s ∷ ss) =
    tally
      (record {
        outcomes = bump (outcome_key s) acc.outcomes;
        selected_products = acc.selected_products + s.selected_count;
      })
      ss

pub record PollReceipt : Type 0 where
  pub claimed : ℕ
  pub processed : ℕ
  pub remaining : ℕ
  pub budget_exhausted : Bool
  pub outcomes : List Tally
  pub selected_products : ℕ
  pub runs : List Summary

unfoldable pub summarize_poll : ℕ → List Summary → Bool → PollReceipt
summarize_poll claimed runs exhausted =
    let totals = tally (record { outcomes = []; selected_products = 0 }) runs in
    record {
      claimed = claimed;
      processed = length runs;
      remaining = claimed - length runs;
      budget_exhausted = exhausted;
      outcomes = totals.outcomes;
      selected_products = totals.selected_products;
      runs = runs;
    }

-- What one attempt meets: the instant of its reads, their answers, the replies to its run, and the
-- session id that is generated for it.
pub record Attempt : Type 0 where
  pub now : ℕ
  pub session : Text
  pub reads : Reads
  pub world : World

-- The rest of `sourceOne`, from the reads: `trend_id` is the claim's own.
unfoldable pub source_context : Text → Attempt → Event → Reply Context → Summary
source_context trend_id a evt (threw m) = summarize_fault trend_id (thrown m)
source_context trend_id a evt (replied ctx) =
    summarize_run trend_id (run_sourcing a.world evt ctx).receipt

unfoldable pub source_event : Text → Attempt → Option Event → Summary
source_event trend_id a none = summarize_fault trend_id bad_request
source_event trend_id a (some evt) = source_context trend_id a evt (fetch_context a.now a.reads)

unfoldable pub source_one : Text → Text → Attempt → Summary
source_one chain trend_id a = source_event trend_id a (
    normalize_event chain a.session
      (record { trend_id = trend_id; chain_id = chain; agent_session_id = [] }))

-- What a tick meets. `clock k` is read before the claim at place `k`, which `attempts k` then meets.
pub record Tick : Type 0 where
  pub chain_id : Text
  pub started_at : ℕ
  pub budget_ms : ℕ
  pub clock : ℕ → ℕ
  pub attempts : ℕ → Attempt

pub record Progress : Type 0 where
  pub runs : List Summary
  pub budget_exhausted : Bool

unfoldable pub poll_loop : Tick → ℕ → List Text → Progress
poll_loop w k [] = record { runs = []; budget_exhausted = false }
poll_loop w k (trend_id ∷ claims) =
    let rest = poll_loop w (suc k) claims in
    if has_budget_remaining w.started_at (w.clock k) w.budget_ms
    then record rest { runs = source_one w.chain_id trend_id (w.attempts k) ∷ rest.runs }
    else record { runs = []; budget_exhausted = true }

-- The tick, from the batch that it claims.
unfoldable pub run_poll : Tick → List Text → PollReceipt
run_poll w batch =
    let done = poll_loop w 0 batch in summarize_poll (length batch) done.runs done.budget_exhausted
