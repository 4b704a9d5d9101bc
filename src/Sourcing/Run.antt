-- ===== src/Sourcing/Run.antt =====
-- `runSourcing`: the statements a run sends to the ledger and the receipt it returns. The replies
-- of the database and of the selector are given.
pub mod Trace
pub mod Selections
use trend_tree.Prelude.{
  ℕ, List, [], ◌∷◌, ◌++◌, Option, none, some, Bool, true, false, Text, lit, text_eq, is_empty,
  Double, zero_double, if◌then◌else◌,
}
use trend_tree.Sourcing.Context.{Reply, threw, replied, Event, Decline, Context}
use trend_tree.Sourcing.Pool.{Entry, apply_floor_and_top_n}
use trend_tree.Sourcing.Plan.{
  Emission, Warning, Failure, no_enrichment_vector, Outcome, matched, no_match, failed,
  CandidateRow, Plan, build_sourcing_run_plan, max_sourced_products,
}

pub record Telemetry : Type 0 where
  pub input_tokens : ℕ
  pub output_tokens : ℕ
  pub tool_calls : ℕ
  pub turns : ℕ
  pub cost_usd : Double
  pub stop_reason : Text

-- What the selector's model answers; a missing emission is none.
pub record Selection : Type 0 where
  pub emit : Option Emission
  pub telemetry : Telemetry

pub record OpenReceipt : Type 0 where
  pub applied : Bool
  pub sourcing_run_id : Text

-- The replies a run meets. A 'complete' call answers whether it was applied; `complete_failed` is
-- the reply to the call of the error path.
pub record World : Type 0 where
  pub opening : Reply OpenReceipt
  pub selector : List Entry → Reply Selection
  pub complete : Reply Bool
  pub complete_failed : Reply Bool
  pub insert_cost : Reply (Unit {0})

pub data RunError : Type 0 where
  of_plan : Failure → RunError
  of_call : Text → RunError
  open_refused complete_refused prompt_missing : RunError

pub data CostStatus : Type 0 where
  cost_ok cost_error cost_budget_exhausted : CostStatus

-- A row of the cost table; its telemetry is none if no model ran.
pub record CostRow : Type 0 where
  pub agent_session_id : Text
  pub chain_id : Text
  pub telemetry : Option Telemetry
  pub status : CostStatus
  pub error_message : Option RunError

pub data Statement : Type 0 where
  open_run : Text → Text → Statement
  complete_run : Text → Outcome → Option RunError → Option Text → List CandidateRow → Statement
  insert_cost_row : CostRow → Statement

pub data Decision : Type 0 where
  declined completed failed_run : Decision

pub record Receipt : Type 0 where
  pub decision : Decision
  pub header_recorded : Bool
  pub sourcing_run_id : Text
  pub outcome : Option Outcome
  pub reason : Option Decline
  pub error_message : Option RunError
  pub candidates : List CandidateRow
  pub cost_row_error : Option Text

pub record Run : Type 0 where
  pub statements : List Statement
  pub receipt : Receipt

abbrev pub error_of : Option Failure → Option RunError
error_of none = none
error_of (some e) = some (of_plan e)

-- The message of a call that threw.
abbrev lost {ℓ} : {A : Type ℓ} → Reply A → Option Text
lost (threw m) = some m
lost (replied _) = none

abbrev is_applied : Reply Bool → Bool
is_applied (threw _) = false
is_applied (replied b) = b

unfoldable pub decline : Decline → Run
decline d = record {
  statements = [];
  receipt = record {
    decision = declined;
    header_recorded = false;
    sourcing_run_id = [];
    outcome = none;
    reason = some d;
    error_message = none;
    candidates = [];
    cost_row_error = none;
  };
}

abbrev pub cost_row : Event → Option Telemetry → CostStatus → Option RunError → CostRow
cost_row evt telemetry status e = record {
  agent_session_id = evt.agent_session_id;
  chain_id = evt.chain_id;
  telemetry = telemetry;
  status = status;
  error_message = e;
}

-- The outer `catch`, after the statements `sent`.
unfoldable pub recover : World → Event → List Statement → Text → Option Telemetry → RunError → Run
recover w evt sent id telemetry e = record {
  statements =
      sent
      ++ ((if is_empty id then [] else complete_run id failed (some e) none [] ∷ [])
          ++ (insert_cost_row (cost_row evt telemetry cost_error (some e)) ∷ []));
  receipt = record {
    decision = failed_run;
    header_recorded = if is_empty id then false else is_applied w.complete_failed;
    sourcing_run_id = id;
    outcome = some failed;
    reason = none;
    error_message = some e;
    candidates = [];
    cost_row_error = lost w.insert_cost;
  };
}

-- The plan, or the error that is thrown, and the telemetry of the selector if it answered.
pub data Planned : Type 0 where
  planned : Plan → Option Telemetry → Planned
  not_planned : RunError → Planned

-- What follows the selector's reply.
unfoldable pub plan_reply : List Entry → Reply Selection → Planned
plan_reply pool (threw m) = not_planned (of_call m)
plan_reply pool (replied s) =
    planned (build_sourcing_run_plan pool s.emit max_sourced_products) (some s.telemetry)

unfoldable pub ask_selector : World → Text → List Entry → Planned
ask_selector w template pool =
    if is_empty template then not_planned prompt_missing else plan_reply pool (w.selector pool)

abbrev pub no_vector_plan : Text → Plan
no_vector_plan trend_id = record {
  outcome = failed;
  selector_note = none;
  error_message = some (no_enrichment_vector trend_id);
  candidates = [];
  warnings = [];
}

abbrev pub plan_shown : World → Text → List Entry → Planned
plan_shown w template [] = planned (build_sourcing_run_plan [] none max_sourced_products) none
plan_shown w template (c ∷ cs) = ask_selector w template (c ∷ cs)

unfoldable pub plan_run : World → Event → Context → Planned
plan_run w evt ctx =
    if ctx.trend_found
    then plan_shown w ctx.template (apply_floor_and_top_n ctx.pool)
    else planned (no_vector_plan evt.trend_id) none

abbrev budget_spent : Option Telemetry → Bool
budget_spent none = false
budget_spent (some t) = text_eq t.stop_reason (lit "budget_exhausted")

unfoldable pub cost_status : Outcome → Option Telemetry → CostStatus
cost_status matched telemetry = cost_ok
cost_status no_match telemetry = cost_ok
cost_status failed telemetry = if budget_spent telemetry then cost_budget_exhausted else cost_error

-- After an applied 'complete': the cost row, whose loss does not change the outcome.
unfoldable pub settle : World → Event → List Statement → Text → Plan → Option Telemetry → Run
settle w evt sent id plan telemetry = record {
  statements =
      sent
      ++ (insert_cost_row (
            cost_row evt telemetry (cost_status plan.outcome telemetry)
              (error_of plan.error_message))
          ∷ []);
  receipt = record {
    decision = completed;
    header_recorded = true;
    sourcing_run_id = id;
    outcome = some plan.outcome;
    reason = none;
    error_message = error_of plan.error_message;
    candidates = plan.candidates;
    cost_row_error = lost w.insert_cost;
  };
}

-- What follows the reply to the plan's 'complete'.
unfoldable pub close :
    World → Event → List Statement → Text → Plan → Option Telemetry → Reply Bool → Run
close w evt sent id plan telemetry (threw m) = recover w evt sent id telemetry (of_call m)
close w evt sent id plan telemetry (replied false) =
    recover w evt sent id telemetry complete_refused
close w evt sent id plan telemetry (replied true) = settle w evt sent id plan telemetry

unfoldable pub complete_plan : World → Event → List Statement → Text → Planned → Run
complete_plan w evt sent id (not_planned e) = recover w evt sent id none e
complete_plan w evt sent id (planned plan telemetry) =
    close w evt
      (sent
        ++ (complete_run id plan.outcome (error_of plan.error_message) plan.selector_note
              plan.candidates
            ∷ []))
      id plan telemetry w.complete

-- What follows the reply to 'open'.
unfoldable pub proceed : World → Event → Context → Reply OpenReceipt → Run
proceed w evt ctx (threw m) =
    recover w evt (open_run evt.trend_id evt.agent_session_id ∷ []) [] none (of_call m)
proceed w evt ctx (replied r) =
    let sent = open_run evt.trend_id evt.agent_session_id ∷ [] in
    if r.applied
    then complete_plan w evt sent r.sourcing_run_id (plan_run w evt ctx)
    else recover w evt sent [] none open_refused

-- The run, from whether its context declines.
unfoldable pub run_unless : World → Event → Context → Option Decline → Run
run_unless w evt ctx (some d) = decline d
run_unless w evt ctx none = proceed w evt ctx w.opening

unfoldable pub run_sourcing : World → Event → Context → Run
run_sourcing w evt ctx = run_unless w evt ctx ctx.declined
