-- ===== src/Revisit/Lead.antt =====
-- The steps of one run of the workflow, in the order of workflow.yaml.
pub mod Callbacks
pub mod Runs
pub mod Chain
pub mod Start
pub mod Faults
pub mod Claims
use trend_tree.Prelude.{
  ℕ, ◌+◌, List, [], ◌∷◌, ◌++◌, map, Option, none, some, Bool, true, false, not, ◌&&◌, Text, lit,
  text_eq, is_empty, is_short_id, Double, nan, of_bits, clamp, length, ltb, leb, ◌==◌,
  if◌then◌else◌,
}
use trend_tree.Revisit.Packing.{ClusterRow, Batch, bin_pack}
use trend_tree.Revisit.Store.{
  Status, done, failed, QueueRow, Signal, Proposal, Candidate, Cursor, Request, Trigger, Store,
  Fault, no_session, cluster_url_unset, cluster_unreachable, lead_url_unset, self_post_failed,
  cost_not_a_number, cluster_http, Result, ok, err, Step, bind, ◌>>=◌, ◌>>◌, pure, throw,
}
use trend_tree.Revisit.Queue.{
  Ending, Totals, enqueue, next_pending, pending_count, end_batch, totals,
}
use trend_tree.Revisit.Pool.{pool_ids, claim}

-- What the world answers to one run: the two `uuid()`s, the clock, the procedure
-- PROC_CLUSTER_SIGNAL_SUBSET, the cluster agent and the run's own trigger.
pub data Ack : Type 0 where
  unreachable : Ack
  status : ℕ → Ack

-- A cost in the callback: an amount, 0 if it is missing or falsy, or a truthy value that is no number.
pub data Cost : Type 0 where
  amount : ℕ → Cost
  no_number : Cost

pub record Callback : Type 0 where
  pub error : Text
  pub proposed_candidates : Option (List Proposal)
  pub cost_usd : Cost
  pub run_duration_ms : ℕ
  pub signals_seen : ℕ
  pub chain_id : Text
  pub agent_session_id : Text

-- `$resume_data`: absent if the suspension timed out, else the callback, bare or under `body`.
pub data Resume : Type 0 where
  missing : Resume
  bare wrapped : Callback → Resume

pub record World : Type 0 where
  pub session_uuid : Text
  pub chain_uuid : Text
  pub now : ℕ
  pub cluster : List Text → List ClusterRow
  pub cluster_url_set : Bool
  pub ack : Ack
  pub resume : Resume
  pub elapsed_ms : ℕ
  pub lead_url_set : Bool
  pub self_post : Bool

-- normalize_event
pub record Event : Type 0 where
  pub is_continue : Bool
  pub agent_session_id : Text
  pub chain_id : Text
  pub dry_run : Bool
  pub budget_per_subagent_usd : Double

abbrev pub min_budget : Double
min_budget = of_bits 0x3fd0000000000000

abbrev pub max_budget : Double
max_budget = of_bits 0x4014000000000000

abbrev pub default_budget : Double
default_budget = of_bits 0x3ff8000000000000

-- `a ?? b`
abbrev pub or_else : Option Double → Double → Double
or_else none b = b
or_else (some a) b = a

abbrev pub is_id : Text → Bool
is_id = is_short_id 64

unfoldable pub normalize_event : World → Trigger → Step Event
unfolding clamp
normalize_event w t =
    let budget = or_else (clamp t.budget_per_subagent_usd min_budget max_budget) default_budget in
    if text_eq t.mode (lit "continue") && is_id t.chain_id
    then if is_id t.agent_session_id
      then pure (record {
        is_continue = true;
        agent_session_id = t.agent_session_id;
        chain_id = t.chain_id;
        dry_run = t.dry_run;
        budget_per_subagent_usd = budget;
      })
      else throw no_session
    else pure (record {
      is_continue = false;
      agent_session_id = lit "revisit-" ++ w.session_uuid;
      chain_id = if is_id t.chain_id then t.chain_id else lit "chain-" ++ w.chain_uuid;
      dry_run = t.dry_run;
      budget_per_subagent_usd = budget;
    })

-- prepare_chain; the result is `total_batches`, which a continued run does not have.
unfoldable pub start_chain : Event → List Text → List Batch → Step (Option ℕ)
start_chain ev ids [] s = (ok (some 0), s)
start_chain ev ids (b ∷ bs) s =
    let total = length (b ∷ bs) in
    (
      ok (some total),
      record s {
        queue = enqueue ev.chain_id ev.agent_session_id total (b ∷ bs) s.queue;
        signals = claim ev.agent_session_id ids s.signals;
      },
    )

unfoldable pub cluster_pool : World → Event → List Text → Step (Option ℕ)
unfolding start_chain
cluster_pool w ev [] = pure (some 0)
cluster_pool w ev (i ∷ ids) = start_chain ev (i ∷ ids) (bin_pack (w.cluster (i ∷ ids)))

unfoldable pub prepare_chain : World → Event → Step (Option ℕ)
unfolding cluster_pool
prepare_chain w ev s =
    if ev.is_continue
    then (ok none, s)
    else cluster_pool w ev (pool_ids w.now s.candidates s.signals) s

-- select_next_batch: the row to dispatch, or none (`is_done`).
abbrev pub is_zero : Option ℕ → Bool
is_zero none = false
is_zero (some n) = n == 0

unfoldable pub select_next_batch : Event → Option ℕ → Step (Option QueueRow)
select_next_batch ev total s =
    if not ev.is_continue && is_zero total
    then (ok none, s)
    else (ok (next_pending ev.chain_id s.queue), s)

-- dispatch_to_cluster_agent; `none` stands for `skipped`.
pub record Meta : Type 0 where
  pub chain_id : Text
  pub agent_session_id : Text
  pub batch_index : ℕ
  pub signals_seen : ℕ

abbrev pub is_ok_status : ℕ → Bool
is_ok_status n = leb 200 n && ltb n 300

unfoldable pub acknowledged : Event → QueueRow → ℕ → Step (Option Meta)
acknowledged ev r n s =
    if is_ok_status n
    then (
      ok (
          some (record {
            chain_id = ev.chain_id;
            agent_session_id = ev.agent_session_id;
            batch_index = r.batch_index;
            signals_seen = r.signal_count;
          })),
      s,
    )
    else (err (cluster_http n), s)

unfoldable pub dispatch : World → Event → Option QueueRow → Step (Option Meta)
unfolding acknowledged
dispatch w ev none s = (ok none, s)
dispatch w ev (some r) s =
    if w.cluster_url_set
    then (let sent = record s {
      sent =
          s.sent
          ++ record {
            cluster_rows = r.cluster_rows;
            signal_ids = r.signal_ids;
            agent_session_id = ev.agent_session_id;
            chain_id = ev.chain_id;
          }
            ∷ [];
    } in
        elim w.ack [
          | unreachable ↦ (err cluster_unreachable, sent)
          | status n ↦ acknowledged ev r n sent
        ])
    else (err cluster_url_unset, s)

-- parse_cluster_result; `none` stands for `skipped`.
pub record Parsed : Type 0 where
  pub proposed_candidates : List Proposal
  pub cost_usd : Cost
  pub run_duration_ms : ℕ
  pub signals_seen : ℕ
  pub chain_id : Text
  pub agent_session_id : Text
  pub batch_index : ℕ
  pub error : Text

-- `a || b`
abbrev pub or_number : ℕ → ℕ → ℕ
or_number a b = if a == 0 then b else a

abbrev pub or_text : Text → Text → Text
or_text a b = if is_empty a then b else a

unfoldable pub empty_result : World → Meta → Text → Parsed
empty_result w m error = record {
  proposed_candidates = [];
  cost_usd = amount 0;
  run_duration_ms = w.elapsed_ms;
  signals_seen = m.signals_seen;
  chain_id = m.chain_id;
  agent_session_id = m.agent_session_id;
  batch_index = m.batch_index;
  error = error;
}

unfoldable pub parse_proposals : World → Meta → Callback → Option (List Proposal) → Parsed
unfolding empty_result
parse_proposals w m c none = empty_result w m (lit "malformed_callback_body")
parse_proposals w m c (some candidates) = record {
  proposed_candidates = candidates;
  cost_usd = c.cost_usd;
  run_duration_ms = or_number c.run_duration_ms w.elapsed_ms;
  signals_seen = or_number c.signals_seen m.signals_seen;
  chain_id = or_text c.chain_id m.chain_id;
  agent_session_id = or_text c.agent_session_id m.agent_session_id;
  batch_index = m.batch_index;
  error = [];
}

unfoldable pub parse_callback : World → Meta → Callback → Parsed
unfolding empty_result parse_proposals
parse_callback w m c =
    if is_empty c.error
    then parse_proposals w m c c.proposed_candidates
    else empty_result w m c.error

unfoldable pub parse_resume : World → Meta → Resume → Parsed
unfolding empty_result parse_callback
parse_resume w m missing = empty_result w m (lit "cluster_agent_timeout")
parse_resume w m (bare c) = parse_callback w m c
parse_resume w m (wrapped c) = parse_callback w m c

-- `out.cost_usd.toFixed(4)`, which throws if that is no number
abbrev pub log_cost : Parsed → Cost → Step (Option Parsed)
log_cost p (amount n) = pure (some p)
log_cost p no_number = throw cost_not_a_number

unfoldable pub log_result : Parsed → Step (Option Parsed)
log_result p = log_cost p p.cost_usd

unfoldable pub parse_cluster_result : World → Option Meta → Step (Option Parsed)
unfolding log_result parse_resume
parse_cluster_result w none = pure none
parse_cluster_result w (some m) = log_result (parse_resume w m w.resume)

-- commit_batch_result
abbrev pub amount_of : Cost → ℕ
amount_of (amount n) = n
amount_of no_number = 0

abbrev pub ending : Parsed → Ending
ending p = record {
  status = if is_empty p.error then done else failed;
  candidates_count = length p.proposed_candidates;
  cost_usd = amount_of p.cost_usd;
  run_duration_ms = p.run_duration_ms;
  error = p.error;
}

unfoldable pub commit_batch_result : Option Parsed → Step (Unit {0})
commit_batch_result none s = (ok tt, s)
commit_batch_result (some p) s = (
  ok tt,
  record s {
    candidates =
        s.candidates
        ++ map (λ c. record { proposal = c; promoted_to = none }) p.proposed_candidates;
    queue = end_batch p.chain_id p.batch_index (ending p) s.queue;
  },
)

-- finalize_or_continue
pub data Outcome : Type 0 where
  fired_next_batch : Outcome
  finalized : Totals → Outcome

-- The body of the self-POST.
abbrev pub next_trigger : Event → Trigger
next_trigger ev = record {
  mode = lit "continue";
  chain_id = ev.chain_id;
  agent_session_id = ev.agent_session_id;
  dry_run = false;
  budget_per_subagent_usd = nan;
}

unfoldable pub fire_next : World → Event → Step Outcome
fire_next w ev s =
    if w.lead_url_set
    then if w.self_post
      then (ok fired_next_batch, record s { posted = s.posted ++ next_trigger ev ∷ [] })
      else (err self_post_failed, s)
    else (err lead_url_unset, s)

unfoldable pub finalize : World → Event → Step Outcome
finalize w ev s =
    let agg = totals ev.chain_id s.queue in
    (
      ok (finalized agg),
      record s {
        cursor = some (record {
          last_run_at = w.now;
          run_duration_ms = agg.duration_total_ms;
          signal_count = agg.signals_total;
          candidate_count = agg.candidates_total;
          cost_usd = agg.cost_total;
        });
      },
    )

unfoldable pub finalize_or_continue : World → Event → Step Outcome
unfolding fire_next finalize
finalize_or_continue w ev s =
    if ltb 0 (pending_count ev.chain_id s.queue) then fire_next w ev s else finalize w ev s

-- The steps after the chain is prepared, those after the event is known, and the whole run.
unfoldable pub run_batch : World → Event → Option ℕ → Step Outcome
run_batch w ev total = do
  next ← select_next_batch ev total
  meta ← dispatch w ev next
  parsed ← parse_cluster_result w meta
  commit_batch_result parsed
  finalize_or_continue w ev

unfoldable pub run_event : World → Event → Step Outcome
run_event w ev = do total ← prepare_chain w ev; run_batch w ev total

unfoldable pub run_lead : World → Trigger → Step Outcome
run_lead w t = do ev ← normalize_event w t; run_event w ev

-- The runs that the self-POSTs start, one for each further world; without one the chain waits.
abbrev pub latest : List Trigger → Option Trigger
latest [] = none
latest (t ∷ []) = some t
latest (t ∷ u ∷ ts) = latest (u ∷ ts)

unfoldable pub run_posted : World → Option Trigger → Step Outcome
run_posted w none s = (ok fired_next_batch, s)
run_posted w (some t) s = run_lead w t s

unfoldable pub run_rest : List World → Result Outcome × Store → Result Outcome × Store
run_rest [] r = r
run_rest (w ∷ ws) (ok fired_next_batch, s) = run_rest ws (run_posted w (latest s.posted) s)
run_rest (w ∷ ws) (ok (finalized t), s) = (ok (finalized t), s)
run_rest (w ∷ ws) (err e, s) = (err e, s)

unfoldable pub run_chain : World → List World → Trigger → Step Outcome
run_chain w ws t s = run_rest ws (run_lead w t s)
